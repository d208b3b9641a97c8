-- ===== src/PendingReplies.antt =====
-- model/bsdvr-rqueue.h and model/bsdvr-rqueue.cc: PendingReplyEntry and BsdvrPendingReplyQueue.
-- The timeout callback acts on a state of the caller's, `S`; `none` is the null callback.
pub mod Enqueue
pub mod About
pub mod Laws
mod Tests
use bsdvr_ns.Base.{
  ℕ, ◌+◌, ◌%◌, ◌^◌, Bool, true, false, ◌&&◌, Option, none, some, List, [], ◌∷◌, ◌++◌, ◌==◌,
  if◌then◌else◌, any, reject, for_each, length, ℤ, pos, sub_ℕ, ltb_ℤ,
}
use bsdvr_ns.Net.{Address, World}

pub record PendingReplyEntry : Type 0 where
  pub neighbor : Address
  pub destination : Address
  pub time : ℕ

-- The constructor: the waiting time is added to the current one.
unfoldable pub new_pending_reply : World → Address → Address → ℕ → PendingReplyEntry
new_pending_reply w ne dst wait = record { neighbor = ne; destination = dst; time = wait + w.now }

unfoldable pub set_pending_time : World → ℕ → PendingReplyEntry → PendingReplyEntry
set_pending_time w wait e = record e { time = wait + w.now }

-- A signed difference of times.
unfoldable pub get_pending_time : World → PendingReplyEntry → ℤ
get_pending_time w e = sub_ℕ e.time w.now

-- IsExpired
unfoldable pub is_expired : World → PendingReplyEntry → Bool
unfolding get_pending_time
is_expired w p = ltb_ℤ (get_pending_time w p) (pos 0)

pub record PendingReplyQueue : Type 0 where
  pub prqueue : List PendingReplyEntry
  pub max_len : ℕ
  pub timeout : ℕ

unfoldable pub new_queue : ℕ → ℕ → PendingReplyQueue
new_queue max_len timeout = record { prqueue = []; max_len = max_len; timeout = timeout }

unfoldable pub get_size : PendingReplyQueue → ℕ
get_size q = length q.prqueue % 2 ^ 32

unfoldable pub set_max_queue_len : ℕ → PendingReplyQueue → PendingReplyQueue
set_max_queue_len len q = record q { max_len = len }

unfoldable pub set_queue_timeout : ℕ → PendingReplyQueue → PendingReplyQueue
set_queue_timeout t q = record q { timeout = t }

abbrev pub same_pair : PendingReplyEntry → PendingReplyEntry → Bool
same_pair i e = i.neighbor == e.neighbor && i.destination == e.destination

unfoldable pub drop_entry_with_neighbor : Address → PendingReplyQueue → PendingReplyQueue
drop_entry_with_neighbor ne q = record q { prqueue = reject (λ en. en.neighbor == ne) q.prqueue }

-- The loop of Dequeue: the first entry for the neighbor, and the others.
unfoldable pub dequeue_loop :
    Address → List PendingReplyEntry → Option (PendingReplyEntry × List PendingReplyEntry)
dequeue_loop ne [] = none
dequeue_loop ne (i ∷ q) =
    let rest = dequeue_loop ne q in
    if i.neighbor == ne
    then some (i, q)
    else elim rest [ none ↦ none | some (e, r) ↦ some (e, i ∷ r) ]

unfoldable pub dequeue :
    Address → PendingReplyQueue → Option (PendingReplyEntry × PendingReplyQueue)
unfolding dequeue_loop
dequeue ne q = elim (dequeue_loop ne q.prqueue) [
  | none ↦ none
  | some (e, r) ↦ some (e, record q { prqueue = r })
]

unfoldable pub find_neighbor : Address → PendingReplyQueue → Bool
find_neighbor ne q = any (λ i. i.neighbor == ne) q.prqueue

module _ {S : Type 0} (w : World) (handle_timeout : Option (PendingReplyEntry → S → S)) where
  unfoldable pub notify : List PendingReplyEntry → S → S
  notify q s = elim handle_timeout [
    | none ↦ s
    | some handle ↦ for_each (λ i t. if is_expired w i then handle i t else t) q s
  ]

  unfoldable pub purge : PendingReplyQueue → S → PendingReplyQueue × S
  purge q s = elim q.prqueue [
    | [] ↦ (q, s)
    | _ ∷ _ ↦ (record q { prqueue = reject (is_expired w) q.prqueue }, notify q.prqueue s)
  ]

  -- Enqueue after its call of Purge. `none` is the undefined behaviour of `front ()` and
  -- `erase (begin ())` on an empty vector, which a maximum length of 0 leads to.
  unfoldable pub push :
      PendingReplyEntry → PendingReplyQueue → S → Option (Bool × PendingReplyQueue × S)
  push e q s =
      let e' = set_pending_time w q.timeout e in
      if any (λ i. same_pair i e) q.prqueue
      then some (false, q, s)
      else if length q.prqueue == q.max_len
      then elim q.prqueue [
        | [] ↦ none
        | _ ∷ rest ↦ some (true, record q { prqueue = rest ++ e' ∷ [] }, s)
      ]
      else some (true, record q { prqueue = q.prqueue ++ e' ∷ [] }, s)

  unfoldable pub enqueue :
      PendingReplyEntry → PendingReplyQueue → S → Option (Bool × PendingReplyQueue × S)
  enqueue e q s = let (q', t) = purge q s in push e q' t
