-- ===== src/PacketQueue.antt =====
-- model/bsdvr-rqueue.h and model/bsdvr-rqueue.cc: Status, QueueEntry and BsdvrQueue.
-- The body of the constructor Status (ForwardingStatus) is empty: the fields of a new Status hold
-- whatever the memory held. `status_of` stands for that, one value for each argument; a Status that
-- is compared with or set from a ForwardingStatus is made by it, as the implicit conversion does.
pub mod Policy
pub mod Bound
pub mod Distinct
pub mod Buffer
mod Tests
use bsdvr_ns.Base.{
  ℕ, zero, suc, ◌+◌, ◌%◌, ◌^◌, Bool, true, false, ◌&&◌, ◌||◌, Option, none, some, List, [], ◌∷◌,
  ◌++◌, ◌==◌, if◌then◌else◌, any, reject, erase_at, length,
}
use bsdvr_ns.Net.{Address}

pub data ForwardingStatus : Type 0 where
  not_forwarded inactive_forwarded active_forwarded : ForwardingStatus

-- `p_status` is the number that the enum's memory holds.
pub record Status : Type 0 where
  pub p_status : ℕ
  pub p_valid : Bool

abbrev pub bool_eq : Bool → Bool → Bool
bool_eq true true = true
bool_eq false false = true
bool_eq true false = false
bool_eq false true = false

abbrev pub status_eq : Status → Status → Bool
status_eq a b = a.p_status == b.p_status && bool_eq a.p_valid b.p_valid

-- ns3::Ipv4Header, as far as the source reads it, and Ptr<const Packet> with the packet's uid.
pub record Ipv4Header : Type 0 where
  pub source : Address
  pub destination : Address
  pub ttl : ℕ
  pub protocol : ℕ

pub record Packet : Type 0 where
  pub pointer : ℕ
  pub uid : ℕ

-- The callbacks are numbers by which their calls are told apart.
pub record QueueEntry : Type 0 where
  pub packet : Packet
  pub status : Status
  pub header : Ipv4Header
  pub ucb : ℕ
  pub ecb : ℕ

pub record PacketQueue : Type 0 where
  pub queue : List QueueEntry
  pub max_len : ℕ

unfoldable pub new_queue : ℕ → PacketQueue
new_queue max_len = record { queue = []; max_len = max_len }

unfoldable pub get_size : PacketQueue → ℕ
get_size q = length q.queue % 2 ^ 32

unfoldable pub set_max_queue_len : ℕ → PacketQueue → PacketQueue
set_max_queue_len len q = record q { max_len = len }

abbrev pub goes_to : Address → QueueEntry → Bool
goes_to dst i = i.header.destination == dst

unfoldable pub drop_packet_with_dst : Address → PacketQueue → PacketQueue
drop_packet_with_dst dst q = record q { queue = reject (goes_to dst) q.queue }

unfoldable pub find_dst : Address → PacketQueue → Bool
find_dst dst q = any (goes_to dst) q.queue

-- The iterators of DropPolicy, as indices; `none` is end ().
pub record Oldest : Type 0 where
  pub onf : Option ℕ
  pub oaf : Option ℕ
  pub oif : Option ℕ

abbrev pub is_end : Option ℕ → Bool
is_end none = true
is_end (some i) = false

-- The end of DropPolicy: active forwarded first, inactive forwarded second, not forwarded last.
unfoldable pub pick : Oldest → List QueueEntry → Option (List QueueEntry)
pick o q = elim o.oaf [
  | some i ↦ some (erase_at i q)
  | none ↦ elim o.oif [
    | some i ↦ some (erase_at i q)
    | none ↦ elim o.onf [ some i ↦ some (erase_at i q) | none ↦ none ]
  ]
]

-- What Enqueue takes for the same packet.
abbrev pub is_duplicate : QueueEntry → QueueEntry → Bool
is_duplicate e i = i.packet.uid == e.packet.uid && i.header.destination == e.header.destination

module _ (status_of : ForwardingStatus → Status) where
  abbrev pub has_status : ForwardingStatus → QueueEntry → Bool
  has_status s i = status_eq i.status (status_of s)

  abbrev pub look_at : ℕ → QueueEntry → Oldest → Oldest
  look_at k i o =
      if has_status not_forwarded i && is_end o.onf
      then record o { onf = some k }
      else if has_status inactive_forwarded i && is_end o.oif
      then record o { oif = some k }
      else if has_status active_forwarded i && is_end o.oaf
      then record o { oaf = some k }
      else o

  -- The loop of DropPolicy, from the index `k` on.
  unfoldable pub scan : ℕ → List QueueEntry → Oldest → Oldest
  scan k [] o = o
  scan k (i ∷ q) o = scan (suc k) q (look_at k i o)

  -- `none` for the result false.
  unfoldable pub drop_policy : List QueueEntry → Option (List QueueEntry)
  unfolding pick
  drop_policy q = pick (scan 0 q (record { onf = none; oaf = none; oif = none })) q

  unfoldable pub enqueue : QueueEntry → PacketQueue → Bool × PacketQueue
  enqueue e q =
      if any (is_duplicate e) q.queue
      then (false, q)
      else if length q.queue == q.max_len
      then elim (drop_policy q.queue) [
        | none ↦ (false, q)
        | some left ↦ (true, record q { queue = left ++ e ∷ [] })
      ]
      else (true, record q { queue = q.queue ++ e ∷ [] })

  -- What Dequeue sets an entry to, for the value `sval` (2 for an active route, 1 for an inactive
  -- one), if it takes the entry.
  abbrev pub taken_as : Address → ℕ → QueueEntry → Option Status
  taken_as dst sval i =
      if sval == 2
      then if goes_to dst i && (has_status not_forwarded i || has_status inactive_forwarded i)
        then some (status_of active_forwarded)
        else none
      else if sval == 1
      then if goes_to dst i && has_status not_forwarded i
        then some (status_of inactive_forwarded)
        else none
      else none

  -- The loop of Dequeue: the entry that is taken, with its new status, and the vector, in which it
  -- stays.
  unfoldable pub dequeue_loop :
      Address → ℕ → List QueueEntry → Option (QueueEntry × List QueueEntry)
  dequeue_loop dst sval [] = none
  dequeue_loop dst sval (i ∷ q) =
      let rest = dequeue_loop dst sval q in
      elim (taken_as dst sval i) [
        | some s ↦ some (record i { status = s }, record i { status = s } ∷ q)
        | none ↦ elim rest [ none ↦ none | some (e, r) ↦ some (e, i ∷ r) ]
      ]

  unfoldable pub dequeue : Address → ℕ → PacketQueue → Option (QueueEntry × PacketQueue)
  unfolding dequeue_loop
  dequeue dst sval q = elim (dequeue_loop dst sval q.queue) [
    | none ↦ none
    | some (e, r) ↦ some (e, record q { queue = r })
  ]
