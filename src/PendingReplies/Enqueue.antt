-- ===== src/PendingReplies/Enqueue.antt =====
-- model/bsdvr-rqueue.cc: what Enqueue keeps true of the pending reply queue.
use bsdvr_ns.Base.{
  ℕ, ◌≤◌, ◌<◌, ◌≡◌, refl, Bool, true, false, not, Option, none, some, List, [], ◌∷◌, ◌++◌, ◌==◌,
  any, any-append, reject, length-reject-le, length, length-append, arith, Bool-cases, inl, inr,
}
use bsdvr_ns.Net.{World}
use bsdvr_ns.PendingReplies.{
  PendingReplyEntry, PendingReplyQueue, is_expired, same_pair, set_pending_time, purge, push,
  enqueue,
}

abbrev pub has_pair : PendingReplyEntry → List PendingReplyEntry → Bool
has_pair e = any (λ i. same_pair i e)

abbrev pub AreDistinct : List PendingReplyEntry → Type 0
AreDistinct [] = Unit
AreDistinct (i ∷ q) = (has_pair i q ≡ false) × AreDistinct q

pub record IsWellFormed (q : PendingReplyQueue) : Type 0 where
  pub distinct : AreDistinct q.prqueue
  pub bounded : length q.prqueue ≤ q.max_len
  pub roomy : 0 < q.max_len

append-AreDistinct :
    (q : List PendingReplyEntry) (e : PendingReplyEntry)
    → AreDistinct q
    → has_pair e q ≡ false
    → AreDistinct (q ++ e ∷ [])
append-AreDistinct [] e d h = (refl, tt)
append-AreDistinct (i ∷ q) e d h = ground (
  arith,
  append-AreDistinct q e d.1,
  any-append (λ (j : PendingReplyEntry). same_pair j i) q (e ∷ []),
)

-- A new entry at the end of a queue that has room.
appended :
    (e : PendingReplyEntry) (q : PendingReplyQueue) (xs : List PendingReplyEntry)
    → AreDistinct xs
    → has_pair e xs ≡ false
    → length xs < q.max_len
    → IsWellFormed (record q { prqueue = xs ++ e ∷ [] }) × (has_pair e (xs ++ e ∷ []) ≡ true)
appended e q xs d h l = (
  record {
    distinct = append-AreDistinct xs e d h;
    bounded = omega (arith, length-append xs (e ∷ []));
    roomy = omega arith;
  },
  ground (arith, any-append (λ (j : PendingReplyEntry). same_pair j e) xs (e ∷ [])),
)

reject-has_pair :
    (w : World) (e : PendingReplyEntry) (q : List PendingReplyEntry)
    → has_pair e q ≡ false
    → has_pair e (reject (is_expired w) q) ≡ false
reject-has_pair w e [] h = refl
reject-has_pair w e (i ∷ q) h = ground (arith, reject-has_pair w e q)

reject-AreDistinct :
    (w : World) (q : List PendingReplyEntry) → AreDistinct q → AreDistinct (reject (is_expired w) q)
reject-AreDistinct w [] d = tt
reject-AreDistinct w (i ∷ q) d =
    ground (arith, reject-AreDistinct w q d.1, reject-has_pair w i q d.0)

module _ {S : Type 0} (w : World) (handler : Option (PendingReplyEntry → S → S)) where
  purge-prqueue :
      (q : PendingReplyQueue) (s : S)
      → (purge w handler q s).0 ≡ record q { prqueue = reject (is_expired w) q.prqueue }
  unfolding purge
  purge-prqueue q s = ground arith

  purge-IsWellFormed :
      (q : PendingReplyQueue) (s : S) → IsWellFormed q → IsWellFormed (purge w handler q s).0
  purge-IsWellFormed q s v = rw (purge-prqueue q s) (record {
    distinct = reject-AreDistinct w q.prqueue v.distinct;
    bounded = omega (arith, length-reject-le (is_expired w) q.prqueue, v.bounded);
    roomy = v.roomy;
  })

  -- What Enqueue leaves.
  pub record Pushed (e : PendingReplyEntry) (q : PendingReplyQueue)
      (r : Option (Bool × PendingReplyQueue × S)) : Type 0 where
    pub done : Bool
    pub after : PendingReplyQueue
    pub state : S
    pub returns : r ≡ some (done, after, state)
    pub valid : IsWellFormed after
    pub present : has_pair e after.prqueue ≡ true
    pub answer : done ≡ not (has_pair e q.prqueue)

  push_full :
      (e : PendingReplyEntry) (q : PendingReplyQueue) (s : S) (xs : List PendingReplyEntry)
      → q.prqueue ≡ xs
      → IsWellFormed q
      → has_pair e q.prqueue ≡ false
      → (length q.prqueue == q.max_len) ≡ true
      → Pushed e q (push w handler e q s)
  unfolding push set_pending_time
  push_full e q s [] p v new full = absurd (ground (arith, p, v.roomy, full))
  push_full e q s (x ∷ rest) p v new full =
      let d : AreDistinct (x ∷ rest) = rw p at v.distinct in
      let h : has_pair e (x ∷ rest) ≡ false = rw p at new in
      let (valid, present) =
        appended (set_pending_time w q.timeout e) q rest d.1 (ground (arith, h))
          (ground (arith, p, full)) in
      record {
        done = true;
        after = record q { prqueue = rest ++ set_pending_time w q.timeout e ∷ [] };
        state = s;
        returns = rw (new, full, push) (rw p);
        valid = valid;
        present = present;
        answer = rw new;
      }

  push_lem :
      (e : PendingReplyEntry) (q : PendingReplyQueue) (s : S)
      → IsWellFormed q
      → Pushed e q (push w handler e q s)
  unfolding push set_pending_time
  push_lem e q s v = elim (Bool-cases (has_pair e q.prqueue)) [
    | inl old ↦ record {
      done = false;
      after = q;
      state = s;
      returns = rw (old, push);
      valid = v;
      present = old;
      answer = rw old;
    }
    | inr new ↦ elim (Bool-cases (length q.prqueue == q.max_len)) [
      | inr space ↦
          let (valid, present) =
            appended (set_pending_time w q.timeout e) q q.prqueue v.distinct new
              (ground (arith, v.bounded, space)) in
          record {
            done = true;
            after = record q { prqueue = q.prqueue ++ set_pending_time w q.timeout e ∷ [] };
            state = s;
            returns = rw (new, space, push);
            valid = valid;
            present = present;
            answer = rw new;
          }
      | inl full ↦ push_full e q s q.prqueue refl v new full
    ]
  ]

  -- Enqueue on a queue with room for an entry, within its length and with no pair twice: it
  -- returns, leaves a queue that is so again and that holds the pair, and answers true exactly if
  -- the pair had no entry that is not expired.
  pub enqueue_lem :
      (e : PendingReplyEntry) (q : PendingReplyQueue) (s : S)
      → IsWellFormed q
      → (done : Bool) × (after : PendingReplyQueue) × (t : S) × (enqueue w handler e q s
          ≡ some (done, after, t))
        × IsWellFormed after
        × (has_pair e after.prqueue ≡ true)
        × (done ≡ not (has_pair e (reject (is_expired w) q.prqueue)))
  unfolding enqueue
  enqueue_lem e q s v =
      let p =
        push_lem e (purge w handler q s).0 (purge w handler q s).1 (purge-IsWellFormed q s v) in
      (
        p.done,
        p.after,
        p.state,
        p.returns,
        p.valid,
        p.present,
        ground (arith, p.answer, purge-prqueue q s),
      )

-- With a maximum length of 0 Enqueue reads the front of an empty vector, whatever the entry.
pub enqueue_undefined :
    {S : Type 0} (w : World) (handler : Option (PendingReplyEntry → S → S)) (e : PendingReplyEntry)
    (timeout : ℕ) (s : S)
    → enqueue w handler e (record { prqueue = []; max_len = 0; timeout = timeout }) s ≡ none
unfolding enqueue push purge
enqueue_undefined w handler e timeout s = refl
