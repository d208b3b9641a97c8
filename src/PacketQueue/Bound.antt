-- ===== src/PacketQueue/Bound.antt =====
-- model/bsdvr-rqueue.cc: what Enqueue keeps true of the vector, whatever the constructor of Status leaves.
use bsdvr_ns.Base.{
  suc, ◌≤◌, ◌≡◌, refl, Bool, false, Option, List, [], ◌∷◌, ◌++◌, ◌==◌, any, length, length-append,
  arith, inl, inr, any-append, IfSome, IfSome-of, if-both, option-both,
}
use bsdvr_ns.PacketQueue.{
  ForwardingStatus, Status, QueueEntry, PacketQueue, drop_policy, is_duplicate, enqueue,
}
use bsdvr_ns.PacketQueue.Policy.{Drops, Picks, drop_policy_lem}

-- No two entries are for the same packet and destination.
abbrev pub AreDistinct : List QueueEntry → Type 0
AreDistinct [] = Unit
AreDistinct (i ∷ q) = (any (is_duplicate i) q ≡ false) × AreDistinct q

abbrev pub IsWellFormed : PacketQueue → Type 0
IsWellFormed q = (length q.queue ≤ q.max_len) × AreDistinct q.queue

any-remove :
    (e i : QueueEntry) (before after : List QueueEntry)
    → any (is_duplicate e) (before ++ i ∷ after) ≡ false
    → any (is_duplicate e) (before ++ after) ≡ false
any-remove e i before after h = ground (
  arith,
  any-append (is_duplicate e) before (i ∷ after),
  any-append (is_duplicate e) before after,
  h,
)

remove-AreDistinct :
    (i : QueueEntry) (before after : List QueueEntry)
    → AreDistinct (before ++ i ∷ after)
    → AreDistinct (before ++ after)
remove-AreDistinct i [] after d = d.1
remove-AreDistinct i (x ∷ before) after d =
    (any-remove x i before after d.0, remove-AreDistinct i before after d.1)

append-AreDistinct :
    (e : QueueEntry) (q : List QueueEntry)
    → any (is_duplicate e) q ≡ false
    → AreDistinct q
    → AreDistinct (q ++ e ∷ [])
append-AreDistinct e [] h k = (refl, tt)
append-AreDistinct e (i ∷ q) h k = (
  ground (arith, any-append (is_duplicate i) q (e ∷ [])),
  append-AreDistinct e q (ground arith) k.1,
)

-- The vector without one entry.
abbrev IsLess : QueueEntry → List QueueEntry → List QueueEntry → Type 0
IsLess e q r =
    (suc (length r) ≡ length q)
    × (AreDistinct q → AreDistinct r)
    × (any (is_duplicate e) q ≡ false → any (is_duplicate e) r ≡ false)

module _ (status_of : ForwardingStatus → Status) where
  Drops-IsLess :
      (has only : QueueEntry → Bool) (e : QueueEntry) (q : List QueueEntry)
      (r : Option (List QueueEntry))
      → Drops status_of has only q r
      → IfSome (IsLess e q) r
  Drops-IsLess has only e q r (before, after, i, s, _, _, z) =
      let l : suc (length (before ++ after)) ≡ length (before ++ i ∷ after) =
        omega (arith, length-append before after, length-append before (i ∷ after)) in
      rw (z, s) (l, remove-AreDistinct i before after, any-remove e i before after)

  Picks-IsLess :
      (e : QueueEntry) (q : List QueueEntry) (r : Option (List QueueEntry))
      → Picks status_of q r
      → IfSome (IsLess e q) r
  Picks-IsLess e q r (inl d) = Drops-IsLess _ _ e q r d
  Picks-IsLess e q r (inr (_, inl d)) = Drops-IsLess _ _ e q r d
  Picks-IsLess e q r (inr (_, inr (_, inl d))) = Drops-IsLess _ _ e q r d
  Picks-IsLess e q r (inr (_, inr (_, inr (_, z)))) = rw z tt

  -- Enqueue keeps the vector within the maximum length and free of two entries for the same packet and
  -- destination, whatever the constructor of Status leaves.
  pub enqueue-IsWellFormed :
      (e : QueueEntry) (q : PacketQueue) → IsWellFormed q → IsWellFormed (enqueue status_of e q).1
  unfolding enqueue
  enqueue-IsWellFormed e q (l, d) =
      let P = λ (x : Bool × PacketQueue). IsWellFormed x.1 in
      if-both P (any (is_duplicate e) q.queue) (λ _. (l, d))
        (λ n.
          if-both P (length q.queue == q.max_len)
            (λ f.
              option-both P (drop_policy status_of q.queue) (λ _. (l, d))
                (λ r z.
                  let (k, c, m) =
                    IfSome-of (IsLess e q.queue) _ r
                      (Picks-IsLess e q.queue _ (drop_policy_lem status_of q.queue)) z in
                  (
                    omega (arith, l, k, length-append r (e ∷ [])),
                    append-AreDistinct e r (m n) (c d),
                  )))
            (λ f.
              let g : length (q.queue ++ e ∷ []) ≤ q.max_len =
                rw (length-append q.queue (e ∷ [])) (ground (arith, f, l)) in
              (g, append-AreDistinct e q.queue n d)))

  -- For any length.
  pub enqueue-AreDistinct :
      (e : QueueEntry) (q : PacketQueue)
      → AreDistinct q.queue
      → AreDistinct (enqueue status_of e q).1.queue
  unfolding enqueue
  enqueue-AreDistinct e q d =
      let P = λ (x : Bool × PacketQueue). AreDistinct x.1.queue in
      if-both P (any (is_duplicate e) q.queue) (λ _. d)
        (λ n.
          if-both P (length q.queue == q.max_len)
            (λ _.
              option-both P (drop_policy status_of q.queue) (λ _. d)
                (λ r z.
                  let (_, c, m) =
                    IfSome-of (IsLess e q.queue) _ r
                      (Picks-IsLess e q.queue _ (drop_policy_lem status_of q.queue)) z in
                  append-AreDistinct e r (m n) (c d)))
            (λ _. append-AreDistinct e q.queue n d))
