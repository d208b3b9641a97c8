-- ===== src/PendingReplies/About.antt =====
-- model/bsdvr-rqueue.cc: which destinations Enqueue adds to those of the pending reply queue.
use bsdvr_ns.Base.{
  refl, ◌≡◌, Bool, true, false, ◌||◌, Option, some, List, [], ◌∷◌, ◌++◌, ◌==◌, any, any-append,
  reject, length, arith, Bool-cases, inl, inr,
}
use bsdvr_ns.Net.{Address, World}
use bsdvr_ns.PendingReplies.{
  PendingReplyEntry, PendingReplyQueue, is_expired, same_pair, set_pending_time, purge, push,
  enqueue,
}

abbrev pub is_about : Address → PendingReplyEntry → Bool
is_about d i = i.destination == d

-- The entries are about destinations of the others, or about this one.
abbrev AddsOnly : Address → Address → List PendingReplyEntry → List PendingReplyEntry → Type 0
AddsOnly d dst xs ys = any (is_about d) ys ≡ true → (dst == d || any (is_about d) xs) ≡ true

any-reject-true :
    (f g : PendingReplyEntry → Bool) (xs : List PendingReplyEntry)
    → any f (reject g xs) ≡ true
    → any f xs ≡ true
any-reject-true f g [] h = cc
any-reject-true f g (x ∷ xs) h = ground (arith, any-reject-true f g xs)

appended-AddsOnly :
    (d : Address) (e : PendingReplyEntry) (xs : List PendingReplyEntry)
    → AddsOnly d e.destination xs (xs ++ e ∷ [])
appended-AddsOnly d e xs h = ground (arith, h, any-append (is_about d) xs (e ∷ []))

module _ {S : Type 0} (w : World) (handler : Option (PendingReplyEntry → S → S)) where
  push_full :
      (d : Address) (e : PendingReplyEntry) (q a : PendingReplyQueue) (s t : S) (done : Bool)
      (xs : List PendingReplyEntry)
      → q.prqueue ≡ xs
      → any (λ i. same_pair i e) q.prqueue ≡ false
      → (length q.prqueue == q.max_len) ≡ true
      → push w handler e q s ≡ some (done, a, t)
      → AddsOnly d e.destination xs a.prqueue
  unfolding push set_pending_time
  push_full d e q a s t done [] p new full z h = ground (arith, p, new, full, z)
  push_full d e q a s t done (x ∷ rest) p new full z h =
      let e' = set_pending_time w q.timeout e in
      let y : a.prqueue ≡ rest ++ e' ∷ [] = ground (arith, p, new, full, z) in
      ground (arith, appended-AddsOnly d e' rest (rw y at h))

  push-AddsOnly :
      (d : Address) (e : PendingReplyEntry) (q a : PendingReplyQueue) (s t : S) (done : Bool)
      → push w handler e q s ≡ some (done, a, t)
      → AddsOnly d e.destination q.prqueue a.prqueue
  unfolding push set_pending_time
  push-AddsOnly d e q a s t done z h = elim (Bool-cases (any (λ i. same_pair i e) q.prqueue)) [
    | inl old ↦ let y : a ≡ q = ground (arith, old, z) in ground (arith, rw y at h)
    | inr new ↦ elim (Bool-cases (length q.prqueue == q.max_len)) [
      | inl full ↦ push_full d e q a s t done q.prqueue refl new full z h
      | inr space ↦
          let e' = set_pending_time w q.timeout e in
          let y : a.prqueue ≡ q.prqueue ++ e' ∷ [] = ground (arith, new, space, z) in
          appended-AddsOnly d e' q.prqueue (rw y at h)
    ]
  ]

  -- Enqueue adds no entry about another destination than its own.
  pub enqueue-AddsOnly :
      (d : Address) (e : PendingReplyEntry) (q a : PendingReplyQueue) (s t : S) (done : Bool)
      → enqueue w handler e q s ≡ some (done, a, t)
      → any (is_about d) a.prqueue ≡ true
      → (e.destination == d || any (is_about d) q.prqueue) ≡ true
  unfolding enqueue purge
  enqueue-AddsOnly d e q a s t done z h =
      let k = push-AddsOnly d e (purge w handler q s).0 a (purge w handler q s).1 t done z h in
      ground (arith, k, any-reject-true (is_about d) (is_expired w) q.prqueue)
