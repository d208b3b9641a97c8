-- ===== src/PendingReplies/Laws.antt =====
-- model/bsdvr-rqueue.cc: what Purge, Dequeue and DropEntryWithNeighbor remove from the pending reply
-- queue.
use bsdvr_ns.Base.{
  ◌⊎◌, ◌≡◌, refl, false, not, ◌&&◌, Option, none, some, List, [], ◌∷◌, ◌++◌, ◌==◌, ltb,
  if◌then◌else◌, any, reject, for_each, arith, Bool-cases, inl, inr, ==_iff, fun_ext,
}
use bsdvr_ns.Net.{Address, World}
use bsdvr_ns.PendingReplies.{
  PendingReplyEntry, PendingReplyQueue, is_expired, notify, purge, dequeue_loop, dequeue,
  find_neighbor, drop_entry_with_neighbor,
}

-- The entries that have expired, in order.
abbrev pub expired : World → List PendingReplyEntry → List PendingReplyEntry
expired w [] = []
expired w (i ∷ q) = let rest = expired w q in if is_expired w i then i ∷ rest else rest

is_expired_lem : (w : World) → is_expired w ≡ (λ i. ltb i.time w.now)
unfolding is_expired
is_expired_lem w = fun_ext (λ i. ground arith)

module _ {S : Type 0} (w : World) (handle : PendingReplyEntry → S → S) where
  notify-expired :
      (q : List PendingReplyEntry) (s : S)
      → notify w (some handle) q s ≡ for_each handle (expired w q) s
  unfolding notify
  notify-expired [] s = refl
  notify-expired (i ∷ q) s = elim (Bool-cases (is_expired w i)) [
    | inl e ↦ rw e (notify-expired q (handle i s))
    | inr e ↦ rw e (notify-expired q s)
  ]

  -- Purge removes exactly the entries whose time lies before the current time, keeps the order of
  -- the others, and calls the timeout callback once for each entry that it removes, in their order.
  pub purge-expired :
      (q : PendingReplyQueue) (s : S)
      → ((purge w (some handle) q s).0.prqueue ≡ reject (λ i. ltb i.time w.now) q.prqueue)
        × ((purge w (some handle) q s).1 ≡ for_each handle (expired w q.prqueue) s)
  unfolding purge
  purge-expired q s = rw (← is_expired_lem w) (ground (arith, notify-expired q.prqueue s))

-- The first entry for a neighbor, taken out of a list.
abbrev pub Takes :
    Address → List PendingReplyEntry → Option (PendingReplyEntry × List PendingReplyEntry) → Type 0
Takes ne xs r =
    ((any (λ i. i.neighbor == ne) xs ≡ false) × (r ≡ none))
    ⊎ ((e : PendingReplyEntry) × (before after : List PendingReplyEntry) × (xs
          ≡ before ++ e ∷ after)
        × (any (λ i. i.neighbor == ne) before ≡ false)
        × (e.neighbor ≡ ne)
        × (r ≡ some (e, before ++ after)))

dequeue_loop-Takes : (ne : Address) (xs : List PendingReplyEntry) → Takes ne xs (dequeue_loop ne xs)
unfolding dequeue_loop
dequeue_loop-Takes ne [] = inl (refl, refl)
dequeue_loop-Takes ne (i ∷ xs) = elim (Bool-cases (i.neighbor == ne)) [
  | inl hit ↦ inr (i, [], xs, refl, refl, (==_iff i.neighbor ne).0 hit, rw hit)
  | inr miss ↦ elim (dequeue_loop-Takes ne xs) [
    | inl (h, r) ↦ inl (ground (arith, h, miss), rw (miss, r))
    | inr (e, before, after, p, h, n, r) ↦
        inr (e, i ∷ before, after, rw p, ground (arith, h, miss), n, rw (miss, r))
  ]
]

-- Dequeue fails exactly if Find does, and otherwise takes out the oldest entry for the neighbor and
-- leaves all others in their order. DropEntryWithNeighbor removes the entries of the neighbor alone.
pub dequeue-drop-find :
    (ne other : Address) (q : PendingReplyQueue)
    → (((find_neighbor ne q ≡ false) × (dequeue ne q ≡ none))
        ⊎ ((e : PendingReplyEntry) × (before after : List PendingReplyEntry) × (q.prqueue
              ≡ before ++ e ∷ after)
            × (any (λ i. i.neighbor == ne) before ≡ false)
            × (e.neighbor ≡ ne)
            × (dequeue ne q ≡ some (e, record q { prqueue = before ++ after }))))
      × (find_neighbor other (drop_entry_with_neighbor ne q)
          ≡ (not (other == ne) && find_neighbor other q))
unfolding find_neighbor dequeue drop_entry_with_neighbor
dequeue-drop-find ne other q = (
  elim (dequeue_loop-Takes ne q.prqueue) [
    | inl (h, r) ↦ inl (h, rw (r, dequeue))
    | inr (e, before, after, p, h, n, r) ↦ inr (e, before, after, p, h, n, rw (r, dequeue))
  ],
  drop_lem q.prqueue,
)
  where
    drop_lem :
        (xs : List PendingReplyEntry)
        → any (λ i. i.neighbor == other) (reject (λ en. en.neighbor == ne) xs)
          ≡ (not (other == ne) && any (λ i. i.neighbor == other) xs)
    drop_lem [] = ground arith
    drop_lem (i ∷ xs) = ground (arith, drop_lem xs)
