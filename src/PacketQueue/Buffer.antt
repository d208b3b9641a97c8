-- ===== src/PacketQueue/Buffer.antt =====
-- model/bsdvr-rqueue.cc: what Dequeue takes, and for how long it goes on.
use bsdvr_ns.Base.{
  ℕ, ◌≡◌, refl, Bool, true, false, Option, none, some, List, [], ◌∷◌, ◌++◌, if◌then◌else◌, any,
  any-append, found, arith, Bool-cases, ==_iff, ◌==◌, ◌&&◌, ◌||◌, Option-cases, inl, inr, ◌⊎◌,
}
use bsdvr_ns.Net.{Address}
use bsdvr_ns.PacketQueue.{
  ForwardingStatus, not_forwarded, inactive_forwarded, active_forwarded, Status, status_eq,
  QueueEntry, PacketQueue, taken_as, dequeue_loop, dequeue,
}

module _ (status_of : ForwardingStatus → Status) (dst : Address) (sval : ℕ) where
  abbrev is_taken : QueueEntry → Bool
  is_taken i = found (taken_as status_of dst sval i)

  -- Dequeue takes the first entry that it may take, sets its status and leaves it in its place.
  abbrev pub Marks : List QueueEntry → Option (QueueEntry × List QueueEntry) → Type 0
  Marks q r =
      ((any is_taken q ≡ false) × (r ≡ none))
      ⊎ ((i : QueueEntry) × (s : Status) × (before after : List QueueEntry) × (q
            ≡ before ++ i ∷ after)
          × (any is_taken before ≡ false)
          × (taken_as status_of dst sval i ≡ some s)
          × (r ≡ some (record i { status = s }, before ++ record i { status = s } ∷ after)))

  dequeue_loop-Marks : (q : List QueueEntry) → Marks q (dequeue_loop status_of dst sval q)
  unfolding dequeue_loop
  dequeue_loop-Marks [] = inl (refl, refl)
  dequeue_loop-Marks (i ∷ q) = elim (Option-cases (taken_as status_of dst sval i)) [
    | inr (s, e) ↦ inr (i, s, [], q, refl, refl, e, rw (e, dequeue_loop))
    | inl e ↦ elim (dequeue_loop-Marks q) [
      | inl (h, r) ↦ inl (rw e h, rw (e, r, dequeue_loop))
      | inr (j, s, before, after, p, h, t, r) ↦
          inr (j, s, i ∷ before, after, rw p, rw e h, t, rw (e, r, dequeue_loop))
    ]
  ]

  -- It is taken again if a new Status is the same for a packet that was not forwarded and for one
  -- that was.
  taken_again :
      status_eq (status_of active_forwarded) (status_of not_forwarded) ≡ true
      → status_eq (status_of inactive_forwarded) (status_of not_forwarded) ≡ true
      → (i : QueueEntry) (s : Status) → taken_as status_of dst sval i ≡ some s
      → is_taken (record i { status = s }) ≡ true
  taken_again same same' i s e = ground arith

  dequeue-Marks :
      (q : PacketQueue)
      → ((any is_taken q.queue ≡ false) × (dequeue status_of dst sval q ≡ none))
        ⊎ ((i : QueueEntry) × (s : Status) × (before after : List QueueEntry) × (q.queue
              ≡ before ++ i ∷ after)
            × (any is_taken before ≡ false)
            × (taken_as status_of dst sval i ≡ some s)
            × (dequeue status_of dst sval q
                ≡ some (
                  record i { status = s },
                  record q { queue = before ++ record i { status = s } ∷ after },
                )))
  unfolding dequeue
  dequeue-Marks q = elim (dequeue_loop-Marks q.queue) [
    | inl (h, r) ↦ inl (h, rw (r, dequeue))
    | inr (i, s, before, after, p, h, t, r) ↦ inr (i, s, before, after, p, h, t, rw (r, dequeue))
  ]

  any-taken-middle :
      (before after : List QueueEntry) (i : QueueEntry)
      → is_taken i ≡ true
      → any is_taken (before ++ i ∷ after) ≡ true
  any-taken-middle before after i h = ground (arith, any-append is_taken before (i ∷ after))

  -- Where a new Status is the same for a packet that was not forwarded and for one that was, as it
  -- may be with a constructor that ignores its argument, a Dequeue that succeeds is followed by one
  -- that succeeds: a loop on it does not end.
  pub dequeue-dequeue :
      status_eq (status_of active_forwarded) (status_of not_forwarded) ≡ true
      → status_eq (status_of inactive_forwarded) (status_of not_forwarded) ≡ true
      → (q r : PacketQueue) (e : QueueEntry) → dequeue status_of dst sval q ≡ some (e, r)
      → found (dequeue status_of dst sval r) ≡ true
  dequeue-dequeue same same' q r e d = elim (dequeue-Marks q) [
    | inl (h, n) ↦ cc
    | inr (i, s, before, after, p, h, t, m) ↦
        let z : r ≡ record q { queue = before ++ record i { status = s } ∷ after } = cc in
        let u =
          any-taken-middle before after (record i { status = s }) (taken_again same same' i s t) in
        elim (dequeue-Marks r) [
          | inl (h', n) ↦ absurd (ground (arith, rw z at h'))
          | inr (_, _, _, _, _, _, _, m') ↦ rw m'
        ]
  ]

  -- An entry that waits for a route to the destination: for one that is active (2), if it was not
  -- forwarded or forwarded by an inactive one; for one that is inactive (1), if it was not forwarded.
  abbrev pub waits : QueueEntry → Bool
  waits i =
      i.header.destination == dst
      && (status_eq i.status (status_of not_forwarded) && (sval == 1 || sval == 2)
          || status_eq i.status (status_of inactive_forwarded) && sval == 2)

  abbrev pub marked : QueueEntry → QueueEntry
  marked i =
      let s = if sval == 1 then inactive_forwarded else active_forwarded in
      record i { status = status_of s }

  taken_as-waits :
      (i : QueueEntry)
      → taken_as status_of dst sval i ≡ (if waits i then some (marked i).status else none)
  taken_as-waits i = elim (Bool-cases (sval == 1)) [
    | inl e ↦ let z : sval ≡ 1 = (==_iff sval 1).0 e in rw z (ground arith)
    | inr e ↦ ground (arith, e)
  ]

  any-waits : (q : List QueueEntry) → any is_taken q ≡ any waits q
  any-waits [] = refl
  any-waits (i ∷ q) = ground (arith, any-waits q, taken_as-waits i)

  -- Dequeue fails exactly if no entry waits for a route to the destination of the state that it is
  -- called with: for an active one, not forwarded or forwarded by an inactive one; for an inactive one,
  -- not forwarded. Otherwise it returns the first such entry, with the status of a packet forwarded by
  -- an active or an inactive route, and leaves that entry where it is in the vector: all other entries
  -- stay as they are.
  pub dequeue_lem :
      (q : PacketQueue)
      → ((any waits q.queue ≡ false) × (dequeue status_of dst sval q ≡ none))
        ⊎ ((i : QueueEntry) × (before after : List QueueEntry) × (q.queue ≡ before ++ i ∷ after)
            × (any waits before ≡ false)
            × (waits i ≡ true)
            × (dequeue status_of dst sval q
                ≡ some (marked i, record q { queue = before ++ marked i ∷ after })))
  dequeue_lem q = elim (dequeue-Marks q) [
    | inl (h, r) ↦ inl (rw (any-waits q.queue) at h, r)
    | inr (i, s, before, after, p, h, t, r) ↦
        let y : (waits i ≡ true) × (s ≡ (marked i).status) = ground (arith, taken_as-waits i, t) in
        inr (i, before, after, p, rw (any-waits before) at h, y.0, rw y.1 at r)
  ]
