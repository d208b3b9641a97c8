-- ===== src/PacketQueue/Policy.antt =====
-- model/bsdvr-rqueue.cc: DropPolicy, whatever the constructor of Status leaves.
use bsdvr_ns.Base.{
  ℕ, suc, ◌≡◌, ◌⊎◌, refl, Bool, true, false, not, ◌&&◌, Option, none, some, List, [], ◌∷◌, ◌++◌,
  any, any-append, append-nil, append_assoc, length-append, erase_at, length, arith, if-both, inl,
  inr, ◌∙◌,
}
use bsdvr_ns.PacketQueue.{
  ForwardingStatus, not_forwarded, inactive_forwarded, active_forwarded, Status, QueueEntry, Oldest,
  is_end, has_status, look_at, scan, pick, drop_policy,
}

-- The first entry, if there is one, stands between these, passes the test, and none before it passes
-- the stricter one.
pub record IsFirst (has only : QueueEntry → Bool) (q : List QueueEntry) (j : ℕ) : Type 0 where
  pub before : List QueueEntry
  pub item : QueueEntry
  pub after : List QueueEntry
  pub split_lem : q ≡ before ++ item ∷ after
  pub index_lem : length before ≡ j
  pub has_lem : has item ≡ true
  pub oldest : any only before ≡ false

-- What an iterator of DropPolicy stands for once it has gone over a part of the vector.
abbrev Seen : (QueueEntry → Bool) → (QueueEntry → Bool) → List QueueEntry → Option ℕ → Type 0
Seen has only q none = any only q ≡ false
Seen has only q (some j) = IsFirst has only q j

Seen-keep :
    (has only : QueueEntry → Bool) (q : List QueueEntry) (i : QueueEntry) (o : Option ℕ)
    → (is_end o && only i) ≡ false
    → Seen has only q o
    → Seen has only (q ++ i ∷ []) o
Seen-keep has only q i none h s = ground (arith, any-append only q (i ∷ []), h, s)
Seen-keep has only q i (some j) h s = record {
  before = s.before;
  item = s.item;
  after = s.after ++ i ∷ [];
  split_lem = rw s.split_lem (append_assoc s.before (s.item ∷ s.after) (i ∷ []));
  index_lem = s.index_lem;
  has_lem = s.has_lem;
  oldest = s.oldest;
}

Seen-set :
    (has only : QueueEntry → Bool) (q : List QueueEntry) (i : QueueEntry) (o : Option ℕ)
    → (has i && is_end o) ≡ true
    → Seen has only q o
    → Seen has only (q ++ i ∷ []) (some (length q))
Seen-set has only q i none h s = record {
  before = q;
  item = i;
  after = [];
  split_lem = refl;
  index_lem = refl;
  has_lem = ground (arith, h);
  oldest = s;
}
Seen-set has only q i (some j) h s = absurd (ground (arith, h))

erase_at-middle :
    (before after : List QueueEntry) (i : QueueEntry)
    → erase_at (length before) (before ++ i ∷ after) ≡ before ++ after
erase_at-middle [] after i = refl
erase_at-middle (x ∷ before) after i = rw (erase_at-middle before after i)

module _ (status_of : ForwardingStatus → Status) where
  -- An entry that only the test for this status, of those that come before it in the loop, is true
  -- of.
  abbrev pub only_not : QueueEntry → Bool
  only_not i = has_status status_of not_forwarded i

  abbrev pub only_inactive : QueueEntry → Bool
  only_inactive i =
      has_status status_of inactive_forwarded i && not (has_status status_of not_forwarded i)

  abbrev pub only_active : QueueEntry → Bool
  only_active i =
      has_status status_of active_forwarded i
      && (not (has_status status_of inactive_forwarded i)
          && not (has_status status_of not_forwarded i))

  abbrev HasSeen : List QueueEntry → Oldest → Type 0
  HasSeen q o =
      Seen (has_status status_of not_forwarded) only_not q o.onf
      × Seen (has_status status_of inactive_forwarded) only_inactive q o.oif
      × Seen (has_status status_of active_forwarded) only_active q o.oaf

  look_at-HasSeen :
      (q : List QueueEntry) (i : QueueEntry) (o : Oldest)
      → HasSeen q o
      → HasSeen (q ++ i ∷ []) (look_at status_of (length q) i o)
  look_at-HasSeen q i o (n, f, a) =
      let hn = has_status status_of not_forwarded in
      let hf = has_status status_of inactive_forwarded in
      let ha = has_status status_of active_forwarded in
      let P = HasSeen (q ++ i ∷ []) in
      if-both P (hn i && is_end o.onf)
        (λ c. (
          Seen-set hn only_not q i o.onf c n,
          Seen-keep hf only_inactive q i o.oif (ground (arith, c)) f,
          Seen-keep ha only_active q i o.oaf (ground (arith, c)) a,
        ))
        (λ c.
          if-both P (hf i && is_end o.oif)
            (λ d. (
              Seen-keep hn only_not q i o.onf (ground (arith, c)) n,
              Seen-set hf only_inactive q i o.oif d f,
              Seen-keep ha only_active q i o.oaf (ground (arith, d)) a,
            ))
            (λ d.
              let n' = Seen-keep hn only_not q i o.onf (ground (arith, c)) n in
              let f' = Seen-keep hf only_inactive q i o.oif (ground (arith, d)) f in
              if-both P (ha i && is_end o.oaf)
                (λ e. (n', f', Seen-set ha only_active q i o.oaf e a))
                (λ e. (n', f', Seen-keep ha only_active q i o.oaf (ground (arith, e)) a))))

  scan-HasSeen :
      (before q : List QueueEntry) (o : Oldest)
      → HasSeen before o
      → HasSeen (before ++ q) (scan status_of (length before) q o)
  unfolding scan
  scan-HasSeen before [] o h = rw (append-nil before) h
  scan-HasSeen before (i ∷ q) o h =
      let l : length (before ++ i ∷ []) ≡ suc (length before) =
        length-append before (i ∷ []) ∙ omega arith in
      let next = look_at status_of (length before) i o in
      rw (l, append_assoc before (i ∷ []) q) at
        (scan-HasSeen (before ++ i ∷ []) q next (look_at-HasSeen before i o h))

  -- The vector without its first entry of a status.
  abbrev pub Drops :
      (QueueEntry → Bool)
      → (QueueEntry → Bool)
      → List QueueEntry
      → Option (List QueueEntry)
      → Type 0
  Drops has only q r =
      (before after : List QueueEntry) × (i : QueueEntry) × (q ≡ before ++ i ∷ after)
      × (has i ≡ true)
      × (any only before ≡ false)
      × (r ≡ some (before ++ after))

  IsFirst-Drops :
      (has only : QueueEntry → Bool) (q : List QueueEntry) (j : ℕ)
      → IsFirst has only q j
      → Drops has only q (some (erase_at j q))
  IsFirst-Drops has only q j s = (
    s.before,
    s.after,
    s.item,
    s.split_lem,
    s.has_lem,
    s.oldest,
    rw (s.split_lem, ← s.index_lem, erase_at-middle s.before s.after s.item) refl,
  )

  abbrev pub Picks : List QueueEntry → Option (List QueueEntry) → Type 0
  Picks q r =
      Drops (has_status status_of active_forwarded) only_active q r
      ⊎ ((any only_active q ≡ false)
          × (Drops (has_status status_of inactive_forwarded) only_inactive q r
              ⊎ ((any only_inactive q ≡ false)
                  × (Drops (has_status status_of not_forwarded) only_not q r
                      ⊎ ((any only_not q ≡ false) × (r ≡ none))))))

  pick-Picks :
      (n f a : Option ℕ) (q : List QueueEntry)
      → HasSeen q (record { onf = n; oif = f; oaf = a })
      → Picks q (pick (record { onf = n; oif = f; oaf = a }) q)
  unfolding pick
  pick-Picks n f (some j) q (sn, sf, sa) = inl (IsFirst-Drops _ _ q j sa)
  pick-Picks n (some j) none q (sn, sf, sa) = inr (sa, inl (IsFirst-Drops _ _ q j sf))
  pick-Picks (some j) none none q (sn, sf, sa) = inr (sa, inr (sf, inl (IsFirst-Drops _ _ q j sn)))
  pick-Picks none none none q (sn, sf, sa) = inr (sa, inr (sf, inr (sn, refl)))

  -- DropPolicy drops one entry and keeps the order of the others, whatever the three statuses are. It
  -- drops one with the status of an active forwarded packet, such that none before it has that status
  -- alone of the three; only if none in the vector has that status alone, one with the status of an
  -- inactive forwarded packet, such that none before it has that status and not that of a packet not
  -- forwarded; only if there is none of these either, the first with the status of a packet not
  -- forwarded; and it fails only if there is none of these either.
  pub drop_policy_lem : (q : List QueueEntry) → Picks q (drop_policy status_of q)
  unfolding drop_policy
  drop_policy_lem q =
      let o = scan status_of 0 q (record { onf = none; oaf = none; oif = none }) in
      pick-Picks o.onf o.oif o.oaf q
        (scan-HasSeen [] q (record { onf = none; oaf = none; oif = none }) (refl, refl, refl))
