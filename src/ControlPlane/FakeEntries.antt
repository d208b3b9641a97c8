-- ===== src/ControlPlane/FakeEntries.antt =====
-- Which entries RemoveFakeRoutes takes for fake, and what it removes from one distance vector.
use bsdvr_ns.Base.{
  ◌≡◌, refl, Bool, false, not, ◌&&◌, ◌||◌, Option, none, some, List, [], ◌∷◌, ◌==◌, if◌then◌else◌,
  for_each, any, any-append, contains, arith, Option-cases, Bool-cases, ==_iff, inl, inr, sym,
  subst, ap,
}
use bsdvr_ns.Base.Map.{Map, find, erase, find-assign, find-erase, Above, IsSorted}
use bsdvr_ns.Net.{Address, Routes, World}
use bsdvr_ns.RoutingTable.{
  inactive, active, state_eq, RoutingTableEntry, get_destination, get_next_hop, Entries,
  RoutingTable,
}
use bsdvr_ns.Neighbors.{Neighbor}
use bsdvr_ns.ControlPlane.{
  is_in, fake_pushes, fake_dsts, next_hop_at, erase_pushes, erase_ips, remove_fake_at,
}

-- The entry for a destination in the distance vector of a neighbor.
abbrev pub entry_at : Address → Address → Map Entries → Option RoutingTableEntry
entry_at n d dvt = elim (find n dvt) [ none ↦ none | some dv ↦ find d dv ]

-- An entry `e` for `d` of the forwarding table that an inactive route `rt` by way of `nxt_hp` makes
-- fake: it is active, goes by way of `nxt_hp`, and either has the destination of `rt` or `rt` is the
-- route to `nxt_hp` itself, a neighbor.
abbrev pub is_fake :
    Address → RoutingTableEntry → List Neighbor → Routes → Address → RoutingTableEntry → Bool
is_fake nxt_hp rt neighbors h d e =
    (state_eq e.state active && state_eq rt.state inactive)
    && (nxt_hp == get_next_hop h e
        && (get_destination h rt == d
            || (nxt_hp == get_destination h rt && is_in nxt_hp neighbors)))

abbrev pub is_fake_at :
    Address → RoutingTableEntry → List Neighbor → Routes → Entries → Address → Bool
is_fake_at nxt_hp rt neighbors h ft d = elim (find d ft) [
  | none ↦ false
  | some e ↦ is_fake nxt_hp rt neighbors h d e
]

module _ (nxt_hp : Address) (rt : RoutingTableEntry) (nb : List Neighbor) (h : Routes) where
  fake_pushes_lem :
      (d j : Address) (e : RoutingTableEntry)
      → contains d (fake_pushes nxt_hp rt nb h j e) ≡ (j == d && is_fake nxt_hp rt nb h d e)
  fake_pushes_lem d j e = ground arith

  fake-Above :
      (d : Address) (ft : Entries) → Above d ft → contains d (fake_dsts nxt_hp rt nb h ft) ≡ false
  unfolding fake_dsts
  fake-Above d [] a = refl
  fake-Above d ((j, e) ∷ ft) a = ground (
    arith,
    any-append (λ x. x == d) (fake_pushes nxt_hp rt nb h j e) (fake_dsts nxt_hp rt nb h ft),
    fake_pushes_lem d j e,
    fake-Above d ft a.1,
  )

  -- The first loop collects the destinations of the fake entries.
  pub fake_dsts_lem :
      (d : Address) (ft : Entries)
      → IsSorted ft
      → contains d (fake_dsts nxt_hp rt nb h ft) ≡ is_fake_at nxt_hp rt nb h ft d
  unfolding fake_dsts find
  fake_dsts_lem d [] s = refl
  fake_dsts_lem d ((j, e) ∷ ft) s = ground (
    arith,
    any-append (λ x. x == d) (fake_pushes nxt_hp rt nb h j e) (fake_dsts nxt_hp rt nb h ft),
    fake_pushes_lem d j e,
    fake_dsts_lem d ft s.1,
    fake-Above d ft,
    s.0,
  )

find-erases :
    (d : Address) (ks : List Address) (m : Entries)
    → find d (for_each erase ks m) ≡ (if contains d ks then none else find d m)
find-erases d [] m = refl
find-erases d (k ∷ ks) m = ground (arith, find-erases d ks (erase k m), find-erase d k m)

module _ (w : World) (h : Routes) (ft : Entries) (ne d : Address) (fake : List Address) where
  erase_pushes_lem :
      (j : Address) (ks : List Address)
      → contains d (erase_pushes w h ft ne j ks)
        ≡ ((j == d && not (ne == next_hop_at w h ft j)) && contains d ks)
  erase_pushes_lem j [] = ground arith
  erase_pushes_lem j (k ∷ ks) = ground (arith, erase_pushes_lem j ks)

  erase_ips_lem :
      (dv : Entries)
      → contains d (erase_ips w h ft ne fake dv) ≡ (
          (contains d fake && not (ne == next_hop_at w h ft d))
          && any (λ (p : Address × RoutingTableEntry). p.0 == d) dv)
  unfolding erase_ips
  erase_ips_lem [] = ground arith
  erase_ips_lem ((j, e) ∷ dv) =
      let pushed = erase_pushes w h ft ne j fake in
      let append = any-append (λ x. x == d) pushed (erase_ips w h ft ne fake dv) in
      let here = erase_pushes_lem j fake in
      let later = erase_ips_lem dv in
      elim (Bool-cases (j == d)) [
        | inl p ↦
            ground (arith, append, here, later, ap (λ x. next_hop_at w h ft x) ((==_iff j d).0 p))
        | inr p ↦ ground (arith, append, here, later)
      ]

find-any : (d : Address) (m : Entries) → any (λ p. p.0 == d) m ≡ false → find d m ≡ none
unfolding find
find-any d [] e = refl
find-any d ((j, x) ∷ m) e = ground (arith, find-any d m)

-- What is removed for a neighbor `ne`: a fake destination, if `ne` is not its next hop.
abbrev pub is_removed : World → List Address → Routes → Entries → Address → Address → Bool
is_removed w fake h ft ne d = contains d fake && not (ne == next_hop_at w h ft d)

module _ (w : World) (fake : List Address) (n d : Address) where
  vector-erase :
      (h : Routes) (ft : Entries) (dv : Entries)
      → find d (for_each erase (erase_ips w h ft n fake dv) dv)
        ≡ (if is_removed w fake h ft n d then none else find d dv)
  vector-erase h ft dv = ground (
    arith,
    find-erases d (erase_ips w h ft n fake dv) dv,
    erase_ips_lem w h ft n d fake dv,
    find-any d dv,
  )

  remove_fake_at_self :
      (t : RoutingTable)
      → entry_at n d (remove_fake_at w fake n t).distance_vector_table ≡ (
          if is_removed w fake t.routes t.forwarding_table n d
          then none
          else entry_at n d t.distance_vector_table)
  unfolding remove_fake_at
  remove_fake_at_self t = elim (Option-cases (find n t.distance_vector_table)) [
    | inl e ↦ rw (e, remove_fake_at) (ground (arith, e))
    | inr (dv, e) ↦
        rw (e, remove_fake_at)
          (ground (
            arith,
            e,
            find-assign n n (for_each erase (erase_ips w t.routes t.forwarding_table n fake dv) dv)
                t.distance_vector_table,
            vector-erase t.routes t.forwarding_table dv,
          ))
  ]

  remove_fake_at_other :
      (a : Address) (t : RoutingTable)
      → (a == n) ≡ false
      → find n (remove_fake_at w fake a t).distance_vector_table ≡ find n t.distance_vector_table
  unfolding remove_fake_at
  remove_fake_at_other a t e = elim (Option-cases (find a t.distance_vector_table)) [
    | inl m ↦ rw (m, remove_fake_at)
    | inr (dv, m) ↦
        rw (m, remove_fake_at)
          (ground (
            arith,
            find-assign n a (for_each erase (erase_ips w t.routes t.forwarding_table a fake dv) dv)
                t.distance_vector_table,
          ))
  ]

  -- The entry after the second loop has passed the neighbor `a`.
  pub remove_fake_at_lem :
      (a : Address) (t : RoutingTable)
      → entry_at n d (remove_fake_at w fake a t).distance_vector_table ≡ (
          if a == n && is_removed w fake t.routes t.forwarding_table n d
          then none
          else entry_at n d t.distance_vector_table)
  remove_fake_at_lem a t = elim (Bool-cases (a == n)) [
    | inl e ↦ rw e (
        subst
          (λ b. entry_at n d (remove_fake_at w fake b t).distance_vector_table ≡ (
            if is_removed w fake t.routes t.forwarding_table n d
            then none
            else entry_at n d t.distance_vector_table))
          (sym ((==_iff a n).0 e)) (remove_fake_at_self t))
    | inr e ↦ rw e (rw (remove_fake_at_other a t e, entry_at))
  ]
