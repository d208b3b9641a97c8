-- ===== src/ControlPlane/Choice.antt =====
-- What ComputeForwardingTable makes of a destination with one entry of a distance vector.
use bsdvr_ns.Base.{
  ◌≡◌, refl, ◌&&◌, Option, none, some, List, [], ◌∷◌, ◌++◌, ◌==◌, if◌then◌else◌, for_each, arith,
  Option-cases, inl, inr,
}
use bsdvr_ns.Base.Map.{Map, find, find-assign}
use bsdvr_ns.Net.{Address, Routes, World}
use bsdvr_ns.RoutingTable.{
  inactive, RoutingTableEntry, get_next_hop, set_route_state, Entries, RoutingTable,
}
use bsdvr_ns.Neighbors.{Neighbor}
use bsdvr_ns.ControlPlane.{
  is_better_route, at_or_create, refresh_forwarding_table, settle, install, compute_entry,
}

-- An entry for the destination as its next hop's distance vector has it now: inactive if that
-- vector is gone, as it was if the vector has no such entry.
abbrev pub refreshed : Routes → Map Entries → Address → RoutingTableEntry → RoutingTableEntry
refreshed h dvt dst old = elim (find (get_next_hop h old) dvt) [
  | none ↦ set_route_state inactive old
  | some dv ↦ elim (find dst dv) [ none ↦ old | some e ↦ e ]
]

-- What one candidate makes of the destination's entry.
abbrev pub choose :
    Routes
    → Map Entries
    → Address
    → RoutingTableEntry
    → Option RoutingTableEntry
    → RoutingTableEntry
choose h dvt dst new none = new
choose h dvt dst new (some old) =
    let curr = refreshed h dvt dst old in if is_better_route new curr then new else curr

abbrev pub entries_of : Address → Entries → List RoutingTableEntry
entries_of dst [] = []
entries_of dst ((j, e) ∷ dv) = let rest = entries_of dst dv in if j == dst then e ∷ rest else rest

-- The entries for the destination in the distance vector of a neighbor, and in those of all
-- neighbors, in their order.
abbrev pub offers : Address → Neighbor → Map Entries → List RoutingTableEntry
offers dst i dvt = elim (find i.neighbor_address dvt) [ none ↦ [] | some dv ↦ entries_of dst dv ]

abbrev pub candidates : Address → List Neighbor → Map Entries → List RoutingTableEntry
candidates dst [] dvt = []
candidates dst (i ∷ nb) dvt = offers dst i dvt ++ candidates dst nb dvt

-- The candidates one after the other.
abbrev pub chosen :
    Routes
    → Map Entries
    → Address
    → List RoutingTableEntry
    → Option RoutingTableEntry
    → Option RoutingTableEntry
chosen h dvt dst = for_each (λ c o. some (choose h dvt dst c o))

pub at_or_create-some :
    (w : World) (k : Address) (m : Entries) (h : Routes) (e : RoutingTableEntry)
    → find k m ≡ some e
    → at_or_create w k m h ≡ (e, m, h)
unfolding at_or_create
at_or_create-some w k m h e p = rw (p, at_or_create)

module _ (w : World) (k d : Address) (old : RoutingTableEntry) (t : RoutingTable)
    (e : find k t.forwarding_table ≡ some old) where
  refresh_lem :
      (find d (refresh_forwarding_table w k (get_next_hop t.routes old) t).forwarding_table ≡ (
        if k == d
        then some (refreshed t.routes t.distance_vector_table k old)
        else find d t.forwarding_table))
      × ((refresh_forwarding_table w k (get_next_hop t.routes old) t).distance_vector_table
          ≡ t.distance_vector_table)
      × ((refresh_forwarding_table w k (get_next_hop t.routes old) t).routes ≡ t.routes)
  unfolding refresh_forwarding_table
  refresh_lem = elim (Option-cases (find (get_next_hop t.routes old) t.distance_vector_table)) [
    | inl gone ↦
        rw (gone, refresh_forwarding_table)
          (rw (at_or_create-some w k t.forwarding_table t.routes old e)
            (ground (arith, find-assign d k (set_route_state inactive old) t.forwarding_table)))
    | inr (dv, there) ↦ elim (Option-cases (find k dv)) [
      | inl missing ↦ rw (there, missing, refresh_forwarding_table) (ground (arith, e))
      | inr (x, hit) ↦
          rw (there, hit, refresh_forwarding_table)
            (ground (arith, find-assign d k x t.forwarding_table))
    ]
  ]

settle_lem :
    (k d : Address) (c old curr : RoutingTableEntry) (t : RoutingTable) (ch : List Address)
    → (find d (settle k c old curr (t, ch)).0.forwarding_table
        ≡ (if k == d && is_better_route c curr then some c else find d t.forwarding_table))
      × ((settle k c old curr (t, ch)).0.distance_vector_table ≡ t.distance_vector_table)
      × ((settle k c old curr (t, ch)).0.routes ≡ t.routes)
unfolding settle
settle_lem k d c old curr t ch = ground (arith, find-assign d k c t.forwarding_table)

module _ (w : World) (k d : Address) (c old : RoutingTableEntry) (t : RoutingTable)
    (ch : List Address) (e : find k t.forwarding_table ≡ some old) where
  pub install-eq-settle :
      install w k c old (t, ch)
      ≡ settle k c old
          (refreshed t.routes t.distance_vector_table k old)
          (refresh_forwarding_table w k (get_next_hop t.routes old) t, ch)
  unfolding install
  install-eq-settle =
      let t' = refresh_forwarding_table w k (get_next_hop t.routes old) t in
      rw
        (at_or_create-some w k t'.forwarding_table t'.routes
          (refreshed t.routes t.distance_vector_table k old)
          (ground (arith, refresh_lem w k k old t e)))
        refl

  install_lem :
      (find d (install w k c old (t, ch)).0.forwarding_table ≡ (
        if k == d
        then some (choose t.routes t.distance_vector_table k c (some old))
        else find d t.forwarding_table))
      × ((install w k c old (t, ch)).0.distance_vector_table ≡ t.distance_vector_table)
      × ((install w k c old (t, ch)).0.routes ≡ t.routes)
  install_lem =
      let t' = refresh_forwarding_table w k (get_next_hop t.routes old) t in
      let curr = refreshed t.routes t.distance_vector_table k old in
      rw install-eq-settle
        (ground (arith, settle_lem k d c old curr t' ch, refresh_lem w k d old t e))

pub compute_entry_lem :
    (w : World) (k d : Address) (c : RoutingTableEntry) (t : RoutingTable) (ch : List Address)
    → (find d (compute_entry w (k, c) (t, ch)).0.forwarding_table ≡ (
        if k == d
        then some (choose t.routes t.distance_vector_table k c (find k t.forwarding_table))
        else find d t.forwarding_table))
      × ((compute_entry w (k, c) (t, ch)).0.distance_vector_table ≡ t.distance_vector_table)
      × ((compute_entry w (k, c) (t, ch)).0.routes ≡ t.routes)
unfolding compute_entry
compute_entry_lem w k d c t ch = elim (Option-cases (find k t.forwarding_table)) [
  | inl e ↦ rw (e, compute_entry) (ground (arith, find-assign d k c t.forwarding_table))
  | inr (old, e) ↦ rw (e, compute_entry) (install_lem w k d c old t ch e)
]
