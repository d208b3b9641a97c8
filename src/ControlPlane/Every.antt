-- ===== src/ControlPlane/Every.antt =====
-- model/bsdvr.cc: ComputeForwardingTable and UpdateDistanceVectorTable take entries from the tables, and
-- mark them at most: a property `P` of every pair of a key and an entry of the forwarding table stays,
-- and one `V`, which implies it, of every pair in a distance vector.
use bsdvr_ns.Base.{
  ◌≡◌, sym, subst, true, some, List, [], ◌==◌, All, for_each_inv, for_each-All, found, arith,
  Option-cases, inl, inr, if-both, option-both, ==_refl, not, ◌||◌,
}
use bsdvr_ns.Base.Map.{
  find, assign, erase, find-All, assign-All, insert-All, erase-All, find-assign,
}
use bsdvr_ns.Net.{Address, Routes, World}
use bsdvr_ns.RoutingTable.{
  inactive, state_eq, set_route_state, RoutingTableEntry, Entries, RoutingTable, get_destination,
  get_next_hop,
}
use bsdvr_ns.Neighbors.{Neighbor}
use bsdvr_ns.ControlPlane.{
  is_in, is_better_route, at_or_create, refresh_forwarding_table, settle, install, compute_entry,
  compute_neighbor, compute_forwarding_table, erase_ips, fake_dsts, remove_fake_at,
  remove_fake_routes, write_entry, write_vector, remove_if_known, store_route,
  update_distance_vector_table,
}

-- The tables over the routes `h`, with the property for every entry.
abbrev pub IsVectorOf : (Address × RoutingTableEntry → Type 0) → Address × Entries → Type 0
IsVectorOf P (n, dv) = All P dv

abbrev pub AreOver :
    Routes
    → (Address × RoutingTableEntry → Type 0)
    → (Address × RoutingTableEntry → Type 0)
    → RoutingTable
    → Type 0
AreOver h P V t =
    (t.routes ≡ h) × All P t.forwarding_table × All (IsVectorOf V) t.distance_vector_table

module _ (h : Routes) (P V : Address × RoutingTableEntry → Type 0)
    (implies : (d : Address) (e : RoutingTableEntry) → V (d, e) → P (d, e))
    (marked : (d : Address) (e : RoutingTableEntry)
      → P (d, e)
      → P (d, set_route_state inactive e)) where
  -- The tables, with an entry for a destination.
  abbrev Knows : Address → RoutingTable → Type 0
  Knows d t = AreOver h P V t × (found (find d t.forwarding_table) ≡ true)

  assign-found :
      (d : Address) (e : RoutingTableEntry) (m : Entries) → found (find d (assign d e m)) ≡ true
  assign-found d e m = ground (arith, find-assign d d e m, ==_refl d)

  at_or_create-Knows :
      (w : World) (d : Address) (t : RoutingTable)
      → Knows d t
      → (e : RoutingTableEntry) × (find d t.forwarding_table ≡ some e)
        × (at_or_create w d t.forwarding_table t.routes ≡ (e, t.forwarding_table, t.routes))
  unfolding at_or_create
  at_or_create-Knows w d t (k, f) = elim (Option-cases (find d t.forwarding_table)) [
    | inl z ↦ absurd (ground (arith, z, f))
    | inr (e, z) ↦ (e, z, rw (z, at_or_create))
  ]

  refresh-Knows :
      (w : World) (d n : Address) (t : RoutingTable)
      → Knows d t
      → Knows d (refresh_forwarding_table w d n t)
  unfolding refresh_forwarding_table
  refresh-Knows w d n t k =
      let ((r, f, v), g) = k in
      let (old, z, y) = at_or_create-Knows w d t k in
      let i = find-All P d old t.forwarding_table f z in
      option-both (Knows d) (find n t.distance_vector_table)
        (λ _. rw y ((r, assign-All P d _ _ (marked d old i) f, v), assign-found d _ _))
        (λ dv q.
          option-both (Knows d) (find d dv) (λ _. k)
            (λ e x.
              let vector = find-All (IsVectorOf V) n dv t.distance_vector_table v q in
              let j = implies d e (find-All V d e dv vector x) in
              (
                (r, assign-All P d e t.forwarding_table j f, v),
                assign-found d e t.forwarding_table,
              )))

  settle-AreOver :
      (d : Address) (new old curr : RoutingTableEntry) (t : RoutingTable) (ch : List Address)
      → P (d, new)
      → AreOver h P V t
      → AreOver h P V (settle d new old curr (t, ch)).0
  unfolding settle
  settle-AreOver d new old curr t ch i (r, f, v) =
      let Q = λ (x : RoutingTable × List Address). AreOver h P V x.0 in
      if-both Q (is_better_route new curr) (λ _. (r, assign-All P d new t.forwarding_table i f, v))
        (λ _.
          if-both Q (not (curr.hops == old.hops) || not (state_eq curr.state old.state))
            (λ _. (r, f, v)) (λ _. (r, f, v)))

  install-AreOver :
      (w : World) (d : Address) (new old : RoutingTableEntry) (t : RoutingTable) (ch : List Address)
      → P (d, new)
      → Knows d t
      → AreOver h P V (install w d new old (t, ch)).0
  unfolding install
  install-AreOver w d new old t ch i k =
      let t' = refresh_forwarding_table w d (get_next_hop t.routes old) t in
      let k' = refresh-Knows w d (get_next_hop t.routes old) t k in
      let (curr, z, y) = at_or_create-Knows w d t' k' in
      rw y (settle-AreOver d new old curr t' ch i k'.0)

  compute_entry-AreOver :
      (w : World) (x : Address × RoutingTableEntry) (r : RoutingTable × List Address)
      → V x
      → AreOver h P V r.0
      → AreOver h P V (compute_entry w x r).0
  unfolding compute_entry
  compute_entry-AreOver w (d, new) (t, ch) i (r, f, v) =
      option-both (λ (x : RoutingTable × List Address). AreOver h P V x.0)
        (find d t.forwarding_table)
        (λ _. (r, assign-All P d new t.forwarding_table (implies d new i) f, v))
        (λ old z. install-AreOver w d new old t ch (implies d new i) ((r, f, v), rw z))

  compute_neighbor-AreOver :
      (w : World) (i : Neighbor) (r : RoutingTable × List Address)
      → AreOver h P V r.0
      → AreOver h P V (compute_neighbor w i r).0
  unfolding compute_neighbor
  compute_neighbor-AreOver w i (t, ch) (r, f, v) =
      let Q = λ (x : RoutingTable × List Address). AreOver h P V x.0 in
      option-both Q (find i.neighbor_address t.distance_vector_table) (λ _. (r, f, v))
        (λ dv z.
          for_each-All Q V (compute_entry w) (compute_entry-AreOver w) dv (t, ch)
            (find-All (IsVectorOf V) i.neighbor_address dv t.distance_vector_table v z) (r, f, v))

  pub compute_forwarding_table-AreOver :
      (w : World) (main : Address) (nb : List Neighbor) (t : RoutingTable)
      → AreOver h P V t
      → AreOver h P V (compute_forwarding_table w main nb t).0
  unfolding compute_forwarding_table
  compute_forwarding_table-AreOver w main nb t k =
      for_each_inv (λ (x : RoutingTable × List Address). AreOver h P V x.0) (compute_neighbor w)
        (compute_neighbor-AreOver w) nb (t, []) k

  remove_fake_at-AreOver :
      (w : World) (fake : List Address) (ne : Address) (t : RoutingTable)
      → AreOver h P V t
      → AreOver h P V (remove_fake_at w fake ne t)
  unfolding remove_fake_at
  remove_fake_at-AreOver w fake ne t (r, f, v) =
      option-both (AreOver h P V) (find ne t.distance_vector_table) (λ _. (r, f, v))
        (λ dv z.
          let vector = find-All (IsVectorOf V) ne dv t.distance_vector_table v z in
          let erased =
            for_each_inv (λ (m : Entries). All V m) erase (erase-All V)
              (erase_ips w t.routes t.forwarding_table ne fake dv) dv vector in
          (r, f, assign-All (IsVectorOf V) ne _ t.distance_vector_table erased v))

  remove_if_known-AreOver :
      (w : World) (n : Address) (rt : RoutingTableEntry) (nb : List Neighbor) (t : RoutingTable)
      → AreOver h P V t
      → AreOver h P V (remove_if_known w n rt nb t)
  unfolding remove_if_known remove_fake_routes
  remove_if_known-AreOver w n rt nb t k =
      option-both (AreOver h P V) (find (get_destination t.routes rt) t.forwarding_table) (λ _. k)
        (λ e _.
          let fake = fake_dsts n rt nb t.routes t.forwarding_table in
          for_each_inv (AreOver h P V) (λ i. remove_fake_at w fake i.neighbor_address)
            (λ i u g. remove_fake_at-AreOver w fake i.neighbor_address u g) nb t k)

  write_vector-AreOver :
      (n d : Address) (rt : RoutingTableEntry) (t : RoutingTable)
      → V (d, rt)
      → AreOver h P V t
      → AreOver h P V (write_vector n d rt t)
  unfolding write_vector write_entry
  write_vector-AreOver n d rt t i (r, f, v) =
      let m = t.distance_vector_table in
      let written : (dv : Entries) → All V dv → All V (write_entry d rt dv) = λ dv g.
        option-both (All V) (find d dv) (λ _. insert-All V d rt dv i g)
          (λ e _. assign-All V d rt dv i g) in
      option-both (AreOver h P V) (find n m)
        (λ _. (r, f, assign-All (IsVectorOf V) n _ m (written [] tt) v))
        (λ dv z.
          let vector = find-All (IsVectorOf V) n dv m v z in
          (r, f, assign-All (IsVectorOf V) n _ m (written dv vector) v))

  pub update_distance_vector_table-AreOver :
      (w : World) (n : Address) (rt : RoutingTableEntry) (nb : List Neighbor) (t : RoutingTable)
      → V (get_destination h rt, rt)
      → AreOver h P V t
      → AreOver h P V (update_distance_vector_table w n rt nb t)
  unfolding update_distance_vector_table store_route
  update_distance_vector_table-AreOver w n rt nb t l k =
      let u = remove_if_known w n rt nb t in
      let g = remove_if_known-AreOver w n rt nb t k in
      let d = get_destination t.routes rt in
      let i : V (d, rt) = subst (λ x. V (get_destination x rt, rt)) (sym k.0) l in
      option-both (AreOver h P V) (find n u.distance_vector_table)
        (λ _. write_vector-AreOver n d rt u i g)
        (λ dv _.
          if-both (AreOver h P V) (is_in n nb) (λ _. g) (λ _. write_vector-AreOver n d rt u i g))
