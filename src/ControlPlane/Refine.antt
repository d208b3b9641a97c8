-- ===== src/ControlPlane/Refine.antt =====
-- ComputeForwardingTable seen from one destination.
use bsdvr_ns.Base.{
  ◌≡◌, refl, sym, subst, ◌∙◌, Option, some, List, [], ◌∷◌, ◌==◌, if◌then◌else◌, for_each,
  for_each-append, arith, Option-cases, Bool-cases, ==_iff, inl, inr,
}
use bsdvr_ns.Base.Map.{Map, find}
use bsdvr_ns.Net.{Address, Routes, World}
use bsdvr_ns.RoutingTable.{RoutingTableEntry, Entries, RoutingTable}
use bsdvr_ns.Neighbors.{Neighbor}
use bsdvr_ns.ControlPlane.{compute_entry, compute_neighbor, compute_forwarding_table}
use bsdvr_ns.ControlPlane.Choice.{choose, entries_of, offers, candidates, chosen, compute_entry_lem}

abbrev pub State : Type 0
State = RoutingTable × List Address

-- The routes and the distance vectors are what they were.
pub record SameVectors (t u : RoutingTable) : Type 0 where
  pub same_vectors : u.distance_vector_table ≡ t.distance_vector_table
  pub same_routes : u.routes ≡ t.routes

pub compute_entry-SameVectors :
    (w : World) (x : Address × RoutingTableEntry) (s : State)
    → SameVectors s.0 (compute_entry w x s).0
compute_entry-SameVectors w (k, c) (t, ch) =
    let (_, v, r) = compute_entry_lem w k k c t ch in record { same_vectors = v; same_routes = r }

pub entries-SameVectors :
    (w : World) (dv : Entries) (s : State) → SameVectors s.0 (for_each (compute_entry w) dv s).0
entries-SameVectors w [] s = record { same_vectors = refl; same_routes = refl }
entries-SameVectors w (x ∷ dv) s =
    let s' = compute_entry w x s in
    ground (arith, compute_entry-SameVectors w x s, entries-SameVectors w dv s')

module _ (w : World) (d : Address) (h : Routes) (v : Map Entries) where
  compute_entry_at :
      (k : Address) (c : RoutingTableEntry) (o : Option RoutingTableEntry) (s : State)
      → s.0.routes ≡ h
      → s.0.distance_vector_table ≡ v
      → find d s.0.forwarding_table ≡ o
      → find d (compute_entry w (k, c) s).0.forwarding_table
        ≡ (if k == d then some (choose h v d c o) else o)
  compute_entry_at k c o (t, ch) ph pv po = elim (Bool-cases (k == d)) [
    | inl e ↦
        rw (← ph, ← pv, ← po)
          (subst
            (λ j. find d (compute_entry w (j, c) (t, ch)).0.forwarding_table ≡ (
              if j == d
              then some (choose t.routes t.distance_vector_table d c (find d t.forwarding_table))
              else find d t.forwarding_table))
            (sym ((==_iff k d).0 e)) (compute_entry_lem w d d c t ch).0)
    | inr e ↦ rw e (rw e at ((compute_entry_lem w k d c t ch).0) ∙ po)
  ]

  entries-chosen :
      (dv : Entries) (o : Option RoutingTableEntry) (s : State)
      → s.0.routes ≡ h
      → s.0.distance_vector_table ≡ v
      → find d s.0.forwarding_table ≡ o
      → find d (for_each (compute_entry w) dv s).0.forwarding_table
        ≡ chosen h v d (entries_of d dv) o
  entries-chosen [] o s ph pv po = po
  entries-chosen ((k, c) ∷ dv) o s ph pv po =
      let same = compute_entry-SameVectors w (k, c) s in
      let at = compute_entry_at k c o s ph pv po in
      let ih = λ (o' : Option RoutingTableEntry).
        entries-chosen dv o' (compute_entry w (k, c) s) (same.same_routes ∙ ph)
          (same.same_vectors ∙ pv) in
      elim (Bool-cases (k == d)) [
        | inl e ↦ rw e (ih (some (choose h v d c o)) (rw e at at))
        | inr e ↦ rw e (ih o (rw e at at))
      ]

compute_neighbor-SameVectors :
    (w : World) (i : Neighbor) (s : State) → SameVectors s.0 (compute_neighbor w i s).0
unfolding compute_neighbor
compute_neighbor-SameVectors w i (t, ch) =
    elim (Option-cases (find i.neighbor_address t.distance_vector_table)) [
      | inl e ↦ rw (e, compute_neighbor) (record { same_vectors = refl; same_routes = refl })
      | inr (dv, e) ↦ rw (e, compute_neighbor) (entries-SameVectors w dv (t, ch))
    ]

module _ (w : World) (d : Address) (h : Routes) (v : Map Entries) where
  compute_neighbor_at :
      (i : Neighbor) (o : Option RoutingTableEntry) (s : State)
      → s.0.routes ≡ h
      → s.0.distance_vector_table ≡ v
      → find d s.0.forwarding_table ≡ o
      → find d (compute_neighbor w i s).0.forwarding_table ≡ chosen h v d (offers d i v) o
  unfolding compute_neighbor
  compute_neighbor_at i o s ph pv po = elim (Option-cases (find i.neighbor_address v)) [
    | inl e ↦ rw (e, offers) (rw (pv, e, compute_neighbor) po)
    | inr (dv, e) ↦
        rw (e, offers) (rw (pv, e, compute_neighbor) (entries-chosen w d h v dv o s ph pv po))
  ]

  neighbors-chosen :
      (nb : List Neighbor) (o : Option RoutingTableEntry) (s : State)
      → s.0.routes ≡ h
      → s.0.distance_vector_table ≡ v
      → find d s.0.forwarding_table ≡ o
      → find d (for_each (compute_neighbor w) nb s).0.forwarding_table
        ≡ chosen h v d (candidates d nb v) o
  neighbors-chosen [] o s ph pv po = po
  neighbors-chosen (i ∷ nb) o s ph pv po =
      let same = compute_neighbor-SameVectors w i s in
      neighbors-chosen nb (chosen h v d (offers d i v) o) (compute_neighbor w i s)
        (same.same_routes ∙ ph) (same.same_vectors ∙ pv) (compute_neighbor_at i o s ph pv po)
      ∙ sym (for_each-append (λ c x. some (choose h v d c x)) (offers d i v) (candidates d nb v) o)

-- ComputeForwardingTable decides each destination by itself: its entry is what the entries for it in
-- the neighbors' distance vectors make of it, one after the other, whatever the tables hold for
-- other destinations. A destination that no neighbor offers keeps its entry.
pub compute_forwarding_table-chosen :
    (w : World) (main d : Address) (nb : List Neighbor) (t : RoutingTable)
    → find d (compute_forwarding_table w main nb t).0.forwarding_table
      ≡ chosen t.routes t.distance_vector_table d
          (candidates d nb t.distance_vector_table)
          (find d t.forwarding_table)
unfolding compute_forwarding_table
compute_forwarding_table-chosen w main d nb t =
    neighbors-chosen w d t.routes t.distance_vector_table nb (find d t.forwarding_table) (t, [])
      refl refl refl

neighbors-SameVectors :
    (w : World) (nb : List Neighbor) (s : State)
    → SameVectors s.0 (for_each (compute_neighbor w) nb s).0
neighbors-SameVectors w [] s = record { same_vectors = refl; same_routes = refl }
neighbors-SameVectors w (i ∷ nb) s =
    let s' = compute_neighbor w i s in
    ground (arith, compute_neighbor-SameVectors w i s, neighbors-SameVectors w nb s')

pub compute_forwarding_table-SameVectors :
    (w : World) (main : Address) (nb : List Neighbor) (t : RoutingTable)
    → SameVectors t (compute_forwarding_table w main nb t).0
unfolding compute_forwarding_table
compute_forwarding_table-SameVectors w main nb t = neighbors-SameVectors w nb (t, [])
