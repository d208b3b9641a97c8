-- ===== src/ControlPlane/Changes.antt =====
-- Which destinations ComputeForwardingTable reports as changed.
use bsdvr_ns.Base.{
  ◌≡◌, true, not, ◌&&◌, ◌||◌, List, [], ◌∷◌, ◌++◌, ◌==◌, reject, for_each, for_each_inv, arith,
  Option-cases, Bool-cases, ==_iff, inl, inr, found, contains, sym, subst, ap,
}
use bsdvr_ns.Base.Map.{find}
use bsdvr_ns.Net.{Address, World}
use bsdvr_ns.RoutingTable.{RoutingTableEntry, get_next_hop, RoutingTable}
use bsdvr_ns.Neighbors.{Neighbor}
use bsdvr_ns.ControlPlane.{
  push_if_found, refresh_forwarding_table, settle, compute_entry, compute_neighbor,
  compute_forwarding_table,
}
use bsdvr_ns.ControlPlane.Choice.{refreshed, install-eq-settle, compute_entry_lem}
use bsdvr_ns.ControlPlane.Refine.{State}

contains-push :
    (d k : Address) (ch : List Address) → contains d (ch ++ k ∷ []) ≡ (contains d ch || k == d)
contains-push d k [] = ground arith
contains-push d k (x ∷ ch) = ground (arith, contains-push d k ch)

contains-push_if_found :
    (d k : Address) (ch : List Address) → contains d (push_if_found k ch) ≡ contains d ch
contains-push_if_found d k ch = elim (Bool-cases (contains k ch)) [
  | inr e ↦ rw e
  | inl e ↦ elim (Bool-cases (k == d)) [
    | inl p ↦ ground (arith, contains-push d k ch, ap (λ j. contains j ch) ((==_iff k d).0 p))
    | inr p ↦ rw (e, contains-push d k ch, p) (ground arith)
  ]
]

module _ (d : Address) where
  settle-contains :
      (k : Address) (c old curr : RoutingTableEntry) (t : RoutingTable) (ch : List Address)
      → contains d (settle k c old curr (t, ch)).1 ≡ contains d ch
  unfolding settle
  settle-contains k c old curr t ch = ground (arith, contains-push_if_found d k ch)

  compute_entry-contains :
      (w : World) (k : Address) (c : RoutingTableEntry) (t : RoutingTable) (ch : List Address)
      → contains d (compute_entry w (k, c) (t, ch)).1
        ≡ (contains d ch || (k == d && not (found (find k t.forwarding_table))))
  unfolding compute_entry
  compute_entry-contains w k c t ch = elim (Option-cases (find k t.forwarding_table)) [
    | inl e ↦ rw (e, compute_entry) (ground (arith, contains-push d k ch))
    | inr (old, e) ↦
        rw (e, compute_entry)
          (rw (install-eq-settle w k k c old t ch e) (
            ground (
              arith,
              settle-contains k c old (refreshed t.routes t.distance_vector_table k old)
                  (refresh_forwarding_table w k (get_next_hop t.routes old) t) ch,
            )))
  ]

  -- A destination is reported if it has an entry now and had none at the start.
  record Reported (start : RoutingTable) (s : State) : Type 0 where
    exactly :
        contains d s.1
        ≡ (found (find d s.0.forwarding_table) && not (found (find d start.forwarding_table)))
    kept : found (find d start.forwarding_table) ≡ true → found (find d s.0.forwarding_table) ≡ true

  compute_entry-Reported :
      (w : World) (start : RoutingTable) (x : Address × RoutingTableEntry) (s : State)
      → Reported start s
      → Reported start (compute_entry w x s)
  compute_entry-Reported w start (k, c) (t, ch) v = elim (Bool-cases (k == d)) [
    | inl e ↦
        subst (λ j. Reported start (compute_entry w (j, c) (t, ch))) (sym ((==_iff k d).0 e))
          (record {
            exactly = ground (
              arith,
              compute_entry-contains w d c t ch,
              compute_entry_lem w d d c t ch,
              v.exactly,
              v.kept,
            );
            kept = ground (arith, compute_entry_lem w d d c t ch);
          })
    | inr e ↦ record {
      exactly =
          ground
            (arith, compute_entry-contains w k c t ch, compute_entry_lem w k d c t ch, v.exactly);
      kept = ground (arith, compute_entry_lem w k d c t ch, v.kept);
    }
  ]

  compute_neighbor-Reported :
      (w : World) (start : RoutingTable) (i : Neighbor) (s : State)
      → Reported start s
      → Reported start (compute_neighbor w i s)
  unfolding compute_neighbor
  compute_neighbor-Reported w start i (t, ch) v =
      elim (Option-cases (find i.neighbor_address t.distance_vector_table)) [
        | inl e ↦ rw (e, compute_neighbor) v
        | inr (dv, e) ↦
            rw (e, compute_neighbor)
              (for_each_inv (Reported start) (compute_entry w) (compute_entry-Reported w start) dv
                (t, ch) v)
      ]

  contains-reject :
      (main : Address) (ch : List Address)
      → contains d (reject (λ c. c == main) ch) ≡ (not (d == main) && contains d ch)
  contains-reject main [] = ground arith
  contains-reject main (x ∷ ch) = ground (arith, contains-reject main ch)

  -- ComputeForwardingTable reports exactly the destinations, but for the node's own address, that
  -- had no entry before and have one now: not a destination whose entry it replaced, or whose hops
  -- or state changed. No destination loses its entry.
  pub compute_forwarding_table-changes :
      (w : World) (main : Address) (nb : List Neighbor) (t : RoutingTable)
      → (contains d (compute_forwarding_table w main nb t).1 ≡ (
          not (d == main)
          && (found (find d (compute_forwarding_table w main nb t).0.forwarding_table)
              && not (found (find d t.forwarding_table)))))
        × (found (find d t.forwarding_table) ≡ true
            → found (find d (compute_forwarding_table w main nb t).0.forwarding_table) ≡ true)
  unfolding compute_forwarding_table
  compute_forwarding_table-changes w main nb t =
      let s = for_each (compute_neighbor w) nb (t, []) in
      let end : Reported t s =
        for_each_inv (Reported t) (compute_neighbor w) (compute_neighbor-Reported w t) nb (t, [])
          (record { exactly = ground arith; kept = λ h. h }) in
      (ground (arith, contains-reject main s.1, end.exactly), end.kept)
