-- ===== src/ControlPlane/Sorted.antt =====
-- model/bsdvr.cc: ComputeForwardingTable and UpdateDistanceVectorTable keep the forwarding table, the
-- distance vector table and each distance vector in it sorted by their keys.
use bsdvr_ns.Base.{List, [], All, for_each, for_each_inv, arith, if-both, option-both}
use bsdvr_ns.Base.Map.{
  find, assign, erase, IsSorted, assign-IsSorted, erase-IsSorted, insert-IsSorted, find-All,
  assign-All,
}
use bsdvr_ns.Net.{Address, World}
use bsdvr_ns.RoutingTable.{
  RoutingTableEntry, Entries, RoutingTable, get_destination, get_next_hop, default_entry,
}
use bsdvr_ns.Neighbors.{Neighbor}
use bsdvr_ns.ControlPlane.{
  is_better_route, at_or_create, refresh_forwarding_table, settle, install, compute_entry,
  compute_neighbor, compute_forwarding_table, erase_ips, fake_dsts, remove_fake_at,
  remove_fake_routes, write_entry, write_vector, is_in, remove_if_known, store_route,
  update_distance_vector_table,
}

abbrev pub IsVector : Address × Entries → Type 0
IsVector (n, dv) = IsSorted dv

abbrev pub AreSorted : RoutingTable → Type 0
AreSorted t =
    IsSorted t.forwarding_table
    × IsSorted t.distance_vector_table
    × All IsVector t.distance_vector_table

at_or_create-IsSorted :
    (w : World) (k : Address) (t : RoutingTable)
    → IsSorted t.forwarding_table
    → IsSorted (at_or_create w k t.forwarding_table t.routes).1
unfolding at_or_create
at_or_create-IsSorted w k t s =
    ground (arith, assign-IsSorted k (default_entry w t.routes).0 t.forwarding_table s)

refresh-AreSorted :
    (w : World) (d n : Address) (t : RoutingTable)
    → AreSorted t
    → AreSorted (refresh_forwarding_table w d n t)
unfolding refresh_forwarding_table
refresh-AreSorted w d n t (s, v, a) =
    option-both AreSorted (find n t.distance_vector_table)
      (λ _. (assign-IsSorted d _ _ (at_or_create-IsSorted w d t s), v, a))
      (λ dv _.
        option-both AreSorted (find d dv) (λ _. (s, v, a))
          (λ e _. (assign-IsSorted d e t.forwarding_table s, v, a)))

settle-AreSorted :
    (dst : Address) (new old curr : RoutingTableEntry) (t : RoutingTable) (ch : List Address)
    → AreSorted t
    → AreSorted (settle dst new old curr (t, ch)).0
unfolding settle
settle-AreSorted dst new old curr t ch (s, v, a) =
    if-both (λ (r : RoutingTable × List Address). AreSorted r.0) (is_better_route new curr)
      (λ _. (assign-IsSorted dst new t.forwarding_table s, v, a))
      (λ _.
        if-both (λ (r : RoutingTable × List Address). AreSorted r.0) _ (λ _. (s, v, a))
          (λ _. (s, v, a)))

install-AreSorted :
    (w : World) (dst : Address) (new old : RoutingTableEntry) (t : RoutingTable) (ch : List Address)
    → AreSorted t
    → AreSorted (install w dst new old (t, ch)).0
unfolding install
install-AreSorted w dst new old t ch h =
    let t' = refresh_forwarding_table w dst (get_next_hop t.routes old) t in
    let (s, v, a) = refresh-AreSorted w dst (get_next_hop t.routes old) t h in
    settle-AreSorted dst new old _ _ ch (at_or_create-IsSorted w dst t' s, v, a)

compute_entry-AreSorted :
    (w : World) (x : Address × RoutingTableEntry) (r : RoutingTable × List Address)
    → AreSorted r.0
    → AreSorted (compute_entry w x r).0
unfolding compute_entry
compute_entry-AreSorted w (dst, new) (t, ch) h =
    option-both (λ (r : RoutingTable × List Address). AreSorted r.0) (find dst t.forwarding_table)
      (λ _. (assign-IsSorted dst new t.forwarding_table h.0, h.1, h.2))
      (λ old _. install-AreSorted w dst new old t ch h)

compute_neighbor-AreSorted :
    (w : World) (i : Neighbor) (r : RoutingTable × List Address)
    → AreSorted r.0
    → AreSorted (compute_neighbor w i r).0
unfolding compute_neighbor
compute_neighbor-AreSorted w i (t, ch) h =
    option-both (λ (r : RoutingTable × List Address). AreSorted r.0)
      (find i.neighbor_address t.distance_vector_table) (λ _. h)
      (λ dv _.
        for_each_inv (λ (r : RoutingTable × List Address). AreSorted r.0) (compute_entry w)
          (compute_entry-AreSorted w) dv (t, ch) h)

pub compute_forwarding_table-AreSorted :
    (w : World) (main : Address) (nb : List Neighbor) (t : RoutingTable)
    → AreSorted t
    → AreSorted (compute_forwarding_table w main nb t).0
unfolding compute_forwarding_table
compute_forwarding_table-AreSorted w main nb t h =
    for_each_inv (λ (r : RoutingTable × List Address). AreSorted r.0) (compute_neighbor w)
      (compute_neighbor-AreSorted w) nb (t, []) h

for_each-erase-IsSorted :
    (ks : List Address) (dv : Entries) → IsSorted dv → IsSorted (for_each erase ks dv)
for_each-erase-IsSorted ks dv s = for_each_inv IsSorted erase erase-IsSorted ks dv s

remove_fake_at-AreSorted :
    (w : World) (fake : List Address) (ne : Address) (t : RoutingTable)
    → AreSorted t
    → AreSorted (remove_fake_at w fake ne t)
unfolding remove_fake_at
remove_fake_at-AreSorted w fake ne t (s, v, a) =
    option-both AreSorted (find ne t.distance_vector_table) (λ _. (s, v, a))
      (λ dv e.
        let z =
          for_each-erase-IsSorted (erase_ips w t.routes t.forwarding_table ne fake dv) dv
            (find-All IsVector ne dv t.distance_vector_table a e) in
        (
          s,
          assign-IsSorted ne _ t.distance_vector_table v,
          assign-All IsVector ne _ t.distance_vector_table z a,
        ))

remove_if_known-AreSorted :
    (w : World) (n : Address) (rt : RoutingTableEntry) (nb : List Neighbor) (t : RoutingTable)
    → AreSorted t
    → AreSorted (remove_if_known w n rt nb t)
unfolding remove_if_known remove_fake_routes
remove_if_known-AreSorted w n rt nb t h =
    option-both AreSorted (find (get_destination t.routes rt) t.forwarding_table) (λ _. h)
      (λ e _.
        let fake = fake_dsts n rt nb t.routes t.forwarding_table in
        for_each_inv AreSorted (λ i. remove_fake_at w fake i.neighbor_address)
          (λ i u k. remove_fake_at-AreSorted w fake i.neighbor_address u k) nb t h)

write_entry-IsSorted :
    (dst : Address) (rt : RoutingTableEntry) (dv : Entries)
    → IsSorted dv
    → IsSorted (write_entry dst rt dv)
unfolding write_entry
write_entry-IsSorted dst rt dv s =
    option-both IsSorted (find dst dv) (λ _. insert-IsSorted dst rt dv s)
      (λ e _. assign-IsSorted dst rt dv s)

write_vector-AreSorted :
    (n dst : Address) (rt : RoutingTableEntry) (t : RoutingTable)
    → AreSorted t
    → AreSorted (write_vector n dst rt t)
unfolding write_vector
write_vector-AreSorted n dst rt t (s, v, a) =
    let m = t.distance_vector_table in
    let written : (dv : Entries)
        → IsSorted dv
        → AreSorted (record t { distance_vector_table = assign n (write_entry dst rt dv) m }) =
      λ dv z. (
        s,
        assign-IsSorted n _ m v,
        assign-All IsVector n _ m (write_entry-IsSorted dst rt dv z) a,
      ) in
    option-both AreSorted (find n m) (λ _. written [] tt)
      (λ dv e. written dv (find-All IsVector n dv m a e))

pub update_distance_vector_table-AreSorted :
    (w : World) (n : Address) (rt : RoutingTableEntry) (nb : List Neighbor) (t : RoutingTable)
    → AreSorted t
    → AreSorted (update_distance_vector_table w n rt nb t)
unfolding update_distance_vector_table store_route
update_distance_vector_table-AreSorted w n rt nb t h =
    let u = remove_if_known w n rt nb t in
    let k = remove_if_known-AreSorted w n rt nb t h in
    let d = get_destination t.routes rt in
    option-both AreSorted (find n u.distance_vector_table) (λ _. write_vector-AreSorted n d rt u k)
      (λ dv _. if-both AreSorted (is_in n nb) (λ _. k) (λ _. write_vector-AreSorted n d rt u k))
