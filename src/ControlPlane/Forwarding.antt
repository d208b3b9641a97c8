-- ===== src/ControlPlane/Forwarding.antt =====
-- model/bsdvr.cc: that UpdateDistanceVectorTable leaves the forwarding table alone.
use bsdvr_ns.Base.{◌≡◌, refl, List, if-both, option-both}
use bsdvr_ns.Base.Map.{find}
use bsdvr_ns.Net.{Address, World}
use bsdvr_ns.RoutingTable.{RoutingTableEntry, RoutingTable, get_destination}
use bsdvr_ns.Neighbors.{Neighbor}
use bsdvr_ns.ControlPlane.{
  is_in, fake_dsts, remove_fake_routes, write_vector, remove_if_known, store_route,
  update_distance_vector_table,
}
use bsdvr_ns.ControlPlane.Fake.{remove_fake_loop-SameForwarding}

-- The forwarding table is the one of `t`.
abbrev Has : RoutingTable → RoutingTable → Type 0
Has t u = u.forwarding_table ≡ t.forwarding_table

remove_if_known-Has :
    (w : World) (n : Address) (rt : RoutingTableEntry) (nb : List Neighbor) (t : RoutingTable)
    → Has t (remove_if_known w n rt nb t)
unfolding remove_if_known remove_fake_routes
remove_if_known-Has w n rt nb t =
    option-both (Has t) (find (get_destination t.routes rt) t.forwarding_table) (λ _. refl)
      (λ e _.
        (remove_fake_loop-SameForwarding w (fake_dsts n rt nb t.routes t.forwarding_table) nb
          t).same_forwarding)

write_vector-Has :
    (t u : RoutingTable) (n d : Address) (rt : RoutingTableEntry)
    → Has t u
    → Has t (write_vector n d rt u)
unfolding write_vector
write_vector-Has t u n d rt h =
    option-both (Has t) (find n u.distance_vector_table) (λ _. h) (λ dv _. h)

pub update_distance_vector_table-forwarding_table :
    (w : World) (n : Address) (rt : RoutingTableEntry) (nb : List Neighbor) (t : RoutingTable)
    → (update_distance_vector_table w n rt nb t).forwarding_table ≡ t.forwarding_table
unfolding update_distance_vector_table store_route
update_distance_vector_table-forwarding_table w n rt nb t =
    let u = remove_if_known w n rt nb t in
    let g = remove_if_known-Has w n rt nb t in
    let d = get_destination t.routes rt in
    option-both (Has t) (find n u.distance_vector_table) (λ _. write_vector-Has t u n d rt g)
      (λ dv _. if-both (Has t) (is_in n nb) (λ _. g) (λ _. write_vector-Has t u n d rt g))
