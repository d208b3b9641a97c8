-- ===== src/ControlPlane/Vector.antt =====
-- What UpdateDistanceVectorTable writes, and when it writes nothing.
use bsdvr_ns.Base.{
  ◌≡◌, ◌≢◌, true, ◌&&◌, none, some, List, [], ◌==◌, if◌then◌else◌, arith, Option-cases, inl, inr,
  found,
}
use bsdvr_ns.Base.Map.{find, find-assign, find-insert, find_nil, IsSorted}
use bsdvr_ns.Net.{Address, World}
use bsdvr_ns.RoutingTable.{
  inactive, active, RoutingTableEntry, get_destination, get_next_hop, Entries, RoutingTable,
}
use bsdvr_ns.Neighbors.{Neighbor}
use bsdvr_ns.ControlPlane.{
  is_in, remove_fake_routes, write_entry, write_vector, remove_if_known, store_route,
  update_distance_vector_table,
}
use bsdvr_ns.ControlPlane.FakeEntries.{entry_at}
use bsdvr_ns.ControlPlane.Fake.{remove_fake_routes_lem, remove_fake_routes-found}

-- "[doesnot remove direct neighbor routes]", the comment on RemoveFakeRoutes says. It does: where a
-- sorted forwarding table reaches a neighbor `d` by way of another node `m`, in an active entry, an
-- inactive route to `d` by way of `m` removes the entry for `d` from the distance vector of `d`
-- itself.
pub remove_fake_routes_removes_direct_route :
    (w : World) (m d : Address) (rt e : RoutingTableEntry) (nb : List Neighbor) (t : RoutingTable)
    → IsSorted t.forwarding_table
    → is_in d nb ≡ true
    → find d t.forwarding_table ≡ some e
    → e.state ≡ active
    → get_next_hop t.routes e ≡ m
    → m ≢ d
    → rt.state ≡ inactive
    → get_destination t.routes rt ≡ d
    → entry_at d d (remove_fake_routes w m rt nb t).distance_vector_table ≡ none
remove_fake_routes_removes_direct_route w m d rt e nb t s n f ae hop ne ai dst =
    rw ((remove_fake_routes_lem w m rt nb t d d s).0) (ground (arith, f, ae, hop, ne, ai, dst, n))

module _ (w : World) (nxt_hp d : Address) (rt : RoutingTableEntry) (nb : List Neighbor)
    (t : RoutingTable) (s : IsSorted t.forwarding_table) where
  -- The sender's own vector loses nothing: only routes by way of the sender are fake.
  remove_fake_routes_spares :
      entry_at nxt_hp d (remove_fake_routes w nxt_hp rt nb t).distance_vector_table
      ≡ entry_at nxt_hp d t.distance_vector_table
  remove_fake_routes_spares =
      rw ((remove_fake_routes_lem w nxt_hp rt nb t nxt_hp d s).0)
        (elim (Option-cases (find d t.forwarding_table)) [
          | inl e ↦ ground (arith, e)
          | inr (x, e) ↦ ground (arith, e)
        ])

write_entry_lem :
    (dst d : Address) (rt : RoutingTableEntry) (dv : Entries)
    → find d (write_entry dst rt dv) ≡ (if dst == d then some rt else find d dv)
unfolding write_entry
write_entry_lem dst d rt dv = ground (arith, find-assign d dst rt dv, find-insert d dst rt dv)

write_vector_lem :
    (nxt_hp dst d : Address) (rt : RoutingTableEntry) (t : RoutingTable)
    → entry_at nxt_hp d (write_vector nxt_hp dst rt t).distance_vector_table
      ≡ (if dst == d then some rt else entry_at nxt_hp d t.distance_vector_table)
unfolding write_vector
write_vector_lem nxt_hp dst d rt t = elim (Option-cases (find nxt_hp t.distance_vector_table)) [
  | inl e ↦
      rw (e, write_vector)
        (ground (
          arith,
          e,
          find-assign nxt_hp nxt_hp (write_entry dst rt []) t.distance_vector_table,
          write_entry_lem dst d rt [],
          find_nil {V = RoutingTableEntry} d,
        ))
  | inr (dv, e) ↦
      rw (e, write_vector)
        (ground (
          arith,
          e,
          find-assign nxt_hp nxt_hp (write_entry dst rt dv) t.distance_vector_table,
          write_entry_lem dst d rt dv,
        ))
]

store_route_lem :
    (nxt_hp dst d : Address) (rt : RoutingTableEntry) (nb : List Neighbor) (t : RoutingTable)
    → entry_at nxt_hp d (store_route nxt_hp dst rt nb t).distance_vector_table ≡ (
        if is_in nxt_hp nb && found (find nxt_hp t.distance_vector_table)
        then entry_at nxt_hp d t.distance_vector_table
        else if dst == d
        then some rt
        else entry_at nxt_hp d t.distance_vector_table)
unfolding store_route
store_route_lem nxt_hp dst d rt nb t = ground (arith, write_vector_lem nxt_hp dst d rt t)

remove_if_known_lem :
    (w : World) (nxt_hp d : Address) (rt : RoutingTableEntry) (nb : List Neighbor)
    (t : RoutingTable)
    → IsSorted t.forwarding_table
    → (entry_at nxt_hp d (remove_if_known w nxt_hp rt nb t).distance_vector_table
        ≡ entry_at nxt_hp d t.distance_vector_table)
      × (found (find nxt_hp (remove_if_known w nxt_hp rt nb t).distance_vector_table)
          ≡ found (find nxt_hp t.distance_vector_table))
unfolding remove_if_known
remove_if_known_lem w nxt_hp d rt nb t s = ground (
  arith,
  remove_fake_routes_spares w nxt_hp d rt nb t s,
  remove_fake_routes-found w nxt_hp rt nb t nxt_hp,
)

-- Where the forwarding table is sorted, UpdateDistanceVectorTable writes the route into the
-- distance vector of the next hop only if that is no neighbor or has no vector yet, and it changes
-- nothing else in that vector. The vector of a neighbor that has one stays as it is: what the
-- neighbor reports about a destination, and that the link to it failed, is not recorded.
pub update_distance_vector_table_lem :
    (w : World) (nxt_hp d : Address) (rt : RoutingTableEntry) (nb : List Neighbor)
    (t : RoutingTable)
    → IsSorted t.forwarding_table
    → entry_at nxt_hp d (update_distance_vector_table w nxt_hp rt nb t).distance_vector_table ≡ (
        if is_in nxt_hp nb && found (find nxt_hp t.distance_vector_table)
        then entry_at nxt_hp d t.distance_vector_table
        else if get_destination t.routes rt == d
        then some rt
        else entry_at nxt_hp d t.distance_vector_table)
unfolding update_distance_vector_table
update_distance_vector_table_lem w nxt_hp d rt nb t s =
    let t' = remove_if_known w nxt_hp rt nb t in
    let dst = get_destination t.routes rt in
    let (same, kept) = remove_if_known_lem w nxt_hp d rt nb t s in
    rw (← same, ← kept) (store_route_lem nxt_hp dst d rt nb t')
