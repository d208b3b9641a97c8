-- ===== src/Protocol/Learn.antt =====
-- model/bsdvr.cc: what RecvUpdate, SendUpdateOnLinkFailure and ProcessHello learn.
use bsdvr_ns.Base.{
  ◌+◌, ◌%◌, ◌^◌, ◌≡◌, true, false, ◌&&◌, some, ◌==◌, if◌then◌else◌, found, ==_refl, ap, ◌∙◌,
}
use bsdvr_ns.Base.Map.{find, IsSorted}
use bsdvr_ns.Net.{Address, World}
use bsdvr_ns.RoutingTable.{
  inactive, active, RoutingTableEntry, new_entry, set_route_state, get_destination,
}
use bsdvr_ns.Packet.{UpdateHeader}
use bsdvr_ns.ControlPlane.{is_in, update_distance_vector_table}
use bsdvr_ns.ControlPlane.Refine.{compute_forwarding_table-SameVectors}
use bsdvr_ns.ControlPlane.FakeEntries.{entry_at}
use bsdvr_ns.ControlPlane.Vector.{update_distance_vector_table_lem}
use bsdvr_ns.Protocol.{Protocol, compute_changes, record_failure}
use bsdvr_ns.Protocol.Receive.{learn_update}

pub compute_changes-entry_at :
    (w : World) (p : Protocol) (n d : Address)
    → entry_at n d (compute_changes w p).1.routing_table.distance_vector_table
      ≡ entry_at n d p.routing_table.distance_vector_table
unfolding compute_changes
compute_changes-entry_at w p n d =
    ap (entry_at n d)
      (compute_forwarding_table-SameVectors w p.main_address p.nb.nb p.routing_table).same_vectors

-- The entry that RecvUpdate makes of an update.
abbrev pub learned : World → UpdateHeader → Address → Protocol → RoutingTableEntry
learned w upt my p = record {
  hops = (upt.hop_count + 1) % 2 ^ 8;
  ipv4_route = p.routing_table.routes.fresh;
  iface = w.address_of (w.interface_for_address my);
  state = if upt.binary_state == 1 then active else inactive;
  entries_changed = false;
}

-- Where the forwarding table is sorted, an update from a node that is no neighbor, or from a
-- neighbor without a distance vector, puts the destination into the sender's distance vector with
-- one hop more than it says, in 8 bits, and changes no other entry of that vector. An update from
-- any other neighbor leaves the sender's distance vector as it was.
pub learn_update-entry_at :
    (w : World) (upt : UpdateHeader) (my src d : Address) (p : Protocol)
    → IsSorted p.routing_table.forwarding_table
    → entry_at src d (learn_update w upt my src p).1.routing_table.distance_vector_table ≡ (
        if is_in src p.nb.nb && found (find src p.routing_table.distance_vector_table)
        then entry_at src d p.routing_table.distance_vector_table
        else if upt.dst == d
        then some (learned w upt my p)
        else entry_at src d p.routing_table.distance_vector_table)
unfolding learn_update new_entry
learn_update-entry_at w upt my src d p s =
    let t = p.routing_table in
    let i = w.interface_for_address my in
    let (e, h) =
      new_entry (w.net_device i) upt.dst (w.address_of i) ((upt.hop_count + 1) % 2 ^ 8) src false
        t.routes in
    let rt = set_route_state (if upt.binary_state == 1 then active else inactive) e in
    let u = record t { routes = h } in
    let g : get_destination h rt ≡ upt.dst = rw (==_refl t.routes.fresh, get_destination) in
    compute_changes-entry_at w
      (record p { routing_table = update_distance_vector_table w src rt p.nb.nb u }) src d
    ∙ (update_distance_vector_table_lem w src d rt p.nb.nb u s ∙ rw g)

-- Where the forwarding table is sorted and a neighbor has a distance vector, that distance vector
-- is after the link to the neighbor failed as it was before: the inactive route that
-- SendUpdateOnLinkFailure makes is not recorded.
pub record_failure-entry_at :
    (w : World) (ne d : Address) (e : RoutingTableEntry) (p : Protocol)
    → IsSorted p.routing_table.forwarding_table
    → is_in ne p.nb.nb ≡ true
    → found (find ne p.routing_table.distance_vector_table) ≡ true
    → entry_at ne d (record_failure w ne e p).1.routing_table.distance_vector_table
      ≡ entry_at ne d p.routing_table.distance_vector_table
unfolding record_failure
record_failure-entry_at w ne d e p s i f =
    compute_changes-entry_at w _ ne d
    ∙ (update_distance_vector_table_lem w ne d (set_route_state inactive e) p.nb.nb p.routing_table
          s
        ∙ rw (i, f))
