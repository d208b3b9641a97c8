-- ===== src/Protocol/Greeting.antt =====
-- model/bsdvr.cc: what ProcessHello leaves in the distance vector of the neighbor.
use bsdvr_ns.Base.{
  ◌≡◌, false, none, some, ◌==◌, if◌then◌else◌, arith, Option-cases, Bool-cases, inl, inr, ==_iff,
  ==_refl, ◌∙◌, ap, sym,
}
use bsdvr_ns.Base.Map.{find, find-assign}
use bsdvr_ns.Net.{Address, Routes, World}
use bsdvr_ns.RoutingTable.Laws.{add_route-lookup}
use bsdvr_ns.RoutingTable.{
  active, RoutingTableEntry, RoutingTable, Entries, new_entry, add_route, lookup_route,
  get_destination,
}
use bsdvr_ns.ControlPlane.FakeEntries.{entry_at}
use bsdvr_ns.Protocol.{Protocol}
use bsdvr_ns.Protocol.Handlers.{vector_of, set_vector, meet}
use bsdvr_ns.Protocol.Learn.{compute_changes-entry_at}

-- The entry for a neighbor that was not known.
abbrev pub direct_entry : World → Address → Protocol → RoutingTableEntry
direct_entry w receiver p = record {
  hops = 1;
  ipv4_route = p.routing_table.routes.fresh;
  iface = w.address_of (w.interface_for_address receiver);
  state = active;
  entries_changed = false;
}

pub set_vector-entry_at :
    (n d : Address) (dv : Entries) (t : RoutingTable)
    → entry_at n d (set_vector n dv t).distance_vector_table ≡ find d dv
set_vector-entry_at n d dv t =
    rw (find-assign n n dv t.distance_vector_table, ==_refl n, entry_at, set_vector)

pub vector_of-entry_at :
    (n d : Address) (t : RoutingTable)
    → find d (vector_of n t) ≡ entry_at n d t.distance_vector_table
unfolding find
vector_of-entry_at n d t = elim (Option-cases (find n t.distance_vector_table)) [
  | inl e ↦ rw (e, vector_of, entry_at)
  | inr (dv, e) ↦ rw (e, vector_of, entry_at)
]

-- AddRoute of a destination that is missing.
add_route-find :
    (h : Routes) (e : RoutingTableEntry) (m : Entries) (n d : Address)
    → get_destination h e ≡ n
    → find n m ≡ none
    → find d (add_route h e m).0 ≡ (if n == d then some e else find d m)
unfolding lookup_route
add_route-find h e m n d g z = elim (Bool-cases (n == d)) [
  | inl q ↦
      let y : find d m ≡ none = ap (λ k. find k m) (sym ((==_iff n d).0 q)) ∙ z in
      ground (arith, (add_route-lookup h e m d).0, y, g)
  | inr q ↦ ground (arith, (add_route-lookup h e m d).0, g)
]

-- A hello of a neighbor without a route to itself gives its distance vector an active route of one
-- hop to it, through the interface of the receiver, and leaves its other routes as they were.
pub meet-entry_at :
    (w : World) (origin receiver d : Address) (p : Protocol)
    → entry_at origin origin p.routing_table.distance_vector_table ≡ none
    → entry_at origin d (meet w origin receiver p).routing_table.distance_vector_table ≡ (
        if origin == d
        then some (direct_entry w receiver p)
        else entry_at origin d p.routing_table.distance_vector_table)
unfolding meet new_entry
meet-entry_at w origin receiver d p h =
    let t = p.routing_table in
    let i = w.interface_for_address receiver in
    let (e, r) = new_entry (w.net_device i) origin (w.address_of i) 1 origin false t.routes in
    let g : get_destination r e ≡ origin = rw (==_refl t.routes.fresh, get_destination) in
    let dv = (add_route r e (vector_of origin t)).0 in
    let u = set_vector origin dv (record t { routes = r }) in
    compute_changes-entry_at w (record p { routing_table = u }) origin d
    ∙ (set_vector-entry_at origin d dv (record t { routes = r })
        ∙ (add_route-find r e (vector_of origin t) origin d g
              (vector_of-entry_at origin origin t ∙ h)
            ∙ rw (vector_of-entry_at origin d t)))
