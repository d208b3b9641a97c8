-- ===== src/Protocol/System/Meeting.antt =====
-- model/bsdvr.cc: that RecvHello keeps the state legal.
use bsdvr_ns.Base.{refl, ◌<◌, false, ◌==◌, if-both, option-both, IfSome, and_then-IfSome}
use bsdvr_ns.Base.Map.{find, find-All}
use bsdvr_ns.Net.{Address, World}
use bsdvr_ns.RoutingTable.{RoutingTable, RoutingTableEntry}
use bsdvr_ns.ControlPlane.Legal.{
  AreLegal, IsLegalVector, vector_of-IsLegal, assign-AreLegal, new_entry-AreLegal,
  add_route-IsLegalVector,
}
use bsdvr_ns.ControlPlane.Keyed.{IsKeyed, redirected, redirected-IsKeyed, redirected-AreKeyed}
use bsdvr_ns.Protocol.{Protocol}
use bsdvr_ns.Protocol.Handlers.{
  vector_of, meet, greet, refresh_route, learn_neighbor, process_hello, recv_hello,
}
use bsdvr_ns.Protocol.System.Sending.{
  send_triggered_update_to_neighbor-IfSome, compute_changes-kept,
}
use bsdvr_ns.RoutingTable.{new_entry, lookup_route}
use bsdvr_ns.Packet.{HelloHeader}
use bsdvr_ns.Protocol.System.Handling.{IsLegal, IsLegal-IsKept, update_neighbor-IfSome}

vector_of-IsLegalVector :
    (n : Address) (t : RoutingTable) → AreLegal t → IsLegalVector t.routes (vector_of n t)
vector_of-IsLegalVector n t h =
    option-both (IsLegalVector t.routes) (find n t.distance_vector_table) (λ _. (tt, tt))
      (λ dv e. vector_of-IsLegal n dv t h e)

module _ (w : World) where
  meet-IsLegal :
      (origin receiver : Address) (p : Protocol) → IsLegal p → IsLegal (meet w origin receiver p)
  unfolding meet
  meet-IsLegal origin receiver p (t, v) =
      let u = p.routing_table in
      let i = w.interface_for_address receiver in
      let (e, h) = new_entry (w.net_device i) origin (w.address_of i) 1 origin false u.routes in
      let (k, l) =
        new_entry-AreLegal (w.net_device i) origin (w.address_of i) 1 origin false u t.0 in
      let u' = record u { routes = h } in
      let (s, a) =
        (add_route-IsLegalVector h e (vector_of origin u') k.0
          (vector_of-IsLegalVector origin u' l)).0 in
      compute_changes-kept IsLegal IsLegal-IsKept w _
        ((assign-AreLegal origin _ u' l s a, t.1, t.2, t.3), v)

  refresh_route-IsLegal :
      (origin receiver : Address) (e : RoutingTableEntry) (p : Protocol)
      → e.ipv4_route < p.routing_table.routes.fresh
      → IsLegal p
      → IsLegal (refresh_route w origin receiver e p)
  unfolding refresh_route
  refresh_route-IsLegal origin receiver e p b (t, v) =
      let u = p.routing_table in
      let i = w.interface_for_address receiver in
      let h = redirected origin (w.net_device i) e u.routes in
      let e' = record e { iface = w.address_of i; hops = 1 } in
      let u' = record u { routes = h } in
      let l : AreLegal u' = (t.0.0, redirected-AreKeyed origin (w.net_device i) e u t.0.1) in
      let k = redirected-IsKeyed origin (w.net_device i) e u.routes (_, e) (b, refl) in
      let (s, a) =
        (add_route-IsLegalVector h e' (vector_of origin u') k.0
          (vector_of-IsLegalVector origin u' l)).1 in
      ((assign-AreLegal origin _ u' l s a, t.1, t.2, t.3), v)

  learn_neighbor-IfSome :
      (origin receiver : Address) (p : Protocol)
      → IsLegal p
      → IfSome IsLegal (learn_neighbor w origin receiver p)
  unfolding learn_neighbor greet lookup_route
  learn_neighbor-IfSome origin receiver p h =
      option-both (IfSome IsLegal) (lookup_route origin (vector_of origin p.routing_table))
        (λ _.
          send_triggered_update_to_neighbor-IfSome IsLegal IsLegal-IsKept w origin
            (meet w origin receiver p) (meet-IsLegal origin receiver p h))
        (λ e z.
          let u = p.routing_table in
          let vector = (vector_of-IsLegalVector origin u h.0.0).1 in
          let k = find-All (IsKeyed u.routes) origin e (vector_of origin u) vector z in
          refresh_route-IsLegal origin receiver e p k.0 h)

  pub recv_hello-IfSome :
      (hl : HelloHeader) (my : Address) (p : Protocol)
      → IsLegal p
      → IfSome IsLegal (recv_hello w hl my p)
  unfolding recv_hello process_hello
  recv_hello-IfSome hl my p h =
      let first =
        if-both (IfSome IsLegal) p.enable_hello
          (λ _. update_neighbor-IfSome w hl.origin p.hello_interval p h) (λ _. h) in
      if-both (IfSome IsLegal) (hl.dst == hl.origin)
        (λ _. and_then-IfSome IsLegal IsLegal _ _ first (learn_neighbor-IfSome hl.origin my))
        (λ _. h)
