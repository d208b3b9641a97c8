-- ===== src/Protocol/System/Leaving.antt =====
-- model/bsdvr.cc: that what goes with an interface, an address or a frame, and the data plane, keep the
-- state legal.
use bsdvr_ns.Base.{
  ℕ, ◌^◌, refl, Bool, not, ◌&&◌, ◌||◌, Option, none, some, List, ◌==◌, ltb, map, if◌then◌else◌,
  found, Option-cases, inl, inr, if-both, option-both, IfSome, and_then-IfSome, IfSome-Unit,
}
use bsdvr_ns.Base.Map.{erase-IsSorted}
use bsdvr_ns.Net.{
  Ipv4Route, create_route, Address, InterfaceAddress, World, Wifi, no_wifi, null_mac, other_mac,
  adhoc_mac,
}
use bsdvr_ns.RoutingTable.{lookup_route}
use bsdvr_ns.Neighbors.{
  Neighbors, schedule_ntimer, mark_closed, process_tx_error, purge, new_neighbors,
}
use bsdvr_ns.Neighbors as Nb
use bsdvr_ns.Neighbors.Invariant.{operations-IsWellFormed}
use bsdvr_ns.PacketQueue.{ForwardingStatus, Status, Ipv4Header, Packet}
use bsdvr_ns.PacketQueue.Bound.{enqueue-AreDistinct}
use bsdvr_ns.Protocol.{Protocol, find_socket}
use bsdvr_ns.Protocol.Handlers.{on_link_failure}
use bsdvr_ns.ControlPlane.Keyed.{create_route-AreKeyed}
use bsdvr_ns.Protocol.Data.{
  lo_route, SocketErrno, error_noterror, Call, is_empty, source_for, loopback_route, tag_interface,
  add_tag, use_route, loop_back, route_output, is_my_own_address, is_lo, deferred_route_output,
  route_input,
}
use bsdvr_ns.Protocol.Interfaces.{
  open_sockets, notify_tx_error, forget_arp, untrace, drop_routes, close_sockets,
  notify_interface_down, close_broadcast, close_address, notify_remove_address,
}
use bsdvr_ns.Protocol.System.Handling.{IsLegal, purge-HasLegalTables, with_neighbors-IfSome}
use bsdvr_ns.Protocol.System.Events.{
  same_nb, shut_down-IsLegal, drop_routes-IsLegal, open_sockets-IsLegal,
}

forget_arp-IsLegal : (o : Option ℕ) (p : Protocol) → IsLegal p → IsLegal (forget_arp o p)
unfolding Nb.del_arp_cache
forget_arp-IsLegal none p h = h
forget_arp-IsLegal (some cache) p (t, v) = (t, same_nb p.nb _ refl v)

-- A broadcast socket that is erased from the other map, if there is one.
close_broadcast-IsLegal : (o : Option ℕ) (p : Protocol) → IsLegal p → IsLegal (close_broadcast o p)
close_broadcast-IsLegal none p h = h
close_broadcast-IsLegal (some socket) p (t, v) =
    ((t.0, erase-IsSorted socket p.socket_addresses t.1, t.2, t.3), v)

close_address-IsLegal :
    (address : InterfaceAddress) (socket : ℕ) (p : Protocol)
    → IsLegal p
    → IsLegal (close_address address socket p)
unfolding close_address
close_address-IsLegal address socket p h =
    let q = drop_routes address p in
    let (t, v) = drop_routes-IsLegal address p h in
    close_broadcast-IsLegal (find_socket address p.socket_broadcast_addresses) _
      ((t.0, erase-IsSorted socket q.socket_addresses t.1, t.2, t.3), v)

-- A result of RouteOutput leaves a legal state.
abbrev pub LeavesLegal : Option ℕ × SocketErrno × Protocol → Type 0
LeavesLegal (route, err, q) = IsLegal q

-- A result of RouteInput leaves a legal state.
abbrev pub HandsOnLegal : Bool × List Call × Protocol → Type 0
HandsOnLegal (taken, calls, q) = IsLegal q

looped-IsLegal :
    (r : Ipv4Route) (p : Protocol)
    → IsLegal p
    → IsLegal (record p {
      routing_table = record p.routing_table { routes = create_route r p.routing_table.routes };
    })
looped-IsLegal r p (t, v) =
    ((((t.0.0), create_route-AreKeyed r p.routing_table t.0.1), t.1, t.2, t.3), v)

module _ (w : World) where
  untrace-IfSome : (i : ℕ) (x : Wifi) (p : Protocol) → IsLegal p → IfSome IsLegal (untrace w i x p)
  untrace-IfSome i no_wifi p h = h
  untrace-IfSome i null_mac p h = tt
  untrace-IfSome i other_mac p h = h
  untrace-IfSome i adhoc_mac p h = forget_arp-IsLegal (w.arp_cache_of i) _ h

  close_sockets-IfSome :
      (iface : InterfaceAddress) (p : Protocol) → IsLegal p → IfSome IsLegal (close_sockets iface p)
  unfolding close_sockets
  close_sockets-IfSome iface p (t, v) = elim (Option-cases (find_socket iface p.socket_addresses)) [
    | inl z ↦ rw z tt
    | inr (s, z) ↦ elim (Option-cases (find_socket iface p.socket_broadcast_addresses)) [
      | inl y ↦ rw (z, y) tt
      | inr (b, y) ↦
          rw (z, y)
            (
              (
                t.0,
                erase-IsSorted s p.socket_addresses t.1,
                erase-IsSorted b p.socket_broadcast_addresses t.2,
                t.3,
              ),
              v,
            )
    ]
  ]

  pub notify_interface_down-IfSome :
      (i : ℕ) (p : Protocol) → IsLegal p → IfSome IsLegal (notify_interface_down w i p)
  unfolding notify_interface_down
  notify_interface_down-IfSome i p h =
      if-both (IfSome IsLegal) (not p.has_ipv4) (λ _. tt)
        (λ _.
          and_then-IfSome IsLegal IsLegal (untrace w i (w.wifi_of (w.net_device i)) p) _
            (untrace-IfSome i (w.wifi_of (w.net_device i)) p h)
            (λ q g.
              and_then-IfSome IsLegal IsLegal (close_sockets (w.address_of i) q) _
                (close_sockets-IfSome (w.address_of i) q g)
                (λ r k.
                  if-both IsLegal (is_empty r.socket_addresses) (λ _. shut_down-IsLegal r k)
                    (λ _. drop_routes-IsLegal (w.address_of i) r k))))

  pub notify_remove_address-IfSome :
      (i : ℕ) (address : InterfaceAddress) (p : Protocol)
      → IsLegal p
      → IfSome IsLegal (notify_remove_address w i address p)
  unfolding notify_remove_address
  notify_remove_address-IfSome i address p h =
      option-both (IfSome IsLegal) (find_socket address p.socket_addresses) (λ _. h)
        (λ socket _.
          let q = close_address address socket p in
          let g = close_address-IsLegal address socket p h in
          let k =
            if-both IsLegal (w.n_addresses i == 0) (λ _. g)
              (λ _. open_sockets-IsLegal w (w.address_of i) q g) in
          let r : Protocol =
            if w.n_addresses i == 0 then q else open_sockets w (w.address_of i) q in
          if-both (IfSome IsLegal) (not p.has_ipv4) (λ _. tt)
            (λ _.
              if-both IsLegal (is_empty r.socket_addresses) (λ _. shut_down-IsLegal r k) (λ _. k)))

  pub notify_tx_error-IfSome :
      (mac : ℕ) (p : Protocol) → IsLegal p → IfSome IsLegal (notify_tx_error w mac p)
  unfolding notify_tx_error process_tx_error
  notify_tx_error-IfSome mac p (t, v) =
      let marked = record p.nb { nb = map (mark_closed mac) p.nb.nb } in
      let seen = record p { nb = marked } in
      with_neighbors-IfSome w _ _ (purge-HasLegalTables w marked (some seen) t)
        (operations-IsWellFormed w (some (on_link_failure w)) 0 mac 0 p.nb (some seen) v).2

  loop_back-IfSome :
      (dst : Address) (oif : Option ℕ) (err : SocketErrno) (p : Protocol)
      → IsLegal p
      → IfSome LeavesLegal (loop_back w dst oif err p)
  unfolding loopback_route
  loop_back-IfSome dst oif err p h =
      let R = λ (x : ℕ × Protocol). IsLegal x.1 in
      let made : IfSome R (loopback_route w dst oif p) =
        and_then-IfSome (λ _. Unit {0}) R p.lo _ (IfSome-Unit p.lo)
          (λ lo _.
            let o = source_for w oif p in
            and_then-IfSome (λ _. Unit {0}) R o _ (IfSome-Unit o)
              (λ source _.
                if-both (IfSome R) (source == w.no_address) (λ _. tt)
                  (λ _. looped-IsLegal (lo_route dst source lo) p h))) in
      and_then-IfSome R LeavesLegal (loopback_route w dst oif p) _ made (λ x g. g)

  use_route-LeavesLegal :
      (oif : Option ℕ) (route : ℕ) (p : Protocol) → IsLegal p → LeavesLegal (use_route oif route p)
  use_route-LeavesLegal none route p h = h
  use_route-LeavesLegal (some oif) route p h =
      if-both LeavesLegal ((p.routing_table.routes.route_at route).output_device == oif) (λ _. h)
        (λ _. h)

  pub route_output-IfSome :
      (packet : Option ℕ) (dst : Address) (oif : Option ℕ) (err : SocketErrno) (p : Protocol)
      → IsLegal p
      → IfSome LeavesLegal (route_output w packet dst oif err p)
  unfolding route_output
  route_output-IfSome none dst oif err p h = loop_back-IfSome dst oif err p h
  route_output-IfSome (some packet) dst oif err p h =
      if-both (IfSome LeavesLegal) (is_empty p.socket_addresses) (λ _. h)
        (λ _.
          option-both (IfSome LeavesLegal) (lookup_route dst p.routing_table.forwarding_table)
            (λ _.
              loop_back-IfSome dst oif error_noterror (add_tag packet (tag_interface w oif) p) h)
            (λ e _. use_route-LeavesLegal oif e.ipv4_route p h))

  pub route_input-IfSome :
      (status_of : ForwardingStatus → Status) (packet : Packet) (header : Ipv4Header) (idev ucb : ℕ)
      (lcb : Option ℕ) (ecb : ℕ) (p : Protocol)
      → IsLegal p
      → IfSome HandsOnLegal (route_input status_of w packet header idev ucb lcb ecb p)
  unfolding route_input deferred_route_output
  route_input-IfSome status_of packet header idev ucb lcb ecb p h =
      let P = IfSome HandsOnLegal in
      if-both P (is_empty p.socket_addresses) (λ _. h)
        (λ _.
          if-both P (not p.has_ipv4 || not (ltb (w.interface_for_device idev) (2 ^ 31))) (λ _. tt)
            (λ _.
              if-both P (is_lo idev p.lo && found (p.tag_of packet.pointer))
                (λ _. (
                  (h.0.0, h.0.1, h.0.2, (h.0.3.0, enqueue-AreDistinct status_of _ p.queue h.0.3.1)),
                  h.1,
                ))
                (λ _.
                  if-both P (is_my_own_address header.source p.socket_addresses) (λ _. h)
                    (λ _. h))))
