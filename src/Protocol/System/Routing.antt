-- ===== src/Protocol/System/Routing.antt =====
-- model/bsdvr.cc: that RouteOutput and RouteInput leave a node ready.
use bsdvr_ns.Base.{
  ℕ, ◌^◌, refl, not, ◌&&◌, ◌||◌, Bool, Option, none, some, List, ◌==◌, ltb, found, if-both,
  option-both, IfSome, IfSome-Unit, and_then-IfSome,
}
use bsdvr_ns.Net.{Address, Ipv4Route, create_route, World}
use bsdvr_ns.RoutingTable.{lookup_route}
use bsdvr_ns.PacketQueue.{ForwardingStatus, Status, Ipv4Header, Packet}
use bsdvr_ns.PacketQueue.Bound as Bound
use bsdvr_ns.PacketQueue.Bound.{enqueue-IsWellFormed}
use bsdvr_ns.PacketQueue.{PacketQueue}
use bsdvr_ns.Protocol.{Protocol}
use bsdvr_ns.Protocol.Data.{
  SocketErrno, error_noterror, Call, is_empty, lo_route, source_for, loopback_route, tag_interface,
  add_tag, use_route, loop_back, route_output, is_my_own_address, is_lo, route_input,
  deferred_route_output,
}
use bsdvr_ns.Protocol.Sendable.{IsReady}
use bsdvr_ns.Protocol.System.Staying.{same-IsReady}

with_routes-IsReady :
    (r : Ipv4Route) (p : Protocol)
    → IsReady p
    → IsReady (record p {
      routing_table = record p.routing_table { routes = create_route r p.routing_table.routes };
    })
with_routes-IsReady r p c = record {
  sends = c.sends;
  replies = c.replies;
  others = c.others;
  partners = c.partners;
  with_ipv4 = c.with_ipv4;
  with_lo = c.with_lo;
  buffer = c.buffer;
}

buffered-IsReady :
    (p : Protocol) (q : PacketQueue)
    → Bound.IsWellFormed q
    → IsReady p
    → IsReady (record p { queue = q })
buffered-IsReady p q v r = record {
  sends = r.sends;
  replies = r.replies;
  others = r.others;
  partners = r.partners;
  with_ipv4 = r.with_ipv4;
  with_lo = r.with_lo;
  buffer = v;
}

abbrev pub LeavesReady : Option ℕ × SocketErrno × Protocol → Type 0
LeavesReady (route, err, q) = IsReady q

abbrev pub HandsOnReady : Bool × List Call × Protocol → Type 0
HandsOnReady (taken, calls, q) = IsReady q

module _ (w : World) where
  loop_back-IsReady :
      (dst : Address) (oif : Option ℕ) (err : SocketErrno) (p : Protocol)
      → IsReady p
      → IfSome LeavesReady (loop_back w dst oif err p)
  unfolding loopback_route
  loop_back-IsReady dst oif err p r =
      let R = λ (x : ℕ × Protocol). IsReady x.1 in
      let made : IfSome R (loopback_route w dst oif p) =
        and_then-IfSome (λ _. Unit {0}) R p.lo _ (IfSome-Unit p.lo)
          (λ lo _.
            let o = source_for w oif p in
            and_then-IfSome (λ _. Unit {0}) R o _ (IfSome-Unit o)
              (λ source _.
                if-both (IfSome R) (source == w.no_address) (λ _. tt)
                  (λ _. with_routes-IsReady (lo_route dst source lo) p r))) in
      and_then-IfSome R LeavesReady (loopback_route w dst oif p) _ made (λ x g. g)

  use_route-LeavesReady :
      (oif : Option ℕ) (route : ℕ) (p : Protocol) → IsReady p → LeavesReady (use_route oif route p)
  use_route-LeavesReady none route p r = r
  use_route-LeavesReady (some oif) route p r =
      if-both LeavesReady ((p.routing_table.routes.route_at route).output_device == oif) (λ _. r)
        (λ _. r)

  pub route_output-IsReady :
      (packet : Option ℕ) (dst : Address) (oif : Option ℕ) (err : SocketErrno) (p : Protocol)
      → IsReady p
      → IfSome LeavesReady (route_output w packet dst oif err p)
  unfolding route_output
  route_output-IsReady none dst oif err p r = loop_back-IsReady dst oif err p r
  route_output-IsReady (some packet) dst oif err p r =
      if-both (IfSome LeavesReady) (is_empty p.socket_addresses) (λ _. r)
        (λ _.
          option-both (IfSome LeavesReady) (lookup_route dst p.routing_table.forwarding_table)
            (λ _.
              let q = add_tag packet (tag_interface w oif) p in
              loop_back-IsReady dst oif error_noterror q
                (same-IsReady p q refl refl refl refl refl refl refl r))
            (λ e _. use_route-LeavesReady oif e.ipv4_route p r))

  pub route_input-IsReady :
      (status_of : ForwardingStatus → Status) (packet : Packet) (header : Ipv4Header) (idev ucb : ℕ)
      (lcb : Option ℕ) (ecb : ℕ) (p : Protocol)
      → IsReady p
      → IfSome HandsOnReady (route_input status_of w packet header idev ucb lcb ecb p)
  unfolding route_input deferred_route_output
  route_input-IsReady status_of packet header idev ucb lcb ecb p r =
      let P = IfSome HandsOnReady in
      if-both P (is_empty p.socket_addresses) (λ _. r)
        (λ _.
          if-both P (not p.has_ipv4 || not (ltb (w.interface_for_device idev) (2 ^ 31))) (λ _. tt)
            (λ _.
              if-both P (is_lo idev p.lo && found (p.tag_of packet.pointer))
                (λ _. buffered-IsReady p _ (enqueue-IsWellFormed status_of _ p.queue r.buffer) r)
                (λ _.
                  if-both P (is_my_own_address header.source p.socket_addresses) (λ _. r)
                    (λ _. r))))
