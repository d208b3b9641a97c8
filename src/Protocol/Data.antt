-- ===== src/Protocol/Data.antt =====
-- model/bsdvr.cc: the data plane, from LoopbackRoute to Forwarding.
-- RouteInput and Forwarding return the calls of the stack's callbacks, in order; the callbacks do not
-- call the protocol back. A callback is a number, `none` the null callback.
pub mod Output
pub mod Input
pub mod Deferred
pub mod Forgets
pub mod Loopback
mod Tag
mod Tests
use bsdvr_ns.Base.{
  ℕ, ◌+◌, ◌^◌, Bool, true, false, not, ◌&&◌, ◌||◌, Option, none, some, List, [], ◌∷◌, ◌++◌, ◌==◌,
  ltb, if◌then◌else◌, and_then, any, found,
}
use bsdvr_ns.Base.Map.{Map, find}
use bsdvr_ns.Net.{Address, InterfaceAddress, Ipv4Route, create_route, World}
use bsdvr_ns.RoutingTable.{RoutingTableEntry, lookup_route}
use bsdvr_ns.PacketQueue.{
  ForwardingStatus, not_forwarded, Status, Ipv4Header, Packet, QueueEntry, enqueue,
}
use bsdvr_ns.Protocol.{Protocol, loopback}

-- Socket::SocketErrno
pub data SocketErrno : Type 0 where
  error_noterror error_noroutetohost : SocketErrno

pub data Call : Type 0 where
  deliver_call : ℕ → Packet → ℕ → Call
  error_call : ℕ → Packet → SocketErrno → Call
  forward_call : ℕ → ℕ → Packet → Ipv4Header → Call

abbrev pub is_empty : Map InterfaceAddress → Bool
is_empty [] = true
is_empty (x ∷ m) = false

-- The first address on a device, in the order of the sockets.
unfoldable pub address_on : World → ℕ → Map InterfaceAddress → Option Address
address_on w oif [] = none
address_on w oif ((_, iface) ∷ m) =
    let rest = address_on w oif m in
    if oif == w.net_device (w.interface_for_address iface.local) then some iface.local else rest

-- The source address that LoopbackRoute picks; a new Ipv4Route has the source Ipv4Address (). Without
-- a device the first socket's is read, whether or not there is one.
unfoldable pub loopback_source : World → Option ℕ → Map InterfaceAddress → Option Address
loopback_source w (some oif) m = elim (address_on w oif m) [
  | some a ↦ some a
  | none ↦ some w.no_address
]
loopback_source w none [] = none
loopback_source w none ((_, iface) ∷ m) = some iface.local

abbrev pub lo_route : Address → Address → ℕ → Ipv4Route
lo_route dst source lo = record {
  destination = dst;
  gateway = loopback;
  source = source;
  output_device = lo;
}

-- The loop asks m_ipv4 about each address, where a device was asked for.
abbrev pub source_for : World → Option ℕ → Protocol → Option Address
source_for w oif p =
    if found oif && not p.has_ipv4 then none else loopback_source w oif p.socket_addresses

-- LoopbackRoute: the new route and the state with it.
unfoldable pub loopback_route : World → Address → Option ℕ → Protocol → Option (ℕ × Protocol)
loopback_route w dst oif p = and_then p.lo (λ lo. and_then (source_for w oif p) (λ source.
    if source == w.no_address
    then none
    else some (
      p.routing_table.routes.fresh,
      record p {
        routing_table = record p.routing_table {
          routes = create_route (lo_route dst source lo) p.routing_table.routes;
        };
      },
    )))

-- The interface in a new DeferredRouteOutputTag: `none` is -1, which the stack also returns for a
-- device that is not its own.
abbrev pub tag_interface : World → Option ℕ → Option ℕ
tag_interface w none = none
tag_interface w (some oif) =
    if w.interface_for_device oif == 4294967295 then none else some (w.interface_for_device oif)

-- A tag is added to a packet that has none.
abbrev pub add_packet_tag : ℕ → Option ℕ → (ℕ → Option (Option ℕ)) → ℕ → Option (Option ℕ)
add_packet_tag packet oif tags =
    if found (tags packet) then tags else λ x. if x == packet then some oif else tags x

abbrev pub add_tag : ℕ → Option ℕ → Protocol → Protocol
add_tag packet oif p = record p { tag_of = add_packet_tag packet oif p.tag_of }

-- The branch of RouteOutput for a destination with an entry.
abbrev pub use_route : Option ℕ → ℕ → Protocol → Option ℕ × SocketErrno × Protocol
use_route none route p = (some route, error_noterror, p)
use_route (some oif) route p =
    if (p.routing_table.routes.route_at route).output_device == oif
    then (some route, error_noterror, p)
    else (none, error_noroutetohost, p)

abbrev pub loop_back :
    World → Address → Option ℕ → SocketErrno → Protocol → Option (Option ℕ × SocketErrno × Protocol)
loop_back w dst oif err p =
    and_then (loopback_route w dst oif p) (λ (route, q). some (some route, err, q))

-- The packet, if it is not null, by its pointer; `err` is what sockerr holds before.
unfoldable pub route_output :
    World
    → Option ℕ
    → Address
    → Option ℕ
    → SocketErrno
    → Protocol
    → Option (Option ℕ × SocketErrno × Protocol)
route_output w none dst oif err p = loop_back w dst oif err p
route_output w (some packet) dst oif err p =
    if is_empty p.socket_addresses
    then some (none, error_noroutetohost, p)
    else elim (lookup_route dst p.routing_table.forwarding_table) [
      | some e ↦ some (use_route oif e.ipv4_route p)
      | none ↦ loop_back w dst oif error_noterror (add_tag packet (tag_interface w oif) p)
    ]

unfoldable pub is_my_own_address : Address → Map InterfaceAddress → Bool
is_my_own_address src [] = false
is_my_own_address src ((_, iface) ∷ m) =
    let rest = is_my_own_address src m in if src == iface.local then true else rest

unfoldable pub forwarding : Packet → Ipv4Header → ℕ → Protocol → Bool × List Call
forwarding packet header ucb p =
    elim (lookup_route header.destination p.routing_table.forwarding_table) [
      | some e ↦ (true, forward_call ucb e.ipv4_route packet header ∷ [])
      | none ↦ (false, [])
    ]

-- The local delivery, or the error where there is no callback for it.
abbrev pub deliver : Option ℕ → ℕ → Packet → ℕ → List Call
deliver none ecb packet iif = error_call ecb packet error_noroutetohost ∷ []
deliver (some lcb) ecb packet iif = deliver_call lcb packet iif ∷ []

-- Whether a broadcast is taken by the loop of RouteInput over the sockets.
unfoldable pub is_broadcast_here : World → Address → ℕ → Map InterfaceAddress → Bool
is_broadcast_here w dst iif m =
    any
      (λ (_, iface).
        w.interface_for_address iface.local == iif
        && (dst == iface.broadcast || w.is_broadcast dst))
      m

-- What follows the delivery of a broadcast: 653 is BSDVR_PORT, 17 the number of UDP.
unfoldable pub forward_broadcast : World → Packet → Ipv4Header → ℕ → Protocol → List Call
unfolding forwarding
forward_broadcast w packet header ucb p =
    if not p.enable_broadcast
    then []
    else if header.protocol == 17 && w.udp_port packet.pointer == 653
    then []
    else if ltb 1 header.ttl
    then (forwarding (record packet { pointer = w.copy_of packet.pointer }) header ucb p).1
    else []

-- RouteInput after the tests on the packet's origin.
unfoldable pub receive_packet :
    World → Packet → Ipv4Header → ℕ → ℕ → Option ℕ → ℕ → Protocol → Bool × List Call
unfolding forward_broadcast forwarding is_broadcast_here
receive_packet w packet header iif ucb lcb ecb p =
    if w.is_multicast header.destination
    then (false, [])
    else if is_broadcast_here w header.destination iif p.socket_addresses
    then (true, deliver lcb ecb packet iif ++ forward_broadcast w packet header ucb p)
    else if w.is_destination_address header.destination iif
    then (true, deliver lcb ecb packet iif)
    else if not (w.is_forwarding iif)
    then (true, error_call ecb packet error_noroutetohost ∷ [])
    else forwarding packet header ucb p

abbrev pub is_lo : ℕ → Option ℕ → Bool
is_lo dev none = false
is_lo dev (some lo) = dev == lo

module _ (status_of : ForwardingStatus → Status) where
  unfoldable pub deferred_route_output : Packet → Ipv4Header → ℕ → ℕ → Protocol → Protocol
  deferred_route_output packet header ucb ecb p = record p {
    queue =
        (enqueue status_of
          (record {
            packet = packet;
            status = status_of not_forwarded;
            header = header;
            ucb = ucb;
            ecb = ecb;
          })
          p.queue).1;
  }

  unfoldable pub route_input :
      World
      → Packet
      → Ipv4Header
      → ℕ
      → ℕ
      → Option ℕ
      → ℕ
      → Protocol
      → Option (Bool × List Call × Protocol)
  unfolding receive_packet
  route_input w packet header idev ucb lcb ecb p =
      if is_empty p.socket_addresses
      then some (false, [], p)
      else if not p.has_ipv4 || not (ltb (w.interface_for_device idev) (2 ^ 31))
      then none
      else if is_lo idev p.lo && found (p.tag_of packet.pointer)
      then some (true, [], deferred_route_output packet header ucb ecb p)
      else if is_my_own_address header.source p.socket_addresses
      then some (true, [], p)
      else let (taken, calls) =
          receive_packet w packet header (w.interface_for_device idev) ucb lcb ecb p in
        some (taken, calls, p)
