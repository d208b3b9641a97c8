-- ===== src/Protocol/Interfaces.antt =====
-- model/bsdvr.cc: SetIpv4, and what the protocol does about interfaces, addresses and lost frames.
-- An operation returns `none` where the source dereferences a null pointer or fails an assertion.
pub mod Sockets
pub mod Events
pub mod Addresses
pub mod UpDown
mod Tests
use bsdvr_ns.Base.{
  ℕ, suc, Bool, true, false, not, ◌&&◌, ◌||◌, Option, none, some, List, [], ◌∷◌, ◌++◌, map, ◌==◌,
  if◌then◌else◌, reject, found, and_then,
}
use bsdvr_ns.Base.Map.{Map, insert, erase}
use bsdvr_ns.Net.{
  Address, InterfaceAddress, Wifi, no_wifi, null_mac, other_mac, adhoc_mac, Routes, World,
  cancel_timer, schedule_timer,
}
use bsdvr_ns.RoutingTable.{RoutingTable, new_entry, add_route, delete_all_routes_from_interface}
use bsdvr_ns.RoutingTable as Table
use bsdvr_ns.Neighbors.{
  new_neighbors, schedule_ntimer, add_arp_cache, del_arp_cache, mark_closed, process_tx_error,
}
use bsdvr_ns.Neighbors as Nb
use bsdvr_ns.Protocol.{Protocol, loopback, find_socket}
use bsdvr_ns.Protocol.Handlers.{on_link_failure, with_neighbors}
use bsdvr_ns.Protocol.Data.{is_empty}

-- AddRoute of a new entry of the forwarding table, by way of its destination and over one hop.
unfoldable pub add_direct : ℕ → Address → InterfaceAddress → RoutingTable → RoutingTable
add_direct dev dst iface t =
    let (e, h) = new_entry dev dst iface 1 dst false t.routes in
    record t { forwarding_table = (add_route h e t.forwarding_table).0; routes = h }

unfoldable pub set_ipv4 : World → Protocol → Option Protocol
set_ipv4 w p =
    if p.has_ipv4 || not (w.n_interfaces == 1 && (w.address_of 0).local == loopback)
    then none
    else some (record p {
      has_ipv4 = true;
      lo = some (w.net_device 0);
      starting = true;
      routing_table =
          add_direct (w.net_device 0) loopback (w.make_iface loopback 4278190080) p.routing_table;
    })

-- What three of the events do for an address: two sockets, and the route for broadcasts.
unfoldable pub open_sockets : World → InterfaceAddress → Protocol → Protocol
unfolding add_direct
open_sockets w iface p = record p {
  socket_addresses = insert (w.socket_at p.sockets_made) iface p.socket_addresses;
  socket_broadcast_addresses =
      insert (w.socket_at (suc p.sockets_made)) iface p.socket_broadcast_addresses;
  sockets_made = suc (suc p.sockets_made);
  routing_table =
      add_direct (w.net_device (w.interface_for_address iface.local)) iface.broadcast iface
        p.routing_table;
}

abbrev pub take_main_address : World → Address → Protocol → Protocol
take_main_address w addr p =
    if p.main_address == w.no_address then record p { main_address = addr } else p

abbrev pub learn_arp : Option ℕ → Protocol → Protocol
learn_arp none p = p
learn_arp (some cache) p = record p { nb = add_arp_cache cache p.nb }

abbrev pub trace : Wifi → ℕ → Protocol → Protocol
trace no_wifi dev p = p
trace null_mac dev p = p
trace other_mac dev p = record p { traced = p.traced ++ dev ∷ [] }
trace adhoc_mac dev p = record p { traced = p.traced ++ dev ∷ [] }

unfoldable pub notify_interface_up : World → ℕ → Protocol → Option Protocol
unfolding open_sockets
notify_interface_up w i p =
    let iface = w.address_of i in
    let dev = w.net_device (w.interface_for_address iface.local) in
    let q = take_main_address w iface.local (open_sockets w iface p) in
    if not p.has_ipv4
    then none
    else if iface.local == loopback
    then some p
    else if q.main_address == w.no_address
    then none
    else some (trace (w.wifi_of dev) dev (learn_arp (w.arp_cache_of i) q))

-- NotifyTxError, with the receiver's MAC: m_nb.ProcessTxError (), whose callbacks see the vector with
-- the neighbor marked.
unfoldable pub notify_tx_error : World → ℕ → Protocol → Option Protocol
notify_tx_error w mac p =
    let seen : Protocol = record p { nb = record p.nb { nb = map (mark_closed mac) p.nb.nb } } in
    with_neighbors (process_tx_error w (some (on_link_failure w)) mac p.nb (some seen))

abbrev pub forget_arp : Option ℕ → Protocol → Protocol
forget_arp none p = p
forget_arp (some cache) p = record p { nb = del_arp_cache cache p.nb }

-- The end of the link state monitoring.
abbrev pub untrace : World → ℕ → Wifi → Protocol → Option Protocol
untrace w i no_wifi p = some p
untrace w i null_mac p = none
untrace w i other_mac p = some p
untrace w i adhoc_mac p = some (
    forget_arp (w.arp_cache_of i)
      (record p { traced = reject (λ d. d == w.net_device i) p.traced }))

abbrev pub close_socket : ℕ → Protocol → Protocol
close_socket socket p = record p { closed_sockets = p.closed_sockets ++ socket ∷ [] }

-- What is done when the last interface is gone.
unfoldable pub shut_down : Protocol → Protocol
shut_down p = record p {
  htimer = cancel_timer p.htimer;
  nb = Nb.clear p.nb;
  routing_table = Table.clear p.routing_table;
}

-- DeleteAllRoutesFromInterface on the forwarding table.
unfoldable pub drop_routes : InterfaceAddress → Protocol → Protocol
drop_routes iface p = record p {
  routing_table = record p.routing_table {
    forwarding_table = delete_all_routes_from_interface iface p.routing_table.forwarding_table;
  };
}

-- FindSubnetBroadcastSocketWithInterfaceAddress goes over its map as the other search does.
abbrev pub find_broadcast_socket : InterfaceAddress → Protocol → Option ℕ
find_broadcast_socket addr p = find_socket addr p.socket_broadcast_addresses

-- The two sockets of an address are closed and erased.
unfoldable pub close_sockets : InterfaceAddress → Protocol → Option Protocol
close_sockets iface p = and_then (find_socket iface p.socket_addresses) (λ socket.
    and_then (find_broadcast_socket iface p) (λ broadcast_socket. some (record p {
      socket_addresses = erase socket p.socket_addresses;
      socket_broadcast_addresses = erase broadcast_socket p.socket_broadcast_addresses;
      closed_sockets = p.closed_sockets ++ socket ∷ broadcast_socket ∷ [];
    })))

unfoldable pub notify_interface_down : World → ℕ → Protocol → Option Protocol
unfolding close_sockets shut_down drop_routes
notify_interface_down w i p =
    if not p.has_ipv4
    then none
    else and_then (untrace w i (w.wifi_of (w.net_device i)) p) (λ q.
      and_then (close_sockets (w.address_of i) q) (λ r.
        some (if is_empty r.socket_addresses then shut_down r else drop_routes (w.address_of i) r)))

unfoldable pub notify_add_address : World → ℕ → Protocol → Option Protocol
notify_add_address w i p =
    let iface = w.address_of i in
    if not p.has_ipv4
    then none
    else if not (w.is_up i)
    then some p
    else if not (w.n_addresses i == 1)
    then some p
    else if found (find_socket iface p.socket_addresses)
    then some p
    else if iface.local == loopback
    then some p
    else some (open_sockets w iface p)

-- The branch of NotifyRemoveAddress for the subnet broadcast socket, which is erased from the map of
-- the other sockets.
abbrev pub close_broadcast : Option ℕ → Protocol → Protocol
close_broadcast none p = p
close_broadcast (some socket) p = record (close_socket socket p) {
  socket_addresses = erase socket p.socket_addresses;
}

-- What NotifyRemoveAddress does about the socket that it finds.
unfoldable pub close_address : InterfaceAddress → ℕ → Protocol → Protocol
unfolding drop_routes
close_address address socket p =
    let q = close_socket socket (drop_routes address p) in
    close_broadcast (find_broadcast_socket address p)
      (record q { socket_addresses = erase socket q.socket_addresses })

unfoldable pub notify_remove_address : World → ℕ → InterfaceAddress → Protocol → Option Protocol
unfolding close_address open_sockets shut_down
notify_remove_address w i address p = elim (find_socket address p.socket_addresses) [
  | none ↦ some p
  | some socket ↦
      let q = close_address address socket p in
      let r = if w.n_addresses i == 0 then q else open_sockets w (w.address_of i) q in
      if not p.has_ipv4 then none else some (if is_empty r.socket_addresses then shut_down r else r)
]
