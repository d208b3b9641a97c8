-- ===== src/Protocol/System/Tests.antt =====
-- Node 1 starts, its interface comes up, and its hello timer goes off.
use bsdvr_ns.Base.{refl, true, false, some, ◌==◌, if◌then◌else◌}
use mathlib.Core.List.{Mem}
use bsdvr_ns.Net.{InterfaceAddress, World}
use bsdvr_ns.Protocol.{Sent, find_socket, send_update}
use bsdvr_ns.RoutingTable.{RoutingTableEntry, active}
use bsdvr_ns.ControlPlane.FakeEntries.{entry_at}
use bsdvr_ns.Protocol.Handlers.{hello_timer_expire}
use bsdvr_ns.Protocol.Completion.{IsUnasked-empty}
use bsdvr_ns.Protocol.Messages.{packet_of}
use bsdvr_ns.Protocol.System.Discovery.{IsMet}
use bsdvr_ns.Protocol.System.Exchange.{hello_timer_expire-recv_bsdv, send_update-recv_bsdv}
use bsdvr_ns.Protocol.{Protocol}
use bsdvr_ns.Protocol.Start.{new_protocol, set_hello_enable, start}
use bsdvr_ns.Protocol.Interfaces.{set_ipv4, add_direct}
use bsdvr_ns.Protocol.System.{
  ipv4_set, started, configured, enable_hello, set, Reach, constructed, next,
}
use bsdvr_ns.Protocol.System.Handling.{IsLegal}
use bsdvr_ns.Protocol.System.Reachable.{Reach-IsLegal}
use bsdvr_ns.Base.{◌++◌, ℕ, ◌≡◌, List, [], ◌∷◌, Returns, arith}
use bsdvr_ns.Base.Map.{find, insert, assign}
use bsdvr_ns.Neighbors.{add_arp_cache, new_neighbors}
use bsdvr_ns.Packet.{type_hello, serialize_type, serialize_hello}
use bsdvr_ns.Protocol.Receive.{recv_bsdv}
use bsdvr_ns.Protocol.Interfaces.{notify_interface_up}
use bsdvr_ns.PendingReplies as Replies
use bsdvr_ns.PacketQueue as Buffer
use bsdvr_ns.Protocol.System.{interface_up}
use bsdvr_ns.Protocol.System.Alive.{Alive, installed, lived}
use bsdvr_ns.Protocol.System.Lasting.{Alive-IsReady}
use bsdvr_ns.Protocol.Sendable.{IsReady}
use bsdvr_ns.Samples.{detour_table, entry, world, careless, bytes, bytes_lem, home}

abbrev booting_with : InterfaceAddress → World
booting_with iface = record world {
  address_of = λ i.
      if i == 0 then record { local = 2130706433; mask = 8; broadcast = 1; other = 0 } else iface;
}

abbrev booting : World
booting = booting_with home

abbrev begun_with : InterfaceAddress → Protocol
begun_with iface = set (enable_hello true) (new_protocol (booting_with iface) 10 false)

abbrev attached_with : InterfaceAddress → Protocol
attached_with iface = record (begun_with iface) {
  has_ipv4 = true;
  lo = some 0;
  starting = true;
  routing_table =
      add_direct 0 2130706433 ((booting_with iface).make_iface 2130706433 4278190080)
        (begun_with iface).routing_table;
}

abbrev attached : Protocol
attached = attached_with home

run : Reach careless bytes (start booting attached)
unfolding set_ipv4 add_direct set set_hello_enable new_protocol
run =
    next
      (next (next (constructed booting 10 false) (configured (enable_hello true)))
        (ipv4_set booting refl))
      (started booting refl)

Reach-IsLegal_example : IsLegal (start booting attached)
Reach-IsLegal_example = Reach-IsLegal careless bytes run

-- Its interface comes up, and a hello of node 2 comes to the socket.
abbrev settled_with : InterfaceAddress → Protocol
settled_with iface = record (attached_with iface) {
  main_address = iface.local;
  socket_addresses = (5, iface) ∷ [];
  socket_broadcast_addresses = (6, iface) ∷ [];
  sockets_made = 2;
  traced = 1 ∷ [];
  nb = add_arp_cache 1 (attached_with iface).nb;
  routing_table = add_direct 1 iface.broadcast iface (attached_with iface).routing_table;
}

abbrev settled : Protocol
settled = settled_with home

settled-Alive : Alive careless bytes settled
unfolding set_ipv4 add_direct set set_hello_enable new_protocol notify_interface_up insert assign
    find Replies.new_queue
settled-Alive =
    lived (installed booting 10 false (enable_hello true ∷ []) (omega arith) refl)
      (interface_up booting 1 refl) (refl, refl)

Alive-IsReady_example : IsReady settled
Alive-IsReady_example = Alive-IsReady careless bytes settled-Alive

abbrev greeting : List ℕ
greeting =
    serialize_type bytes (record { message_type = type_hello; valid = true })
      (serialize_hello bytes (record { origin = 2; dst = 2 }) [])

-- Node 2, whose hello node 1 hears.
abbrev beside : InterfaceAddress
beside = record home { local = 2 }

beside-Alive : Alive careless bytes (settled_with beside)
unfolding set_ipv4 add_direct set set_hello_enable new_protocol notify_interface_up insert assign
    find Replies.new_queue
beside-Alive =
    lived (installed (booting_with beside) 10 false (enable_hello true ∷ []) (omega arith) refl)
      (interface_up (booting_with beside) 1 refl) (refl, refl)

hello_timer_expire-recv_bsdv_example :
    Returns
      (λ r.
        (h : Sent) × Mem h r.sent
        × (h.socket ≡ 5)
        × Returns
            (IsMet booting 2 1)
            (recv_bsdv booting careless bytes 1 6 (packet_of bytes h.message []) 2 settled))
      (hello_timer_expire (booting_with beside) (λ k. k) (settled_with beside))
unfolding find new_protocol set set_hello_enable
hello_timer_expire-recv_bsdv_example =
    hello_timer_expire-recv_bsdv careless bytes bytes_lem beside-Alive settled-Alive
      (booting_with beside) booting (λ k. k) 5 beside refl (omega arith) 1 6 2 1 [] refl refl
      ((refl, tt), (refl, tt))

-- Node 2 has a route of three hops to node 7, of which it tells node 1.
abbrev telling : Protocol
telling = record (settled_with beside) { routing_table = detour_table }

abbrev to_7 : RoutingTableEntry
to_7 = record (entry 0 3 active) { iface = beside }

send_update-recv_bsdv_example :
    Returns
      (λ r.
        (u : Sent) × (r.sent ≡ telling.sent ++ u ∷ [])
        × (u.receiver ≡ 1)
        × (some 5 ≡ some u.socket)
        × Returns
            (λ q.
              entry_at 2 7 q.routing_table.distance_vector_table
              ≡ some (record {
                hops = 4;
                ipv4_route = settled.routing_table.routes.fresh;
                iface = home;
                state = active;
                entries_changed = false;
              }))
            (recv_bsdv booting careless bytes 1 5 (packet_of bytes u.message []) 2 settled))
      (send_update to_7 1 telling)
unfolding find find_socket new_protocol set set_hello_enable Buffer.new_queue set_ipv4 add_direct
    add_arp_cache new_neighbors
send_update-recv_bsdv_example =
    send_update-recv_bsdv careless bytes bytes_lem settled-Alive telling to_7 1 refl (omega arith)
      (omega arith) (omega arith) refl booting 1 5 2 1 7 [] refl ((refl, tt), (refl, tt))
      (IsUnasked-empty settled _ refl)
