-- ===== src/Protocol/Receive.antt =====
-- model/bsdvr.cc: RecvUpdate and RecvBsdv, and SendPacketFromQueue, which RecvUpdate ends with.
-- SendPacketFromQueue loops on Dequeue: its loop is on fuel, and `none` stands also for fuel that runs
-- out. The forward callback of a packet is the IP stack's and does not call the protocol back. The
-- constructor of Status is `status_of`, as in PacketQueue.
use bsdvr_ns.Base.{
  ℕ, suc, zero, ◌+◌, ◌%◌, ◌^◌, Bool, true, false, not, ◌&&◌, Option, none, some, List, [], ◌∷◌,
  ◌++◌, ◌==◌, if◌then◌else◌, and_then, for_some,
}
use bsdvr_ns.Base.Map.{find}
use bsdvr_ns.Net.{Address, World}
use bsdvr_ns.RoutingTable.{
  RouteState, inactive, active, state_eq, RoutingTableEntry, new_entry, set_route_state,
}
use bsdvr_ns.Packet.{
  Wire, UpdateHeader, MessageType, type_hello, type_update, new_type_header, deserialize_type,
  deserialize_update, deserialize_hello,
}
use bsdvr_ns.PacketQueue.{ForwardingStatus, Status, QueueEntry, dequeue, find_dst}
use bsdvr_ns.ControlPlane.{update_distance_vector_table}
use bsdvr_ns.Protocol.{Protocol, compute_changes, send_triggered_update_changes_to_neighbors}
use bsdvr_ns.Protocol.Handlers.{recv_hello, retransmit_to_neighbor}

-- The test on the packet's DeferredRouteOutputTag: an interface that is not the route's.
abbrev pub is_mismatch : ℕ → Option (Option ℕ) → Bool
is_mismatch i none = false
is_mismatch i (some none) = false
is_mismatch i (some (some oif)) = not (oif == i)

-- Whether the test asks m_ipv4: the tag has an interface.
abbrev pub has_interface : Option (Option ℕ) → Bool
has_interface none = false
has_interface (some none) = false
has_interface (some (some oif)) = true

-- RemovePacketTag
abbrev pub remove_tag : ℕ → Protocol → Protocol
remove_tag packet p = record p { tag_of = λ x. if x == packet then none else p.tag_of x }

-- The call of the packet's forward callback.
unfoldable pub forward : ℕ → QueueEntry → Protocol → Protocol
forward route e p = record p {
  forwarded =
      p.forwarded
      ++ record {
        callback = e.ucb;
        route_used = route;
        packet_pointer = e.packet.pointer;
        new_header = record e.header {
          source = (p.routing_table.routes.route_at route).source;
          ttl = (e.header.ttl + 1) % 2 ^ 8;
        };
      }
        ∷ [];
}

-- The value that Dequeue is called with.
abbrev pub state_value : RouteState → ℕ
state_value s = if state_eq s active then 2 else 1

-- RecvUpdate up to its call of SendTriggeredUpdateChangesToNeighbors: the hop count has 8 bits.
unfoldable pub learn_update :
    World → UpdateHeader → Address → Address → Protocol → List Address × Protocol
learn_update w upt my src p =
    let t = p.routing_table in
    let i = w.interface_for_address my in
    let (e, h) =
      new_entry (w.net_device i) upt.dst (w.address_of i) ((upt.hop_count + 1) % 2 ^ 8) src false
        t.routes in
    let rt = set_route_state (if upt.binary_state == 1 then active else inactive) e in
    compute_changes w (record p {
      routing_table = update_distance_vector_table w src rt p.nb.nb (record t { routes = h });
    })

-- The receiver's address, which RecvBsdv asserts that the socket has.
abbrev pub receiver_of : ℕ → Protocol → Option Address
receiver_of socket p = elim (find socket p.socket_addresses) [
  | some iface ↦ some iface.local
  | none ↦ elim (find socket p.socket_broadcast_addresses) [
    | some iface ↦ some iface.local
    | none ↦ none
  ]
]

module _ (w : World) (status_of : ForwardingStatus → Status) where
  -- The loop of SendPacketFromQueue, on fuel.
  unfoldable pub drain : ℕ → Address → ℕ → ℕ → Protocol → Option Protocol
  unfolding forward
  drain zero dst route sval p = none
  drain (suc fuel) dst route sval p = elim (dequeue status_of dst sval p.queue) [
    | none ↦ some p
    | some (e, q) ↦
        let next = remove_tag e.packet.pointer (record p { queue = q }) in
        let rest = drain fuel dst route sval (forward route e next) in
        let i = w.interface_for_device (p.routing_table.routes.route_at route).output_device in
        if has_interface (p.tag_of e.packet.pointer) && not p.has_ipv4
        then none
        else if is_mismatch i (p.tag_of e.packet.pointer)
        then some next
        else rest
  ]

  unfoldable pub send_packet_from_queue : ℕ → Address → ℕ → RouteState → Protocol → Option Protocol
  unfolding drain
  send_packet_from_queue fuel dst route state p = drain fuel dst route (state_value state) p

  -- One round of the last loop of RecvUpdate.
  unfoldable pub flush_entry : ℕ → Address × RoutingTableEntry → Protocol → Option Protocol
  flush_entry fuel (dst, e) p =
      if find_dst dst p.queue
      then send_packet_from_queue fuel dst e.ipv4_route e.state p
      else some p

  unfoldable pub recv_update : ℕ → UpdateHeader → Address → Address → Protocol → Option Protocol
  recv_update fuel upt my src p =
      let (changes, q) = learn_update w upt my src p in
      and_then (send_triggered_update_changes_to_neighbors changes [] q) (λ r.
        and_then
          (if upt.binary_state == 0 && not (upt.dst == upt.origin)
            then retransmit_to_neighbor w upt r
            else some r)
          (λ s. for_some (flush_entry fuel) s.routing_table.forwarding_table s))

  -- The switch of RecvBsdv, on the type and on what follows the type header in the packet. Deserialize
  -- asserts that it has gone over GetSerializedSize bytes.
  unfoldable pub dispatch :
      (b : Wire) → ℕ → MessageType → b.Bytes → Address → Address → Protocol → Option Protocol
  dispatch b fuel type_hello rest my src p =
      let (dist, hl) = deserialize_hello b rest in if dist == 8 then recv_hello w hl my p else none
  dispatch b fuel type_update rest my src p =
      let (dist, upt) = deserialize_update b rest in
      if dist == 16 then recv_update fuel upt my src p else none

  unfoldable pub recv_bsdv : (b : Wire) → ℕ → ℕ → b.Bytes → Address → Protocol → Option Protocol
  recv_bsdv b fuel socket packet sender p = and_then (receiver_of socket p) (λ receiver.
      let (dist, t) = deserialize_type b packet (new_type_header type_update) in
      if not (dist == 1)
      then none
      else if t.valid
      then dispatch b fuel t.message_type (b.read_u8 packet).1 receiver sender p
      else some p)
