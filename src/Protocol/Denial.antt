-- ===== src/Protocol/Denial.antt =====
-- model/bsdvr.cc: what an update does that says that the loopback address is inactive.
use bsdvr_ns.Base.{ℕ, [], ◌≡◌, refl, true, false, not, ◌&&◌, none, some, ◌==◌, arith, and_then}
use bsdvr_ns.Base.Map.{find}
use bsdvr_ns.Net.{Address, World}
use bsdvr_ns.RoutingTable.{active, state_eq, RoutingTableEntry, get_next_hop}
use bsdvr_ns.Packet.{UpdateHeader}
use bsdvr_ns.PacketQueue.{ForwardingStatus, Status}
use bsdvr_ns.ControlPlane.{is_in}
use bsdvr_ns.Protocol.{Protocol, loopback, is_filtered, find_socket, compute_changes}
use bsdvr_ns.Protocol.Handlers.{is_immediate, cost_back, reply_to, retransmit_to_neighbor}
use bsdvr_ns.Protocol.Receive.{learn_update, recv_update}
use bsdvr_ns.Protocol.Sends.{
  HasSockets-AreSendable, having_sent, all_sent, announces_all,
  send_triggered_update_changes_to_neighbors_lem,
}
use bsdvr_ns.Protocol.Sendable.{IsReady}
use bsdvr_ns.Protocol.Completion.{HasReceiver, learn_update-IsReady}
use bsdvr_ns.Protocol.Interfaces.Sockets.{send_update-missing}

-- The loopback address's entry as SetIpv4 makes it: active, over one hop, by way of itself, and out by
-- an interface without a socket.
pub record IsOwn (p : Protocol) (e : RoutingTableEntry) : Type 0 where
  pub stands : find loopback p.routing_table.forwarding_table ≡ some e
  pub is_active : state_eq e.state active ≡ true
  pub next : get_next_hop p.routing_table.routes e ≡ loopback
  pub hops_lem : e.hops ≡ 1
  pub no_socket : find_socket e.iface p.socket_addresses ≡ none

retransmit_to_neighbor-fails :
    (w : World) (upt : UpdateHeader) (e : RoutingTableEntry) (p : Protocol)
    → IsOwn p e
    → upt.dst ≡ loopback
    → (loopback == upt.origin) ≡ false
    → is_filtered upt.origin ≡ false
    → is_in upt.origin p.nb.nb ≡ true
    → retransmit_to_neighbor w upt p ≡ none
unfolding retransmit_to_neighbor reply_to
retransmit_to_neighbor-fails w upt e p o d n f i =
    let c : (state_eq e.state active && not (get_next_hop p.routing_table.routes e == upt.origin))
        ≡ true =
      rw o.next (ground (arith, o.is_active, n)) in
    let m : is_immediate e.hops upt.hop_count (
          cost_back p.routing_table.distance_vector_table (get_next_hop p.routing_table.routes e)
            upt.origin)
        ≡ true =
      rw o.hops_lem refl in
    rw (f, d, o.stands, i, c, m, retransmit_to_neighbor, reply_to)
      (send_update-missing p e upt.origin o.no_socket)

-- Where the node is ready and the receiver's interface has a socket, RecvUpdate fails for an update
-- that says that the loopback address is inactive, from a neighbor that is neither filtered nor the
-- loopback address, if the forwarding table that the update leads to has the loopback address's entry
-- as SetIpv4 makes it: SendUpdate is called for that entry, whose interface has no socket.
pub recv_update-fails :
    (w : World) (status_of : ForwardingStatus → Status) (fuel : ℕ) (upt : UpdateHeader)
    (my src : Address) (e : RoutingTableEntry) (p : Protocol)
    → IsReady p
    → HasReceiver w p.socket_addresses my
    → IsOwn (learn_update w upt my src p).1 e
    → upt.dst ≡ loopback
    → upt.binary_state ≡ 0
    → (loopback == upt.origin) ≡ false
    → is_filtered upt.origin ≡ false
    → is_in upt.origin p.nb.nb ≡ true
    → recv_update w status_of fuel upt my src p ≡ none
unfolding recv_update learn_update compute_changes
recv_update-fails w status_of fuel upt my src e p r s o d z n f i =
    let (changes, q) = learn_update w upt my src p in
    let (k, a) = learn_update-IsReady w upt my src p s r in
    let x = having_sent q (all_sent (announces_all q changes []) q.nb.nb) in
    let sent =
      send_triggered_update_changes_to_neighbors_lem changes [] q
        (HasSockets-AreSendable q changes k.sends.0 a) in
    let o' : IsOwn x e = record {
      stands = o.stands;
      is_active = o.is_active;
      next = o.next;
      hops_lem = o.hops_lem;
      no_socket = o.no_socket;
    } in
    let c : (upt.binary_state == 0 && not (upt.dst == upt.origin)) ≡ true =
      rw (z, d) (ground (arith, n)) in
    rw (sent, c, recv_update)
      (rw (retransmit_to_neighbor-fails w upt e x o' d n f i, and_then) refl)
