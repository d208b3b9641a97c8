-- ===== src/Protocol/System/Installing.antt =====
-- model/bsdvr.cc: that a node is ready once SetIpv4 returned.
use bsdvr_ns.Base.{
  ℕ, ◌≡◌, ◌<◌, refl, not, ◌&&◌, ◌||◌, Bool, [], ◌∷◌, ◌==◌, false, arith, if-both, IfSome, ==_refl,
}
use bsdvr_ns.Base.Map.{find, insert, assign}
use bsdvr_ns.Net.{Address, InterfaceAddress, World}
use bsdvr_ns.RoutingTable.{RoutingTable, RoutingTableEntry, new_entry, add_route, get_destination}
use bsdvr_ns.PendingReplies as Replies
use bsdvr_ns.PacketQueue as Buffer
use bsdvr_ns.PendingReplies.{PendingReplyEntry}
use bsdvr_ns.PacketQueue.{ForwardingStatus, Status, Ipv4Header, Packet}
use bsdvr_ns.PacketQueue.{PacketQueue}
use bsdvr_ns.Protocol.{Protocol, loopback}
use bsdvr_ns.Protocol.Start.{
  new_protocol, set_max_queue_len, set_max_pr_queue_len, set_max_pr_queue_time, set_hello_enable,
  set_broadcast_enable,
}
use bsdvr_ns.Protocol.Interfaces.{add_direct, set_ipv4}
use bsdvr_ns.Protocol.Sendable.{IsReady}
use bsdvr_ns.Protocol.System.{
  Setting, max_queue_len, max_pr_queue_len, max_pr_queue_time, hello_interval, enable_hello,
  enable_broadcast, set,
}

-- A node that has not begun, whatever its attributes.
pub record IsNew (p : Protocol) : Type 0 where
  pub no_entry : p.routing_table.forwarding_table ≡ []
  pub no_vector : p.routing_table.distance_vector_table ≡ []
  pub no_reply : p.prqueue.prqueue ≡ []
  pub no_socket : p.socket_broadcast_addresses ≡ []
  pub no_packet : p.queue.queue ≡ []

pub new_protocol-IsNew :
    (w : World) (second : ℕ) (memory : Bool) → IsNew (new_protocol w second memory)
unfolding new_protocol Replies.new_queue Buffer.new_queue
new_protocol-IsNew w second memory = record {
  no_entry = refl;
  no_vector = refl;
  no_reply = refl;
  no_socket = refl;
  no_packet = refl;
}

pub set-IsNew : (s : Setting) (p : Protocol) → IsNew p → IsNew (set s p)
unfolding set set_max_queue_len set_max_pr_queue_len set_max_pr_queue_time set_hello_enable
    set_broadcast_enable Replies.set_max_queue_len Replies.set_queue_timeout
    Buffer.set_max_queue_len
set-IsNew (max_queue_len len) p n = ground (arith, n)
set-IsNew (max_pr_queue_len len) p n = ground (arith, n)
set-IsNew (max_pr_queue_time t) p n = ground (arith, n)
set-IsNew (hello_interval t) p n = ground (arith, n)
set-IsNew (enable_hello f) p n = ground (arith, n)
set-IsNew (enable_broadcast f) p n = ground (arith, n)

add_direct-empty :
    (dev : ℕ) (dst : Address) (iface : InterfaceAddress) (t : RoutingTable)
    → t.forwarding_table ≡ []
    → (e : RoutingTableEntry) × ((add_direct dev dst iface t).forwarding_table ≡ (dst, e) ∷ [])
unfolding add_direct new_entry add_route insert find assign
add_direct-empty dev dst iface t h =
    let (e, k) = new_entry dev dst iface 1 dst false t.routes in
    let z : get_destination k e ≡ dst = rw (==_refl t.routes.fresh, get_destination) in
    (e, rw (h, z))

add_direct-vectors :
    (dev : ℕ) (dst : Address) (iface : InterfaceAddress) (t : RoutingTable)
    → (add_direct dev dst iface t).distance_vector_table ≡ t.distance_vector_table
unfolding add_direct
add_direct-vectors dev dst iface t = refl

-- SetIpv4 makes the one entry, for the loopback address.
pub set_ipv4-IsReady :
    (w : World) (p : Protocol)
    → IsNew p
    → IfSome (λ q. 0 < q.prqueue.max_len → IsReady q) (set_ipv4 w p)
unfolding set_ipv4 find
set_ipv4-IsReady w p n =
    let lo = w.make_iface loopback 4278190080 in
    let t = p.routing_table in
    let (e, z) = add_direct-empty (w.net_device 0) loopback lo t n.no_entry in
    let v = add_direct-vectors (w.net_device 0) loopback lo t in
    if-both (IfSome (λ (q : Protocol). 0 < q.prqueue.max_len → IsReady q))
      (p.has_ipv4 || not (w.n_interfaces == 1 && (w.address_of 0).local == loopback)) (λ _. tt)
      (λ _ l. record {
        sends = (rw z (refl, tt), rw (v, n.no_vector) tt, rw z refl);
        replies = record {
          distinct = rw n.no_reply tt;
          bounded = rw n.no_reply (omega arith);
          roomy = l;
        };
        others = rw n.no_reply refl;
        partners = rw n.no_socket tt;
        with_ipv4 = refl;
        with_lo = refl;
        buffer = (rw n.no_packet (omega arith), rw n.no_packet tt);
      })
