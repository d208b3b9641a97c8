-- ===== src/Protocol/Sendable.antt =====
-- model/bsdvr.cc: that ComputeForwardingTable and UpdateDistanceVectorTable leave tables whose updates can
-- be sent.
use bsdvr_ns.Base.{ℕ, ◌≡◌, refl, true, false, List, All, any, Returns, found, contains, arith}
use bsdvr_ns.Base.Map.{Map, find}
use bsdvr_ns.Net.{Address, InterfaceAddress, Routes, World}
use bsdvr_ns.RoutingTable.{RoutingTableEntry, RoutingTable}
use bsdvr_ns.ControlPlane.{compute_forwarding_table, update_distance_vector_table}
use bsdvr_ns.ControlPlane.Every.{
  IsVectorOf, AreOver, compute_forwarding_table-AreOver, update_distance_vector_table-AreOver,
}
use bsdvr_ns.ControlPlane.Changes.{compute_forwarding_table-changes}
use bsdvr_ns.ControlPlane.Forwarding.{update_distance_vector_table-forwarding_table}
use bsdvr_ns.Protocol.{
  Protocol, Sent, loopback, find_socket, compute_changes,
  send_triggered_update_changes_to_neighbors,
}
use bsdvr_ns.Protocol.Sends.{
  GoesOut, HasSocket, HasSockets, HasSockets-AreSendable, all_sent, announces_all, having_sent,
  send_triggered_update_changes_to_neighbors_lem,
}
use bsdvr_ns.PacketQueue.Bound as Bound
use bsdvr_ns.PendingReplies.About.{is_about}
use bsdvr_ns.PendingReplies.Enqueue.{IsWellFormed}

-- Every entry of every table goes out by an interface with a socket, but for the forwarding table's
-- entry for the loopback address, which is there.
abbrev pub CanSend : Protocol → Type 0
CanSend p =
    HasSockets p
    × All (IsVectorOf (GoesOut p)) p.routing_table.distance_vector_table
    × (found (find loopback p.routing_table.forwarding_table) ≡ true)

-- The node has IP and a loopback device, updates can be sent, the pending reply queue has room for an
-- entry, is within its length, has no pair twice and no reply about the loopback address, each
-- address with a broadcast socket has a socket, and the packet buffer is within its length, with no
-- packet twice for one destination.
abbrev pub HasPartner : Protocol → ℕ × InterfaceAddress → Type 0
HasPartner p (s, iface) = found (find_socket iface p.socket_addresses) ≡ true

pub record IsReady (p : Protocol) : Type 0 where
  pub sends : CanSend p
  pub replies : IsWellFormed p.prqueue
  pub others : any (is_about loopback) p.prqueue.prqueue ≡ false
  pub partners : All (HasPartner p) p.socket_broadcast_addresses
  pub with_ipv4 : p.has_ipv4 ≡ true
  pub with_lo : found p.lo ≡ true
  pub buffer : Bound.IsWellFormed p.queue

-- And its sockets are these.
abbrev pub Keeps : Map InterfaceAddress → Protocol → Type 0
Keeps m p = (p.socket_addresses ≡ m) × IsReady p

-- The tables are replaced by others whose updates can be sent.
pub with_tables :
    (p : Protocol) (t : RoutingTable)
    → IsReady p
    → CanSend (record p { routing_table = t })
    → IsReady (record p { routing_table = t })
with_tables p t r c = record {
  sends = c;
  replies = r.replies;
  others = r.others;
  partners = r.partners;
  with_ipv4 = r.with_ipv4;
  with_lo = r.with_lo;
  buffer = r.buffer;
}

pub with_sent : (p : Protocol) (s : List Sent) → IsReady p → IsReady (record p { sent = s })
with_sent p s r = record {
  sends = r.sends;
  replies = r.replies;
  others = r.others;
  partners = r.partners;
  with_ipv4 = r.with_ipv4;
  with_lo = r.with_lo;
  buffer = r.buffer;
}

GoesOut-HasSocket :
    (p : Protocol) (d : Address) (e : RoutingTableEntry) → GoesOut p (d, e) → HasSocket p (d, e)
GoesOut-HasSocket p d e h = ground (arith, h)

module _ (w : World) where
  pub update_distance_vector_table-IsReady :
      (n : Address) (rt : RoutingTableEntry) (h : Routes) (p : Protocol)
      → found (find_socket rt.iface p.socket_addresses) ≡ true
      → IsReady p
      → IsReady (record p {
        routing_table =
            update_distance_vector_table w n rt p.nb.nb (record p.routing_table { routes = h });
      })
  update_distance_vector_table-IsReady n rt h p s r =
      let (f, v, l) = r.sends in
      let t = record p.routing_table { routes = h } in
      let P = HasSocket p in
      let a : AreOver h P (GoesOut p) (update_distance_vector_table w n rt p.nb.nb t) =
        update_distance_vector_table-AreOver h P (GoesOut p) (GoesOut-HasSocket p) (λ d x k. k) w n
          rt p.nb.nb t s (refl, f, v) in
      with_tables p _ r
        (a.1, a.2, rw (update_distance_vector_table-forwarding_table w n rt p.nb.nb t) l)

  -- The loopback address is no change.
  pub compute_changes-IsReady :
      (p : Protocol)
      → IsReady p
      → IsReady (compute_changes w p).1 × (contains loopback (compute_changes w p).0 ≡ false)
  unfolding compute_changes
  compute_changes-IsReady p r =
      let (f, v, l) = r.sends in
      let t = p.routing_table in
      let P = HasSocket p in
      let a : AreOver t.routes P (GoesOut p)
          (compute_forwarding_table w p.main_address p.nb.nb t).0 =
        compute_forwarding_table-AreOver t.routes P (GoesOut p) (GoesOut-HasSocket p) (λ d x k. k) w
          p.main_address p.nb.nb t (refl, f, v) in
      let (c, k) = compute_forwarding_table-changes loopback w p.main_address p.nb.nb t in
      (with_tables p _ r (a.1, a.2, k l), ground (arith, c, l))

  -- The updates about the changes are sent.
  pub send_changes-Keeps :
      (m : Map InterfaceAddress) (changes nex : List Address) (p : Protocol)
      → Keeps m p
      → contains loopback changes ≡ false
      → Returns
          (λ r. Keeps m r × (r ≡ having_sent p (all_sent (announces_all p changes nex) p.nb.nb)))
          (send_triggered_update_changes_to_neighbors changes nex p)
  send_changes-Keeps m changes nex p (e, r) n =
      let sent = all_sent (announces_all p changes nex) p.nb.nb in
      (
        having_sent p sent,
        send_triggered_update_changes_to_neighbors_lem changes nex p
            (HasSockets-AreSendable p changes r.sends.0 n),
        ((e, with_sent p _ r), refl),
      )
