-- ===== src/Protocol.antt =====
-- model/bsdvr.h and model/bsdvr.cc: the state of RoutingProtocol and the updates that it sends.
-- An operation returns `none` where the source dereferences a null pointer or fails an assertion.
-- What the node sends is appended to `sent` and `forwarded`, in order.
pub mod Handlers
pub mod Receive
pub mod Sends
pub mod Buffered
pub mod Learn
pub mod Messages
pub mod Greeting
pub mod Hellos
pub mod Replies
pub mod Sendable
pub mod Completion
pub mod Failures
pub mod Liveness
pub mod Denial
pub mod Data
pub mod Start
pub mod Interfaces
pub mod System
mod Tests
use bsdvr_ns.Base.{
  ℕ, ◌+◌, ◌%◌, ◌^◌, Bool, true, false, not, ◌&&◌, ◌||◌, Option, none, some, List, [], ◌∷◌, ◌++◌,
  ◌==◌, ltb, if◌then◌else◌, contains, and_then, for_some,
}
use bsdvr_ns.Base.Map.{Map, find}
use bsdvr_ns.Net.{Address, InterfaceAddress, iface_eq, Timer, World}
use bsdvr_ns.RoutingTable.{
  inactive, active, state_eq, RoutingTableEntry, get_destination, get_next_hop, set_route_state,
  RoutingTable,
}
use bsdvr_ns.Neighbors.{Neighbor, Neighbors}
use bsdvr_ns.Packet.{UpdateHeader, HelloHeader}
use bsdvr_ns.PendingReplies.{PendingReplyEntry, PendingReplyQueue}
use bsdvr_ns.PacketQueue.{Ipv4Header, PacketQueue}
use bsdvr_ns.ControlPlane.{is_in, compute_forwarding_table, update_distance_vector_table}

pub data Message : Type 0 where
  update_message : UpdateHeader → Message
  hello_message : HelloHeader → Message

-- A packet given to a socket, after a delay.
pub record Sent : Type 0 where
  pub socket : ℕ
  pub message : Message
  pub ttl : ℕ
  pub receiver : Address
  pub after : ℕ

-- A call of a unicast forward callback.
pub record Forwarded : Type 0 where
  pub callback : ℕ
  pub route_used : ℕ
  pub packet_pointer : ℕ
  pub new_header : Ipv4Header

-- The two maps of sockets are sorted by the sockets' numbers. `tag_of` is the DeferredRouteOutputTag
-- that a packet carries, with the interface in it, `some none` for -1. `drawn` counts the numbers
-- drawn from m_uniformRandomVariable, `sockets_made` the sockets created, `traced` are the devices whose
-- DroppedMpdu trace calls NotifyTxError, and `starting` is whether Start is scheduled. `lo` and
-- `has_ipv4` tell whether m_lo and m_ipv4 are null.
pub record Protocol : Type 0 where
  pub main_address : Address
  pub socket_addresses : Map InterfaceAddress
  pub socket_broadcast_addresses : Map InterfaceAddress
  pub routing_table : RoutingTable
  pub lo : Option ℕ
  pub has_ipv4 : Bool
  pub starting : Bool
  pub sockets_made : ℕ
  pub closed_sockets : List ℕ
  pub traced : List ℕ
  pub enable_hello : Bool
  pub enable_broadcast : Bool
  pub hello_interval : ℕ
  pub nb : Neighbors
  pub max_queue_len : ℕ
  pub queue : PacketQueue
  pub max_pr_queue_len : ℕ
  pub max_pr_queue_time : ℕ
  pub prqueue : PendingReplyQueue
  pub htimer : Timer
  pub last_bcast_time : ℕ
  pub tag_of : ℕ → Option (Option ℕ)
  pub drawn : ℕ
  pub sent : List Sent
  pub forwarded : List Forwarded

-- 127.0.0.1, and 10.1.1.0 < ne < 10.1.1.51
abbrev pub loopback : Address
loopback = 2130706433

abbrev pub is_filtered : Address → Bool
is_filtered ne = ltb 167837952 ne && ltb ne 167838003

-- FindSocketWithInterfaceAddress
unfoldable pub find_socket : InterfaceAddress → Map InterfaceAddress → Option ℕ
find_socket addr [] = none
find_socket addr ((j, iface) ∷ m) =
    let rest = find_socket addr m in if iface_eq iface addr then some j else rest

-- The packet that SendUpdate makes.
abbrev pub update_packet : Protocol → RoutingTableEntry → Address → ℕ → Sent
update_packet p rt ne socket = record {
  socket = socket;
  message = update_message (record {
    origin = rt.iface.local;
    dst = get_destination p.routing_table.routes rt;
    hop_count = rt.hops;
    binary_state = if state_eq rt.state active then 1 else 0;
  });
  ttl = rt.hops % 2 ^ 8;
  receiver = ne;
  after = 0;
}

-- SendUpdate, which asserts that there is a socket for the entry's interface.
unfoldable pub send_update : RoutingTableEntry → Address → Protocol → Option Protocol
send_update rt ne p = elim (find_socket rt.iface p.socket_addresses) [
  | none ↦ none
  | some socket ↦ some (record p { sent = p.sent ++ update_packet p rt ne socket ∷ [] })
]

-- The body of the loop of SendTriggeredUpdateToNeighbor.
unfoldable pub send_entry :
    World → Address → Address × RoutingTableEntry → Protocol → Option Protocol
send_entry w ne (dst, e) p =
    if get_destination p.routing_table.routes e == w.no_address
    then some p
    else if not (dst == p.main_address) && (not (dst == ne) && not (dst == loopback))
    then send_update e ne p
    else some p

unfoldable pub send_triggered_update_to_neighbor : World → Address → Protocol → Option Protocol
send_triggered_update_to_neighbor w ne p =
    for_some (send_entry w ne) p.routing_table.forwarding_table p

-- The bodies of the two loops of SendTriggeredUpdateChangesToNeighbors.
unfoldable pub send_change : Address → Address → Protocol → Option Protocol
send_change ne dst p = elim (find dst p.routing_table.forwarding_table) [
  | none ↦ some p
  | some e ↦ if dst == ne then some p else send_update e ne p
]

unfoldable pub send_changes : List Address → List Address → Neighbor → Protocol → Option Protocol
send_changes changes nex i p =
    if contains i.neighbor_address nex
    then some p
    else for_some (send_change i.neighbor_address) changes p

unfoldable pub send_triggered_update_changes_to_neighbors :
    List Address → List Address → Protocol → Option Protocol
send_triggered_update_changes_to_neighbors changes nex p =
    for_some (send_changes changes nex) p.nb.nb p

-- ComputeForwardingTable as the handlers call it: the changes, and the new state.
unfoldable pub compute_changes : World → Protocol → List Address × Protocol
compute_changes w p =
    let (t, changes) = compute_forwarding_table w p.main_address p.nb.nb p.routing_table in
    (changes, record p { routing_table = t })

-- What SendUpdateOnLinkFailure does with the neighbor's own entry in its distance vector: first the
-- tables, then the updates.
unfoldable pub record_failure :
    World → Address → RoutingTableEntry → Protocol → List Address × Protocol
record_failure w ne e p =
    let t =
      update_distance_vector_table w ne (set_route_state inactive e) p.nb.nb p.routing_table in
    compute_changes w (record p { routing_table = t })

unfoldable pub fail_route : World → Address → RoutingTableEntry → Protocol → Option Protocol
fail_route w ne e p =
    let (changes, q) = record_failure w ne e p in
    send_triggered_update_changes_to_neighbors changes (ne ∷ []) q

unfoldable pub send_update_on_link_failure : World → Address → Protocol → Option Protocol
send_update_on_link_failure w ne p =
    if is_filtered ne then some p else elim (find ne p.routing_table.distance_vector_table) [
      | none ↦ some p
      | some dv ↦ elim (find ne dv) [ none ↦ some p | some e ↦ fail_route w ne e p ]
    ]

unfoldable pub send_update_on_pending_reply_entry_timeout :
    PendingReplyEntry → Protocol → Option Protocol
send_update_on_pending_reply_entry_timeout en p =
    if is_filtered en.neighbor
    then some p
    else elim (find en.destination p.routing_table.forwarding_table) [
      | none ↦ some p
      | some e ↦
          if is_in en.neighbor p.nb.nb
            && (state_eq e.state active
                && not (get_next_hop p.routing_table.routes e == en.neighbor))
          then send_update e en.neighbor p
          else some p
    ]
