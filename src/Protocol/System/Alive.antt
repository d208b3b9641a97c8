-- ===== src/Protocol/System/Alive.antt =====
-- model/bsdvr.cc: the runs of a node that keeps its interfaces, and the events that it has to answer.
use bsdvr_ns.Base.{
  not, ◌||◌, ℕ, ◌≤◌, ◌<◌, ◌≡◌, Bool, true, false, ◌&&◌, some, List, All, ◌==◌, for_each, length,
  Option,
}
use bsdvr_ns.Net.{Address, InterfaceAddress, World}
use bsdvr_ns.Packet.{
  Wire, MessageType, type_hello, type_update, new_type_header, deserialize_type, deserialize_update,
}
use bsdvr_ns.PacketQueue.{ForwardingStatus, Status}
use bsdvr_ns.Protocol.{Protocol, loopback}
use bsdvr_ns.Packet.{deserialize_hello}
use bsdvr_ns.Protocol.Receive.{learn_update}
use bsdvr_ns.Protocol.Completion.{IsUnasked}
use bsdvr_ns.Protocol.Handlers.{purge_neighbors, hello_timer_expire}
use bsdvr_ns.Protocol.Receive.{receiver_of, recv_bsdv}
use bsdvr_ns.Protocol.Start.{new_protocol}
use bsdvr_ns.Protocol.Interfaces.{set_ipv4, notify_tx_error}
use bsdvr_ns.Protocol.Interfaces.Addresses.{AreFresh}
use bsdvr_ns.Protocol.System.{
  Setting, max_queue_len, max_pr_queue_len, max_pr_queue_time, hello_interval, enable_hello,
  enable_broadcast, set, Step, configured, ipv4_set, started, initialized, disposed, interface_up,
  interface_down, address_added, address_removed, frame_lost, htimer_expired, ntimer_expired,
  received, sent, arrived,
}

-- The stack knows the interface of each of the node's addresses, with the address as its first.
abbrev pub IsAt : World → ℕ × InterfaceAddress → Type 0
IsAt w (socket, iface) = w.address_of (w.interface_for_address iface.local) ≡ iface

abbrev pub KnowsAddresses : World → Protocol → Type 0
KnowsAddresses w p = All (IsAt w) p.socket_addresses × All (IsAt w) p.socket_broadcast_addresses

-- An update, in what follows the type header, that says that the loopback address is inactive.
abbrev pub denies_loopback : (b : Wire) → MessageType → b.Bytes → Bool
denies_loopback b type_hello rest = false
denies_loopback b type_update rest =
    let upt = (deserialize_update b rest).1 in upt.binary_state == 0 && upt.dst == loopback

abbrev pub is_hostile : (b : Wire) → b.Bytes → Bool
is_hostile b packet =
    let t = (deserialize_type b packet (new_type_header type_update)).1 in
    t.valid && denies_loopback b t.message_type (b.read_u8 packet).1

-- What a node that is up has to answer: its two timers, a frame that is lost, and a packet.
pub data Event (b : Wire) : Type 0 where
  hello_timer : (ℕ → ℕ) → Event b
  neighbor_timer : Event b
  lost_frame : ℕ → Event b
  packet_for : ℕ → ℕ → b.Bytes → Address → Event b

abbrev pub handle :
    (status_of : ForwardingStatus → Status) (b : Wire)
    → World
    → Event b
    → Protocol
    → Option Protocol
handle status_of b w (hello_timer jitter) p = hello_timer_expire w jitter p
handle status_of b w neighbor_timer p = purge_neighbors w p
handle status_of b w (lost_frame mac) p = notify_tx_error w mac p
handle status_of b w (packet_for fuel socket packet sender) p =
    recv_bsdv w status_of b fuel socket packet sender p

abbrev pub has_header : (b : Wire) → MessageType → b.Bytes → Bool
has_header b type_hello rest = (deserialize_hello b rest).0 == 8
has_header b type_update rest = (deserialize_update b rest).0 == 16

-- A packet that has the bytes of its headers, so that the assertions at the end of Deserialize hold.
abbrev pub is_whole : (b : Wire) → b.Bytes → Bool
is_whole b packet =
    let (dist, t) = deserialize_type b packet (new_type_header type_update) in
    dist == 1 && (not t.valid || has_header b t.message_type (b.read_u8 packet).1)

-- No buffered packet is for a destination of the forwarding table that an update leads to.
abbrev pub IsIdle :
    (b : Wire) → World → MessageType → b.Bytes → Address → Address → Protocol → Type 0
IsIdle b w type_hello rest my src p = Unit
IsIdle b w type_update rest my src p =
    IsUnasked p (learn_update w (deserialize_update b rest).1 my src p).1.routing_table

-- A packet comes to a socket of the node, is whole and not hostile, the stack knows the node's
-- addresses, and no packet is buffered that an update would flush. Any other event may come.
abbrev pub IsFit : (b : Wire) → World → Event b → Protocol → Type 0
IsFit b w (hello_timer jitter) p = Unit
IsFit b w neighbor_timer p = Unit
IsFit b w (lost_frame mac) p = Unit
IsFit b w (packet_for fuel socket packet sender) p =
    (my : Address) × (receiver_of socket p ≡ some my)
    × (is_whole b packet ≡ true)
    × (is_hostile b packet ≡ false)
    × KnowsAddresses w p
    × IsIdle b w (deserialize_type b packet (new_type_header type_update)).1.message_type
        (b.read_u8 packet).1 my sender p

-- A maximum length of a queue is not below what the queue holds, and that of the pending reply queue is
-- not 0.
abbrev pub IsRoomy : Setting → Protocol → Type 0
IsRoomy (max_queue_len len) p = length p.queue.queue ≤ len
IsRoomy (max_pr_queue_len len) p = (0 < len) × (length p.prqueue.prqueue ≤ len)
IsRoomy (max_pr_queue_time t) p = Unit
IsRoomy (hello_interval t) p = Unit
IsRoomy (enable_hello f) p = Unit
IsRoomy (enable_broadcast f) p = Unit

module _ (status_of : ForwardingStatus → Status) (b : Wire) where
  -- No interface goes down, no address is removed, and the node is not disposed of; sockets that are
  -- made are new ones, and packets are not hostile.
  abbrev pub IsCalm : (p : Protocol) {q : Protocol} → Step status_of b p q → Type 0
  IsCalm p (configured s) = IsRoomy s p
  IsCalm p (ipv4_set w e) = Unit
  IsCalm p (started w e) = Unit
  IsCalm p (initialized w jitter) = Unit
  IsCalm p disposed = ⊥
  IsCalm p (interface_up w i e) = AreFresh w p
  IsCalm p (interface_down w i e) = ⊥
  IsCalm p (address_added w i e) = AreFresh w p
  IsCalm p (address_removed w i address e) = ⊥
  IsCalm p (frame_lost w mac e) = Unit
  IsCalm p (htimer_expired w jitter e) = Unit
  IsCalm p (ntimer_expired w e) = Unit
  IsCalm p (received w fuel socket packet sender e) =
      (is_hostile b packet ≡ false) × KnowsAddresses w p
  IsCalm p (sent w packet dst oif err e) = Unit
  IsCalm p (arrived w packet header idev ucb lcb ecb e) = Unit

  -- A node that was constructed, has its attributes set and was installed, and that has lived through
  -- calm steps since.
  pub data Alive : Protocol → Type 0 where
    installed :
        (w : World) (second : ℕ) (memory : Bool) (settings : List Setting) {q : Protocol}
        → 0 < q.prqueue.max_len
        → set_ipv4 w (for_each set settings (new_protocol w second memory)) ≡ some q
        → Alive q
    lived : {p q : Protocol} → Alive p → (s : Step status_of b p q) → IsCalm p s → Alive q
