-- ===== src/Protocol/System.antt =====
-- model/bsdvr.cc: the runs of a node. An event is a call that ns-3 makes: a timer that goes off, a
-- packet for a socket, and the virtual functions of Ipv4RoutingProtocol. The world answers as it likes
-- at every event. A call that fails an assertion is no step, for the program ends there.
pub mod Sending
pub mod Handling
pub mod Meeting
pub mod Receiving
pub mod Events
pub mod Leaving
pub mod Reachable
pub mod Alive
pub mod Staying
pub mod Responding
pub mod Installing
pub mod Routing
pub mod Lasting
pub mod Discovery
pub mod Exchange
mod Tests
use bsdvr_ns.Base.{ℕ, ◌≡◌, true, Bool, Option, none, some, List}
use bsdvr_ns.Net.{Address, InterfaceAddress, World}
use bsdvr_ns.Packet.{Wire}
use bsdvr_ns.PacketQueue.{ForwardingStatus, Status, Ipv4Header, Packet}
use bsdvr_ns.Protocol.{Protocol}
use bsdvr_ns.Protocol.Handlers.{purge_neighbors, hello_timer_expire}
use bsdvr_ns.Protocol.Receive.{recv_bsdv}
use bsdvr_ns.Protocol.Data.{SocketErrno, Call, route_output, route_input}
use bsdvr_ns.Protocol.Start.{
  new_protocol, set_max_queue_len, set_max_pr_queue_len, set_max_pr_queue_time, set_hello_enable,
  set_broadcast_enable, do_dispose, do_initialize, start,
}
use bsdvr_ns.Protocol.Interfaces.{
  set_ipv4, notify_interface_up, notify_tx_error, notify_interface_down, notify_add_address,
  notify_remove_address,
}

-- An attribute that is set.
pub data Setting : Type 0 where
  max_queue_len max_pr_queue_len max_pr_queue_time hello_interval : ℕ → Setting
  enable_hello enable_broadcast : Bool → Setting

unfoldable pub set : Setting → Protocol → Protocol
unfolding set_max_queue_len set_max_pr_queue_len set_max_pr_queue_time set_hello_enable
    set_broadcast_enable
set (max_queue_len len) p = set_max_queue_len len p
set (max_pr_queue_len len) p = set_max_pr_queue_len len p
set (max_pr_queue_time t) p = set_max_pr_queue_time t p
set (hello_interval t) p = record p { hello_interval = t }
set (enable_hello f) p = set_hello_enable f p
set (enable_broadcast f) p = set_broadcast_enable f p

-- For what the constructor of Status leaves, and over a buffer.
pub data Step (status_of : ForwardingStatus → Status) (b : Wire) (p : Protocol)
    : Protocol → Type 0 where
  configured : (s : Setting) → Step status_of b p (set s p)
  ipv4_set : (w : World) {q : Protocol} → set_ipv4 w p ≡ some q → Step status_of b p q
  started : (w : World) → p.starting ≡ true → Step status_of b p (start w p)
  initialized : (w : World) (jitter : ℕ → ℕ) → Step status_of b p (do_initialize w jitter p)
  disposed : Step status_of b p (do_dispose p)
  interface_up :
      (w : World) (i : ℕ) {q : Protocol} → notify_interface_up w i p ≡ some q → Step status_of b p q
  interface_down :
      (w : World) (i : ℕ) {q : Protocol}
      → notify_interface_down w i p ≡ some q
      → Step status_of b p q
  address_added :
      (w : World) (i : ℕ) {q : Protocol} → notify_add_address w i p ≡ some q → Step status_of b p q
  address_removed :
      (w : World) (i : ℕ) (address : InterfaceAddress) {q : Protocol}
      → notify_remove_address w i address p ≡ some q
      → Step status_of b p q
  frame_lost :
      (w : World) (mac : ℕ) {q : Protocol} → notify_tx_error w mac p ≡ some q → Step status_of b p q
  htimer_expired :
      (w : World) (jitter : ℕ → ℕ) {q : Protocol}
      → hello_timer_expire w jitter p ≡ some q
      → Step status_of b p q
  ntimer_expired : (w : World) {q : Protocol} → purge_neighbors w p ≡ some q → Step status_of b p q
  received :
      (w : World) (fuel socket : ℕ) (packet : b.Bytes) (sender : Address) {q : Protocol}
      → recv_bsdv w status_of b fuel socket packet sender p ≡ some q
      → Step status_of b p q
  sent :
      (w : World) (packet : Option ℕ) (dst : Address) (oif : Option ℕ) (err : SocketErrno)
      {route : Option ℕ} {err' : SocketErrno} {q : Protocol}
      → route_output w packet dst oif err p ≡ some (route, err', q)
      → Step status_of b p q
  arrived :
      (w : World) (packet : Packet) (header : Ipv4Header) (idev ucb : ℕ) (lcb : Option ℕ) (ecb : ℕ)
      {taken : Bool} {calls : List Call} {q : Protocol}
      → route_input status_of w packet header idev ucb lcb ecb p ≡ some (taken, calls, q)
      → Step status_of b p q

pub data Reach (status_of : ForwardingStatus → Status) (b : Wire) : Protocol → Type 0 where
  constructed :
      (w : World) (second : ℕ) (memory : Bool) → Reach status_of b (new_protocol w second memory)
  next : {p q : Protocol} → Reach status_of b p → Step status_of b p q → Reach status_of b q
