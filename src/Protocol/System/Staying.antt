-- ===== src/Protocol/System/Staying.antt =====
-- model/bsdvr.cc: that the events of a node that keeps its interfaces leave it ready.
use bsdvr_ns.Base.{
  ℕ, ◌≡◌, refl, true, false, not, ◌||◌, Bool, Option, none, some, [], ◌∷◌, ◌==◌, All, All-mono,
  found, arith, if-both, option-both, IfSome,
}
use bsdvr_ns.Base.Map.{Map, find, assign, insert, insert-All, find-insert}
use bsdvr_ns.Net.{
  Address, InterfaceAddress, iface_eq, World, Wifi, no_wifi, null_mac, other_mac, adhoc_mac,
}
use bsdvr_ns.RoutingTable.{
  RoutingTableEntry, Entries, RoutingTable, new_entry, add_route, get_destination,
}
use bsdvr_ns.PendingReplies as Replies
use bsdvr_ns.PacketQueue as Buffer
use bsdvr_ns.ControlPlane.Every.{IsVectorOf}
use bsdvr_ns.Protocol.{Protocol, loopback, find_socket}
use bsdvr_ns.Protocol.Start.{
  set_max_queue_len, set_max_pr_queue_len, set_max_pr_queue_time, set_hello_enable,
  set_broadcast_enable, do_initialize, start,
}
use bsdvr_ns.Protocol.Interfaces.{
  add_direct, open_sockets, take_main_address, learn_arp, trace, notify_interface_up,
  notify_add_address,
}
use bsdvr_ns.Protocol.Interfaces.Addresses.{AreFresh}
use bsdvr_ns.Protocol.Interfaces.Sockets.{iface_eq_refl}
use bsdvr_ns.Protocol.Sends.{GoesOut, HasSocket}
use bsdvr_ns.Protocol.Sendable.{HasPartner, IsReady}
use bsdvr_ns.Protocol.System.{
  Setting, max_queue_len, max_pr_queue_len, max_pr_queue_time, hello_interval, enable_hello,
  enable_broadcast, set,
}
use bsdvr_ns.Protocol.System.Alive.{IsRoomy}

-- What a node is ready by stays as it was.
pub same-IsReady :
    (p q : Protocol)
    → q.socket_addresses ≡ p.socket_addresses
    → q.socket_broadcast_addresses ≡ p.socket_broadcast_addresses
    → q.routing_table ≡ p.routing_table
    → q.prqueue ≡ p.prqueue
    → q.has_ipv4 ≡ p.has_ipv4
    → q.lo ≡ p.lo
    → q.queue ≡ p.queue
    → IsReady p
    → IsReady q
same-IsReady p q s b t r i l u c = record {
  sends = rw (s, t) c.sends;
  replies = rw r c.replies;
  others = rw r c.others;
  partners = rw (s, b) c.partners;
  with_ipv4 = rw i c.with_ipv4;
  with_lo = rw l c.with_lo;
  buffer = rw u c.buffer;
}

pub set-IsReady : (s : Setting) (p : Protocol) → IsRoomy s p → IsReady p → IsReady (set s p)
unfolding set set_max_queue_len set_max_pr_queue_len set_max_pr_queue_time set_hello_enable
    set_broadcast_enable Replies.set_max_queue_len Replies.set_queue_timeout
    Buffer.set_max_queue_len
set-IsReady (max_queue_len len) p h r = record {
  sends = r.sends;
  replies = r.replies;
  others = r.others;
  partners = r.partners;
  with_ipv4 = r.with_ipv4;
  with_lo = r.with_lo;
  buffer = (h, r.buffer.1);
}
set-IsReady (max_pr_queue_len len) p h r = record {
  sends = r.sends;
  replies = record { distinct = r.replies.distinct; bounded = h.1; roomy = h.0 };
  others = r.others;
  partners = r.partners;
  with_ipv4 = r.with_ipv4;
  with_lo = r.with_lo;
  buffer = r.buffer;
}
set-IsReady (max_pr_queue_time t) p h r = record {
  sends = r.sends;
  replies = record {
    distinct = r.replies.distinct;
    bounded = r.replies.bounded;
    roomy = r.replies.roomy;
  };
  others = r.others;
  partners = r.partners;
  with_ipv4 = r.with_ipv4;
  with_lo = r.with_lo;
  buffer = r.buffer;
}
set-IsReady (hello_interval t) p h r = same-IsReady p _ refl refl refl refl refl refl refl r
set-IsReady (enable_hello f) p h r = same-IsReady p _ refl refl refl refl refl refl refl r
set-IsReady (enable_broadcast f) p h r = same-IsReady p _ refl refl refl refl refl refl refl r

find_socket-assign_new :
    (a x : InterfaceAddress) (k : ℕ) (m : Map InterfaceAddress)
    → find k m ≡ none
    → found (find_socket a (assign k x m)) ≡ (iface_eq x a || found (find_socket a m))
unfolding find_socket assign find
find_socket-assign_new a x k [] f = ground arith
find_socket-assign_new a x k ((j, y) ∷ m) f = ground (arith, find_socket-assign_new a x k m)

-- A socket with a new number is found, and hides no other.
find_socket-insert_new :
    (a x : InterfaceAddress) (k : ℕ) (m : Map InterfaceAddress)
    → find k m ≡ none
    → found (find_socket a (insert k x m)) ≡ (iface_eq x a || found (find_socket a m))
unfolding insert
find_socket-insert_new a x k m f = rw (f, insert) (find_socket-assign_new a x k m f)

-- The route for broadcasts.
add_direct-forwarding :
    (P : Address × RoutingTableEntry → Type 0) (dev : ℕ) (dst : Address) (iface : InterfaceAddress)
    (t : RoutingTable)
    → ((d : Address) (e : RoutingTableEntry) → e.iface ≡ iface → P (d, e))
    → All P t.forwarding_table
    → All P (add_direct dev dst iface t).forwarding_table
unfolding add_direct new_entry add_route
add_direct-forwarding P dev dst iface t i a =
    let (e, h) = new_entry dev dst iface 1 dst false t.routes in
    option-both (λ (x : Entries × Bool). All P x.0) (find (get_destination h e) t.forwarding_table)
      (λ _. insert-All P (get_destination h e) e t.forwarding_table (i _ e refl) a) (λ x _. a)

add_direct-found :
    (d : Address) (dev : ℕ) (dst : Address) (iface : InterfaceAddress) (t : RoutingTable)
    → found (find d t.forwarding_table) ≡ true
    → found (find d (add_direct dev dst iface t).forwarding_table) ≡ true
unfolding add_direct new_entry add_route
add_direct-found d dev dst iface t h =
    let (e, k) = new_entry dev dst iface 1 dst false t.routes in
    let g = get_destination k e in
    option-both (λ (x : Entries × Bool). found (find d x.0) ≡ true) (find g t.forwarding_table)
      (λ z. ground (arith, find-insert d g e t.forwarding_table, z, h)) (λ x _. h)

pub open_sockets-IsReady :
    (w : World) (iface : InterfaceAddress) (p : Protocol)
    → AreFresh w p
    → IsReady p
    → IsReady (open_sockets w iface p)
unfolding open_sockets
open_sockets-IsReady w iface p (n, _) r =
    let k = w.socket_at p.sockets_made in
    let m = p.socket_addresses in
    let t = p.routing_table in
    let q = open_sockets w iface p in
    let new = λ (a : InterfaceAddress). find_socket-insert_new a iface k m n in
    let here : found (find_socket iface q.socket_addresses) ≡ true =
      ground (arith, new iface, iface_eq_refl iface) in
    let kept : (a : InterfaceAddress)
        → found (find_socket a m) ≡ true
        → found (find_socket a q.socket_addresses) ≡ true =
      λ a h. ground (arith, new a, h) in
    let goes : (x : Address × RoutingTableEntry) → GoesOut p x → GoesOut q x =
      λ (d, e) h. kept e.iface h in
    let has : (x : Address × RoutingTableEntry) → HasSocket p x → HasSocket q x =
      λ (d, e) h. ground (arith, new e.iface, h) in
    let direct : (d : Address) (e : RoutingTableEntry) → e.iface ≡ iface → HasSocket q (d, e) =
      λ d e z.
        let g : found (find_socket e.iface q.socket_addresses) ≡ true = rw z here in
        ground (arith, g) in
    record {
      sends = (
        add_direct-forwarding (HasSocket q) _ iface.broadcast iface t direct
            (All-mono (HasSocket p) (HasSocket q) has t.forwarding_table r.sends.0),
        All-mono (IsVectorOf (GoesOut p)) (IsVectorOf (GoesOut q))
            (λ (n, dv) a. All-mono (GoesOut p) (GoesOut q) goes dv a) t.distance_vector_table
            r.sends.1,
        add_direct-found loopback _ iface.broadcast iface t r.sends.2,
      );
      replies = r.replies;
      others = r.others;
      partners = insert-All (HasPartner q) _ iface p.socket_broadcast_addresses here (
          All-mono (HasPartner p) (HasPartner q) (λ (s, a) h. kept a h) p.socket_broadcast_addresses
            r.partners);
      with_ipv4 = r.with_ipv4;
      with_lo = r.with_lo;
      buffer = r.buffer;
    }

learn_arp-IsReady : (o : Option ℕ) (p : Protocol) → IsReady p → IsReady (learn_arp o p)
learn_arp-IsReady none p r = r
learn_arp-IsReady (some cache) p r = same-IsReady p _ refl refl refl refl refl refl refl r

trace-IsReady : (x : Wifi) (dev : ℕ) (p : Protocol) → IsReady p → IsReady (trace x dev p)
trace-IsReady no_wifi dev p r = r
trace-IsReady null_mac dev p r = r
trace-IsReady other_mac dev p r = same-IsReady p _ refl refl refl refl refl refl refl r
trace-IsReady adhoc_mac dev p r = same-IsReady p _ refl refl refl refl refl refl refl r

module _ (w : World) where
  pub do_initialize-IsReady :
      (jitter : ℕ → ℕ) (p : Protocol) → IsReady p → IsReady (do_initialize w jitter p)
  unfolding do_initialize
  do_initialize-IsReady jitter p r =
      if-both IsReady p.enable_hello (λ _. same-IsReady p _ refl refl refl refl refl refl refl r)
        (λ _. r)

  pub start-IsReady : (p : Protocol) → IsReady p → IsReady (start w p)
  unfolding start
  start-IsReady p r =
      if-both IsReady p.enable_hello (λ _. same-IsReady p _ refl refl refl refl refl refl refl r)
        (λ _. same-IsReady p _ refl refl refl refl refl refl refl r)

  pub notify_interface_up-IsReady :
      (i : ℕ) (p : Protocol) → AreFresh w p → IsReady p → IfSome IsReady (notify_interface_up w i p)
  unfolding notify_interface_up
  notify_interface_up-IsReady i p n r =
      let P = IfSome IsReady in
      let iface = w.address_of i in
      let dev = w.net_device (w.interface_for_address iface.local) in
      let o = open_sockets w iface p in
      let k = open_sockets-IsReady w iface p n r in
      let q = take_main_address w iface.local o in
      let l : IsReady q =
        if-both IsReady (o.main_address == w.no_address)
          (λ _. same-IsReady o _ refl refl refl refl refl refl refl k) (λ _. k) in
      if-both P (not p.has_ipv4) (λ _. tt)
        (λ _.
          if-both P (iface.local == loopback) (λ _. r)
            (λ _.
              if-both P (q.main_address == w.no_address) (λ _. tt)
                (λ _.
                  trace-IsReady (w.wifi_of dev) dev (learn_arp (w.arp_cache_of i) q)
                    (learn_arp-IsReady (w.arp_cache_of i) q l))))

  pub notify_add_address-IsReady :
      (i : ℕ) (p : Protocol) → AreFresh w p → IsReady p → IfSome IsReady (notify_add_address w i p)
  unfolding notify_add_address
  notify_add_address-IsReady i p n r =
      let P = IfSome IsReady in
      let iface = w.address_of i in
      if-both P (not p.has_ipv4) (λ _. tt)
        (λ _.
          if-both P (not (w.is_up i)) (λ _. r)
            (λ _.
              if-both P (not (w.n_addresses i == 1)) (λ _. r)
                (λ _.
                  if-both P (found (find_socket iface p.socket_addresses)) (λ _. r)
                    (λ _.
                      if-both P (iface.local == loopback) (λ _. r)
                        (λ _. open_sockets-IsReady w iface p n r)))))
