-- ===== src/Protocol/System/Events.antt =====
-- model/bsdvr.cc: that the start and the end, and what comes with an interface or an address, keep the
-- state legal.
use bsdvr_ns.Base.{
  ℕ, ◌≡◌, refl, Bool, false, not, ◌&&◌, ◌||◌, Option, none, some, ◌==◌, found, if-both, IfSome,
}
use bsdvr_ns.Base.Map.{insert-IsSorted}
use bsdvr_ns.Net.{Address, InterfaceAddress, World, Wifi, no_wifi, null_mac, other_mac, adhoc_mac}
use bsdvr_ns.RoutingTable.{RoutingTable, new_entry, clear}
use bsdvr_ns.RoutingTable.Laws.{
  delete_all_routes_from_interface-IsSorted, delete_all_routes_from_interface-All,
}
use bsdvr_ns.Neighbors.{
  Neighbors, schedule_ntimer, mark_closed, process_tx_error, purge, new_neighbors,
}
use bsdvr_ns.Neighbors as Nb
use bsdvr_ns.PacketQueue.{new_queue}
use bsdvr_ns.PacketQueue as Buffer
use bsdvr_ns.Neighbors.Updates.{IsWellFormed}
use bsdvr_ns.ControlPlane.Keyed.{IsKeyed}
use bsdvr_ns.ControlPlane.Legal.{AreLegal, new_entry-AreLegal, add_route-IsLegalVector}
use bsdvr_ns.Protocol.{Protocol, loopback, find_socket}
use bsdvr_ns.Protocol.Start.{
  new_protocol, set_max_queue_len, set_max_pr_queue_len, set_max_pr_queue_time, set_hello_enable,
  set_broadcast_enable, do_dispose, do_initialize, start,
}
use bsdvr_ns.Protocol.Interfaces.{
  add_direct, set_ipv4, open_sockets, take_main_address, learn_arp, trace, notify_interface_up,
  shut_down, drop_routes, notify_add_address,
}
use bsdvr_ns.Protocol.System.{
  Setting, max_queue_len, max_pr_queue_len, max_pr_queue_time, hello_interval, enable_hello,
  enable_broadcast, set,
}
use bsdvr_ns.Protocol.System.Handling.{IsLegal}

-- Neighbors of which only the timer or the ARP caches differ.
pub same_nb : (n m : Neighbors) → m.nb ≡ n.nb → IsWellFormed n → IsWellFormed m
same_nb n m e v = record { open_lem = rw e v.open_lem; distinct = rw e v.distinct }

pub new_protocol-IsLegal :
    (w : World) (second : ℕ) (memory : Bool) → IsLegal (new_protocol w second memory)
unfolding new_protocol new_neighbors new_queue
new_protocol-IsLegal w second memory =
    ((((tt, tt, tt), (refl, tt, tt)), tt, tt, (refl, tt)), record { open_lem = tt; distinct = tt })

pub set-IsLegal : (s : Setting) (p : Protocol) → IsLegal p → IsLegal (set s p)
unfolding set set_max_queue_len set_max_pr_queue_len set_max_pr_queue_time set_hello_enable
    set_broadcast_enable Buffer.set_max_queue_len
set-IsLegal (max_queue_len len) p h = h
set-IsLegal (max_pr_queue_len len) p h = h
set-IsLegal (max_pr_queue_time t) p h = h
set-IsLegal (hello_interval t) p h = h
set-IsLegal (enable_hello f) p h = h
set-IsLegal (enable_broadcast f) p h = h

pub do_dispose-IsLegal : (p : Protocol) → IsLegal p → IsLegal (do_dispose p)
unfolding do_dispose
do_dispose-IsLegal p (t, v) = ((t.0, tt, tt, t.3), v)

add_direct-AreLegal :
    (dev : ℕ) (dst : Address) (iface : InterfaceAddress) (t : RoutingTable)
    → AreLegal t
    → AreLegal (add_direct dev dst iface t)
unfolding add_direct
add_direct-AreLegal dev dst iface t l =
    let (e, h) = new_entry dev dst iface 1 dst false t.routes in
    let (i, ((s, v, a), (_, f, k))) = new_entry-AreLegal dev dst iface 1 dst false t l in
    let (s', f') = (add_route-IsLegalVector h e t.forwarding_table i.0 (s, f)).0 in
    ((s', v, a), (refl, f', k))

pub shut_down-IsLegal : (p : Protocol) → IsLegal p → IsLegal (shut_down p)
unfolding shut_down clear Nb.clear
shut_down-IsLegal p (t, v) =
    let ((s, x, a), (r, f, k)) = t.0 in
    ((((tt, x, a), (r, tt, k)), t.1, t.2, t.3), record { open_lem = tt; distinct = tt })

pub drop_routes-IsLegal :
    (iface : InterfaceAddress) (p : Protocol) → IsLegal p → IsLegal (drop_routes iface p)
unfolding drop_routes
drop_routes-IsLegal iface p (t, v) =
    let ((s, x, a), (r, f, k)) = t.0 in
    let ft = p.routing_table.forwarding_table in
    let s' = delete_all_routes_from_interface-IsSorted iface ft s in
    let f' = delete_all_routes_from_interface-All (IsKeyed p.routing_table.routes) iface ft f in
    ((((s', x, a), (r, f', k)), t.1, t.2, t.3), v)

module _ (w : World) where
  pub do_initialize-IsLegal :
      (jitter : ℕ → ℕ) (p : Protocol) → IsLegal p → IsLegal (do_initialize w jitter p)
  unfolding do_initialize
  do_initialize-IsLegal jitter p h = if-both IsLegal p.enable_hello (λ _. h) (λ _. h)

  pub start-IsLegal : (p : Protocol) → IsLegal p → IsLegal (start w p)
  unfolding start schedule_ntimer
  start-IsLegal p (t, v) =
      if-both IsLegal p.enable_hello (λ _. (t, same_nb p.nb _ refl v)) (λ _. (t, v))

  pub set_ipv4-IfSome : (p : Protocol) → IsLegal p → IfSome IsLegal (set_ipv4 w p)
  unfolding set_ipv4
  set_ipv4-IfSome p (t, v) =
      if-both (IfSome IsLegal)
        (p.has_ipv4 || not (w.n_interfaces == 1 && (w.address_of 0).local == loopback)) (λ _. tt)
        (λ _. (
          (
            add_direct-AreLegal (w.net_device 0) loopback (w.make_iface loopback 4278190080)
                p.routing_table t.0,
            t.1,
            t.2,
            t.3,
          ),
          v,
        ))

  pub open_sockets-IsLegal :
      (iface : InterfaceAddress) (p : Protocol) → IsLegal p → IsLegal (open_sockets w iface p)
  unfolding open_sockets
  open_sockets-IsLegal iface p (t, v) = (
    (
      add_direct-AreLegal _ iface.broadcast iface p.routing_table t.0,
      insert-IsSorted _ iface p.socket_addresses t.1,
      insert-IsSorted _ iface p.socket_broadcast_addresses t.2,
      t.3,
    ),
    v,
  )

  learn_arp-IsLegal : (o : Option ℕ) (p : Protocol) → IsLegal p → IsLegal (learn_arp o p)
  unfolding Nb.add_arp_cache
  learn_arp-IsLegal none p h = h
  learn_arp-IsLegal (some cache) p (t, v) = (t, same_nb p.nb _ refl v)

  trace-IsLegal : (x : Wifi) (dev : ℕ) (p : Protocol) → IsLegal p → IsLegal (trace x dev p)
  trace-IsLegal no_wifi dev p h = h
  trace-IsLegal null_mac dev p h = h
  trace-IsLegal other_mac dev p h = h
  trace-IsLegal adhoc_mac dev p h = h

  pub notify_interface_up-IfSome :
      (i : ℕ) (p : Protocol) → IsLegal p → IfSome IsLegal (notify_interface_up w i p)
  unfolding notify_interface_up
  notify_interface_up-IfSome i p h =
      let P = IfSome IsLegal in
      let iface = w.address_of i in
      let dev = w.net_device (w.interface_for_address iface.local) in
      let o = open_sockets w iface p in
      let q = take_main_address w iface.local o in
      let k : IsLegal q =
        if-both IsLegal (o.main_address == w.no_address) (λ _. open_sockets-IsLegal iface p h)
          (λ _. open_sockets-IsLegal iface p h) in
      if-both P (not p.has_ipv4) (λ _. tt)
        (λ _.
          if-both P (iface.local == loopback) (λ _. h)
            (λ _.
              if-both P (q.main_address == w.no_address) (λ _. tt)
                (λ _.
                  trace-IsLegal (w.wifi_of dev) dev (learn_arp (w.arp_cache_of i) q)
                    (learn_arp-IsLegal (w.arp_cache_of i) q k))))

  pub notify_add_address-IfSome :
      (i : ℕ) (p : Protocol) → IsLegal p → IfSome IsLegal (notify_add_address w i p)
  unfolding notify_add_address
  notify_add_address-IfSome i p h =
      let P = IfSome IsLegal in
      let iface = w.address_of i in
      if-both P (not p.has_ipv4) (λ _. tt)
        (λ _.
          if-both P (not (w.is_up i)) (λ _. h)
            (λ _.
              if-both P (not (w.n_addresses i == 1)) (λ _. h)
                (λ _.
                  if-both P (found (find_socket iface p.socket_addresses)) (λ _. h)
                    (λ _.
                      if-both P (iface.local == loopback) (λ _. h)
                        (λ _. open_sockets-IsLegal iface p h)))))
