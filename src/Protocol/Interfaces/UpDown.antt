-- ===== src/Protocol/Interfaces/UpDown.antt =====
-- model/bsdvr.cc: NotifyInterfaceUp, and NotifyInterfaceDown after it.
use bsdvr_ns.Base.{
  ℕ, suc, ◌≡◌, refl, true, false, Option, none, some, [], ◌∷◌, ◌++◌, ◌==◌, ap, ◌∙◌, if-both,
}
use bsdvr_ns.Base.Map.{erase}
use bsdvr_ns.Net.{InterfaceAddress, Wifi, no_wifi, null_mac, other_mac, adhoc_mac, World}
use bsdvr_ns.Protocol.{Protocol, loopback, find_socket}
use bsdvr_ns.Protocol.Data.{is_empty}
use bsdvr_ns.Protocol.Interfaces.{
  open_sockets, take_main_address, learn_arp, trace, shut_down, drop_routes, notify_interface_up,
  notify_interface_down,
}
use bsdvr_ns.Protocol.Interfaces.Sockets.{erase-insert, find_socket-insert}
use bsdvr_ns.Protocol.Interfaces.Events.{is_null, after_down, notify_interface_down_lem}
use bsdvr_ns.Protocol.Interfaces.Addresses.{AreFresh}

-- The two maps of sockets and the flag for m_ipv4.
abbrev SameSockets : Protocol → Protocol → Type 0
SameSockets p q =
    (q.socket_addresses ≡ p.socket_addresses)
    × (q.socket_broadcast_addresses ≡ p.socket_broadcast_addresses)
    × (q.closed_sockets ≡ p.closed_sockets)
    × (q.has_ipv4 ≡ p.has_ipv4)

trace-SameSockets : (x : Wifi) (dev : ℕ) (p : Protocol) → SameSockets p (trace x dev p)
trace-SameSockets no_wifi dev p = (refl, refl, refl, refl)
trace-SameSockets null_mac dev p = (refl, refl, refl, refl)
trace-SameSockets other_mac dev p = (refl, refl, refl, refl)
trace-SameSockets adhoc_mac dev p = (refl, refl, refl, refl)

learn_arp-SameSockets : (o : Option ℕ) (p : Protocol) → SameSockets p (learn_arp o p)
learn_arp-SameSockets none p = (refl, refl, refl, refl)
learn_arp-SameSockets (some cache) p = (refl, refl, refl, refl)

SameSockets-trans : (p q r : Protocol) → SameSockets p q → SameSockets q r → SameSockets p r
SameSockets-trans p q r (a, b, c, d) (a', b', c', d') = (a' ∙ a, b' ∙ b, c' ∙ c, d' ∙ d)

notify_interface_up_lem :
    (w : World) (i : ℕ) (p : Protocol)
    → p.has_ipv4 ≡ true
    → ((w.address_of i).local == loopback) ≡ false
    → ((w.address_of i).local == w.no_address) ≡ false
    → (q : Protocol) × (notify_interface_up w i p ≡ some q)
      × SameSockets (open_sockets w (w.address_of i) p) q
unfolding notify_interface_up
notify_interface_up_lem w i p h l a =
    let iface = w.address_of i in
    let dev = w.net_device (w.interface_for_address iface.local) in
    let o = open_sockets w iface p in
    let q = take_main_address w iface.local o in
    let m : (q.main_address == w.no_address) ≡ false =
      if-both (λ (x : Protocol). (x.main_address == w.no_address) ≡ false)
        (o.main_address == w.no_address) (λ _. a) (λ z. z) in
    let q' = learn_arp (w.arp_cache_of i) q in
    let r = trace (w.wifi_of dev) dev q' in
    let s : SameSockets o q =
      if-both (SameSockets o) (o.main_address == w.no_address) (λ _. (refl, refl, refl, refl))
        (λ _. (refl, refl, refl, refl)) in
    (
      r,
      rw (m, h, l, notify_interface_up),
      SameSockets-trans o q' r
          (SameSockets-trans o q q' s (learn_arp-SameSockets (w.arp_cache_of i) q))
          (trace-SameSockets (w.wifi_of dev) dev q'),
    )

after_down-sockets :
    (iface : InterfaceAddress) (s b : ℕ) (q : Protocol)
    → ((after_down iface s b q).socket_addresses ≡ erase s q.socket_addresses)
      × ((after_down iface s b q).socket_broadcast_addresses ≡ erase b q.socket_broadcast_addresses)
      × ((after_down iface s b q).closed_sockets ≡ q.closed_sockets ++ s ∷ b ∷ [])
unfolding shut_down drop_routes
after_down-sockets iface s b q =
    if-both
      (λ (r : Protocol).
        (r.socket_addresses ≡ erase s q.socket_addresses)
        × (r.socket_broadcast_addresses ≡ erase b q.socket_broadcast_addresses)
        × (r.closed_sockets ≡ q.closed_sockets ++ s ∷ b ∷ []))
      (is_empty (erase s q.socket_addresses)) (λ _. (refl, refl, refl)) (λ _. (refl, refl, refl))

-- On a node with IP, for an interface with an address that is neither unset nor the loopback address
-- and that has no sockets yet, and whose wifi device, if it is one, has its MAC: where the sockets
-- that are made are new ones, NotifyInterfaceUp returns, and NotifyInterfaceDown returns after it
-- with the two maps of sockets as they were before both, and with just the two new sockets closed.
pub notify_interface_down-notify_interface_up :
    (w : World) (i : ℕ) (p : Protocol)
    → p.has_ipv4 ≡ true
    → ((w.address_of i).local == loopback) ≡ false
    → ((w.address_of i).local == w.no_address) ≡ false
    → is_null (w.wifi_of (w.net_device i)) ≡ false
    → AreFresh w p
    → find_socket (w.address_of i) p.socket_addresses ≡ none
    → find_socket (w.address_of i) p.socket_broadcast_addresses ≡ none
    → (q r : Protocol) × (notify_interface_up w i p ≡ some q)
      × (notify_interface_down w i q ≡ some r)
      × (r.socket_addresses ≡ p.socket_addresses)
      × (r.socket_broadcast_addresses ≡ p.socket_broadcast_addresses)
      × (r.closed_sockets
          ≡ p.closed_sockets ++ w.socket_at p.sockets_made ∷ w.socket_at (suc p.sockets_made) ∷ [])
unfolding open_sockets
notify_interface_down-notify_interface_up w i p h l a n (f, g) fs fb =
    let iface = w.address_of i in
    let s = w.socket_at p.sockets_made in
    let b = w.socket_at (suc p.sockets_made) in
    let (q, e, (qs, qb, qc, qh)) = notify_interface_up_lem w i p h l a in
    let zs : find_socket iface q.socket_addresses ≡ some s =
      rw qs (find_socket-insert s iface p.socket_addresses f fs) in
    let zb : find_socket iface q.socket_broadcast_addresses ≡ some b =
      rw qb (find_socket-insert b iface p.socket_broadcast_addresses g fb) in
    let (t, d, (ts, tb, _, tc)) = notify_interface_down_lem w i s b q (qh ∙ h) n zs zb in
    let (rs, rb, rc) = after_down-sockets iface s b t in
    (
      q,
      after_down iface s b t,
      e,
      d,
      rs ∙ (ap (erase s) (ts ∙ qs) ∙ erase-insert s iface p.socket_addresses f),
      rb ∙ (ap (erase b) (tb ∙ qb) ∙ erase-insert b iface p.socket_broadcast_addresses g),
      rc ∙ ap (λ x. x ++ s ∷ b ∷ []) (tc ∙ qc),
    )
