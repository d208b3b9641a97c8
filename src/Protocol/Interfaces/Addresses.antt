-- ===== src/Protocol/Interfaces/Addresses.antt =====
-- model/bsdvr.cc: what comes and goes with the addresses of an interface.
use bsdvr_ns.Base.{
  ℕ, suc, ◌≡◌, ◌⊎◌, refl, true, not, Option, none, some, [], ◌∷◌, ◌++◌, found, ◌==◌, ==_refl,
  if◌then◌else◌, contains, any-append, arith, Option-cases, inl, inr, if-both,
}
use bsdvr_ns.Base.Map.{Map, find, insert, find-insert}
use bsdvr_ns.Net.{InterfaceAddress, World}
use bsdvr_ns.Protocol.{Protocol, loopback, find_socket}
use bsdvr_ns.Protocol.Data.{is_empty}
use bsdvr_ns.Protocol.Interfaces.{
  open_sockets, shut_down, drop_routes, close_address, notify_add_address, notify_remove_address,
}
use bsdvr_ns.Protocol.Interfaces.Sockets.{find_socket-found, find_socket-insert}

-- A socket that is made anew has a number of its own.
abbrev pub AreFresh : World → Protocol → Type 0
AreFresh w p =
    (find (w.socket_at p.sockets_made) p.socket_addresses ≡ none)
    × (find (w.socket_at (suc p.sockets_made)) p.socket_broadcast_addresses ≡ none)

notify_add_address-found :
    (w : World) (i : ℕ) (p : Protocol)
    → p.has_ipv4 ≡ true
    → found (find_socket (w.address_of i) p.socket_addresses) ≡ true
    → notify_add_address w i p ≡ some p
unfolding notify_add_address
notify_add_address-found w i p h f = ground arith

-- NotifyAddAddress returns with the sockets opened or with nothing done.
abbrev Added : World → ℕ → Protocol → Option Protocol → Type 0
Added w i p o =
    ((p.has_ipv4 ≡ true)
      × (find_socket (w.address_of i) p.socket_addresses ≡ none)
      × (o ≡ some (open_sockets w (w.address_of i) p)))
    ⊎ (o ≡ some p)
    ⊎ (o ≡ none)

notify_add_address-Added :
    (w : World) (i : ℕ) (p : Protocol) → Added w i p (notify_add_address w i p)
unfolding notify_add_address
notify_add_address-Added w i p =
    let P = Added w i p in
    let same : P (some p) = inr (inl refl) in
    let iface = w.address_of i in
    if-both P (not p.has_ipv4) (λ _. inr (inr refl))
      (λ h.
        if-both P (not (w.is_up i)) (λ _. same)
          (λ _.
            if-both P (not (w.n_addresses i == 1)) (λ _. same)
              (λ _.
                if-both P (found (find_socket iface p.socket_addresses)) (λ _. same)
                  (λ f.
                    if-both P (iface.local == loopback) (λ _. same)
                      (λ _. inl (ground (arith, h), ground (arith, f), refl))))))

open_sockets-found :
    (w : World) (iface : InterfaceAddress) (p : Protocol)
    → AreFresh w p
    → find_socket iface p.socket_addresses ≡ none
    → found (find_socket iface (open_sockets w iface p).socket_addresses) ≡ true
unfolding open_sockets
open_sockets-found w iface p (f, _) h =
    rw (find_socket-insert (w.socket_at p.sockets_made) iface p.socket_addresses f h)

-- Where the sockets that are made are new ones, NotifyAddAddress does nothing the second time.
pub notify_add_address-notify_add_address :
    (w : World) (i : ℕ) (p q : Protocol)
    → AreFresh w p
    → notify_add_address w i p ≡ some q
    → notify_add_address w i q ≡ some q
unfolding open_sockets
notify_add_address-notify_add_address w i p q fresh h = elim (notify_add_address-Added w i p) [
  | inl (v, f, e) ↦
      let r = open_sockets w (w.address_of i) p in
      let z : r ≡ q = ground (arith, e, h) in
      rw⁻¹ z (notify_add_address-found w i r v (open_sockets-found w (w.address_of i) p fresh f))
  | inr (inl e) ↦ let z : p ≡ q = ground (arith, e, h) in rw⁻¹ z e
  | inr (inr e) ↦ cc
]

find-insert-found :
    (b : ℕ) (k : ℕ) (a : InterfaceAddress) (m : Map InterfaceAddress)
    → found (find b m) ≡ true
    → found (find b (insert k a m)) ≡ true
find-insert-found b k a m h = ground (arith, find-insert b k a m)

close_address_lem :
    (address : InterfaceAddress) (s b : ℕ) (p : Protocol)
    → find_socket address p.socket_broadcast_addresses ≡ some b
    → (contains b (close_address address s p).closed_sockets ≡ true)
      × ((close_address address s p).socket_broadcast_addresses ≡ p.socket_broadcast_addresses)
unfolding close_address drop_routes
close_address_lem address s b p h =
    rw (h, close_address)
      (
        ground (arith, any-append (λ x. x == b) (p.closed_sockets ++ s ∷ []) (b ∷ []), ==_refl b),
        refl,
      )

-- The state at the end of NotifyRemoveAddress.
abbrev reopened : World → ℕ → Protocol → Protocol
reopened w i q = if w.n_addresses i == 0 then q else open_sockets w (w.address_of i) q

abbrev shut_if_empty : Protocol → Protocol
shut_if_empty r = if is_empty r.socket_addresses then shut_down r else r

notify_remove_address-found :
    (w : World) (i s : ℕ) (address : InterfaceAddress) (p : Protocol)
    → p.has_ipv4 ≡ true
    → find_socket address p.socket_addresses ≡ some s
    → notify_remove_address w i address p
      ≡ some (shut_if_empty (reopened w i (close_address address s p)))
unfolding notify_remove_address
notify_remove_address-found w i s address p h z = rw (z, h, notify_remove_address)

-- A socket that is closed and yet in m_socketSubnetBroadcastAddresses.
abbrev pub IsLeft : ℕ → Protocol → Type 0
IsLeft b r =
    (contains b r.closed_sockets ≡ true) × (found (find b r.socket_broadcast_addresses) ≡ true)

reopened-IsLeft :
    (w : World) (i b : ℕ) (q : Protocol) → IsLeft b q → IsLeft b (shut_if_empty (reopened w i q))
unfolding open_sockets shut_down
reopened-IsLeft w i b q (c, f) =
    let r = reopened w i q in
    let opened : IsLeft b r =
      if-both (IsLeft b) (w.n_addresses i == 0) (λ _. (c, f))
        (λ _. (c, find-insert-found b _ _ q.socket_broadcast_addresses f)) in
    if-both (IsLeft b) (is_empty r.socket_addresses) (λ _. opened) (λ _. opened)

-- NotifyRemoveAddress of an address with a socket and a broadcast socket returns, on a node with IP,
-- with the broadcast socket closed, which yet stays in m_socketSubnetBroadcastAddresses.
pub notify_remove_address-IsLeft :
    (w : World) (i b : ℕ) (address : InterfaceAddress) (p : Protocol)
    → p.has_ipv4 ≡ true
    → found (find_socket address p.socket_addresses) ≡ true
    → find_socket address p.socket_broadcast_addresses ≡ some b
    → (r : Protocol) × (notify_remove_address w i address p ≡ some r) × IsLeft b r
notify_remove_address-IsLeft w i b address p h f g =
    elim (Option-cases (find_socket address p.socket_addresses)) [
      | inl z ↦ absurd (ground (arith, z, f))
      | inr (s, z) ↦
          let q = close_address address s p in
          let (c, d) = close_address_lem address s b p g in
          let k : found (find b q.socket_broadcast_addresses) ≡ true =
            rw d (find_socket-found address b p.socket_broadcast_addresses g) in
          (
            shut_if_empty (reopened w i q),
            notify_remove_address-found w i s address p h z,
            reopened-IsLeft w i b q (c, k),
          )
    ]
