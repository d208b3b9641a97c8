-- ===== src/Protocol/Interfaces/Events.antt =====
-- model/bsdvr.cc: the sockets and routes that the events of interfaces and addresses leave.
use bsdvr_ns.Base.{
  ℕ, ◌≤◌, ◌≡◌, refl, Bool, true, false, none, some, [], ◌∷◌, ◌++◌, found, if◌then◌else◌, arith,
  Option-cases, inl, inr, if-both,
}
use bsdvr_ns.Base.Map.{find, erase, IsSorted}
use bsdvr_ns.Net.{Address, InterfaceAddress, Wifi, no_wifi, null_mac, other_mac, adhoc_mac, World}
use bsdvr_ns.RoutingTable.{RoutingTableEntry, lookup_route, clear}
use bsdvr_ns.RoutingTable.Laws.{unless_iface, delete_all_routes_from_interface-lookup}
use bsdvr_ns.Protocol.{Protocol, find_socket, send_update}
use bsdvr_ns.Protocol.Data.{is_empty}
use bsdvr_ns.Protocol.Interfaces.{
  close_sockets, untrace, shut_down, drop_routes, notify_interface_down,
}
use bsdvr_ns.Protocol.Interfaces.Sockets.{sockets_for, find_socket-erase, send_update-missing}

-- Whether the wifi device of an interface lacks its MAC.
abbrev pub is_null : Wifi → Bool
is_null null_mac = true
is_null no_wifi = false
is_null other_mac = false
is_null adhoc_mac = false

-- The monitoring changes nothing of the sockets and tables.
abbrev pub SameTables : Protocol → Protocol → Type 0
SameTables p q =
    (q.socket_addresses ≡ p.socket_addresses)
    × (q.socket_broadcast_addresses ≡ p.socket_broadcast_addresses)
    × (q.routing_table ≡ p.routing_table)
    × (q.closed_sockets ≡ p.closed_sockets)

untrace-SameTables :
    (w : World) (i : ℕ) (x : Wifi) (p : Protocol)
    → is_null x ≡ false
    → (q : Protocol) × (untrace w i x p ≡ some q) × SameTables p q
untrace-SameTables w i no_wifi p h = (p, refl, (refl, refl, refl, refl))
untrace-SameTables w i null_mac p h = cc
untrace-SameTables w i other_mac p h = (p, refl, (refl, refl, refl, refl))
untrace-SameTables w i adhoc_mac p h = elim (Option-cases (w.arp_cache_of i)) [
  | inl e ↦ (_, refl, rw e (refl, refl, refl, refl))
  | inr (cache, e) ↦ (_, refl, rw e (refl, refl, refl, refl))
]

-- The state after NotifyInterfaceDown has closed two sockets of `q`.
abbrev pub after_down : InterfaceAddress → ℕ → ℕ → Protocol → Protocol
after_down iface s b q =
    let r = record q {
      socket_addresses = erase s q.socket_addresses;
      socket_broadcast_addresses = erase b q.socket_broadcast_addresses;
      closed_sockets = q.closed_sockets ++ s ∷ b ∷ [];
    } in
    if is_empty r.socket_addresses then shut_down r else drop_routes iface r

notify_interface_down-after :
    (w : World) (i s b : ℕ) (p q : Protocol)
    → p.has_ipv4 ≡ true
    → untrace w i (w.wifi_of (w.net_device i)) p ≡ some q
    → find_socket (w.address_of i) q.socket_addresses ≡ some s
    → find_socket (w.address_of i) q.socket_broadcast_addresses ≡ some b
    → notify_interface_down w i p ≡ some (after_down (w.address_of i) s b q)
unfolding notify_interface_down close_sockets
notify_interface_down-after w i s b p q h e fs fb =
    rw (e, h, fs, fb, notify_interface_down, close_sockets)

-- NotifyInterfaceDown where both sockets are found.
pub notify_interface_down_lem :
    (w : World) (i s b : ℕ) (p : Protocol)
    → p.has_ipv4 ≡ true
    → is_null (w.wifi_of (w.net_device i)) ≡ false
    → find_socket (w.address_of i) p.socket_addresses ≡ some s
    → find_socket (w.address_of i) p.socket_broadcast_addresses ≡ some b
    → (q : Protocol) × (notify_interface_down w i p ≡ some (after_down (w.address_of i) s b q))
      × SameTables p q
notify_interface_down_lem w i s b p h n fs fb =
    let (q, e, (a, c, t, d)) = untrace-SameTables w i (w.wifi_of (w.net_device i)) p n in
    let fs' : find_socket (w.address_of i) q.socket_addresses ≡ some s = rw a fs in
    let fb' : find_socket (w.address_of i) q.socket_broadcast_addresses ≡ some b = rw c fb in
    (q, notify_interface_down-after w i s b p q h e fs' fb', (a, c, t, d))

-- What NotifyInterfaceDown leaves of the interface with the address `iface`.
abbrev pub IsDown : InterfaceAddress → Protocol → Protocol → Type 0
IsDown iface p r =
    (find_socket iface r.socket_addresses ≡ none)
    × ((d : Address)
        → lookup_route d r.routing_table.forwarding_table ≡ (
            if is_empty r.socket_addresses
            then none
            else unless_iface iface (lookup_route d p.routing_table.forwarding_table)))
    × (r.routing_table.distance_vector_table ≡ p.routing_table.distance_vector_table)
    × ((e : RoutingTableEntry) (ne : Address) → e.iface ≡ iface → send_update e ne r ≡ none)

after_down-IsDown :
    (iface : InterfaceAddress) (s b : ℕ) (p q : Protocol)
    → SameTables p q
    → IsSorted p.routing_table.forwarding_table
    → find_socket iface p.socket_addresses ≡ some s
    → sockets_for iface p.socket_addresses ≤ 1
    → IsDown iface p (after_down iface s b q)
unfolding shut_down drop_routes lookup_route find clear
after_down-IsDown iface s b p q (a, c, t, d) o f l =
    let z : find_socket iface (erase s q.socket_addresses) ≡ none =
      rw a (find_socket-erase iface s p.socket_addresses f l) in
    if-both (IsDown iface p) (is_empty (erase s q.socket_addresses))
      (λ y. (z, λ d. rw y, rw t, λ e ne k. send_update-missing _ e ne (rw k z)))
      (λ y. (
        z,
        λ d.
            rw (y, t)
              (delete_all_routes_from_interface-lookup iface p.routing_table.forwarding_table d o),
        rw t,
        λ e ne k. send_update-missing _ e ne (rw k z),
      ))

-- On a node with IP, where the interface's wifi device, if it is one, has its MAC, its address has
-- one socket and a broadcast socket, and the forwarding table is sorted, NotifyInterfaceDown returns.
-- The interface has no socket then; the forwarding table has lost the entries that go out by it, or
-- all of them if no socket is left. But the distance vectors keep all their entries, and SendUpdate
-- fails its assertion for any entry that goes out by that interface.
pub notify_interface_down-IsDown :
    (w : World) (i : ℕ) (p : Protocol)
    → p.has_ipv4 ≡ true
    → is_null (w.wifi_of (w.net_device i)) ≡ false
    → found (find_socket (w.address_of i) p.socket_addresses) ≡ true
    → found (find_socket (w.address_of i) p.socket_broadcast_addresses) ≡ true
    → sockets_for (w.address_of i) p.socket_addresses ≤ 1
    → IsSorted p.routing_table.forwarding_table
    → (r : Protocol) × (notify_interface_down w i p ≡ some r) × IsDown (w.address_of i) p r
notify_interface_down-IsDown w i p h n fs fb l o =
    elim (Option-cases (find_socket (w.address_of i) p.socket_addresses)) [
      | inl z ↦ absurd (ground (arith, z, fs))
      | inr (s, z) ↦
          elim (Option-cases (find_socket (w.address_of i) p.socket_broadcast_addresses)) [
            | inl y ↦ absurd (ground (arith, y, fb))
            | inr (b, y) ↦
                let (q, e, t) = notify_interface_down_lem w i s b p h n z y in
                (
                  after_down (w.address_of i) s b q,
                  e,
                  after_down-IsDown (w.address_of i) s b p q t o z l,
                )
          ]
    ]
