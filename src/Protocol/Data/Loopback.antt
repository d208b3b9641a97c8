-- ===== src/Protocol/Data/Loopback.antt =====
-- model/bsdvr.cc: the routes that LoopbackRoute makes.
use bsdvr_ns.Base.{
  ℕ, ◌≡◌, refl, Bool, true, false, not, ◌||◌, ◌&&◌, Option, none, some, [], ◌∷◌, found, ◌==◌, any,
  arith, Option-cases, Bool-cases, inl, inr,
}
use bsdvr_ns.Base.Map.{Map}
use bsdvr_ns.Net.{Address, InterfaceAddress, Ipv4Route, World, create_route}
use bsdvr_ns.Protocol.{Protocol}
use bsdvr_ns.Protocol.Data.{address_on, source_for, loopback_source, lo_route, loopback_route}

-- Whether a device may be used, where one was asked for.
abbrev pub is_allowed : Option ℕ → ℕ → Bool
is_allowed none dev = true
is_allowed (some oif) dev = dev == oif

-- Whether an address is that of a socket, on the device if one was asked for.
abbrev pub is_source : World → Option ℕ → Address → Map InterfaceAddress → Bool
is_source w oif a m =
    any
      (λ (_, iface).
        iface.local == a && is_allowed oif (w.net_device (w.interface_for_address iface.local)))
      m

address_on-is_source :
    (w : World) (oif : ℕ) (a : Address) (m : Map InterfaceAddress)
    → address_on w oif m ≡ some a
    → is_source w (some oif) a m ≡ true
unfolding address_on
address_on-is_source w oif a [] h = cc
address_on-is_source w oif a ((s, iface) ∷ m) h = ground (arith, address_on-is_source w oif a m)

loopback_source-is_source :
    (w : World) (oif : Option ℕ) (a : Address) (m : Map InterfaceAddress)
    → loopback_source w oif m ≡ some a
    → (a == w.no_address) ≡ false
    → is_source w oif a m ≡ true
unfolding loopback_source
loopback_source-is_source w none a [] h z = cc
loopback_source-is_source w none a ((s, iface) ∷ m) h z = ground arith
loopback_source-is_source w (some oif) a m h z = elim (Option-cases (address_on w oif m)) [
  | inl e ↦ absurd (ground (arith, e))
  | inr (b, e) ↦ address_on-is_source w oif a m (ground (arith, e))
]

source_for-some :
    (w : World) (oif : Option ℕ) (a : Address) (p : Protocol)
    → source_for w oif p ≡ some a
    → loopback_source w oif p.socket_addresses ≡ some a
source_for-some w oif a p h = ground (arith, h)

-- The state of the route's creation.
abbrev pub with_route : Ipv4Route → Protocol → Protocol
with_route r p = record p {
  routing_table = record p.routing_table { routes = create_route r p.routing_table.routes };
}

pub loopback_route_lem :
    (w : World) (dst : Address) (oif : Option ℕ) (p q : Protocol) (route : ℕ)
    → loopback_route w dst oif p ≡ some (route, q)
    → (lo : ℕ) × (source : Address) × (p.lo ≡ some lo)
      × (is_source w oif source p.socket_addresses ≡ true)
      × (route ≡ p.routing_table.routes.fresh)
      × (q ≡ with_route (lo_route dst source lo) p)
unfolding loopback_route
loopback_route_lem w dst oif p q route h = elim (Option-cases p.lo) [
  | inl e ↦ absurd (ground (arith, e, h))
  | inr (lo, e) ↦ elim (Option-cases (source_for w oif p)) [
    | inl f ↦ absurd (ground (arith, e, f, h))
    | inr (a, f) ↦ elim (Bool-cases (a == w.no_address)) [
      | inl g ↦ absurd (ground (arith, e, f, g, h))
      | inr g ↦
          let z : loopback_route w dst oif p
              ≡ some (p.routing_table.routes.fresh, with_route (lo_route dst a lo) p) =
            ground (arith, e, f, g) in
          (
            lo,
            a,
            e,
            loopback_source-is_source w oif a p.socket_addresses (source_for-some w oif a p f) g,
            ground (arith, z, h),
            ground (arith, z, h),
          )
    ]
  ]
]

-- Whether a socket is on the device, if one was asked for, and whether some socket has no address.
abbrev pub has_source : World → Option ℕ → Map InterfaceAddress → Bool
has_source w oif m =
    any (λ (_, iface). is_allowed oif (w.net_device (w.interface_for_address iface.local))) m

abbrev pub has_unset : World → Map InterfaceAddress → Bool
has_unset w m = any (λ (_, iface). iface.local == w.no_address) m

-- An address that LoopbackRoute takes.
abbrev Chosen : World → Option Address → Type 0
Chosen w o = (a : Address) × (o ≡ some a) × ((a == w.no_address) ≡ false)

address_on-Chosen :
    (w : World) (oif : ℕ) (m : Map InterfaceAddress)
    → has_source w (some oif) m ≡ true
    → has_unset w m ≡ false
    → Chosen w (address_on w oif m)
unfolding address_on
address_on-Chosen w oif [] h u = cc
address_on-Chosen w oif ((s, iface) ∷ m) h u =
    let dev = w.net_device (w.interface_for_address iface.local) in
    elim (Bool-cases (oif == dev)) [
      | inl z ↦ (iface.local, rw (z, address_on), ground arith)
      | inr z ↦
          let (a, e, n) = address_on-Chosen w oif m (ground arith) (ground arith) in
          (a, rw (z, address_on) e, n)
    ]

loopback_source-Chosen :
    (w : World) (oif : Option ℕ) (m : Map InterfaceAddress)
    → has_source w oif m ≡ true
    → has_unset w m ≡ false
    → Chosen w (loopback_source w oif m)
unfolding loopback_source
loopback_source-Chosen w none [] h u = cc
loopback_source-Chosen w none ((s, iface) ∷ m) h u = (iface.local, refl, ground arith)
loopback_source-Chosen w (some oif) m h u =
    let (a, e, n) = address_on-Chosen w oif m h u in (a, rw (e, loopback_source), n)

pub loopback_route-found :
    (w : World) (dst : Address) (oif : Option ℕ) (p : Protocol)
    → found p.lo ≡ true
    → (not (found oif) || p.has_ipv4) ≡ true
    → has_source w oif p.socket_addresses ≡ true
    → has_unset w p.socket_addresses ≡ false
    → found (loopback_route w dst oif p) ≡ true
unfolding loopback_route
loopback_route-found w dst oif p l i h u =
    let (a, e, n) = loopback_source-Chosen w oif p.socket_addresses h u in
    let f : source_for w oif p ≡ some a = ground (arith, i, e) in
    elim (Option-cases p.lo) [ inl z ↦ cc | inr (lo, z) ↦ rw (z, f, n, loopback_route) ]
