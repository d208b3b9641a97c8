-- ===== src/Protocol/Data/Output.antt =====
-- model/bsdvr.cc: the routes that RouteOutput gives to the node's own packets.
use bsdvr_ns.Base.{
  ℕ, ◌≡◌, ◌⊎◌, refl, true, false, not, Option, none, some, [], ◌∷◌, found, ◌==◌, ◌||◌, arith,
  Option-cases, Bool-cases, inl, inr, ap, ◌∙◌, sym,
}
use bsdvr_ns.Base.Map.{Map, find}
use bsdvr_ns.Net.{Address, InterfaceAddress, World}
use bsdvr_ns.RoutingTable.{RoutingTableEntry, lookup_route}
use bsdvr_ns.Protocol.{Protocol}
use bsdvr_ns.Protocol.Data.{
  SocketErrno, error_noterror, error_noroutetohost, is_empty, lo_route, loopback_route,
  tag_interface, add_tag, use_route, route_output,
}
use bsdvr_ns.Protocol.Data.Loopback.{
  is_allowed, is_source, with_route, loopback_route_lem, has_source, has_unset,
  loopback_route-found,
}

-- A packet that is looped back: it is tagged, and its route is a new one through the loopback device,
-- for its destination, and from the address of a socket, on the device if one was asked for.
abbrev pub IsLooped : World → ℕ → Address → Option ℕ → Protocol → ℕ → Protocol → Type 0
IsLooped w packet dst oif p route q =
    (lo : ℕ) × (source : Address) × (p.lo ≡ some lo)
    × (is_source w oif source p.socket_addresses ≡ true)
    × (route ≡ p.routing_table.routes.fresh)
    × (q ≡ with_route (lo_route dst source lo) (add_tag packet (tag_interface w oif) p))

-- A route of the forwarding table, through the device if one was asked for.
abbrev pub IsKnown : Address → Option ℕ → Protocol → ℕ → Protocol → Type 0
IsKnown dst oif p route q =
    (e : RoutingTableEntry) × (find dst p.routing_table.forwarding_table ≡ some e)
    × (route ≡ e.ipv4_route)
    × (is_allowed oif (p.routing_table.routes.route_at route).output_device ≡ true)
    × (q ≡ p)

-- No socket, or only a route through another device than the one that was asked for.
abbrev pub IsRefused : Address → Option ℕ → Protocol → Type 0
IsRefused dst oif p =
    (is_empty p.socket_addresses ≡ true)
    ⊎ ((e : RoutingTableEntry) × (find dst p.routing_table.forwarding_table ≡ some e)
        × (is_allowed oif (p.routing_table.routes.route_at e.ipv4_route).output_device ≡ false))

abbrev pub Outcome :
    World → ℕ → Address → Option ℕ → Protocol → Option ℕ × SocketErrno × Protocol → Type 0
Outcome w packet dst oif p (none, err, q) =
    (err ≡ error_noroutetohost) × (q ≡ p) × IsRefused dst oif p
Outcome w packet dst oif p (some route, err, q) =
    (err ≡ error_noterror)
    × (is_empty p.socket_addresses ≡ false)
    × (IsKnown dst oif p route q
        ⊎ ((find dst p.routing_table.forwarding_table ≡ none)
            × IsLooped w packet dst oif p route q))

use_route-Outcome :
    (w : World) (packet : ℕ) (dst : Address) (oif : Option ℕ) (p : Protocol) (e : RoutingTableEntry)
    → is_empty p.socket_addresses ≡ false
    → find dst p.routing_table.forwarding_table ≡ some e
    → Outcome w packet dst oif p (use_route oif e.ipv4_route p)
use_route-Outcome w packet dst none p e n h = (refl, n, inl (e, h, refl, refl, refl))
use_route-Outcome w packet dst (some oif) p e n h =
    let dev = (p.routing_table.routes.route_at e.ipv4_route).output_device in
    elim (Bool-cases (dev == oif)) [
      | inl z ↦ rw (z, use_route) (refl, n, inl (e, h, refl, z, refl))
      | inr z ↦ rw (z, use_route) (refl, refl, inr (e, h, z))
    ]

-- On a node with a loopback device, with IP, if a device was asked for, with no socket or with one on that
-- device, if one was asked for, and with an address for every socket, RouteOutput returns for every packet. It refuses the packet,
-- without a route and changing nothing, if there is no socket, or only if the forwarding table has a route
-- through another device than the one asked for. Otherwise it returns the route of the forwarding table,
-- through that device, and changes nothing; or, where the table has none, it tags the packet and returns
-- a new route through the loopback device, from the address of a socket.
pub route_output-Outcome :
    (w : World) (packet : ℕ) (dst : Address) (oif : Option ℕ) (err : SocketErrno) (p : Protocol)
    → found p.lo ≡ true
    → (not (found oif) || p.has_ipv4) ≡ true
    → (is_empty p.socket_addresses || has_source w oif p.socket_addresses) ≡ true
    → has_unset w p.socket_addresses ≡ false
    → (o : Option ℕ × SocketErrno × Protocol) × (route_output w (some packet) dst oif err p
        ≡ some o)
      × Outcome w packet dst oif p o
unfolding route_output lookup_route
route_output-Outcome w packet dst oif err p l i h u =
    elim (Bool-cases (is_empty p.socket_addresses)) [
      | inl z ↦ ((none, error_noroutetohost, p), rw (z, route_output), (refl, refl, inl z))
      | inr z ↦ elim (Option-cases (find dst p.routing_table.forwarding_table)) [
        | inr (e, f) ↦ (
          use_route oif e.ipv4_route p,
          rw (z, f, route_output),
          use_route-Outcome w packet dst oif p e z f,
        )
        | inl f ↦
            let q = add_tag packet (tag_interface w oif) p in
            elim (Option-cases (loopback_route w dst oif q)) [
              | inl e ↦
                  let c = loopback_route-found w dst oif q l i (ground (arith, z, h)) u in
                  let n : found (loopback_route w dst oif q) ≡ false = rw e in cc
              | inr ((route, r), e) ↦ (
                (some route, error_noterror, r),
                rw (z, f, e, route_output),
                (refl, z, inr (f, loopback_route_lem w dst oif q r route e)),
              )
            ]
      ]
    ]

-- A packet without a route, on a node with a socket that may send it.
abbrev Loops :
    World → ℕ → Address → Option ℕ → Protocol → Option ℕ × SocketErrno × Protocol → Type 0
Loops w packet dst oif p o =
    (route : ℕ) × (q : Protocol) × (o ≡ (some route, error_noterror, q))
    × IsLooped w packet dst oif p route q

Outcome-Loops :
    (w : World) (packet : ℕ) (dst : Address) (oif : Option ℕ) (p : Protocol)
    (o : Option ℕ × SocketErrno × Protocol)
    → is_empty p.socket_addresses ≡ false
    → find dst p.routing_table.forwarding_table ≡ none
    → Outcome w packet dst oif p o
    → Loops w packet dst oif p o
Outcome-Loops w packet dst oif p (none, err, q) s f (e, z, inl h) = absurd (ground (arith, s, h))
Outcome-Loops w packet dst oif p (none, err, q) s f (e, z, inr (x, h, _)) =
    absurd (ground (arith, f, h))
Outcome-Loops w packet dst oif p (some route, err, q) s f (e, _, inl (x, h, _, _, _)) =
    absurd (ground (arith, f, h))
Outcome-Loops w packet dst oif p (some route, err, q) s f (e, _, inr (h, l)) = (route, q, rw e, l)

pub has_source-some :
    (w : World) (oif : Option ℕ) (m : Map InterfaceAddress)
    → has_source w oif m ≡ true
    → is_empty m ≡ false
has_source-some w oif [] h = sym h
has_source-some w oif (x ∷ m) h = refl

pub route_output-IsLooped :
    (w : World) (packet : ℕ) (dst : Address) (oif : Option ℕ) (err : SocketErrno) (p : Protocol)
    → found p.lo ≡ true
    → (not (found oif) || p.has_ipv4) ≡ true
    → has_source w oif p.socket_addresses ≡ true
    → has_unset w p.socket_addresses ≡ false
    → find dst p.routing_table.forwarding_table ≡ none
    → (route : ℕ) × (q : Protocol) × (route_output w (some packet) dst oif err p
        ≡ some (some route, error_noterror, q))
      × IsLooped w packet dst oif p route q
route_output-IsLooped w packet dst oif err p l i h u f =
    let (o, e, c) = route_output-Outcome w packet dst oif err p l i (ground (arith, h)) u in
    let (route, q, z, k) =
      Outcome-Loops w packet dst oif p o (has_source-some w oif p.socket_addresses h) f c in
    (route, q, e ∙ ap some z, k)
