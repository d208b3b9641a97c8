-- ===== src/ControlPlane/Keyed.antt =====
-- model/bsdvr.cc: that an entry of a table stands under the destination of its route. Entries share
-- their routes, which their setters write to and whose destinations nothing changes.
use bsdvr_ns.Base.{ℕ, ◌<◌, ◌≡◌, refl, false, List, ◌==◌, All-mono, arith}
use bsdvr_ns.Net.{Address, Ipv4Route, Routes, create_route, World}
use bsdvr_ns.RoutingTable.{
  RoutingTableEntry, Entries, RoutingTable, get_destination, set_next_hop, set_output_device,
}
use bsdvr_ns.Neighbors.{Neighbor}
use bsdvr_ns.ControlPlane.{compute_forwarding_table, update_distance_vector_table}
use bsdvr_ns.ControlPlane.Every.{
  IsVectorOf, AreOver, compute_forwarding_table-AreOver, update_distance_vector_table-AreOver,
}

-- The route of an entry exists, and leads to the entry's key.
abbrev pub IsKeyed : Routes → Address × RoutingTableEntry → Type 0
IsKeyed h (d, e) = (e.ipv4_route < h.fresh) × (get_destination h e ≡ d)

abbrev pub IsKeyedVector : Routes → Address × Entries → Type 0
IsKeyedVector h = IsVectorOf (IsKeyed h)

abbrev pub AreKeyed : Routes → RoutingTable → Type 0
AreKeyed h = AreOver h (IsKeyed h) (IsKeyed h)

pub compute_forwarding_table-AreKeyed :
    (h : Routes) (w : World) (main : Address) (nb : List Neighbor) (t : RoutingTable)
    → AreKeyed h t
    → AreKeyed h (compute_forwarding_table w main nb t).0
compute_forwarding_table-AreKeyed h =
    compute_forwarding_table-AreOver h (IsKeyed h) (IsKeyed h) (λ d e i. i) (λ d e i. i)

pub update_distance_vector_table-AreKeyed :
    (h : Routes) (w : World) (n : Address) (rt : RoutingTableEntry) (nb : List Neighbor)
    (t : RoutingTable)
    → rt.ipv4_route < h.fresh
    → AreKeyed h t
    → AreKeyed h (update_distance_vector_table w n rt nb t)
update_distance_vector_table-AreKeyed h w n rt nb t l k =
    update_distance_vector_table-AreOver h (IsKeyed h) (IsKeyed h) (λ d e i. i) (λ d e i. i) w n rt
      nb t (l, refl) k

-- Tables that stay, over routes that keep all destinations.
AreKeyed-mono :
    (h h' : Routes) (t : RoutingTable)
    → ((x : Address × RoutingTableEntry) → IsKeyed h x → IsKeyed h' x)
    → AreKeyed h t
    → AreKeyed h' (record t { routes = h' })
AreKeyed-mono h h' t keep (r, f, v) = (
  refl,
  All-mono (IsKeyed h) (IsKeyed h') keep t.forwarding_table f,
  All-mono (IsKeyedVector h) (IsKeyedVector h')
      (λ (n, dv) g. All-mono (IsKeyed h) (IsKeyed h') keep dv g) t.distance_vector_table v,
)

create_route-IsKeyed :
    (r : Ipv4Route) (h : Routes) (x : Address × RoutingTableEntry)
    → IsKeyed h x
    → IsKeyed (create_route r h) x
create_route-IsKeyed r h (d, e) (l, k) =
    let n : (e.ipv4_route == h.fresh) ≡ false = ground (arith, l) in
    (omega (arith, l), rw (n, get_destination) k)

pub create_route-AreKeyed :
    (r : Ipv4Route) (t : RoutingTable)
    → AreKeyed t.routes t
    → AreKeyed (create_route r t.routes) (record t { routes = create_route r t.routes })
create_route-AreKeyed r t k =
    AreKeyed-mono t.routes (create_route r t.routes) t (create_route-IsKeyed r t.routes) k

-- The setters write the next hop and the device of a route.
abbrev pub redirected : Address → ℕ → RoutingTableEntry → Routes → Routes
redirected next_hop dev e h = set_next_hop next_hop e (set_output_device dev e h)

pub redirected-IsKeyed :
    (next_hop : Address) (dev : ℕ) (e : RoutingTableEntry) (h : Routes)
    (x : Address × RoutingTableEntry)
    → IsKeyed h x
    → IsKeyed (redirected next_hop dev e h) x
unfolding set_next_hop set_output_device
redirected-IsKeyed next_hop dev e h (d, x) (l, k) = (l, ground (arith, k))

pub redirected-AreKeyed :
    (next_hop : Address) (dev : ℕ) (e : RoutingTableEntry) (t : RoutingTable)
    → AreKeyed t.routes t
    → AreKeyed
        (redirected next_hop dev e t.routes)
        (record t { routes = redirected next_hop dev e t.routes })
redirected-AreKeyed next_hop dev e t k =
    AreKeyed-mono t.routes (redirected next_hop dev e t.routes) t
      (redirected-IsKeyed next_hop dev e t.routes) k

pub AreKeyed-routes : (h : Routes) (t : RoutingTable) → AreKeyed h t → AreKeyed t.routes t
AreKeyed-routes h t (r, f, v) = (refl, rw r f, rw r v)
