-- ===== src/ControlPlane/Legal.antt =====
-- model/bsdvr.cc: ComputeForwardingTable and UpdateDistanceVectorTable keep the tables legal: the
-- forwarding table, the distance vector table and each distance vector in it are sorted by their keys,
-- and each entry stands under the destination of its route.
use bsdvr_ns.Base.{refl, Bool, ℕ, ◌≡◌, ◌<◌, ==_refl, some, List, All, arith, option-both}
use bsdvr_ns.Base.Map.{
  find, assign, IsSorted, assign-IsSorted, insert-IsSorted, find-All, assign-All, insert-All,
}
use bsdvr_ns.Net.{Routes, InterfaceAddress, Address, World}
use bsdvr_ns.RoutingTable.{
  new_entry, add_route, update, RoutingTableEntry, Entries, RoutingTable, get_destination,
}
use bsdvr_ns.Neighbors.{Neighbor}
use bsdvr_ns.ControlPlane.{compute_forwarding_table, update_distance_vector_table}
use bsdvr_ns.ControlPlane.Keyed.{
  IsKeyed, IsKeyedVector, AreKeyed, AreKeyed-routes, create_route-AreKeyed,
  compute_forwarding_table-AreKeyed, update_distance_vector_table-AreKeyed,
}
use bsdvr_ns.ControlPlane.Sorted.{
  IsVector, AreSorted, compute_forwarding_table-AreSorted, update_distance_vector_table-AreSorted,
}

abbrev pub AreLegal : RoutingTable → Type 0
AreLegal t = AreSorted t × AreKeyed t.routes t

pub compute_forwarding_table-AreLegal :
    (w : World) (main : Address) (nb : List Neighbor) (t : RoutingTable)
    → AreLegal t
    → AreLegal (compute_forwarding_table w main nb t).0
compute_forwarding_table-AreLegal w main nb t (s, k) = (
  compute_forwarding_table-AreSorted w main nb t s,
  AreKeyed-routes t.routes _ (compute_forwarding_table-AreKeyed t.routes w main nb t k),
)

pub update_distance_vector_table-AreLegal :
    (w : World) (n : Address) (rt : RoutingTableEntry) (nb : List Neighbor) (t : RoutingTable)
    → rt.ipv4_route < t.routes.fresh
    → AreLegal t
    → AreLegal (update_distance_vector_table w n rt nb t)
update_distance_vector_table-AreLegal w n rt nb t l (s, k) = (
  update_distance_vector_table-AreSorted w n rt nb t s,
  AreKeyed-routes t.routes _ (update_distance_vector_table-AreKeyed t.routes w n rt nb t l k),
)

-- The vector of a neighbor, and one that is stored.
pub vector_of-IsLegal :
    (n : Address) (dv : Entries) (t : RoutingTable)
    → AreLegal t
    → find n t.distance_vector_table ≡ some dv
    → IsSorted dv × All (IsKeyed t.routes) dv
vector_of-IsLegal n dv t (s, k) z = (
  find-All IsVector n dv t.distance_vector_table s.2 z,
  find-All (IsKeyedVector t.routes) n dv t.distance_vector_table k.2 z,
)

pub assign-AreLegal :
    (n : Address) (dv : Entries) (t : RoutingTable)
    → AreLegal t
    → IsSorted dv
    → All (IsKeyed t.routes) dv
    → AreLegal (record t { distance_vector_table = assign n dv t.distance_vector_table })
assign-AreLegal n dv t ((s, v, a), (r, f, k)) x y =
    let m = t.distance_vector_table in
    (
      (s, assign-IsSorted n dv m v, assign-All IsVector n dv m x a),
      (r, f, assign-All (IsKeyedVector t.routes) n dv m y k),
    )

-- A new entry, whose route leads to its destination, and the tables with its route.
pub new_entry-AreLegal :
    (dev : ℕ) (dst : Address) (iface : InterfaceAddress) (hops : ℕ) (next_hop : Address)
    (changed : Bool) (t : RoutingTable)
    → AreLegal t
    → IsKeyed
        (new_entry dev dst iface hops next_hop changed t.routes).1
        (dst, (new_entry dev dst iface hops next_hop changed t.routes).0)
      × AreLegal (record t { routes = (new_entry dev dst iface hops next_hop changed t.routes).1 })
unfolding new_entry
new_entry-AreLegal dev dst iface hops next_hop changed t (s, k) =
    ((omega arith, rw (==_refl t.routes.fresh, get_destination)), (s, create_route-AreKeyed _ t k))

-- A distance vector over the routes `h`.
abbrev pub IsLegalVector : Routes → Entries → Type 0
IsLegalVector h dv = IsSorted dv × All (IsKeyed h) dv

-- AddRoute and Update keep a vector legal, for an entry with a route.
pub add_route-IsLegalVector :
    (h : Routes) (e : RoutingTableEntry) (dv : Entries)
    → e.ipv4_route < h.fresh
    → IsLegalVector h dv
    → IsLegalVector h (add_route h e dv).0 × IsLegalVector h (update h e dv).0
unfolding add_route update
add_route-IsLegalVector h e dv l (s, k) =
    let d = get_destination h e in
    let P = λ (x : Entries × Bool). IsLegalVector h x.0 in
    (
      option-both P (find d dv)
          (λ _. (insert-IsSorted d e dv s, insert-All (IsKeyed h) d e dv (l, refl) k))
          (λ _ _. (s, k)),
      option-both P (find d dv) (λ _. (s, k))
          (λ _ _. (assign-IsSorted d e dv s, assign-All (IsKeyed h) d e dv (l, refl) k)),
    )
