-- ===== src/ControlPlane.antt =====
-- model/bsdvr.cc, from isBetterRoute to ComputeForwardingTable: how the two tables are maintained.
-- A function takes the neighbors that GetNeighbors returns and the tables, and returns the tables.
pub mod Choice
pub mod Refine
pub mod Changes
pub mod Longest
pub mod FakeEntries
pub mod Fake
pub mod Forwarding
pub mod Vector
pub mod Every
pub mod Keyed
pub mod Sorted
pub mod Legal
mod Tests
use bsdvr_ns.Base.{
  ℕ, Bool, true, false, not, ◌&&◌, ◌||◌, Option, none, some, List, [], ◌∷◌, ◌++◌, ◌==◌, ltb, leb,
  if◌then◌else◌, any, reject, for_each, contains,
}
use bsdvr_ns.Base.Map.{find, assign, insert, erase}
use bsdvr_ns.Net.{Address, Routes, World}
use bsdvr_ns.RoutingTable.{
  RouteState, inactive, active, state_eq, RoutingTableEntry, get_destination, get_next_hop,
  set_route_state, default_entry, Entries, RoutingTable,
}
use bsdvr_ns.Neighbors.{Neighbor}

-- model/bsdvr-constants.h
abbrev pub bsdvr_threshold : ℕ
bsdvr_threshold = 16

-- The nested switch of isBetterRoute, on the new state and then on the current one.
abbrev pub better_hops : RouteState → RouteState → ℕ → ℕ → Bool
better_hops active active new curr = if leb curr new then false else true
better_hops active inactive new curr = if ltb new bsdvr_threshold then true else false
better_hops inactive active new curr = if leb curr bsdvr_threshold then false else true
better_hops inactive inactive new curr = if leb curr new then false else true

-- The new route is `r2`, the current one `r1`.
unfoldable pub is_better_route : RoutingTableEntry → RoutingTableEntry → Bool
is_better_route r1 r2 = better_hops r2.state r1.state r2.hops r1.hops

-- `map[k]`, which adds a default entry where there is none.
unfoldable pub at_or_create :
    World → Address → Entries → Routes → RoutingTableEntry × Entries × Routes
at_or_create w k m h = elim (find k m) [
  | some e ↦ (e, m, h)
  | none ↦ let (e, h') = default_entry w h in (e, assign k e m, h')
]

unfoldable pub refresh_forwarding_table : World → Address → Address → RoutingTable → RoutingTable
refresh_forwarding_table w dst nxt_hp t = elim (find nxt_hp t.distance_vector_table) [
  | some dv ↦ elim (find dst dv) [
    | some e ↦ record t { forwarding_table = assign dst e t.forwarding_table }
    | none ↦ t
  ]
  | none ↦
      let (e, ft, h) = at_or_create w dst t.forwarding_table t.routes in
      record t { forwarding_table = assign dst (set_route_state inactive e) ft; routes = h }
]

-- `if (c != changes.end ()) changes.push_back (dst)`, after `c = find (…, dst)`.
abbrev pub push_if_found : Address → List Address → List Address
push_if_found dst changes = if contains dst changes then changes ++ dst ∷ [] else changes

-- The branches on isBetterRoute and on a change of the current entry.
unfoldable pub settle :
    Address
    → RoutingTableEntry
    → RoutingTableEntry
    → RoutingTableEntry
    → RoutingTable × List Address
    → RoutingTable × List Address
settle dst new_entry old_entry curr_entry (t, changes) =
    if is_better_route new_entry curr_entry
    then (
      record t { forwarding_table = assign dst new_entry t.forwarding_table },
      push_if_found dst changes,
    )
    else if not (curr_entry.hops == old_entry.hops)
        || not (state_eq curr_entry.state old_entry.state)
    then (t, push_if_found dst changes)
    else (t, changes)

-- An entry of a neighbor's distance vector against the entry of the forwarding table.
unfoldable pub install :
    World
    → Address
    → RoutingTableEntry
    → RoutingTableEntry
    → RoutingTable × List Address
    → RoutingTable × List Address
install w dst new_entry old_entry (t, changes) =
    let t' = refresh_forwarding_table w dst (get_next_hop t.routes old_entry) t in
    let (curr_entry, ft, h) = at_or_create w dst t'.forwarding_table t'.routes in
    settle dst new_entry old_entry curr_entry
      (record t' { forwarding_table = ft; routes = h }, changes)

-- The body of the inner loop of ComputeForwardingTable.
unfoldable pub compute_entry :
    World → Address × RoutingTableEntry → RoutingTable × List Address → RoutingTable × List Address
compute_entry w (dst, new_entry) (t, changes) = elim (find dst t.forwarding_table) [
  | some old_entry ↦ install w dst new_entry old_entry (t, changes)
  | none ↦
      (record t { forwarding_table = assign dst new_entry t.forwarding_table }, changes ++ dst ∷ [])
]

-- The body of the outer loop.
unfoldable pub compute_neighbor :
    World → Neighbor → RoutingTable × List Address → RoutingTable × List Address
compute_neighbor w i (t, changes) = elim (find i.neighbor_address t.distance_vector_table) [
  | none ↦ (t, changes)
  | some dv ↦ for_each (compute_entry w) dv (t, changes)
]

unfoldable pub compute_forwarding_table :
    World → Address → List Neighbor → RoutingTable → RoutingTable × List Address
compute_forwarding_table w main_address neighbors t =
    let (t', changes) = for_each (compute_neighbor w) neighbors (t, []) in
    (t', reject (λ c. c == main_address) changes)

abbrev pub is_in : Address → List Neighbor → Bool
is_in addr = any (λ n. n.neighbor_address == addr)

-- What the first loop of RemoveFakeRoutes pushes for an entry of the forwarding table.
abbrev pub fake_pushes :
    Address
    → RoutingTableEntry
    → List Neighbor
    → Routes
    → Address
    → RoutingTableEntry
    → List Address
fake_pushes nxt_hp rt neighbors h curr_dst curr =
    let dst = get_destination h rt in
    let curr_nxt_hp = get_next_hop h curr in
    if state_eq curr.state active && state_eq rt.state inactive
    then (if nxt_hp == curr_nxt_hp && dst == curr_dst then curr_dst ∷ [] else [])
      ++ (if (nxt_hp == dst && is_in nxt_hp neighbors)
            && (curr_nxt_hp == nxt_hp && not (dst == curr_dst))
          then curr_dst ∷ []
          else [])
    else []

unfoldable pub fake_dsts :
    Address → RoutingTableEntry → List Neighbor → Routes → Entries → List Address
fake_dsts nxt_hp rt neighbors h [] = []
fake_dsts nxt_hp rt neighbors h ((curr_dst, curr) ∷ ft) =
    fake_pushes nxt_hp rt neighbors h curr_dst curr ++ fake_dsts nxt_hp rt neighbors h ft

-- `(*ft)[k].GetNextHop ()` for a fake destination `k`, which has an entry.
abbrev pub next_hop_at : World → Routes → Entries → Address → Address
next_hop_at w h ft k = elim (find k ft) [ some e ↦ get_next_hop h e | none ↦ w.no_address ]

-- The innermost loop, over the fake destinations, for the entry of `dst` in the vector of `ne`.
abbrev pub erase_pushes : World → Routes → Entries → Address → Address → List Address → List Address
erase_pushes w h ft ne dst [] = []
erase_pushes w h ft ne dst (k ∷ fake) =
    let rest = erase_pushes w h ft ne dst fake in
    if k == dst && not (ne == next_hop_at w h ft dst) then k ∷ rest else rest

unfoldable pub erase_ips :
    World → Routes → Entries → Address → List Address → Entries → List Address
erase_ips w h ft ne fake [] = []
erase_ips w h ft ne fake ((dst, _) ∷ dv) =
    erase_pushes w h ft ne dst fake ++ erase_ips w h ft ne fake dv

-- The body of the second loop of RemoveFakeRoutes, for the neighbor `ne`.
unfoldable pub remove_fake_at : World → List Address → Address → RoutingTable → RoutingTable
remove_fake_at w fake ne t = elim (find ne t.distance_vector_table) [
  | none ↦ t
  | some dv ↦ record t {
    distance_vector_table =
        assign ne (for_each erase (erase_ips w t.routes t.forwarding_table ne fake dv) dv)
          t.distance_vector_table;
  }
]

unfoldable pub remove_fake_routes :
    World → Address → RoutingTableEntry → List Neighbor → RoutingTable → RoutingTable
remove_fake_routes w nxt_hp rt neighbors t =
    let fake = fake_dsts nxt_hp rt neighbors t.routes t.forwarding_table in
    for_each (λ i. remove_fake_at w fake i.neighbor_address) neighbors t

-- `(*dv)[dst] = rt` or `dv->insert ({dst, rt})`.
unfoldable pub write_entry : Address → RoutingTableEntry → Entries → Entries
write_entry dst rt dv = elim (find dst dv) [ some _ ↦ assign dst rt dv | none ↦ insert dst rt dv ]

-- The vector of `nxt_hp`, created where it is missing, with the entry written to it.
unfoldable pub write_vector : Address → Address → RoutingTableEntry → RoutingTable → RoutingTable
write_vector nxt_hp dst rt t = elim (find nxt_hp t.distance_vector_table) [
  | none ↦ record t {
    distance_vector_table = assign nxt_hp (write_entry dst rt []) t.distance_vector_table;
  }
  | some dv ↦ record t {
    distance_vector_table = assign nxt_hp (write_entry dst rt dv) t.distance_vector_table;
  }
]

-- The first half of UpdateDistanceVectorTable: RemoveFakeRoutes for a destination that is known.
unfoldable pub remove_if_known :
    World → Address → RoutingTableEntry → List Neighbor → RoutingTable → RoutingTable
remove_if_known w nxt_hp rt neighbors t =
    elim (find (get_destination t.routes rt) t.forwarding_table) [
      | some _ ↦ remove_fake_routes w nxt_hp rt neighbors t
      | none ↦ t
    ]

-- The second half: nothing is done for a neighbor that has a vector.
unfoldable pub store_route :
    Address → Address → RoutingTableEntry → List Neighbor → RoutingTable → RoutingTable
store_route nxt_hp dst rt neighbors t = elim (find nxt_hp t.distance_vector_table) [
  | none ↦ write_vector nxt_hp dst rt t
  | some _ ↦ if is_in nxt_hp neighbors then t else write_vector nxt_hp dst rt t
]

unfoldable pub update_distance_vector_table :
    World → Address → RoutingTableEntry → List Neighbor → RoutingTable → RoutingTable
update_distance_vector_table w nxt_hp rt neighbors t =
    store_route nxt_hp (get_destination t.routes rt) rt neighbors
      (remove_if_known w nxt_hp rt neighbors t)
