-- ===== src/RoutingTable/Laws.antt =====
-- model/bsdvr-rtable.cc: what each operation does to every lookup, and that it keeps a map a map.
use mathlib.Core.Option
use bsdvr_ns.Base.{
  All, ℕ, true, false, Option, none, some, [], ◌∷◌, ◌≡◌, refl, ◌==◌, if◌then◌else◌, arith, inl, inr,
  Option-cases, or_else, found,
}
use bsdvr_ns.Base.Map.{
  find, find-assign, find-erase, find-insert, Above, IsSorted, assign-IsSorted, erase-IsSorted,
  insert-IsSorted,
}
use bsdvr_ns.Net.{Address, InterfaceAddress, iface_eq, Routes}
use bsdvr_ns.RoutingTable.{
  RouteState, RoutingTableEntry, Entries, get_destination, set_route_state, lookup_route,
  delete_route, add_route, update, set_entry_state, delete_all_routes_from_interface,
}

-- AddRoute never overwrites: afterwards a destination has the entry it had, or else the new one if
-- that is the entry's destination, and true is returned exactly when the destination was missing.
pub add_route-lookup :
    (h : Routes) (rt : RoutingTableEntry) (m : Entries) (j : Address)
    → (lookup_route j (add_route h rt m).0
        ≡ or_else (lookup_route j m) (if get_destination h rt == j then some rt else none))
      × (found (lookup_route (get_destination h rt) m)
          ≡ (if (add_route h rt m).1 then false else true))
unfolding lookup_route add_route
add_route-lookup h rt m j = let d = get_destination h rt in ground (arith, find-insert j d rt m)

-- Update never creates: afterwards the entry's destination has the new entry if it had one, every
-- other destination has what it had, and true is returned exactly when the destination was there.
pub update-lookup :
    (h : Routes) (rt : RoutingTableEntry) (m : Entries) (j : Address)
    → (lookup_route j (update h rt m).0 ≡ (
        if get_destination h rt == j
        then Option.map (λ _. rt) (lookup_route j m)
        else lookup_route j m))
      × ((update h rt m).1 ≡ found (lookup_route (get_destination h rt) m))
unfolding lookup_route update
update-lookup h rt m j = ground (arith, find-assign j (get_destination h rt) rt m)

-- DeleteRoute removes the destination's entry and no other; SetEntryState changes the state of the
-- destination's entry and nothing else. Each returns true exactly when the entry was there.
pub delete_route-set_entry_state-lookup :
    (dst : Address) (s : RouteState) (m : Entries) (j : Address)
    → (lookup_route j (delete_route dst m).0 ≡ (if dst == j then none else lookup_route j m))
      × ((delete_route dst m).1 ≡ found (lookup_route dst m))
      × (lookup_route j (set_entry_state dst s m).0 ≡ (
          if dst == j then Option.map (set_route_state s) (lookup_route j m) else lookup_route j m))
      × ((set_entry_state dst s m).1 ≡ found (lookup_route dst m))
unfolding lookup_route delete_route set_entry_state
delete_route-set_entry_state-lookup dst s m j = elim (Option-cases (find dst m)) [
  | inl e ↦ rw (e, delete_route, set_entry_state) (ground arith)
  | inr (x, e) ↦
      rw (e, delete_route, set_entry_state)
        (ground (arith, find-erase j dst m, find-assign j dst (set_route_state s x) m))
]

pub find-Above : (k : ℕ) (m : Entries) → Above k m → find k m ≡ none
unfolding find
find-Above k [] a = refl
find-Above k ((j, e) ∷ m) a = ground (arith, find-Above k m)

-- The entry, unless it goes out by the interface.
abbrev pub unless_iface : InterfaceAddress → Option RoutingTableEntry → Option RoutingTableEntry
unless_iface iface none = none
unless_iface iface (some e) = if iface_eq e.iface iface then none else some e

-- On a sorted map DeleteAllRoutesFromInterface removes exactly the entries whose interface is the
-- given one.
pub delete_all_routes_from_interface-lookup :
    (iface : InterfaceAddress) (m : Entries) (j : Address)
    → IsSorted m
    → lookup_route j (delete_all_routes_from_interface iface m)
      ≡ unless_iface iface (lookup_route j m)
unfolding lookup_route delete_all_routes_from_interface find
delete_all_routes_from_interface-lookup iface [] j s = refl
delete_all_routes_from_interface-lookup iface ((d, e) ∷ m) j s =
    ground (arith, delete_all_routes_from_interface-lookup iface m j s.1, find-Above j m)

delete_all_routes_from_interface-Above :
    (k : ℕ) (iface : InterfaceAddress) (m : Entries)
    → Above k m
    → Above k (delete_all_routes_from_interface iface m)
unfolding delete_all_routes_from_interface
delete_all_routes_from_interface-Above k iface [] a = tt
delete_all_routes_from_interface-Above k iface ((d, e) ∷ m) a =
    ground (arith, delete_all_routes_from_interface-Above k iface m a.1)

pub delete_all_routes_from_interface-IsSorted :
    (iface : InterfaceAddress) (m : Entries)
    → IsSorted m
    → IsSorted (delete_all_routes_from_interface iface m)
unfolding delete_all_routes_from_interface
delete_all_routes_from_interface-IsSorted iface [] s = tt
delete_all_routes_from_interface-IsSorted iface ((d, e) ∷ m) s = ground (
  arith,
  delete_all_routes_from_interface-IsSorted iface m s.1,
  delete_all_routes_from_interface-Above d iface m s.0,
)

-- Every operation takes a map whose keys ascend to one whose keys ascend, so that a table never
-- holds two entries for one destination.
pub operations-IsSorted :
    (h : Routes) (rt : RoutingTableEntry) (dst : Address) (s : RouteState)
    (iface : InterfaceAddress) (m : Entries)
    → IsSorted m
    → IsSorted (add_route h rt m).0
      × IsSorted (update h rt m).0
      × IsSorted (delete_route dst m).0
      × IsSorted (set_entry_state dst s m).0
      × IsSorted (delete_all_routes_from_interface iface m)
unfolding add_route update delete_route set_entry_state
operations-IsSorted h rt dst s iface m v =
    let d = get_destination h rt in
    (
      ground (arith, insert-IsSorted d rt m),
      ground (arith, assign-IsSorted d rt m),
      ground (arith, erase-IsSorted dst m),
      elim (Option-cases (find dst m)) [
        | inl e ↦ rw (e, set_entry_state) v
        | inr (x, e) ↦ rw (e, set_entry_state) (assign-IsSorted dst (set_route_state s x) m v)
      ],
      delete_all_routes_from_interface-IsSorted iface m v,
    )

pub delete_all_routes_from_interface-All :
    (P : Address × RoutingTableEntry → Type 0) (iface : InterfaceAddress) (m : Entries)
    → All P m
    → All P (delete_all_routes_from_interface iface m)
unfolding delete_all_routes_from_interface
delete_all_routes_from_interface-All P iface [] h = tt
delete_all_routes_from_interface-All P iface ((d, e) ∷ m) h =
    ground (arith, delete_all_routes_from_interface-All P iface m h.1)
