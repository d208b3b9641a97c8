-- ===== src/ControlPlane/Tests.antt =====
-- The maintenance of the tables on concrete tables.
use bsdvr_ns.Base.{
  ◌≡◌, ◌≤◌, refl, true, not, ◌&&◌, none, some, [], ◌∷◌, ◌==◌, if◌then◌else◌, All, arith, contains,
  found,
}
use bsdvr_ns.Base.Map.{find, assign, IsSorted}
use bsdvr_ns.RoutingTable.{inactive, active, RoutingTableEntry, get_destination}
use bsdvr_ns.ControlPlane.{
  is_in, next_hop_at, compute_neighbor, compute_entry, install, settle, is_better_route,
  at_or_create, refresh_forwarding_table, compute_forwarding_table, remove_fake_routes,
  update_distance_vector_table,
}
use bsdvr_ns.ControlPlane.Choice.{chosen, candidates}
use bsdvr_ns.ControlPlane.Refine.{compute_forwarding_table-chosen}
use bsdvr_ns.ControlPlane.Changes.{compute_forwarding_table-changes}
use bsdvr_ns.ControlPlane.Longest.{OneOf, compute_forwarding_table_installs_longest}
use bsdvr_ns.ControlPlane.FakeEntries.{entry_at, is_fake_at}
use bsdvr_ns.ControlPlane.Fake.{remove_fake_routes_lem}
use bsdvr_ns.ControlPlane.Vector.{
  remove_fake_routes_removes_direct_route, update_distance_vector_table_lem,
}
use bsdvr_ns.Samples.{world, routes, entry, vectors, empty_table, detour_table, two_neighbors}

-- The route over 5 hops replaces the one over 3.
computed :
    find 7 (compute_forwarding_table world 1 two_neighbors empty_table).0.forwarding_table
    ≡ some (entry 1 5 active)
unfolding compute_forwarding_table find compute_neighbor compute_entry assign install settle
    is_better_route at_or_create refresh_forwarding_table
computed = refl

detour-IsSorted : IsSorted detour_table.forwarding_table
detour-IsSorted = ((omega arith, tt), (tt, tt))

compute_forwarding_table-chosen_example :
    find 7 (compute_forwarding_table world 1 two_neighbors detour_table).0.forwarding_table
    ≡ chosen routes vectors 7 (candidates 7 two_neighbors vectors) (some (entry 0 3 active))
unfolding find
compute_forwarding_table-chosen_example =
    compute_forwarding_table-chosen world 1 7 two_neighbors detour_table

compute_forwarding_table-changes_example :
    (contains 7 (compute_forwarding_table world 1 two_neighbors empty_table).1 ≡ (
      not (7 == 1)
      && (found
            (find 7 (compute_forwarding_table world 1 two_neighbors empty_table).0.forwarding_table)
          && not (found (find 7 empty_table.forwarding_table)))))
    × (found (find 7 empty_table.forwarding_table) ≡ true
        → found
            (find 7 (compute_forwarding_table world 1 two_neighbors empty_table).0.forwarding_table)
          ≡ true)
compute_forwarding_table-changes_example =
    compute_forwarding_table-changes 7 world 1 two_neighbors empty_table

compute_forwarding_table_installs_longest_example :
    (e : RoutingTableEntry) × (find 7
        (compute_forwarding_table world 1 two_neighbors empty_table).0.forwarding_table
      ≡ some e)
    × OneOf e (entry 0 3 active ∷ entry 1 5 active ∷ [])
    × All (λ x. x.hops ≤ e.hops) (entry 0 3 active ∷ entry 1 5 active ∷ [])
unfolding find
compute_forwarding_table_installs_longest_example =
    compute_forwarding_table_installs_longest world 1 7 two_neighbors empty_table (entry 0 3 active)
      (entry 1 5 active ∷ []) refl refl
      (
        record { is_active = refl; is_fresh = refl },
        (record { is_active = refl; is_fresh = refl }, tt),
      )

remove_fake_routes_lem_example :
    (entry_at 3 7
        (remove_fake_routes world 2
          (entry 0 4 inactive)
          two_neighbors
          detour_table).distance_vector_table
      ≡ (if is_in 3 two_neighbors
            && (is_fake_at 2
                  (entry 0 4 inactive)
                  two_neighbors
                  routes
                  detour_table.forwarding_table
                  7
                && not (3 == next_hop_at world routes detour_table.forwarding_table 7))
          then none
          else entry_at 3 7 vectors))
    × ((remove_fake_routes world 2 (entry 0 4 inactive) two_neighbors detour_table).forwarding_table
        ≡ detour_table.forwarding_table)
    × ((remove_fake_routes world 2 (entry 0 4 inactive) two_neighbors detour_table).routes ≡ routes)
remove_fake_routes_lem_example =
    remove_fake_routes_lem world 2 (entry 0 4 inactive) two_neighbors detour_table 3 7
      detour-IsSorted

remove_fake_routes_removes_direct_route_example :
    entry_at 3 3
      (remove_fake_routes world 2
        (entry 2 4 inactive)
        two_neighbors
        detour_table).distance_vector_table
    ≡ none
unfolding find
remove_fake_routes_removes_direct_route_example =
    remove_fake_routes_removes_direct_route world 2 3 (entry 2 4 inactive) (entry 2 2 active)
      two_neighbors detour_table detour-IsSorted refl refl refl refl (λ e. omega (arith, e)) refl
      refl

update_distance_vector_table_lem_example :
    entry_at 2 7
      (update_distance_vector_table world 2
        (entry 0 4 inactive)
        two_neighbors
        detour_table).distance_vector_table
    ≡ (if is_in 2 two_neighbors && found (find 2 vectors)
        then entry_at 2 7 vectors
        else if get_destination routes (entry 0 4 inactive) == 7
        then some (entry 0 4 inactive)
        else entry_at 2 7 vectors)
update_distance_vector_table_lem_example =
    update_distance_vector_table_lem world 2 7 (entry 0 4 inactive) two_neighbors detour_table
      detour-IsSorted
