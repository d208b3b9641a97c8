-- ===== src/Neighbors/Tests.antt =====
-- The neighbors on a concrete vector: 2 is live at time 100, 3 has expired.
use bsdvr_ns.Base.{◌≡◌, refl, false, ◌||◌, some, List, [], ◌∷◌, ◌++◌, ◌==◌, pos}
use bsdvr_ns.Net.{Address}
use bsdvr_ns.Neighbors.{
  close_neighbor, purge, is_neighbor, get_expire_time, update, process_tx_error,
}
use bsdvr_ns.Neighbors.Laws.{get_expire_time_lem}
use bsdvr_ns.Neighbors.Updates.{IsWellFormed}
use bsdvr_ns.Neighbors.Invariant.{
  operations-IsWellFormed, update-is_neighbor, process_tx_error-is_neighbor,
}
use bsdvr_ns.Samples.{world, some_neighbors}

-- A callback that notes whom it is called for.
abbrev note : Address → List Address → List Address
note a s = s ++ a ∷ []

get_expire_time_lem_example : (get_expire_time world (some note) 2 some_neighbors []).0 ≡ pos 20
unfolding close_neighbor
get_expire_time_lem_example = get_expire_time_lem world (some note) 2 some_neighbors []

some_neighbors-IsWellFormed : IsWellFormed some_neighbors
some_neighbors-IsWellFormed = record {
  open_lem = (refl, (refl, tt));
  distinct = (refl, (refl, tt));
}

operations-IsWellFormed_example :
    IsWellFormed (purge world (some note) some_neighbors []).0
    × IsWellFormed (update world (some note) 5 10 some_neighbors []).0
    × IsWellFormed (process_tx_error world (some note) 2 some_neighbors []).0
operations-IsWellFormed_example =
    operations-IsWellFormed world (some note) 5 2 10 some_neighbors [] some_neighbors-IsWellFormed

update-is_neighbor_example :
    (is_neighbor world (some note) 2 (update world (some note) 5 10 some_neighbors []).0 []).0
    ≡ (5 == 2 || (is_neighbor world (some note) 2 some_neighbors []).0)
update-is_neighbor_example =
    update-is_neighbor world (some note) 5 2 10 some_neighbors [] [] some_neighbors-IsWellFormed

process_tx_error-is_neighbor_example :
    (is_neighbor world
      (some note)
      2
      (process_tx_error world (some note) 2 some_neighbors []).0
      []).0
    ≡ false
unfolding close_neighbor
process_tx_error-is_neighbor_example =
    process_tx_error-is_neighbor world (some note) 2 2 some_neighbors [] []
