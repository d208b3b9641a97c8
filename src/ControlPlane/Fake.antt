-- ===== src/ControlPlane/Fake.antt =====
-- What RemoveFakeRoutes removes from the distance vectors of all neighbors.
use bsdvr_ns.Base.{
  ◌≡◌, refl, not, ◌&&◌, none, List, [], ◌∷◌, ◌==◌, if◌then◌else◌, for_each, arith, Option-cases,
  Bool-cases, ==_iff, inl, inr, ap, ◌∙◌, found,
}
use bsdvr_ns.Base.Map.{find, erase, find-assign, IsSorted}
use bsdvr_ns.Net.{Address, Routes, World}
use bsdvr_ns.RoutingTable.{RoutingTableEntry, Entries, RoutingTable}
use bsdvr_ns.Neighbors.{Neighbor}
use bsdvr_ns.ControlPlane.{
  is_in, fake_dsts, next_hop_at, erase_ips, remove_fake_at, remove_fake_routes,
}
use bsdvr_ns.ControlPlane.FakeEntries.{
  entry_at, is_fake_at, fake_dsts_lem, is_removed, remove_fake_at_lem,
}

-- The forwarding table and the routes are what they were.
pub record SameForwarding (t u : RoutingTable) : Type 0 where
  pub same_forwarding : u.forwarding_table ≡ t.forwarding_table
  pub same_routes : u.routes ≡ t.routes

remove_fake_at-SameForwarding :
    (w : World) (fake : List Address) (a : Address) (t : RoutingTable)
    → SameForwarding t (remove_fake_at w fake a t)
unfolding remove_fake_at
remove_fake_at-SameForwarding w fake a t = ground arith

pub remove_fake_loop-SameForwarding :
    (w : World) (fake : List Address) (nb : List Neighbor) (t : RoutingTable)
    → SameForwarding t (for_each (λ i. remove_fake_at w fake i.neighbor_address) nb t)
remove_fake_loop-SameForwarding w fake [] t = record { same_forwarding = refl; same_routes = refl }
remove_fake_loop-SameForwarding w fake (i ∷ nb) t =
    let t' = remove_fake_at w fake i.neighbor_address t in
    ground (
      arith,
      remove_fake_at-SameForwarding w fake i.neighbor_address t,
      remove_fake_loop-SameForwarding w fake nb t',
    )

module _ (w : World) (fake : List Address) (n d : Address) (h : Routes) (ft : Entries) where
  remove_fake_loop_lem :
      (nb : List Neighbor) (t : RoutingTable)
      → t.routes ≡ h
      → t.forwarding_table ≡ ft
      → entry_at n d
          (for_each (λ i. remove_fake_at w fake i.neighbor_address) nb t).distance_vector_table
        ≡ (if is_in n nb && is_removed w fake h ft n d
            then none
            else entry_at n d t.distance_vector_table)
  remove_fake_loop_lem [] t ph pf = refl
  remove_fake_loop_lem (i ∷ nb) t ph pf =
      let a = i.neighbor_address in
      let same = remove_fake_at-SameForwarding w fake a t in
      let ih =
        remove_fake_loop_lem nb (remove_fake_at w fake a t) (same.same_routes ∙ ph)
          (same.same_forwarding ∙ pf) in
      let step = rw (ph, pf) at (remove_fake_at_lem w fake n d a t) in ground (arith, ih, step)

remove_fake_at-found :
    (w : World) (fake : List Address) (n a : Address) (t : RoutingTable)
    → found (find n (remove_fake_at w fake a t).distance_vector_table)
      ≡ found (find n t.distance_vector_table)
unfolding remove_fake_at
remove_fake_at-found w fake n a t = elim (Option-cases (find a t.distance_vector_table)) [
  | inl e ↦ rw (e, remove_fake_at)
  | inr (dv, e) ↦
      let dv' = for_each erase (erase_ips w t.routes t.forwarding_table a fake dv) dv in
      rw (e, remove_fake_at)
        (elim (Bool-cases (a == n)) [
          | inl p ↦ ground (
            arith,
            find-assign n a dv' t.distance_vector_table,
            e,
            ap (λ x. find x t.distance_vector_table) ((==_iff a n).0 p),
          )
          | inr p ↦ ground (arith, find-assign n a dv' t.distance_vector_table)
        ])
]

remove_fake_loop-found :
    (w : World) (fake : List Address) (n : Address) (nb : List Neighbor) (t : RoutingTable)
    → found (
        find n
          (for_each (λ i. remove_fake_at w fake i.neighbor_address) nb t).distance_vector_table)
      ≡ found (find n t.distance_vector_table)
remove_fake_loop-found w fake n [] t = refl
remove_fake_loop-found w fake n (i ∷ nb) t =
    remove_fake_loop-found w fake n nb (remove_fake_at w fake i.neighbor_address t)
    ∙ remove_fake_at-found w fake n i.neighbor_address t

-- No neighbor loses its vector, though it may become empty.
pub remove_fake_routes-found :
    (w : World) (nxt_hp : Address) (rt : RoutingTableEntry) (nb : List Neighbor) (t : RoutingTable)
    (n : Address)
    → found (find n (remove_fake_routes w nxt_hp rt nb t).distance_vector_table)
      ≡ found (find n t.distance_vector_table)
unfolding remove_fake_routes
remove_fake_routes-found w nxt_hp rt nb t n =
    remove_fake_loop-found w (fake_dsts nxt_hp rt nb t.routes t.forwarding_table) n nb t

-- Where the forwarding table is sorted, RemoveFakeRoutes leaves it and the routes alone, and
-- removes the entry for a destination from the distance vector of a node exactly if the node is a
-- neighbor and the forwarding table's entry for the destination is fake and goes by way of another
-- node; every other entry of a distance vector stays as it was.
pub remove_fake_routes_lem :
    (w : World) (nxt_hp : Address) (rt : RoutingTableEntry) (nb : List Neighbor) (t : RoutingTable)
    (n d : Address)
    → IsSorted t.forwarding_table
    → (entry_at n d (remove_fake_routes w nxt_hp rt nb t).distance_vector_table ≡ (
        if is_in n nb
          && (is_fake_at nxt_hp rt nb t.routes t.forwarding_table d
              && not (n == next_hop_at w t.routes t.forwarding_table d))
        then none
        else entry_at n d t.distance_vector_table))
      × ((remove_fake_routes w nxt_hp rt nb t).forwarding_table ≡ t.forwarding_table)
      × ((remove_fake_routes w nxt_hp rt nb t).routes ≡ t.routes)
unfolding remove_fake_routes
remove_fake_routes_lem w nxt_hp rt nb t n d s =
    let fake = fake_dsts nxt_hp rt nb t.routes t.forwarding_table in
    let same = remove_fake_loop-SameForwarding w fake nb t in
    (
      rw (← fake_dsts_lem nxt_hp rt nb t.routes d t.forwarding_table s)
          (remove_fake_loop_lem w fake n d t.routes t.forwarding_table nb t refl refl),
      same.same_forwarding,
      same.same_routes,
    )
