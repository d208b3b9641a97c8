-- ===== src/ControlPlane/Longest.antt =====
-- ComputeForwardingTable between active routes: isBetterRoute (new_entry, curr_entry) asks whether
-- the current entry is better, and the new one is installed if it is.
use bsdvr_ns.Base.{
  ◌≡◌, refl, ◌≤◌, ◌⊎◌, inl, inr, true, false, none, some, List, [], ◌∷◌, if◌then◌else◌, All, arith,
  Bool-cases,
}
use bsdvr_ns.Base.Map.{Map, find}
use bsdvr_ns.Net.{Address, Routes, World}
use bsdvr_ns.RoutingTable.{active, RoutingTableEntry, Entries, RoutingTable}
use bsdvr_ns.Neighbors.{Neighbor}
use bsdvr_ns.ControlPlane.{is_better_route, compute_forwarding_table}
use bsdvr_ns.ControlPlane.Choice.{refreshed, choose, chosen, candidates}
use bsdvr_ns.ControlPlane.Refine.{compute_forwarding_table-chosen}

abbrev pub OneOf : RoutingTableEntry → List RoutingTableEntry → Type 0
OneOf e [] = ⊥
OneOf e (c ∷ cs) = (e ≡ c) ⊎ OneOf e cs

OneOf-skip :
    {e old : RoutingTableEntry} (c : RoutingTableEntry) (cs : List RoutingTableEntry)
    → OneOf e (old ∷ cs)
    → OneOf e (old ∷ c ∷ cs)
OneOf-skip c cs (inl p) = inl p
OneOf-skip c cs (inr p) = inr (inr p)

better_longer :
    (c old : RoutingTableEntry)
    → c.state ≡ active
    → old.state ≡ active
    → is_better_route c old ≡ true
    → old.hops ≤ c.hops
unfolding is_better_route
better_longer c old p q e = ground arith

not_better_shorter :
    (c old : RoutingTableEntry)
    → c.state ≡ active
    → old.state ≡ active
    → is_better_route c old ≡ false
    → c.hops ≤ old.hops
unfolding is_better_route
not_better_shorter c old p q e = ground arith

module _ (h : Routes) (v : Map Entries) (d : Address) where
  -- An active entry for the destination that is the one in the distance vector of its next hop.
  pub record IsCurrent (c : RoutingTableEntry) : Type 0 where
    pub is_active : c.state ≡ active
    pub is_fresh : refreshed h v d c ≡ c

  pub record Longest (old : RoutingTableEntry) (cs : List RoutingTableEntry) : Type 0 where
    pub winner : RoutingTableEntry
    pub wins : chosen h v d cs (some old) ≡ some winner
    pub one_of : OneOf winner (old ∷ cs)
    pub over_old : old.hops ≤ winner.hops
    pub over_all : All (λ c. c.hops ≤ winner.hops) cs

  choose_current :
      (c old : RoutingTableEntry)
      → IsCurrent old
      → choose h v d c (some old) ≡ (if is_better_route c old then c else old)
  choose_current c old o = rw (o.is_fresh)

  longest_lem :
      (cs : List RoutingTableEntry) (old : RoutingTableEntry)
      → IsCurrent old
      → All IsCurrent cs
      → Longest old cs
  unfolding is_better_route
  longest_lem [] old o a = record {
    winner = old;
    wins = refl;
    one_of = inl refl;
    over_old = omega arith;
    over_all = tt;
  }
  longest_lem (c ∷ cs) old o a = elim (Bool-cases (is_better_route c old)) [
    | inl e ↦
        let ih = longest_lem cs c a.0 a.1 in
        record {
          winner = ih.winner;
          wins = rw (choose_current c old o, e) ih.wins;
          one_of = inr ih.one_of;
          over_old = omega (arith, ih.over_old, better_longer c old a.0.is_active o.is_active e);
          over_all = (ih.over_old, ih.over_all);
        }
    | inr e ↦
        let ih = longest_lem cs old o a.1 in
        record {
          winner = ih.winner;
          wins = rw (choose_current c old o, e) ih.wins;
          one_of = OneOf-skip c cs ih.one_of;
          over_old = ih.over_old;
          over_all = (
            omega (arith, ih.over_old, not_better_shorter c old a.0.is_active o.is_active e),
            ih.over_all,
          );
        }
  ]

-- Among active routes to a destination without an entry, ComputeForwardingTable installs a longest
-- one: where every neighbor's entry for the destination is active and is what the distance vector of
-- its next hop has, the entry that is installed is one of them, and none of them has more hops.
pub compute_forwarding_table_installs_longest :
    (w : World) (main d : Address) (nb : List Neighbor) (t : RoutingTable) (c : RoutingTableEntry)
    (cs : List RoutingTableEntry)
    → find d t.forwarding_table ≡ none
    → candidates d nb t.distance_vector_table ≡ c ∷ cs
    → All (IsCurrent t.routes t.distance_vector_table d) (c ∷ cs)
    → (e : RoutingTableEntry) × (find d (compute_forwarding_table w main nb t).0.forwarding_table
        ≡ some e)
      × OneOf e (c ∷ cs)
      × All (λ x. x.hops ≤ e.hops) (c ∷ cs)
compute_forwarding_table_installs_longest w main d nb t c cs missing offered a =
    let best = longest_lem t.routes t.distance_vector_table d cs c a.0 a.1 in
    (
      best.winner,
      rw (compute_forwarding_table-chosen w main d nb t, missing, offered) best.wins,
      best.one_of,
      (best.over_old, best.over_all),
    )
