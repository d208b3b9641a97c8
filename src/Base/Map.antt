-- ===== src/Base/Map.antt =====
-- std::map with 32-bit keys (addresses, or socket pointers): the pairs in the order of their keys,
-- which is the order of its iterators.
use Prim.Native.Nat.{ℕ, ◌<◌}
use mathlib.Core.Path.{◌≡◌, refl, subst}
use mathlib.Core.Option.{Option, none, some}
use mathlib.Core.List.{List, [], ◌∷◌}
use native.Mathlib.Omega.{arith}
use mathlib.Core.Logic.{inl, inr}
use bsdvr_ns.Base.Tests.{if◌then◌else◌, ◌==◌, ltb, Bool-cases, ==_iff, option-both}
use bsdvr_ns.Base.Lists.{All}

abbrev pub Map : Type 0 → Type 0
Map V = List (ℕ × V)

module _ {V : Type 0} where
  unfoldable pub find : ℕ → Map V → Option V
  find k [] = none
  find k ((j, v) ∷ m) = if j == k then some v else find k m

  -- `m[k] = v`.
  unfoldable pub assign : ℕ → V → Map V → Map V
  assign k v [] = (k, v) ∷ []
  assign k v ((j, w) ∷ m) =
      if j == k then (k, v) ∷ m else if ltb k j then (k, v) ∷ (j, w) ∷ m else (j, w) ∷ assign k v m

  -- `m.insert ({k, v})`: an entry that is there stays.
  unfoldable pub insert : ℕ → V → Map V → Map V
  insert k v m = elim (find k m) [ none ↦ assign k v m | some w ↦ m ]

  unfoldable pub erase : ℕ → Map V → Map V
  erase k [] = []
  erase k ((j, w) ∷ m) = let rest = erase k m in if j == k then rest else (j, w) ∷ rest

  pub find_nil : (k : ℕ) → find k [] ≡ none
  unfolding find
  find_nil k = refl

  pub find-assign :
      (j k : ℕ) (v : V) (m : Map V) → find j (assign k v m) ≡ (if k == j then some v else find j m)
  unfolding find assign
  find-assign j k v [] = refl
  find-assign j k v ((i, w) ∷ m) = ground (arith, find-assign j k v m)

  pub find-erase : (j k : ℕ) (m : Map V) → find j (erase k m) ≡ (if k == j then none else find j m)
  unfolding find erase
  find-erase j k [] = ground arith
  find-erase j k ((i, w) ∷ m) = ground (arith, find-erase j k m)

  pub find-insert :
      (j k : ℕ) (v : V) (m : Map V)
      → find j (insert k v m)
        ≡ elim (find k m) [ none ↦ if k == j then some v else find j m | some w ↦ find j m ]
  unfolding insert
  find-insert j k v m = ground (arith, find-assign j k v m)

  -- A legal std::map: the keys ascend.
  abbrev pub Above : ℕ → Map V → Type 0
  Above k [] = Unit
  Above k ((j, v) ∷ m) = (k < j) × Above k m

  abbrev pub IsSorted : Map V → Type 0
  IsSorted [] = Unit
  IsSorted ((k, v) ∷ m) = Above k m × IsSorted m

  Above-mono : (i k : ℕ) (m : Map V) → i < k → Above k m → Above i m
  Above-mono i k [] h a = tt
  Above-mono i k ((j, w) ∷ m) h a = (omega arith, Above-mono i k m h a.1)

  assign-Above : (i k : ℕ) (v : V) (m : Map V) → i < k → Above i m → Above i (assign k v m)
  unfolding assign
  assign-Above i k v [] h a = (h, tt)
  assign-Above i k v ((j, w) ∷ m) h a = ground (arith, assign-Above i k v m h a.1)

  erase-Above : (i k : ℕ) (m : Map V) → Above i m → Above i (erase k m)
  unfolding erase
  erase-Above i k [] a = tt
  erase-Above i k ((j, w) ∷ m) a = ground (arith, erase-Above i k m a.1)

  pub assign-IsSorted : (k : ℕ) (v : V) (m : Map V) → IsSorted m → IsSorted (assign k v m)
  unfolding assign
  assign-IsSorted k v [] s = (tt, tt)
  assign-IsSorted k v ((j, w) ∷ m) s =
      ground (arith, assign-IsSorted k v m s.1, assign-Above j k v m, Above-mono k j m)

  pub erase-IsSorted : (k : ℕ) (m : Map V) → IsSorted m → IsSorted (erase k m)
  unfolding erase
  erase-IsSorted k [] s = tt
  erase-IsSorted k ((j, w) ∷ m) s = ground (arith, erase-IsSorted k m s.1, erase-Above j k m)

  pub insert-IsSorted : (k : ℕ) (v : V) (m : Map V) → IsSorted m → IsSorted (insert k v m)
  unfolding insert
  insert-IsSorted k v m s = ground (arith, assign-IsSorted k v m s)

  -- What holds of every pair of a map.
  pub find-All :
      (P : ℕ × V → Type 0) (k : ℕ) (v : V) (m : Map V) → All P m → find k m ≡ some v → P (k, v)
  unfolding find
  find-All P k v [] h z = cc
  find-All P k v ((j, w) ∷ m) h z = elim (Bool-cases (j == k)) [
    | inl e ↦
        let x : w ≡ v = ground (arith, e, z) in
        subst (λ y. P (k, y)) x (subst (λ i. P (i, w)) ((==_iff j k).0 e) h.0)
    | inr e ↦ find-All P k v m h.1 (ground (arith, e, z))
  ]

  pub assign-All :
      (P : ℕ × V → Type 0) (k : ℕ) (v : V) (m : Map V) → P (k, v) → All P m → All P (assign k v m)
  unfolding assign
  assign-All P k v [] p h = (p, tt)
  assign-All P k v ((j, w) ∷ m) p h = ground (arith, assign-All P k v m p h.1)

  pub insert-All :
      (P : ℕ × V → Type 0) (k : ℕ) (v : V) (m : Map V) → P (k, v) → All P m → All P (insert k v m)
  unfolding insert
  insert-All P k v m p h = option-both (All P) (find k m) (λ _. assign-All P k v m p h) (λ w _. h)

  pub erase-All : (P : ℕ × V → Type 0) (k : ℕ) (m : Map V) → All P m → All P (erase k m)
  unfolding erase
  erase-All P k [] h = tt
  erase-All P k ((j, w) ∷ m) h = ground (arith, erase-All P k m h.1)
