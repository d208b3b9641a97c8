-- ===== src/Neighbors/Updates.antt =====
-- model/bsdvr-neighbor.cc: what Update and ProcessTxError do to the neighbors, and what every
-- operation keeps.
use bsdvr_ns.Base.{
  ℕ, ◌≡◌, refl, Bool, false, ◌||◌, Option, none, some, List, [], ◌∷◌, map, ◌==◌, any, reject, arith,
  Option-cases, inl, inr,
}
use bsdvr_ns.Net.{Address, World}
use bsdvr_ns.Neighbors.{Neighbor, Neighbors, close_neighbor, update_found, mark_closed}
use bsdvr_ns.Neighbors.Laws.{has_live}

-- Between the operations no neighbor is marked, and no address stands twice.
abbrev pub AllOpen : List Neighbor → Type 0
AllOpen [] = Unit
AllOpen (i ∷ nb) = (i.close ≡ false) × AllOpen nb

abbrev pub has : Address → List Neighbor → Bool
has addr = any (λ i. i.neighbor_address == addr)

abbrev pub AreDistinct : List Neighbor → Type 0
AreDistinct [] = Unit
AreDistinct (i ∷ nb) = (has i.neighbor_address nb ≡ false) × AreDistinct nb

abbrev pub OnSome : (List Neighbor → Type 0) → Option (List Neighbor) → Type 0
OnSome P none = Unit
OnSome P (some nb) = P nb

pub record IsWellFormed (n : Neighbors) : Type 0 where
  pub open_lem : AllOpen n.nb
  pub distinct : AreDistinct n.nb

has-mark :
    (addr : Address) (mac : ℕ) (nb : List Neighbor)
    → has addr (map (mark_closed mac) nb) ≡ has addr nb
has-mark addr mac [] = refl
has-mark addr mac (i ∷ nb) = ground (arith, has-mark addr mac nb)

pub mark-AreDistinct :
    (mac : ℕ) (nb : List Neighbor) → AreDistinct nb → AreDistinct (map (mark_closed mac) nb)
mark-AreDistinct mac [] d = tt
mark-AreDistinct mac (i ∷ nb) d =
    ground (arith, mark-AreDistinct mac nb d.1, has-mark i.neighbor_address mac nb)

module _ (w : World) where
  pub reject-AllOpen : (nb : List Neighbor) → AllOpen (reject (close_neighbor w) nb)
  unfolding close_neighbor
  reject-AllOpen [] = tt
  reject-AllOpen (i ∷ nb) = ground (arith, reject-AllOpen nb)

  has-reject :
      (addr : Address) (nb : List Neighbor)
      → has addr nb ≡ false
      → has addr (reject (close_neighbor w) nb) ≡ false
  has-reject addr [] h = refl
  has-reject addr (i ∷ nb) h = ground (arith, has-reject addr nb)

  pub reject-AreDistinct :
      (nb : List Neighbor) → AreDistinct nb → AreDistinct (reject (close_neighbor w) nb)
  reject-AreDistinct [] d = tt
  reject-AreDistinct (i ∷ nb) d =
      ground (arith, reject-AreDistinct nb d.1, has-reject i.neighbor_address nb d.0)

  -- The search loop of Update fails exactly when the address is missing.
  pub update_found-eq-none :
      (addr : Address) (e : ℕ) (arp : List ℕ) (nb : List Neighbor)
      → update_found w addr e arp nb ≡ none
      → has addr nb ≡ false
  unfolding update_found
  update_found-eq-none addr e arp [] h = refl
  update_found-eq-none addr e arp (i ∷ nb) h = ground (arith, update_found-eq-none addr e arp nb)

  update_found-has :
      (a b : Address) (e : ℕ) (arp : List ℕ) (nb nb' : List Neighbor)
      → update_found w a e arp nb ≡ some nb'
      → has b nb' ≡ has b nb
  unfolding update_found
  update_found-has a b e arp [] nb' h = cc
  update_found-has a b e arp (i ∷ nb) nb' h = elim (Option-cases (update_found w a e arp nb)) [
    | inl k ↦ ground arith
    | inr (r, k) ↦ ground (arith, update_found-has a b e arp nb r k)
  ]

  pub update_found-AllOpen :
      (a : Address) (e : ℕ) (arp : List ℕ) (nb : List Neighbor)
      → AllOpen nb
      → OnSome AllOpen (update_found w a e arp nb)
  unfolding update_found
  update_found-AllOpen a e arp [] o = tt
  update_found-AllOpen a e arp (i ∷ nb) o = ground (arith, update_found-AllOpen a e arp nb o.1)

  pub update_found-AreDistinct :
      (a : Address) (e : ℕ) (arp : List ℕ) (nb : List Neighbor)
      → AreDistinct nb
      → OnSome AreDistinct (update_found w a e arp nb)
  unfolding update_found
  update_found-AreDistinct a e arp [] d = tt
  update_found-AreDistinct a e arp (i ∷ nb) d = elim (Option-cases (update_found w a e arp nb)) [
    | inl k ↦ rw k (ground arith)
    | inr (r, k) ↦ rw k (
        ground (
          arith,
          update_found-AreDistinct a e arp nb d.1,
          update_found-has a i.neighbor_address e arp nb r k,
        ))
  ]

  -- A neighbor that Update found lives; the others are as before.
  pub update_found-has_live :
      (a b : Address) (e : ℕ) (arp : List ℕ) (nb nb' : List Neighbor)
      → AllOpen nb
      → update_found w a e arp nb ≡ some nb'
      → has_live w b nb' ≡ (a == b || has_live w b nb)
  unfolding update_found close_neighbor
  update_found-has_live a b e arp [] nb' o h = cc
  update_found-has_live a b e arp (i ∷ nb) nb' o h =
      elim (Option-cases (update_found w a e arp nb)) [
        | inl k ↦ ground arith
        | inr (r, k) ↦ ground (arith, update_found-has_live a b e arp nb r o.1 k)
      ]
