-- ===== src/Base/Lists.antt =====
-- Lists measured by native numbers, Boolean searches and filters, and the folds of the loops.
use Prim.Native.Nat.{ℕ, zero, suc, ◌+◌, ◌≤◌}
use mathlib.Core.Path.{◌≡◌, refl}
use mathlib.Core.Bool.{Bool, false, ◌||◌}
use mathlib.Core.List.{List, [], ◌∷◌, ◌++◌}
use native.Mathlib.Omega.{arith}
use bsdvr_ns.Base.Tests.{if◌then◌else◌, ◌==◌}

-- A predicate by recursion computes to tuples, which the tactics read and build.
abbrev pub All {ℓ κ} : {A : Type ℓ} → (A → Type κ) → List A → Type κ
All P [] = Unit
All P (x ∷ xs) = P x × All P xs

module _ {ℓ} {A : Type ℓ} where
  abbrev pub length : List A → ℕ
  length [] = 0
  length (x ∷ xs) = suc (length xs)

  pub length-append : (xs ys : List A) → length (xs ++ ys) ≡ length xs + length ys
  length-append [] ys = omega arith
  length-append (x ∷ xs) ys = omega (arith, length-append xs ys)

  -- A search loop that returns true at the first hit.
  abbrev pub any : (A → Bool) → List A → Bool
  any p [] = false
  any p (x ∷ xs) = p x || any p xs

  -- What is left after `erase (remove_if (p), end)`.
  abbrev pub reject : (A → Bool) → List A → List A
  reject p [] = []
  reject p (x ∷ xs) = let rest = reject p xs in if p x then rest else x ∷ rest

  -- `erase` at an iterator that stands at index `i`.
  abbrev pub erase_at : ℕ → List A → List A
  erase_at i [] = []
  erase_at zero (x ∷ xs) = xs
  erase_at (suc i) (x ∷ xs) = x ∷ erase_at i xs

  pub length-reject-le : (p : A → Bool) (xs : List A) → length (reject p xs) ≤ length xs
  length-reject-le p [] = omega arith
  length-reject-le p (x ∷ xs) = ground (arith, length-reject-le p xs)

  pub any-reject : (p : A → Bool) (xs : List A) → any p (reject p xs) ≡ false
  any-reject p [] = refl
  any-reject p (x ∷ xs) = ground (arith, any-reject p xs)

  pub any-append : (p : A → Bool) (xs ys : List A) → any p (xs ++ ys) ≡ (any p xs || any p ys)
  any-append p [] ys = refl
  any-append p (x ∷ xs) ys = ground (arith, any-append p xs ys)

  pub All-append {κ} : (P : A → Type κ) (xs ys : List A) → All P xs → All P ys → All P (xs ++ ys)
  All-append P [] ys h k = k
  All-append P (x ∷ xs) ys h k = (h.0, All-append P xs ys h.1 k)

  pub All-reject {κ} :
      (P : A → Type κ) (p : A → Bool) (xs : List A) → All P xs → All P (reject p xs)
  All-reject P p [] h = tt
  All-reject P p (x ∷ xs) h = ground (arith, All-reject P p xs h.1)

module _ {ℓ κ} {A : Type ℓ} {S : Type κ} where
  -- `for (x : xs) s = body x s`.
  abbrev pub for_each : (A → S → S) → List A → S → S
  for_each body [] s = s
  for_each body (x ∷ xs) s = for_each body xs (body x s)

  -- The invariant rule.
  pub for_each_inv {μ} :
      (P : S → Type μ) (body : A → S → S)
      → ((x : A) (s : S) → P s → P (body x s))
      → (xs : List A) (s : S) → P s
      → P (for_each body xs s)
  for_each_inv P body keep [] s h = h
  for_each_inv P body keep (x ∷ xs) s h = for_each_inv P body keep xs (body x s) (keep x s h)

  pub for_each-append :
      (body : A → S → S) (xs ys : List A) (s : S)
      → for_each body (xs ++ ys) s ≡ for_each body ys (for_each body xs s)
  for_each-append body [] ys s = refl
  for_each-append body (x ∷ xs) ys s = for_each-append body xs ys (body x s)

-- Membership of a number, as the source's search loops compute it.
abbrev pub contains : ℕ → List ℕ → Bool
contains a = any (λ x. x == a)

pub All-mono {ℓ κ μ} :
    {A : Type ℓ} (P : A → Type κ) (Q : A → Type μ)
    → ((x : A) → P x → Q x)
    → (xs : List A) → All P xs
    → All Q xs
All-mono P Q f [] h = tt
All-mono P Q f (x ∷ xs) h = (f x h.0, All-mono P Q f xs h.1)

-- The invariant rule, for a list of which something is known.
pub for_each-All {ℓ κ μ ν} :
    {A : Type ℓ} {S : Type κ} (P : S → Type μ) (Q : A → Type ν) (body : A → S → S)
    → ((x : A) (s : S) → Q x → P s → P (body x s))
    → (xs : List A) (s : S) → All Q xs
    → P s
    → P (for_each body xs s)
for_each-All P Q body keep [] s a h = h
for_each-All P Q body keep (x ∷ xs) s a h =
    for_each-All P Q body keep xs (body x s) a.1 (keep x s a.0 h)
