-- ===== src/Base/Tests.antt =====
-- Boolean tests on the native numbers, the conditional, and case lemmas on computed values.
use Prim.Native.Nat.{ℕ, compare, Ordering}
use mathlib.Core.Path.{◌≡◌, refl, subst}
use mathlib.Core.Logic.{◌↔◌, ◌≢◌, ◌⊎◌, inl, inr}
use mathlib.Core.Bool.{Bool, true, false}
use mathlib.Core.Option.{Option, none, some}
use mathlib.Core.List.{List, [], ◌∷◌}
use native.Mathlib.Omega.{arith}

abbrev pub ltb : ℕ → ℕ → Bool
ltb a b = elim (compare a b) [ Ordering.lt ↦ true | _ ↦ false ]

abbrev pub leb : ℕ → ℕ → Bool
leb a b = elim (compare a b) [ Ordering.gt ↦ false | _ ↦ true ]

infix 50 ◌==◌
abbrev pub ◌==◌ : ℕ → ℕ → Bool
a == b = elim (compare a b) [ Ordering.eq ↦ true | _ ↦ false ]

infix 1 if◌then◌else◌
abbrev pub if◌then◌else◌ {ℓ} : {A : Type ℓ} → Bool → A → A → A
if true then x else y = x
if false then x else y = y

pub ==_iff : (a b : ℕ) → ((a == b) ≡ true) ↔ (a ≡ b)
==_iff a b = ground arith

pub ==_refl : (a : ℕ) → (a == a) ≡ true
==_refl a = ground arith

pub ==_ne : (a b : ℕ) → a ≢ b → (a == b) ≡ false
==_ne a b h = ground arith

-- To split on a computed value and keep the equation.
pub Bool-cases : (b : Bool) → (b ≡ true) ⊎ (b ≡ false)
Bool-cases true = inl refl
Bool-cases false = inr refl

pub Option-cases {ℓ} : {A : Type ℓ} (o : Option A) → (o ≡ none) ⊎ ((a : A) × (o ≡ some a))
Option-cases none = inl refl
Option-cases (some a) = inr (a, refl)

-- The first of two results that is there.
abbrev pub or_else {ℓ} : {A : Type ℓ} → Option A → Option A → Option A
or_else none b = b
or_else (some a) b = some a

abbrev pub found {ℓ} : {A : Type ℓ} → Option A → Bool
found none = false
found (some a) = true

-- The next step of a computation that may fail.
abbrev pub and_then {ℓ κ} : {A : Type ℓ} {B : Type κ} → Option A → (A → Option B) → Option B
and_then none f = none
and_then (some a) f = f a

-- A loop whose body may fail.
abbrev pub for_some {ℓ κ} : {A : Type ℓ} {S : Type κ} → (A → S → Option S) → List A → S → Option S
for_some body [] s = some s
for_some body (x ∷ xs) s = and_then (body x s) (λ t. for_some body xs t)

-- A property of both branches of a conditional is one of the conditional.
pub if-both {ℓ κ} :
    {A : Type ℓ} (P : A → Type κ) (b : Bool) {x y : A}
    → (b ≡ true → P x)
    → (b ≡ false → P y)
    → P (if b then x else y)
if-both P true f g = f refl
if-both P false f g = g refl

-- The same for a search that may find nothing.
pub option-both {ℓ κ μ} :
    {A : Type ℓ} {B : Type κ} (P : B → Type μ) (o : Option A) {n : B} {f : A → B}
    → (o ≡ none → P n)
    → ((x : A) → o ≡ some x → P (f x))
    → P (elim o [ none ↦ n | some x ↦ f x ])
option-both P none h k = h refl
option-both P (some x) h k = k x refl

-- A property of the result of a computation that may fail, if it returns.
abbrev pub IfSome {ℓ κ} : {A : Type ℓ} → (A → Type κ) → Option A → Type κ
IfSome P none = Unit
IfSome P (some a) = P a

pub and_then-IfSome {ℓ κ μ ν} :
    {A : Type ℓ} {B : Type κ} (P : A → Type μ) (Q : B → Type ν) (o : Option A) (f : A → Option B)
    → IfSome P o
    → ((a : A) → P a → IfSome Q (f a))
    → IfSome Q (and_then o f)
and_then-IfSome P Q none f h k = tt
and_then-IfSome P Q (some a) f h k = k a h

-- The invariant rule of a loop whose body may fail.
pub for_some-IfSome {ℓ κ μ} :
    {A : Type ℓ} {S : Type κ} (P : S → Type μ) (body : A → S → Option S)
    → ((x : A) (s : S) → P s → IfSome P (body x s))
    → (xs : List A) (s : S) → P s
    → IfSome P (for_some body xs s)
for_some-IfSome P body keep [] s h = h
for_some-IfSome P body keep (x ∷ xs) s h =
    and_then-IfSome P P (body x s) (for_some body xs) (keep x s h)
      (λ t g. for_some-IfSome P body keep xs t g)

pub IfSome-map {ℓ κ μ} :
    {A : Type ℓ} (P : A → Type κ) (Q : A → Type μ)
    → ((a : A) → P a → Q a)
    → (o : Option A) → IfSome P o
    → IfSome Q o
IfSome-map P Q f none h = tt
IfSome-map P Q f (some a) h = f a h

pub IfSome-of {ℓ κ} :
    {A : Type ℓ} (P : A → Type κ) (o : Option A) (a : A) → IfSome P o → o ≡ some a → P a
IfSome-of P o a h e = subst (IfSome P) e h

pub IfSome-Unit {ℓ} : {A : Type ℓ} (o : Option A) → IfSome (λ _. Unit {0}) o
IfSome-Unit none = tt
IfSome-Unit (some a) = tt

-- A computation that returns, with a property of its result.
abbrev pub Returns {ℓ κ} : {A : Type ℓ} → (A → Type κ) → Option A → Type (ℓ ⊔ κ)
Returns {A = A} P o = (a : A) × (o ≡ some a) × P a

pub for_some-Returns {ℓ κ μ} :
    {A : Type ℓ} {S : Type κ} (P : S → Type μ) (body : A → S → Option S)
    → ((x : A) (s : S) → P s → Returns P (body x s))
    → (xs : List A) (s : S) → P s
    → Returns P (for_some body xs s)
for_some-Returns P body keep [] s h = (s, refl, h)
for_some-Returns P body keep (x ∷ xs) s h =
    let (t, e, g) = keep x s h in
    let (r, z, k) = for_some-Returns P body keep xs t g in (r, rw (e, z), k)
