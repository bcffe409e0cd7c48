-- ===== src/Prelude/Lists.antt =====
-- Lists measured by native numbers, predicates on their elements, and membership by a test.
use Prim.Native.Nat.{ℕ, suc, ◌+◌}
use mathlib.Core.Path.{◌≡◌, refl, sym, subst}
use mathlib.Core.Logic.{◌⊎◌, inl, inr}
use mathlib.Core.Bool.{Bool, true, false, not, ◌||◌}
use mathlib.Core.List.{List, [], ◌∷◌, ◌++◌}
use native.Mathlib.Omega.{arith}
use fyredocs_backend.Prelude.Tests.{if◌then◌else◌, Bool-cases}

module _ {ℓ} {A : Type ℓ} where
  abbrev pub length : List A → ℕ
  length [] = 0
  length (x ∷ xs) = suc (length xs)

  pub length-append : (xs ys : List A) → length (xs ++ ys) ≡ length xs + length ys
  length-append [] ys = omega arith
  length-append (x ∷ xs) ys = omega (arith, length-append xs ys)

  abbrev pub is_empty : List A → Bool
  is_empty [] = true
  is_empty (x ∷ xs) = false

-- Every element satisfies the predicate.
abbrev pub All {ℓ κ} : {A : Type ℓ} → (A → Type κ) → List A → Type κ
All P [] = Unit
All P (x ∷ xs) = P x × All P xs

pub All-append {ℓ κ} :
    {A : Type ℓ} (P : A → Type κ) (xs ys : List A) → All P xs → All P ys → All P (xs ++ ys)
All-append P [] ys hx hy = hy
All-append P (x ∷ xs) ys hx hy = (hx.0, All-append P xs ys hx.1 hy)

pub All-map {ℓ κ μ} :
    {A : Type ℓ} (P : A → Type κ) (Q : A → Type μ) (xs : List A)
    → ((x : A) → P x → Q x)
    → All P xs
    → All Q xs
All-map P Q [] f h = tt
All-map P Q (x ∷ xs) f h = (f x h.0, All-map P Q xs f h.1)

-- Membership by a Boolean test.
abbrev pub any {ℓ} : {A : Type ℓ} → (A → Bool) → List A → Bool
any p [] = false
any p (x ∷ xs) = p x || any p xs

-- The elements that pass a Boolean test.
abbrev pub filter {ℓ} : {A : Type ℓ} → (A → Bool) → List A → List A
filter p [] = []
filter p (x ∷ xs) = let rest = filter p xs in if p x then x ∷ rest else rest

abbrev pub Elem : {A : Type 0} → A → List A → Type 0
Elem x [] = ⊥
Elem x (y ∷ ys) = (x ≡ y) ⊎ Elem x ys

-- Every element that passes the filter passes its test.
pub filter-All {ℓ} : {A : Type ℓ} (p : A → Bool) (xs : List A) → All (λ x. p x ≡ true) (filter p xs)
filter-All p [] = tt
filter-All p (x ∷ xs) = elim (Bool-cases (p x)) [
  | inl e ↦ rw e (e, filter-All p xs)
  | inr e ↦ rw e (filter-All p xs)
]

pub All-Elem {κ} : {A : Type 0} (P : A → Type κ) (xs : List A) (x : A) → All P xs → Elem x xs → P x
All-Elem P [] x h e = absurd e
All-Elem P (y ∷ ys) x h (inl e) = subst P (sym e) h.0
All-Elem P (y ∷ ys) x h (inr e) = All-Elem P ys x h.1 e

pub Elem-filter :
    {A : Type 0} (p : A → Bool) (xs : List A) (x : A) → Elem x (filter p xs) → Elem x xs
Elem-filter p [] x e = absurd e
Elem-filter p (y ∷ ys) x e = elim (Bool-cases (p y)) [
  | inl t ↦ elim (rw t at e) [ inl s ↦ inl s | inr m ↦ inr (Elem-filter p ys x m) ]
  | inr f ↦ inr (Elem-filter p ys x (rw f at e))
]

pub All-of_Elem {κ} :
    {A : Type 0} (P : A → Type κ) (xs : List A) → ((x : A) → Elem x xs → P x) → All P xs
All-of_Elem P [] f = tt
All-of_Elem P (x ∷ xs) f = (f x (inl refl), All-of_Elem P xs (λ y e. f y (inr e)))

-- What a deletion has kept does not meet its condition.
pub kept :
    {A : Type 0} (p : A → Bool) (before after : List A) (x : A)
    → after ≡ filter (λ y. not (p y)) before
    → Elem x after
    → Elem x before × (p x ≡ false)
kept p before after x e i =
    let i' = subst (Elem x) e i in
    let out = All-Elem _ _ x (filter-All (λ y. not (p y)) before) i' in
    (Elem-filter _ before x i', ground (arith, out))
