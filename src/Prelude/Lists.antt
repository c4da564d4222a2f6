-- ===== src/Prelude/Lists.antt =====
-- Lists measured by native numbers, and predicates on lists by recursion.
use Prim.Native.Nat.{ℕ, suc, ◌+◌}
use mathlib.Core.Path.{refl, ◌≡◌}
use mathlib.Core.Logic.{inl, inr, ◌⊎◌}
use mathlib.Core.Bool.{Bool, true, false}
use mathlib.Core.List.{List, [], ◌∷◌, ◌++◌}
use native.Mathlib.Omega.{arith}

module _ {ℓ} {A : Type ℓ} where
  abbrev pub length : List A → ℕ
  length [] = 0
  length (x ∷ xs) = suc (length xs)

  pub length-append : (xs ys : List A) → length (xs ++ ys) ≡ length xs + length ys
  length-append [] ys = omega arith
  length-append (x ∷ xs) ys = omega (arith, length-append xs ys)

abbrev one_if : Bool → ℕ
one_if true = 1
one_if false = 0

-- How many elements pass a test.
module _ {ℓ} {A : Type ℓ} where
  abbrev pub occurrences : (A → Bool) → List A → ℕ
  occurrences p [] = 0
  occurrences p (x ∷ xs) = one_if (p x) + occurrences p xs

-- `P` holds of every element.
abbrev pub All {ℓ κ} : {A : Type ℓ} → (A → Type κ) → List A → Type κ
All P [] = Unit
All P (x ∷ xs) = P x × All P xs

-- `P` holds of some element, which the proof names by its place.
abbrev pub Any {ℓ} : {A : Type ℓ} → (A → Type 0) → List A → Type 0
Any P [] = ⊥
Any P (x ∷ xs) = P x ⊎ Any P xs

-- `x` stands in the list.
abbrev pub In : {A : Type 0} → A → List A → Type 0
In a xs = Any (λ x. x ≡ a) xs

pub All-append {ℓ κ} :
    {A : Type ℓ} (P : A → Type κ) (xs ys : List A) → All P xs → All P ys → All P (xs ++ ys)
All-append P [] ys hx hy = hy
All-append P (x ∷ xs) ys hx hy = (hx.0, All-append P xs ys hx.1 hy)

module _ {A : Type 0} where
  pub In-append_last : (a b : A) (xs : List A) → In a (xs ++ b ∷ []) → In a xs ⊎ (b ≡ a)
  In-append_last a b [] (inl e) = inr e
  In-append_last a b [] (inr i) = elim i [ ]
  In-append_last a b (x ∷ xs) (inl e) = inl (inl e)
  In-append_last a b (x ∷ xs) (inr i) = elim (In-append_last a b xs i) [
    | inl j ↦ inl (inr j)
    | inr e ↦ inr e
  ]

  pub In-append_left : (a b : A) (xs : List A) → In a xs → In a (xs ++ b ∷ [])
  In-append_left a b [] i = elim i [ ]
  In-append_left a b (x ∷ xs) (inl e) = inl e
  In-append_left a b (x ∷ xs) (inr i) = inr (In-append_left a b xs i)

  pub In-append_self : (b : A) (xs : List A) → In b (xs ++ b ∷ [])
  In-append_self b [] = inl refl
  In-append_self b (x ∷ xs) = inr (In-append_self b xs)
