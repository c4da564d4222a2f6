-- ===== src/GoMap.antt =====
-- Go's built-in `map` with comparable keys, as the program uses it: `m[k]`, `v, ok := m[k]`,
-- `m[k] = v`, `delete(m, k)`, `len(m)` and `range`. A list of entries in the order in which the
-- keys were first set; code whose result depends on the order of `range` says so where it stands.
pub mod Laws
use tupelo.Prelude.{Option, none, some, List, [], ◌∷◌, ◌≡◌, Bool, true, false, if◌then◌else◌}
use tupelo.Prelude.Eq.{Eq, ◌==◌}

abbrev pub GoMap {ℓ κ} : Type ℓ → Type κ → Type (ℓ ⊔ κ)
GoMap K V = List (K × V)

abbrev pub is_some {ℓ} : {A : Type ℓ} → Option A → Bool
is_some none = false
is_some (some v) = true

module _ {ℓ κ} {K : Type ℓ} {V : Type κ} ⦃e : Eq K⦄ where
  -- v, ok := m[k]
  unfoldable pub lookup : K → GoMap K V → Option V
  lookup k [] = none
  lookup k ((j, v) ∷ m) = if j == k then some v else lookup k m

  -- m[k] = v
  unfoldable pub insert : K → V → GoMap K V → GoMap K V
  insert k v [] = (k, v) ∷ []
  insert k v ((j, w) ∷ m) = if j == k then (j, v) ∷ m else (j, w) ∷ insert k v m

  -- delete(m, k)
  unfoldable pub delete : K → GoMap K V → GoMap K V
  delete k [] = []
  delete k ((j, v) ∷ m) = let rest = delete k m in if j == k then rest else (j, v) ∷ rest

  -- _, ok := m[k]
  unfoldable pub contains : K → GoMap K V → Bool
  contains k m = is_some (lookup k m)

  -- The second result of `range`, in the order of the entries.
  unfoldable pub values : GoMap K V → List V
  values [] = []
  values ((k, v) ∷ m) = v ∷ values m

  -- No key stands twice.
  abbrev pub HasUniqueKeys : GoMap K V → Type κ
  HasUniqueKeys [] = Unit
  HasUniqueKeys ((k, v) ∷ m) = (lookup k m ≡ none) × HasUniqueKeys m
