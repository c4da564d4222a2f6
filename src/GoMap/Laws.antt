-- ===== src/GoMap/Laws.antt =====
-- What a client may use of Go's maps.
use tupelo.Prelude.{
  ap, In, ◌≢◌, ◌⊎◌, some, [], none, ◌∷◌, ◌≡◌, refl, inl, inr, arith, if◌then◌else◌, Bool-cases,
}
use tupelo.Prelude.Eq.{Eq, ◌==◌, eq_refl, eq_of_test, test_of_ne}
use tupelo.GoMap.{values, GoMap, lookup, insert, delete, HasUniqueKeys}

module _ {ℓ κ} {K : Type ℓ} {V : Type κ} ⦃e : Eq K⦄ where
  pub lookup-head : (k : K) (v : V) (m : GoMap K V) → lookup k ((k, v) ∷ m) ≡ some v
  unfolding lookup
  lookup-head k v m = rw (eq_refl k) refl

  pub lookup-tail : (k j : K) (v : V) (m : GoMap K V) → k ≢ j → lookup j ((k, v) ∷ m) ≡ lookup j m
  unfolding lookup
  lookup-tail k j v m h = rw (test_of_ne k j h) refl

  pub lookup-insert :
      (k i : K) (v : V) (m : GoMap K V)
      → lookup i (insert k v m) ≡ (if k == i then some v else lookup i m)
  unfolding lookup insert
  lookup-insert k i v [] = refl
  lookup-insert k i v ((x, w) ∷ rest) =
      ground (arith, e.equal_iff x k, e.equal_iff k i, e.equal_iff x i, lookup-insert k i v rest)

  pub lookup-delete :
      (k j : K) (m : GoMap K V) → lookup j (delete k m) ≡ (if k == j then none else lookup j m)
  unfolding lookup delete
  lookup-delete k j [] = ground arith
  lookup-delete k j ((i, w) ∷ m) =
      ground (arith, e.equal_iff k j, e.equal_iff i k, e.equal_iff i j, lookup-delete k j m)

  pub lookup-insert_self : (k : K) (v : V) (m : GoMap K V) → lookup k (insert k v m) ≡ some v
  lookup-insert_self k v m = ground (arith, lookup-insert k k v m, eq_refl k)

  pub lookup-insert_ne :
      (k j : K) (v : V) (m : GoMap K V) → k ≢ j → lookup j (insert k v m) ≡ lookup j m
  lookup-insert_ne k j v m h = ground (arith, lookup-insert k j v m, test_of_ne k j h)

  pub lookup-empty : (k : K) → lookup {V = V} k [] ≡ none
  unfolding lookup
  lookup-empty k = refl

  pub lookup-delete_self : (k : K) (m : GoMap K V) → lookup k (delete k m) ≡ none
  lookup-delete_self k m = ground (arith, lookup-delete k k m, eq_refl k)

  pub lookup-delete_ne : (k j : K) (m : GoMap K V) → k ≢ j → lookup j (delete k m) ≡ lookup j m
  lookup-delete_ne k j m h = ground (arith, lookup-delete k j m, test_of_ne k j h)

  pub HasUniqueKeys-insert :
      (k : K) (v : V) (m : GoMap K V) → HasUniqueKeys m → HasUniqueKeys (insert k v m)
  unfolding insert
  HasUniqueKeys-insert k v [] u = (unfold lookup in refl, tt)
  HasUniqueKeys-insert k v ((j, w) ∷ m) u = elim (Bool-cases (j == k)) [
    | inl same ↦ rw same u
    | inr other ↦ rw other (
      ground (arith, lookup-insert k j v m, e.equal_iff j k, e.equal_iff k j, u.0),
      HasUniqueKeys-insert k v m u.1,
    )
  ]

  lookup-delete-none : (k j : K) (m : GoMap K V) → lookup j m ≡ none → lookup j (delete k m) ≡ none
  lookup-delete-none k j m h = ground (arith, lookup-delete k j m)

  pub HasUniqueKeys-delete : (k : K) (m : GoMap K V) → HasUniqueKeys m → HasUniqueKeys (delete k m)
  unfolding delete
  HasUniqueKeys-delete k [] u = u
  HasUniqueKeys-delete k ((j, w) ∷ m) u = elim (Bool-cases (j == k)) [
    | inl same ↦ rw same (HasUniqueKeys-delete k m u.1)
    | inr other ↦ rw other (lookup-delete-none k j m u.0, HasUniqueKeys-delete k m u.1)
  ]

  -- What stands in a map after a write, read backwards.
  pub lookup-insert-some :
      (k j : K) (v : V) (m : GoMap K V) {x : V}
      → lookup j (insert k v m) ≡ some x
      → ((k ≡ j) × (v ≡ x)) ⊎ ((k ≢ j) × (lookup j m ≡ some x))
  lookup-insert-some k j v m h = elim (Bool-cases (k == j)) [
    | inl same ↦ inl (eq_of_test k j same, ground (arith, lookup-insert k j v m))
    | inr other ↦
        inr ((λ p. ground (arith, e.equal_iff k j)), ground (arith, lookup-insert k j v m))
  ]

  pub lookup-delete-some :
      (k j : K) (m : GoMap K V) {x : V}
      → lookup j (delete k m) ≡ some x
      → (k ≢ j) × (lookup j m ≡ some x)
  lookup-delete-some k j m h = elim (Bool-cases (k == j)) [
    | inl same ↦ absurd (ground (arith, lookup-delete k j m))
    | inr other ↦ ((λ p. ground (arith, e.equal_iff k j)), ground (arith, lookup-delete k j m))
  ]

module _ {K V : Type 0} ⦃e : Eq K⦄ where
  -- `range` visits each value under its key.
  pub In-values : (k : K) (v : V) (m : GoMap K V) → lookup k m ≡ some v → In v (values m)
  unfolding lookup values
  In-values k v [] h = absurd (cc)
  In-values k v ((j, w) ∷ m) h = elim (Bool-cases (j == k)) [
    | inl same ↦ inl (ground arith)
    | inr other ↦ inr (In-values k v m (ground arith))
  ]

  pub values-In :
      (v : V) (m : GoMap K V) → HasUniqueKeys m → In v (values m) → (k : K) × (lookup k m ≡ some v)
  unfolding lookup values
  values-In v [] u i = elim i [ ]
  values-In v ((j, w) ∷ m) u (inl e) = (j, ground (arith, eq_refl j))
  values-In v ((j, w) ∷ m) u (inr i) =
      let (k, h) = values-In v m u.1 i in (k, ground (arith, u.0, e.equal_iff j k))

  -- An entry of a map with unique keys is what its key reads.
  pub lookup_entry :
      (k : K) (v : V) (m : GoMap K V) → HasUniqueKeys m → In (k, v) m → lookup k m ≡ some v
  unfolding lookup
  lookup_entry k v [] u i = elim i [ ]
  lookup_entry k v ((j, w) ∷ m) u (inl p) =
      ground (arith, ap (λ (x : K × V). x.0) p, ap (λ (x : K × V). x.1) p, e.equal_iff j k)
  lookup_entry k v ((j, w) ∷ m) u (inr i) =
      ground (arith, lookup_entry k v m u.1 i, u.0, e.equal_iff j k)
