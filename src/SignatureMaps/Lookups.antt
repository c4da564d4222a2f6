-- ===== src/SignatureMaps/Lookups.antt =====
-- What a merged map reads.
use tupelo.Prelude.{Option, none, some, [], ◌∷◌, ◌≡◌, refl, inl, inr, ap, ◌∙◌, subst}
use tupelo.Prelude.Eq.{eq-cases, eq_refl, test_of_ne}
use tupelo.GoString.{Bytes, bytes_eq_inst}
use tupelo.GoMap.{lookup, insert, HasUniqueKeys}
use tupelo.GoMap.Laws.{lookup-insert_self, lookup-insert_ne}
use tupelo.Signatures.{Signature}
use tupelo.SignatureMaps.{SignatureMap, set_all, merge}

abbrev first_some : Option Signature → Option Signature → Option Signature
first_some (some v) o = some v
first_some none o = o

lookup-set_all :
    (k : Bytes) (sm new_sm : SignatureMap)
    → HasUniqueKeys sm
    → lookup k (set_all sm new_sm) ≡ first_some (lookup k sm) (lookup k new_sm)
unfolding lookup set_all
lookup-set_all k [] new_sm u = refl
lookup-set_all k ((j, v) ∷ sm) new_sm (n, u) =
    let i = lookup-set_all k sm (insert j v new_sm) u in
    elim (eq-cases j k) [
      | inl e ↦
          let m : lookup k sm ≡ none = subst (λ x. lookup x sm ≡ none) e n in
          let h = lookup-set_all k sm (insert k v new_sm) u in
          rw (e, eq_refl k) (rw (m, lookup-insert_self k v new_sm) at h)
      | inr d ↦ rw (test_of_ne j k d, i, lookup-insert_ne j k v new_sm d) refl
    ]

first_some-none : (o : Option Signature) → first_some o none ≡ o
first_some-none none = refl
first_some-none (some v) = refl

-- In the merge of two maps with unique keys a name has the signature of the second map, and that of
-- the first where the second has none.
lookup-merge :
    (k : Bytes) (sm other : SignatureMap)
    → HasUniqueKeys sm
    → HasUniqueKeys other
    → lookup k (merge sm other) ≡ first_some (lookup k other) (lookup k sm)
unfolding lookup
lookup-merge k sm other u w =
    lookup-set_all k other (set_all sm []) w
    ∙ ap (first_some (lookup k other)) (lookup-set_all k sm [] u ∙ first_some-none (lookup k sm))
