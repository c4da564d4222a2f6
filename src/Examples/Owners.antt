-- ===== src/Examples/Owners.antt =====
-- Two chain trees that are owned by each other.
use tupelo.Prelude.{
  some, List, [], ◌∷◌, ◌++◌, In, Bool, true, false, if◌then◌else◌, ◌≡◌, refl, inl, inr, arith,
  Bool-cases,
}
use tupelo.Prelude.Eq.{eq_refl, ◌==◌}
use tupelo.GoString.{Bytes, bytes}
use tupelo.External.Dag.Memory.{path_eq_inst}
use tupelo.External.Grafts.{Grafts, auths_list, auth_dag}
use tupelo.Tokens.Path.{TreePath}
use tupelo.Owners.{resolve_owners, resolve_owners_recursively, loop_detected}
use tupelo.Owners.Termination.{Ends, resolve_owners-Ends}
use tupelo.Outcome.{fails}

abbrev was_seen : List TreePath → TreePath → Bool
was_seen [] p = false
was_seen (q ∷ seen) p = if q == p then true else was_seen seen p

was_seen-last : (seen : List TreePath) (p : TreePath) → was_seen (seen ++ p ∷ []) p ≡ true
was_seen-last [] p = rw (eq_refl p)
was_seen-last (q ∷ seen) p = elim (Bool-cases (q == p)) [
  | inl t ↦ rw t
  | inr t ↦ rw (t, was_seen-last seen p)
]

was_seen-kept :
    (seen : List TreePath) (p q : TreePath)
    → was_seen seen p ≡ true
    → was_seen (seen ++ q ∷ []) p ≡ true
was_seen-kept [] p q h = absurd (cc)
was_seen-kept (r ∷ seen) p q h = elim (Bool-cases (r == p)) [
  | inl t ↦ rw t
  | inr t ↦ rw (t, was_seen-kept seen p q (rw t at h))
]

abbrev name_of : Bool → Bytes
name_of true = bytes "did:tupelo:x"
name_of false = bytes "did:tupelo:y"

abbrev other_of : Bool → Bool
other_of true = false
other_of false = true

abbrev circle : Grafts
circle = record {
  Tree = Bool;
  Graftable = Bool;
  graft = λ t. some t;
  origin_did = λ g. some (name_of g);
  global_resolve = λ p g. some (auths_list (auth_dag (other_of g) ∷ []));
  contains_prefix = was_seen;
  contains-last = was_seen-last;
  contains-kept = was_seen-kept;
}

abbrev both_names : List Bytes
both_names = name_of true ∷ name_of false ∷ []

named : (g : Bool) (d : Bytes) → circle.origin_did g ≡ some d → In d both_names
named true d e = inl (cc)
named false d e = inr (inl (cc))

circle_is_found : resolve_owners circle 3 true ≡ fails loop_detected
unfolding resolve_owners_recursively tupelo.GoString.Split.split
circle_is_found = refl

resolve_owners-Ends_example : Ends (resolve_owners circle 3 true)
resolve_owners-Ends_example = resolve_owners-Ends circle both_names named 3 true (omega arith)
