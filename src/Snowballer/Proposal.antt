-- ===== src/Snowballer/Proposal.antt =====
-- A node's own proposal under the checks that it makes of its peers' (snowballnetwork.go, Start and
-- doTick; mempool.go, Preferred).
use tupelo.Prelude.{
  none, some, Bool-cases, List, [], ◌∷◌, Bool, true, false, ◌≡◌, refl, ◌∙◌, In, inl, inr, arith,
}
use mathlib.Core.Path.{ap₂}
use tupelo.GoString.{Bytes, bytes_eq_inst, bytes_eq_iff}
use tupelo.GoMap.{GoMap, lookup, contains, values, HasUniqueKeys}
use tupelo.GoMap.Laws.{lookup_entry}
use tupelo.External.CidLib.{CidLib, Cid}
use tupelo.Request.{AddBlockWrapper}
use tupelo.Mempool.{ConflictSet, Mempool, key_of, get, contains_all, preferred, preferred_of}
use tupelo.Mempool.Invariant.{IsValid}
use tupelo.External.Float.{Float64}
use tupelo.Checkpoint.{Checkpoint}
use tupelo.Snowballer.{start, SnowballerState, is_empty, returns, mempool_has_all, has_conflicting}
use tupelo.Snowballer.Checks.{
  Casts, Keys, NoRepeats, missing_from, mempool_has_all_lem, has_conflicting_lem,
}

module _ (lib : CidLib) (m : Mempool) where
  open lib use {cast}

  -- The keys of the conflict sets, in the order of the map.
  set_keys : GoMap Bytes ConflictSet → List Bytes
  set_keys [] = []
  set_keys ((k, cs) ∷ sets) = k ∷ set_keys sets

  lookup-absent :
      (k : Bytes) (sets : GoMap Bytes ConflictSet) → lookup k sets ≡ none → ¬ In k (set_keys sets)
  unfolding lookup set_keys
  lookup-absent k [] e i = elim i [ ]
  lookup-absent k ((j, cs) ∷ sets) e (inl p) = ground (arith, bytes_eq_iff j k)
  lookup-absent k ((j, cs) ∷ sets) e (inr i) = lookup-absent k sets (ground arith) i

  set_keys-NoRepeats :
      (sets : GoMap Bytes ConflictSet) → HasUniqueKeys sets → NoRepeats lib (set_keys sets)
  unfolding set_keys
  set_keys-NoRepeats [] u = tt
  set_keys-NoRepeats ((k, cs) ∷ sets) u = (lookup-absent k sets u.0, set_keys-NoRepeats sets u.1)

  -- The preferred identifiers of sets that prefer requests of the pool with their keys.
  preferred_of-Keys :
      (sets : GoMap Bytes ConflictSet)
      → ((k : Bytes) (cs : ConflictSet)
          → In (k, cs) sets
          → (w : AddBlockWrapper) × (get cs.preferred m ≡ some w) × (key_of w ≡ k))
      → Keys lib m (preferred_of (values sets)) (set_keys sets)
  unfolding preferred_of values set_keys
  preferred_of-Keys [] h = tt
  preferred_of-Keys ((k, cs) ∷ sets) h =
      (h k cs (inl refl), preferred_of-Keys sets (λ j c i. h j c (inr i)))

  preferred-Keys : IsValid lib m → Keys lib m (preferred m) (set_keys m.conflict_sets)
  unfolding preferred get
  preferred-Keys valid = preferred_of-Keys m.conflict_sets (λ k cs i.
      let there = lookup_entry k cs m.conflict_sets valid.unique i in
      valid.held k cs cs.preferred there (valid.least k cs there).among)

  pub Keys-contains_all :
      (cs : List Cid) (ks : List Bytes)
      → Keys lib m cs ks
      → (contains_all cs m ≡ true) × (missing_from lib m cs ≡ [])
  unfolding contains_all contains get
  Keys-contains_all [] ks h = (refl, refl)
  Keys-contains_all (c ∷ cs) [] h = absurd h
  Keys-contains_all (c ∷ cs) (k ∷ ks) h =
      let (w, there, _) = h.0 in
      let (all, none_missing) = Keys-contains_all cs ks h.1 in (ground arith, ground arith)

  -- The identifiers that a valid pool prefers pass both checks: the pool holds them all, so that
  -- nothing is asked of the syncer, and no two of them conflict. (Cast accepts the bytes of an
  -- identifier.)
  pub preferred_passes :
      IsValid lib m
      → Casts lib (preferred m) (preferred m)
      → (mempool_has_all lib m (preferred m) ≡ returns (true, []))
        × (has_conflicting lib m (preferred m) ≡ returns false)
  preferred_passes valid c =
      let held = preferred-Keys valid in
      let (all, none_missing) = Keys-contains_all (preferred m) (set_keys m.conflict_sets) held in
      (
        mempool_has_all_lem lib m (preferred m) (preferred m) c
            ∙ ap₂ (λ (x : Bool) (y : List Cid). returns (x, y)) all none_missing,
        (has_conflicting_lem lib m (preferred m) (preferred m) c).1
            (set_keys m.conflict_sets, held, set_keys-NoRepeats m.conflict_sets valid.unique),
      )

module _ (lib : CidLib) (fl : Float64) (encode : Checkpoint → Cid) where
  -- A second call of Start changes nothing, whatever the pool holds by then.
  pub start_idempotent :
      (pool later : Mempool) (snb : SnowballerState lib fl)
      → start lib fl encode later (start lib fl encode pool snb) ≡ start lib fl encode pool snb
  unfolding start
  start_idempotent pool later snb = elim (Bool-cases snb.started) [
    | inl on ↦ rw on refl
    | inr off ↦ elim (Bool-cases (is_empty (preferred pool))) [
      | inl nothing ↦ rw (off, nothing) refl
      | inr proposal ↦ rw (off, proposal) refl
    ]
  ]
