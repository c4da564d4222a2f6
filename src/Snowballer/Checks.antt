-- ===== src/Snowballer/Checks.antt =====
-- What the checks of a peer's checkpoint decide (snowballnetwork.go, mempoolHasAllABRs and
-- hasConflictingABRs).
use tupelo.Prelude.{
  none, some, List, [], ◌∷◌, ◌++◌, Bool, true, false, ◌&&◌, ◌≡◌, ◌↔◌, refl, sym, ◌∙◌, ap, In, All,
  inl, inr, arith, Bool-cases, Option-cases, if◌then◌else◌, append_assoc, append-nil, subst,
}
use tupelo.Prelude.Eq.{eq-cases}
use mathlib.Core.Path.{ap₂}
use tupelo.GoString.{Bytes, bytes_eq_inst}
use tupelo.GoMap.{GoMap, lookup, insert, contains}
use tupelo.GoMap.Laws.{lookup-insert_self, lookup-insert_ne}
use tupelo.External.CidLib.{CidLib, Cid}
use tupelo.Request.{AddBlockWrapper}
use tupelo.Mempool.{Mempool, key_of, get, contains_all}
use tupelo.Snowballer.{returns, has_all_from, mempool_has_all, conflicting_from, has_conflicting}

and_false : (b : Bool) → (b && false) ≡ false
and_false true = refl
and_false false = refl

module _ (lib : CidLib) where
  open lib use {cast}

  -- The byte strings are those of the identifiers.
  abbrev pub Casts : List Bytes → List Cid → Type 0
  Casts [] [] = Unit
  Casts [] (c ∷ cs) = ⊥
  Casts (b ∷ bs) [] = ⊥
  Casts (b ∷ bs) (c ∷ cs) = (cast b ≡ some c) × Casts bs cs

  -- The identifiers that the pool does not hold, in their order.
  abbrev pub missing_from : Mempool → List Cid → List Cid
  missing_from m [] = []
  missing_from m (c ∷ cs) =
      let rest = missing_from m cs in if contains_all (c ∷ []) m then rest else c ∷ rest

  has_all_from_lem :
      (m : Mempool) (all : Bool) (missing : List Cid) (bs : List Bytes) (cs : List Cid)
      → Casts bs cs
      → has_all_from lib m all missing bs
        ≡ returns (all && contains_all cs m, missing ++ missing_from m cs)
  unfolding has_all_from contains_all
  has_all_from_lem m all missing [] [] h = rw append-nil (ground arith)
  has_all_from_lem m all missing (b ∷ bs) [] h = absurd h
  has_all_from_lem m all missing [] (c ∷ cs) h = absurd h
  has_all_from_lem m all missing (b ∷ bs) (c ∷ cs) h = elim (Bool-cases (contains c m.abrs)) [
    | inl known ↦ rw (h.0, has_all_from, known) (has_all_from_lem m all missing bs cs h.1)
    | inr unknown ↦
        rw (h.0, has_all_from, unknown)
          (has_all_from_lem m false (missing ++ c ∷ []) bs cs h.1
            ∙ ap₂ (λ (x : Bool) (y : List Cid). returns (x, y)) (sym (and_false all))
                (append_assoc missing (c ∷ []) (missing_from m cs)))
  ]

  -- Of checkpoints whose bytes are identifiers: the check says whether the pool holds them all, and
  -- asks the syncer for exactly those that it does not hold, in their order.
  pub mempool_has_all_lem :
      (m : Mempool) (bs : List Bytes) (cs : List Cid)
      → Casts bs cs
      → mempool_has_all lib m bs ≡ returns (contains_all cs m, missing_from m cs)
  unfolding mempool_has_all
  mempool_has_all_lem m bs cs h = has_all_from_lem m true [] bs cs h

  -- The conflict keys of the identifiers, all of which the pool holds.
  abbrev pub Keys : Mempool → List Cid → List Bytes → Type 0
  Keys m [] [] = Unit
  Keys m [] (k ∷ ks) = ⊥
  Keys m (c ∷ cs) [] = ⊥
  Keys m (c ∷ cs) (k ∷ ks) =
      ((w : AddBlockWrapper) × (get c m ≡ some w) × (key_of w ≡ k)) × Keys m cs ks

  abbrev pub NoRepeats : List Bytes → Type 0
  NoRepeats [] = Unit
  NoRepeats (k ∷ ks) = ¬ In k ks × NoRepeats ks

  -- None of the keys was seen.
  abbrev AllNew : GoMap Bytes (Unit {0}) → List Bytes → Type 0
  AllNew seen ks = All (λ k. lookup k seen ≡ none) ks

  new_before :
      (k : Bytes) (seen : GoMap Bytes (Unit {0})) (ks : List Bytes)
      → AllNew (insert k tt seen) ks
      → ¬ In k ks × AllNew seen ks
  new_before k seen [] a = ((λ i. elim i [ ]), tt)
  new_before k seen (x ∷ ks) a =
      let (n, old) = new_before k seen ks a.1 in
      elim (eq-cases k x) [
        | inl same ↦ absurd (
            cc (
              subst (λ y. lookup y (insert k tt seen) ≡ some tt) same
                (lookup-insert_self k tt seen)))
        | inr other ↦ (
          (λ i. elim i [ inl p ↦ other (sym p) | inr q ↦ n q ]),
          (sym (lookup-insert_ne k x tt seen other) ∙ a.0, old),
        )
      ]

  new_after :
      (k : Bytes) (seen : GoMap Bytes (Unit {0})) (ks : List Bytes)
      → ¬ In k ks
      → AllNew seen ks
      → AllNew (insert k tt seen) ks
  new_after k seen [] n a = tt
  new_after k seen (x ∷ ks) n a = (
    lookup-insert_ne k x tt seen (λ p. n (inl (sym p))) ∙ a.0,
    new_after k seen ks (λ i. n (inr i)) a.1,
  )

  conflicting_from-false :
      (m : Mempool) (seen : GoMap Bytes (Unit {0})) (bs : List Bytes) (cs : List Cid)
      → Casts bs cs
      → conflicting_from lib m seen bs ≡ returns false
      → (ks : List Bytes) × Keys m cs ks × NoRepeats ks × AllNew seen ks
  unfolding conflicting_from contains
  conflicting_from-false m seen [] [] h e = ([], tt, tt, tt)
  conflicting_from-false m seen (b ∷ bs) [] h e = absurd h
  conflicting_from-false m seen [] (c ∷ cs) h e = absurd h
  conflicting_from-false m seen (b ∷ bs) (c ∷ cs) h e = elim (Option-cases (get c m)) [
    | inl gone ↦ absurd (ground (arith, h.0))
    | inr (w, there) ↦ elim (Option-cases (lookup (key_of w) seen)) [
      | inr (u, old) ↦ absurd (ground (arith, h.0))
      | inl new ↦
          let rest : conflicting_from lib m (insert (key_of w) tt seen) bs ≡ returns false =
            ground (arith, h.0) in
          let (ks, held, apart, unseen) =
            conflicting_from-false m (insert (key_of w) tt seen) bs cs h.1 rest in
          let (fresh, new_all) = new_before (key_of w) seen ks unseen in
          (key_of w ∷ ks, ((w, there, refl), held), (fresh, apart), (new, new_all))
    ]
  ]

  conflicting_from-clean :
      (m : Mempool) (seen : GoMap Bytes (Unit {0})) (bs : List Bytes) (cs : List Cid)
      (ks : List Bytes)
      → Casts bs cs
      → Keys m cs ks
      → NoRepeats ks
      → AllNew seen ks
      → conflicting_from lib m seen bs ≡ returns false
  unfolding conflicting_from contains
  conflicting_from-clean m seen [] [] ks h held apart new = refl
  conflicting_from-clean m seen (b ∷ bs) [] ks h held apart new = absurd h
  conflicting_from-clean m seen [] (c ∷ cs) ks h held apart new = absurd h
  conflicting_from-clean m seen (b ∷ bs) (c ∷ cs) [] h held apart new = absurd held
  conflicting_from-clean m seen (b ∷ bs) (c ∷ cs) (k ∷ ks) h held apart new =
      let (w, there, key) = held.0 in
      let unseen : lookup (key_of w) seen ≡ none = ap (λ x. lookup x seen) key ∙ new.0 in
      rw (h.0, conflicting_from, there, unseen)
        (conflicting_from-clean m (insert (key_of w) tt seen) bs cs ks h.1 held.1 apart.1
          (new_after (key_of w) seen ks (λ i. apart.0 (subst (λ x. In x ks) key i)) new.1))

  -- Of checkpoints whose bytes are identifiers: the check finds no conflict exactly if the pool
  -- holds all of them and no two of them have one conflict key.
  pub has_conflicting_lem :
      (m : Mempool) (bs : List Bytes) (cs : List Cid)
      → Casts bs cs
      → (has_conflicting lib m bs ≡ returns false)
        ↔ ((ks : List Bytes) × Keys m cs ks × NoRepeats ks)
  unfolding has_conflicting lookup
  has_conflicting_lem m bs cs h = (
    (λ e. let (ks, held, apart, _) = conflicting_from-false m [] bs cs h e in (ks, held, apart)),
    (λ r. conflicting_from-clean m [] bs cs r.0 h r.1 r.2 (nothing_seen r.0)),
  )
    where
      nothing_seen : (ks : List Bytes) → AllNew [] ks
      nothing_seen [] = tt
      nothing_seen (k ∷ ks) = (refl, nothing_seen ks)
