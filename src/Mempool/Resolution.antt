-- ===== src/Mempool/Resolution.antt =====
-- The deletion of a request and of its conflict (mempool.go, deleteIDAndConflictSetInLock,
-- BulkDelete).
use tupelo.Prelude.{
  Option, none, some, List, [], ◌∷◌, ◌≡◌, ◌≢◌, inl, inr, refl, ap, sym, ◌∙◌, In, subst,
  Option-cases, ◌↔◌,
}
use tupelo.GoString.{bytes_eq_inst}
use tupelo.GoMap.{GoMap, lookup, delete}
use tupelo.GoMap.Laws.{lookup-delete_ne, lookup-delete-some, HasUniqueKeys-delete}
use tupelo.External.CidLib.{CidLib, Cid}
use tupelo.Request.{AddBlockWrapper}
use tupelo.Mempool.{
  ConflictSet, Mempool, key_of, delete_all, delete_id_and_conflict_set, bulk_delete, drop_existing,
  drop_set,
}
use tupelo.Mempool.Invariant.{IsValid}

delete_all-some :
    (j : Cid) (ids : List Cid) (abrs : GoMap Cid AddBlockWrapper) {v : AddBlockWrapper}
    → lookup j (delete_all ids abrs) ≡ some v
    → ¬ In j ids × (lookup j abrs ≡ some v)
unfolding delete_all
delete_all-some j [] abrs e = ((λ i. elim i [ ]), e)
delete_all-some j (id ∷ ids) abrs e =
    let (n, f) = delete_all-some j ids (delete id abrs) e in
    let (d, g) = lookup-delete-some id j abrs f in ((λ i. elim i [ inl p ↦ d p | inr q ↦ n q ]), g)

delete_all-other :
    (j : Cid) (ids : List Cid) (abrs : GoMap Cid AddBlockWrapper)
    → ¬ In j ids
    → lookup j (delete_all ids abrs) ≡ lookup j abrs
unfolding delete_all
delete_all-other j [] abrs n = refl
delete_all-other j (id ∷ ids) abrs n =
    delete_all-other j ids (delete id abrs) (λ i. n (inr i))
    ∙ lookup-delete_ne id j abrs (λ p. n (inl p))

-- Two reads of one key agree.
same_value {ℓ} : {A : Type ℓ} {o : Option A} {a b : A} → o ≡ some a → o ≡ some b → a ≡ b
same_value p q = cc

module _ (lib : CidLib) (m : Mempool) (valid : IsValid lib m) where
  -- The pool once the request `w` under `id`, in the set `cs`, is resolved.
  abbrev resolved : Cid → AddBlockWrapper → ConflictSet → Mempool
  resolved id w cs = record {
    abrs = delete_all cs.ids (delete id m.abrs);
    conflict_sets = delete (key_of w) m.conflict_sets;
  }

  module _ (id : Cid) (w : AddBlockWrapper) (cs : ConflictSet) (here : lookup id m.abrs ≡ some w)
      (set : lookup (key_of w) m.conflict_sets ≡ some cs) where
    -- A request with another key is neither `id` nor in the set.
    outside :
        (j : Cid) (v : AddBlockWrapper)
        → lookup j m.abrs ≡ some v
        → key_of w ≢ key_of v
        → ¬ In j cs.ids × (id ≢ j)
    outside j v e d = (
      (λ i.
          let (u, f, k) = valid.held (key_of w) cs j set i in
          d (sym k ∙ ap key_of (same_value f e))),
      (λ p. d (ap key_of (same_value here (subst (λ x. lookup x m.abrs ≡ some v) (sym p) e)))),
    )

    kept :
        (j : Cid) (v : AddBlockWrapper)
        → lookup j m.abrs ≡ some v
        → key_of w ≢ key_of v
        → lookup j (resolved id w cs).abrs ≡ some v
    kept j v e d =
        let (out, other) = outside j v e d in
        delete_all-other j cs.ids (delete id m.abrs) out ∙ lookup-delete_ne id j m.abrs other ∙ e

    left :
        (j : Cid) (v : AddBlockWrapper)
        → lookup j (resolved id w cs).abrs ≡ some v
        → (lookup j m.abrs ≡ some v) × (key_of w ≢ key_of v)
    left j v e =
        let (out, f) = delete_all-some j cs.ids (delete id m.abrs) e in
        let (_, g) = lookup-delete-some id j m.abrs f in
        let (cs', h, i) = valid.indexed j v g in
        (
          g,
          (λ p. out (
              subst (λ (c : ConflictSet). In j c.ids)
                (same_value h (subst (λ k. lookup k m.conflict_sets ≡ some cs) p set)) i)),
        )

    resolved-IsValid : IsValid lib (resolved id w cs)
    resolved-IsValid = record {
      filed = λ j v e. valid.filed j v (left j v e).0;
      indexed = λ j v e.
          let (g, d) = left j v e in
          let (c, h, i) = valid.indexed j v g in
          (c, lookup-delete_ne (key_of w) (key_of v) m.conflict_sets d ∙ h, i);
      held = λ k c j e i.
          let (d, f) = lookup-delete-some (key_of w) k m.conflict_sets e in
          let (v, g, q) = valid.held k c j f i in (v, kept j v g (λ p. d (p ∙ q)), q);
      least = λ k c e. valid.least k c (lookup-delete-some (key_of w) k m.conflict_sets e).1;
      unique = HasUniqueKeys-delete (key_of w) m.conflict_sets valid.unique;
    }

  -- What a deletion leaves: the pool as it was, or the pool without the conflict of `id`.
  data Deletion (id : Cid) (m' : Mempool) : Type 0 where
    absent : lookup id m.abrs ≡ none → m' ≡ m → Deletion id m'
    present :
        (w : AddBlockWrapper) (cs : ConflictSet)
        → lookup id m.abrs ≡ some w
        → lookup (key_of w) m.conflict_sets ≡ some cs
        → m' ≡ resolved id w cs
        → Deletion id m'

  deletion : (id : Cid) → Deletion id (delete_id_and_conflict_set id m)
  unfolding delete_id_and_conflict_set
  deletion id = elim (Option-cases (lookup id m.abrs)) [
    | inl e ↦ absent e (ap (λ o. drop_existing id o m) e)
    | inr (w, e) ↦
        let (cs, f, _) = valid.indexed id w e in
        present w cs e f (ap (λ o. drop_existing id o m) e ∙ ap (λ o. drop_set (key_of w) id o m) f)
  ]

  -- deleteIDAndConflictSetInLock leaves a valid pool valid, for every identifier.
  pub delete-IsValid : (id : Cid) → IsValid lib (delete_id_and_conflict_set id m)
  delete-IsValid id = valid_after (deletion id)
    where
      valid_after : {m' : Mempool} → Deletion id m' → IsValid lib m'
      valid_after (absent e p) = subst (IsValid lib) (sym p) valid
      valid_after (present w cs e f p) = subst (IsValid lib) (sym p) (resolved-IsValid id w cs e f)

  -- After the deletion of a request that a valid pool holds, exactly the requests with another
  -- conflict key are left.
  pub delete_resolves :
      (id j : Cid) (w v : AddBlockWrapper)
      → lookup id m.abrs ≡ some w
      → (lookup j (delete_id_and_conflict_set id m).abrs ≡ some v)
        ↔ ((lookup j m.abrs ≡ some v) × (key_of w ≢ key_of v))
  delete_resolves id j w v e = exactly (deletion id)
    where
      exactly :
          {m' : Mempool}
          → Deletion id m'
          → (lookup j m'.abrs ≡ some v) ↔ ((lookup j m.abrs ≡ some v) × (key_of w ≢ key_of v))
      exactly (absent n p) = absurd (cc)
      exactly (present u cs h f p) =
          let same : u ≡ w = same_value h e in
          (
            (λ r.
                let (g, d) =
                  left id u cs h f j v (subst (λ (x : Mempool). lookup j x.abrs ≡ some v) p r) in
                (g, (λ q. d (ap key_of same ∙ q)))),
            (λ r.
                subst (λ (x : Mempool). lookup j x.abrs ≡ some v) (sym p)
                  (kept id u cs h f j v r.0 (λ q. r.1 (ap key_of (sym same) ∙ q)))),
          )

-- BulkDelete leaves a valid pool valid, for every list of identifiers.
pub bulk_delete-IsValid :
    (lib : CidLib) (ids : List Cid) (m : Mempool) → IsValid lib m → IsValid lib (bulk_delete ids m)
unfolding bulk_delete
bulk_delete-IsValid lib [] m v = v
bulk_delete-IsValid lib (id ∷ ids) m v =
    bulk_delete-IsValid lib ids (delete_id_and_conflict_set id m) (delete-IsValid lib m v id)
