-- ===== src/Mempool/Add.antt =====
-- mempool.Add and the index (mempool.go).
use tupelo.Prelude.{
  In-append_last, In-append_left, In-append_self, some, ◌≡◌, ◌≢◌, inl, inr, sym, ◌∙◌, In, subst,
}
use tupelo.Prelude.Eq.{eq-cases}
use tupelo.GoString.{Bytes, bytes_eq_inst}
use tupelo.GoMap.{lookup, insert}
use tupelo.GoMap.Laws.{
  lookup-insert_self, lookup-insert_ne, lookup-insert-some, HasUniqueKeys-insert,
}
use tupelo.External.CidLib.{CidLib, Cid, undef}
use tupelo.Request.{AddBlockWrapper}
use tupelo.Mempool.{ConflictSet, Mempool, key_of, set_or_empty, add_id, add}
use tupelo.Mempool.Invariant.{IsValid, IsLeast, set_or_empty-IsLeast, set_or_empty-held}

-- A request that is in the pool under the identifier of `w` has the conflict key of `w`: an
-- identifier is the hash of the request.
abbrev pub IsConsistent : AddBlockWrapper → Mempool → Type 0
IsConsistent w m = (v : AddBlockWrapper) → lookup w.cid m.abrs ≡ some v → key_of v ≡ key_of w

module _ (lib : CidLib) (w : AddBlockWrapper) (m : Mempool) (valid : IsValid lib m) where
  extended : ConflictSet
  extended = add_id lib w.cid (set_or_empty (lookup (key_of w) m.conflict_sets))

  In-extended :
      (id : Cid) (cs : ConflictSet)
      → lookup (key_of w) m.conflict_sets ≡ some cs
      → In id cs.ids
      → In id extended.ids
  unfolding extended add_id
  In-extended id cs e i = rw e (In-append_left id w.cid cs.ids i)

  filed : (id : Cid) (v : AddBlockWrapper) → lookup id (add lib w m).abrs ≡ some v → v.cid ≡ id
  unfolding add
  filed id v e = elim (lookup-insert-some w.cid id w m.abrs e) [
    | inl (k, h) ↦ subst (λ (x : AddBlockWrapper). x.cid ≡ id) h k
    | inr (_, old) ↦ valid.filed id v old
  ]

  indexed :
      (id : Cid) (v : AddBlockWrapper)
      → lookup id (add lib w m).abrs ≡ some v
      → (cs : ConflictSet) × (lookup (key_of v) (add lib w m).conflict_sets ≡ some cs)
        × In id cs.ids
  unfolding add extended
  indexed id v e = elim (lookup-insert-some w.cid id w m.abrs e) [
    | inl (k, h) ↦ (
      extended,
      subst (λ x. lookup (key_of x) (add lib w m).conflict_sets ≡ some extended) h
          (lookup-insert_self (key_of w) extended m.conflict_sets),
      subst (λ x. In x extended.ids) k
          (In-append_self w.cid (set_or_empty (lookup (key_of w) m.conflict_sets)).ids),
    )
    | inr (_, old) ↦
        let (cs, f, i) = valid.indexed id v old in
        elim (eq-cases (key_of w) (key_of v)) [
          | inl same ↦ (
            extended,
            subst (λ k. lookup k (add lib w m).conflict_sets ≡ some extended) same
                (lookup-insert_self (key_of w) extended m.conflict_sets),
            In-extended id cs (subst (λ k. lookup k m.conflict_sets ≡ some cs) (sym same) f) i,
          )
          | inr other ↦
              (cs, lookup-insert_ne (key_of w) (key_of v) extended m.conflict_sets other ∙ f, i)
        ]
  ]

  -- A request of the pool under its key, whether or not it stands under the identifier of `w`.
  still_held :
      (k : Bytes) (id : Cid)
      → IsConsistent w m
      → (v : AddBlockWrapper) × (lookup id m.abrs ≡ some v) × (key_of v ≡ k)
      → (v : AddBlockWrapper) × (lookup id (add lib w m).abrs ≡ some v) × (key_of v ≡ k)
  unfolding add
  still_held k id c (v, e, q) = elim (eq-cases w.cid id) [
    | inl same ↦ (
      w,
      subst (λ j. lookup j (insert w.cid w m.abrs) ≡ some w) same
          (lookup-insert_self w.cid w m.abrs),
      sym (c v (subst (λ j. lookup j m.abrs ≡ some v) (sym same) e)) ∙ q,
    )
    | inr other ↦ (v, lookup-insert_ne w.cid id w m.abrs other ∙ e, q)
  ]

  held :
      (k : Bytes) (cs : ConflictSet) (id : Cid)
      → IsConsistent w m
      → lookup k (add lib w m).conflict_sets ≡ some cs
      → In id cs.ids
      → (v : AddBlockWrapper) × (lookup id (add lib w m).abrs ≡ some v) × (key_of v ≡ k)
  unfolding add extended
  held k cs id c e i = elim (lookup-insert-some (key_of w) k extended m.conflict_sets e) [
    | inl (same, h) ↦
        elim (In-append_last id w.cid (set_or_empty (lookup (key_of w) m.conflict_sets)).ids
          (subst (λ (x : ConflictSet). In id x.ids) (sym h) i)) [
            | inl old ↦
                let (cs', f, j) =
                  set_or_empty-held lib (lookup (key_of w) m.conflict_sets) id old in
                still_held k id c
                  (valid.held k cs' id (subst (λ x. lookup x m.conflict_sets ≡ some cs') same f) j)
            | inr new ↦ (
              w,
              subst (λ x. lookup x (insert w.cid w m.abrs) ≡ some w) new
                  (lookup-insert_self w.cid w m.abrs),
              same,
            )
          ]
    | inr (_, old) ↦ still_held k id c (valid.held k cs id old i)
  ]

  -- Adding a request with a defined identifier, under which the pool holds no request with another
  -- conflict key, to a valid pool leaves it valid.
  pub add-IsValid : w.cid ≢ undef → IsConsistent w m → IsValid lib (add lib w m)
  unfolding add extended
  add-IsValid d c = record {
    filed = filed;
    indexed = indexed;
    held = λ k cs id e i. held k cs id c e i;
    least = λ k cs e. elim (lookup-insert-some (key_of w) k extended m.conflict_sets e) [
      | inl (_, h) ↦ subst (IsLeast lib) h (
          set_or_empty-IsLeast lib w.cid (lookup (key_of w) m.conflict_sets) d
            (λ o p. valid.least (key_of w) o p))
      | inr (_, old) ↦ valid.least k cs old
    ];
    unique = HasUniqueKeys-insert (key_of w) extended m.conflict_sets valid.unique;
  }
