-- ===== src/Mempool/Invariant.antt =====
-- What holds of the mempool between two calls (mempool.go): the requests and the conflict sets
-- index each other, and each set prefers its least identifier.
use tupelo.Prelude.{
  In-append_last, In-append_left, In-append_self, Option, none, some, false, ◌≡◌, ◌≢◌, inl, inr,
  refl, arith, In, Bool-cases, subst,
}
use tupelo.Prelude.Eq.{test_of_ne}
use tupelo.GoString.{Bytes, bytes_eq_inst, bytes_lt}
use tupelo.GoString.Order.{bytes_lt_irrefl, bytes_lt_trans}
use tupelo.GoMap.{lookup, HasUniqueKeys}
use tupelo.External.CidLib.{CidLib, Cid, undef}
use tupelo.Request.{AddBlockWrapper}
use tupelo.Mempool.{ConflictSet, Mempool, empty_set, new_mempool, key_of, set_or_empty, add_id}

module _ (lib : CidLib) where
  open lib use {to_string}

  -- The set holds its preferred identifier, and none that prints below it.
  pub record IsLeast (cs : ConflictSet) : Type 0 where
    pub among : In cs.preferred cs.ids
    pub least : (id : Cid) → In id cs.ids → bytes_lt (to_string id) (to_string cs.preferred) ≡ false
    pub defined : cs.preferred ≢ undef

  pub record IsValid (m : Mempool) : Type 0 where
    -- A request stands under its own identifier.
    pub filed : (id : Cid) (w : AddBlockWrapper) → lookup id m.abrs ≡ some w → w.cid ≡ id
    -- Every request is in the conflict set of its key.
    pub indexed :
        (id : Cid) (w : AddBlockWrapper)
        → lookup id m.abrs ≡ some w
        → (cs : ConflictSet) × (lookup (key_of w) m.conflict_sets ≡ some cs) × In id cs.ids
    -- Every member of a conflict set is a request with the set's key.
    pub held :
        (k : Bytes) (cs : ConflictSet) (id : Cid)
        → lookup k m.conflict_sets ≡ some cs
        → In id cs.ids
        → (w : AddBlockWrapper) × (lookup id m.abrs ≡ some w) × (key_of w ≡ k)
    pub least : (k : Bytes) (cs : ConflictSet) → lookup k m.conflict_sets ≡ some cs → IsLeast cs
    pub unique : HasUniqueKeys m.conflict_sets

  pub new_mempool-IsValid : IsValid new_mempool
  unfolding lookup
  new_mempool-IsValid = record {
    filed = λ id w e. absurd (cc);
    indexed = λ id w e. absurd (cc);
    held = λ k cs id e i. absurd (cc);
    least = λ k cs e. absurd (cc);
    unique = tt;
  }

  not_below_self : (a b : Cid) → a ≡ b → bytes_lt (to_string b) (to_string a) ≡ false
  not_below_self a b e =
      subst (λ x. bytes_lt (to_string x) (to_string a) ≡ false) e (bytes_lt_irrefl (to_string a))

  -- The first member of a set is preferred.
  add_id-IsLeast_first : (id : Cid) → id ≢ undef → IsLeast (add_id lib id empty_set)
  unfolding add_id
  add_id-IsLeast_first id d = record {
    among = inl refl;
    least = λ j i. elim i [ inl e ↦ not_below_self id j e | inr x ↦ absurd x ];
    defined = d;
  }

  -- A new member takes over exactly if it prints below the preferred one.
  pub add_id-IsLeast :
      (id : Cid) (cs : ConflictSet) → id ≢ undef → IsLeast cs → IsLeast (add_id lib id cs)
  unfolding add_id
  add_id-IsLeast id cs d r = elim (Bool-cases (bytes_lt (to_string id) (to_string cs.preferred))) [
    | inl lower ↦
        rw (test_of_ne cs.preferred undef r.defined, lower)
          (record {
            among = In-append_self id cs.ids;
            least = λ j i. elim (In-append_last j id cs.ids i) [
              | inl old ↦ ground (
                arith,
                r.least j old,
                bytes_lt_trans (to_string j) (to_string id) (to_string cs.preferred),
              )
              | inr e ↦ not_below_self id j e
            ];
            defined = d;
          })
    | inr higher ↦
        rw (test_of_ne cs.preferred undef r.defined, higher)
          (record {
            among = In-append_left cs.preferred id cs.ids r.among;
            least = λ j i. elim (In-append_last j id cs.ids i) [
              | inl old ↦ r.least j old
              | inr e ↦
                  subst (λ x. bytes_lt (to_string x) (to_string cs.preferred) ≡ false) e higher
            ];
            defined = r.defined;
          })
  ]

  pub set_or_empty-IsLeast :
      (id : Cid) (o : Option ConflictSet)
      → id ≢ undef
      → ((cs : ConflictSet) → o ≡ some cs → IsLeast cs)
      → IsLeast (add_id lib id (set_or_empty o))
  set_or_empty-IsLeast id none d r = add_id-IsLeast_first id d
  set_or_empty-IsLeast id (some cs) d r = add_id-IsLeast id cs d (r cs refl)

  -- The members of the set that Add extends are members of the set that was there.
  pub set_or_empty-held :
      (o : Option ConflictSet) (id : Cid)
      → In id (set_or_empty o).ids
      → (cs : ConflictSet) × (o ≡ some cs) × In id cs.ids
  set_or_empty-held none id i = elim i [ ]
  set_or_empty-held (some cs) id i = (cs, refl, i)
