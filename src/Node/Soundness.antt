-- ===== src/Node/Soundness.antt =====
-- The mempool and the block store of a node under handleAddBlockRequest (node.go).
use tupelo.Prelude.{
  ℕ, ◌-◌, Option, none, some, ◌≡◌, ◌^◌, ◌<◌, ◌⊎◌, inl, inr, refl, sym, ap, subst, eqb, Bool-cases,
}
use tupelo.GoString.{Bytes, bytes_eq_inst}
use tupelo.GoMap.{lookup}
use tupelo.External.CidLib.{CidLib, Cid}
use tupelo.External.Float.{Float64}
use tupelo.External.Lru.{Lru}
use tupelo.External.Hamt.{Hamt}
use tupelo.External.Archive.{Archive}
use tupelo.External.BlockStore.{BlockStore}
use tupelo.Checkpoint.{Checkpoint}
use tupelo.Request.{AddBlockWrapper}
use tupelo.Mempool.{Mempool, add, to_conflict_set_id}
use tupelo.Mempool.Invariant.{IsValid}
use tupelo.Mempool.Add.{IsConsistent, add-IsValid}
use tupelo.GoMap.Laws.{lookup-insert-some}
use tupelo.GlobalState.{Current, absent, error, GlobalState, find_current}
use tupelo.Snowballer.{Checked, panics, returns}
use tupelo.Rounds.{Round, get_round}
use tupelo.Node.{
  Node, Handled, handle_on, shown, locked, current_of, get_current, handle_add_block_request,
}
use tupelo.Node.Handling.{Admits, IsNext, handle_on-Admits}

pub Checked-cases {ℓ} : {A : Type ℓ} (x : Checked A) → (x ≡ panics) ⊎ ((a : A) × (x ≡ returns a))
Checked-cases panics = inl refl
Checked-cases (returns a) = inr (a, refl)

same_pair {ℓ κ} :
    {A : Type ℓ} {B : Type κ} (a a' : A) (b b' : B)
    → ◌≡◌ {A = Checked (A × B)} (returns (a, b)) (returns (a', b'))
    → (a ≡ a') × (b ≡ b')
same_pair a a' b b' e = let p : a ≡ a' = cc in let q : b ≡ b' = cc in (p, q)

module _ (lib : CidLib) (bs : BlockStore) where
  -- The pool is valid, and the block store holds its requests under their identifiers.
  pub record IsSound (pool : Mempool) (st : bs.Store) : Type 0 where
    pub valid : IsValid lib pool
    pub backed :
        (id : Cid) (w : AddBlockWrapper)
        → lookup id pool.abrs ≡ some w
        → bs.fetch id st ≡ some w.add_block_request

  -- A request that the store has just put meets in the pool, under its identifier, only itself.
  put-IsConsistent :
      (pool : Mempool) (st st' : bs.Store) (w : AddBlockWrapper) (id : Cid)
      → IsSound pool st
      → bs.put w.add_block_request st ≡ some (id, st')
      → IsConsistent (record w { cid = id }) pool
  put-IsConsistent pool st st' w id s put v there =
      let old : bs.fetch id st' ≡ some v.add_block_request =
        bs.fetch-put_kept w.add_block_request v.add_block_request st id put (s.backed id v there) in
      let new : bs.fetch id st' ≡ some w.add_block_request =
        bs.fetch-put w.add_block_request st put in
      let one : v.add_block_request ≡ w.add_block_request = cc (old, new) in
      ap to_conflict_set_id one

  put-IsSound :
      (pool : Mempool) (st st' : bs.Store) (w : AddBlockWrapper) (id : Cid)
      → IsSound pool st
      → bs.put w.add_block_request st ≡ some (id, st')
      → IsSound (add lib (record w { cid = id }) pool) st'
  unfolding add
  put-IsSound pool st st' w id s put = record {
    valid =
        add-IsValid lib (record w { cid = id }) pool s.valid
          (bs.put-defined w.add_block_request st put) (put-IsConsistent pool st st' w id s put);
    backed = λ j v e. elim (lookup-insert-some id j (record w { cid = id }) pool.abrs e) [
      | inl (k, h) ↦
          subst (λ (x : AddBlockWrapper). bs.fetch j st' ≡ some x.add_block_request) h
            (subst (λ i. bs.fetch i st' ≡ some w.add_block_request) k
              (bs.fetch-put w.add_block_request st put))
      | inr (_, old) ↦
          bs.fetch-put_kept w.add_block_request v.add_block_request st j put (s.backed j v old)
    ];
  }

  module _ (fl : Float64) (hl : Hamt) (rounds_lru : Lru ℕ (Round lib fl hl bs))
      (inflight_lru : Lru Bytes AddBlockWrapper) where
    abbrev M : Type 0
    M = Node lib fl hl bs rounds_lru inflight_lru

    Admits-IsSound :
        (P : Type 0) (w : AddBlockWrapper) (n : M) (r : Handled × M)
        → Admits lib fl hl bs rounds_lru inflight_lru P w n r
        → IsSound n.mempool n.store
        → IsSound r.1.mempool r.1.store
    Admits-IsSound P w n r (inl (_, _, a)) s =
        subst (λ pool. IsSound pool r.1.store) (sym a.pooled)
          (put-IsSound n.mempool n.store r.1.store w a.id s a.put)
    Admits-IsSound P w n r (inr (p, q, _)) s =
        subst (λ pool. IsSound pool r.1.store) (sym p)
          (subst (λ st. IsSound n.mempool st) (sym q) s)

    module _ (ar : Archive hl) (encode : Checkpoint → Cid) where
      -- getCurrent touches the rounds alone.
      abbrev Keeps : M → M → Type 0
      Keeps n n' = (n'.mempool ≡ n.mempool) × (n'.store ≡ n.store)

      returned :
          (n m : M) (a c : Current)
          → ◌≡◌ {A = Checked (Current × M)} (returns (a, m)) (returns (c, n))
          → Keeps m n
      returned n m a c e =
          let same : m ≡ n = (same_pair a c m n e).1 in
          (ap (λ (x : M). x.mempool) (sym same), ap (λ (x : M). x.store) (sym same))

      shown-Keeps :
          (object : Bytes) (n n' : M) (o : Option (GlobalState hl bs)) (c : Current)
          → shown lib fl hl bs rounds_lru inflight_lru ar encode object n o ≡ returns (c, n')
          → Keeps n n'
      unfolding shown
      shown-Keeps object n n' none c e = absurd (cc)
      shown-Keeps object n n' (some gs) c e =
          returned n' n (find_current hl bs n.store object gs) c e

      locked-Keeps :
          (object : Bytes) (n n' : M) (o : Option (Round lib fl hl bs)) (c : Current)
          → locked lib fl hl bs rounds_lru inflight_lru ar encode object n o ≡ returns (c, n')
          → Keeps n n'
      unfolding locked
      locked-Keeps object n n' none c e = returned n' n error c e
      locked-Keeps object n n' (some r) c e = shown-Keeps object n n' r.state c e

      current_of-Keeps :
          (object : Bytes) (n n' : M) (o : Option (Round lib fl hl bs)) (c : Current)
          → current_of lib fl hl bs rounds_lru inflight_lru ar encode object n o ≡ returns (c, n')
          → Keeps n n'
      unfolding current_of
      current_of-Keeps object n n' none c e = absurd (cc)
      current_of-Keeps object n n' (some r) c e = elim (Bool-cases (eqb r.height 0)) [
        | inl genesis ↦ returned n' n absent c (rw genesis at e)
        | inr later ↦
            elim (Checked-cases
              (get_round lib fl hl bs rounds_lru ar encode (r.height - 1) n.rounds)) [
                | inl broken ↦ absurd (cc (rw (later, broken) at e))
                | inr ((found, rh), got) ↦
                    locked-Keeps object (record n { rounds = rh }) n' found c (rw (later, got) at e)
              ]
      ]

      -- What a call of the handler went through: getCurrent, which touches the rounds alone, and
      -- then the decision on its result.
      record Went (w : AddBlockWrapper) (n : M) (r : Handled × M) : Type 0 where
        current : Current
        middle : M
        keeps : Keeps n middle
        handles : r ≡ handle_on lib fl hl bs rounds_lru inflight_lru current w middle

      handle-Went :
          (w : AddBlockWrapper) (n : M) (r : Handled × M)
          → handle_add_block_request lib fl hl bs rounds_lru inflight_lru ar encode w n ≡ returns r
          → Went w n r
      unfolding handle_add_block_request get_current
      handle-Went w n r e =
          elim (Checked-cases (
            current_of lib fl hl bs rounds_lru inflight_lru ar encode w.add_block_request.object_id
              n n.rounds.current_round)) [
                | inl broken ↦ absurd (cc (rw broken at e))
                | inr ((c, m), got) ↦ record {
                  current = c;
                  middle = m;
                  keeps =
                      current_of-Keeps w.add_block_request.object_id n m n.rounds.current_round c
                        got;
                  handles =
                      let e' : returns (handle_on lib fl hl bs rounds_lru inflight_lru c w m)
                          ≡ returns r =
                        rw got at e in
                      cc;
                }
              ]

      -- A request with a uint64 height, where the handler returns, leaves a sound pool and store
      -- sound: the pool is valid, and the store holds its requests under their identifiers.
      pub handle_add_block_request-IsSound :
          (w : AddBlockWrapper) (n n' : M) (h : Handled)
          → w.add_block_request.height < 2 ^ 64
          → IsSound n.mempool n.store
          → handle_add_block_request lib fl hl bs rounds_lru inflight_lru ar encode w n
            ≡ returns (h, n')
          → IsSound n'.mempool n'.store
      handle_add_block_request-IsSound w n n' h u s e =
          let k = handle-Went w n (h, n') e in
          let m = k.middle in
          let (p, q) = k.keeps in
          let still : IsSound m.mempool m.store =
            subst (λ pool. IsSound pool m.store) (sym p)
              (subst (λ st. IsSound n.mempool st) (sym q) s) in
          subst (λ (r : Handled × M). IsSound r.1.mempool r.1.store) (sym k.handles)
            (Admits-IsSound (IsNext k.current w.add_block_request) w m
              (handle_on lib fl hl bs rounds_lru inflight_lru k.current w m)
              (handle_on-Admits lib fl hl bs rounds_lru inflight_lru k.current w m u) still)
