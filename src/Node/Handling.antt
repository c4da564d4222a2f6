-- ===== src/Node/Handling.antt =====
-- What handleAddBlockRequest does to the mempool (node.go).
use tupelo.Prelude.{
  ℕ, ◌+◌, ◌^◌, ◌<◌, Option, none, some, ◌≡◌, ◌⊎◌, inl, inr, refl, ltb, eqb, eqb_iff, arith,
  Bool-cases,
}
use tupelo.GoString.{Bytes, bytes_eq, bytes_eq_iff, bytes_eq_inst}
use tupelo.External.CidLib.{CidLib, Cid}
use tupelo.External.Float.{Float64}
use tupelo.External.Lru.{Lru}
use tupelo.External.Hamt.{Hamt}
use tupelo.External.BlockStore.{BlockStore}
use tupelo.Request.{AddBlockRequest, AddBlockWrapper}
use tupelo.Mempool.{add}
use tupelo.GlobalState.{Current, absent, error, request}
use tupelo.Rounds.{Round}
use tupelo.Node.{Node, Handled, stored, next_height, store_abr, put_in_pool, saved, handle_on}

-- The request is the first of its object, or the successor of the current one.
abbrev pub IsNext : Current → AddBlockRequest → Type 0
IsNext error abr = ⊥
IsNext absent abr = abr.height ≡ 0
IsNext (request c) abr = (abr.height ≡ c.height + 1) × (c.new_tip ≡ abr.previous_tip)

module _ (lib : CidLib) (fl : Float64) (hl : Hamt) (bs : BlockStore)
    (rounds_lru : Lru ℕ (Round lib fl hl bs)) (inflight_lru : Lru Bytes AddBlockWrapper) where
  abbrev N : Type 0
  N = Node lib fl hl bs rounds_lru inflight_lru

  -- The store put the request under `id`, and the pool has it under that identifier.
  pub record IsAdmitted (w : AddBlockWrapper) (n n' : N) : Type 0 where
    pub id : Cid
    pub put : bs.put w.add_block_request n.store ≡ some (id, n'.store)
    pub pooled : n'.mempool ≡ add lib (record w { cid = id }) n.mempool

  -- The request is admitted, or the pool and the store stay as they were; of a request that meets
  -- `P`, only because the store refused it.
  abbrev pub Admits : Type 0 → AddBlockWrapper → N → Handled × N → Type 0
  Admits P w n r =
      ((r.0 ≡ stored) × P × IsAdmitted w n r.1)
      ⊎ ((r.1.mempool ≡ n.mempool)
          × (r.1.store ≡ n.store)
          × (P → bs.put w.add_block_request n.store ≡ none))

  saved-Admits :
      (P : Type 0) (w : AddBlockWrapper) (n : N)
      → P
      → Admits P w n (
          saved lib fl hl bs rounds_lru inflight_lru n
            (store_abr lib fl hl bs rounds_lru inflight_lru w n))
  unfolding saved store_abr put_in_pool
  saved-Admits P w n p = outcome (bs.put w.add_block_request n.store) refl
    where
      outcome :
          (o : Option (Cid × bs.Store))
          → bs.put w.add_block_request n.store ≡ o
          → Admits P w n (
              saved lib fl hl bs rounds_lru inflight_lru n
                (put_in_pool lib fl hl bs rounds_lru inflight_lru w n o))
      outcome none e = inr (refl, refl, (λ _. e))
      outcome (some (id, st)) e = inl (refl, p, record { id = id; put = e; pooled = refl })

  -- A request is stored, in the block store and under its identifier in the mempool, exactly if it
  -- is the first of its object (where there is no current request) or the successor of the current
  -- request in height and tip, and the block store takes it. In every other case the mempool and
  -- the block store stay as they were. Heights are uint64.
  pub handle_on-Admits :
      (current : Current) (w : AddBlockWrapper) (n : N)
      → w.add_block_request.height < 2 ^ 64
      → Admits
          (IsNext current w.add_block_request)
          w
          n
          (handle_on lib fl hl bs rounds_lru inflight_lru current w n)
  unfolding handle_on
  handle_on-Admits error w n u = inr (refl, refl, (λ x. absurd x))
  handle_on-Admits absent w n u = elim (Bool-cases (eqb w.add_block_request.height 0)) [
    | inl first ↦ rw first (saved-Admits _ w n ((eqb_iff _ 0).0 first))
    | inr later ↦ rw later (inr (refl, refl, (λ p. absurd (ground (arith, p, later)))))
  ]
  handle_on-Admits (request c) w n u =
      let a = w.add_block_request in
      elim (Bool-cases (ltb a.height c.height)) [
        | inl old ↦ rw old (inr (refl, refl, (λ p. absurd (ground (arith, p.0, old)))))
        | inr fresh ↦ elim (Bool-cases (eqb (next_height c.height) a.height)) [
          | inl next ↦ elim (Bool-cases (bytes_eq c.new_tip a.previous_tip)) [
            | inl linked ↦
                rw (fresh, next, linked)
                  (saved-Admits _ w n (ground (arith, next, fresh), (bytes_eq_iff _ _).0 linked))
            | inr apart ↦
                rw (fresh, next, apart)
                  (inr (refl, refl, (λ p. cc ((bytes_eq_iff c.new_tip a.previous_tip).1 p.1))))
          ]
          | inr far ↦ elim (Bool-cases (ltb (next_height c.height) a.height)) [
            | inl ahead ↦
                rw (fresh, far, ahead) (inr (refl, refl, (λ p. absurd (ground (arith, p.0, far)))))
            | inr wrapped ↦ elim (Bool-cases (eqb a.height c.height)) [
              | inl same ↦
                  rw (fresh, far, wrapped, same)
                    (inr (refl, refl, (λ p. absurd (ground (arith, p.0, far)))))
              | inr odd ↦
                  rw (fresh, far, wrapped, odd)
                    (inr (refl, refl, (λ p. absurd (ground (arith, p.0, far)))))
            ]
          ]
        ]
      ]
