-- ===== src/Node/Decided.antt =====
-- What handleSnowballerDone (node.go) takes from a node at the end of a round: the decided
-- checkpoint's requests, and the state that the round starts from.
use tupelo.Prelude.{
  ℕ, ◌-◌, Option, none, some, List, [], ◌∷◌, ◌++◌, ◌≡◌, ◌≢◌, ◌⊎◌, refl, sym, ap, ◌∙◌, inl, inr,
  Option-cases, Bool-cases, eqb, eqb_iff, eqb_of_ne,
}
use tupelo.GoString.{Bytes}
use tupelo.External.CidLib.{CidLib, Cid}
use tupelo.External.Float.{Float64}
use tupelo.External.Lru.{Lru}
use tupelo.External.Hamt.{Hamt}
use tupelo.External.Archive.{Archive}
use tupelo.External.BlockStore.{BlockStore}
use tupelo.Checkpoint.{Checkpoint, CheckpointWrapper}
use tupelo.Vote.{Vote}
use tupelo.Request.{AddBlockWrapper}
use tupelo.Mempool.{Mempool, get}
use tupelo.GlobalState.{GlobalState, new_global_state}
use tupelo.Snowballer.{Checked, returns}
use tupelo.Rounds.{Round, RoundHolder, get_round}
use tupelo.Node.{
  Node, copied, state_before, Collected, collect, next_of, taken, follows, requests_of,
}
use tupelo.Node.Collecting.{AreHeld, requests}
use tupelo.Node.Soundness.{Checked-cases}

module _ (lib : CidLib) (fl : Float64) (hl : Hamt) (bs : BlockStore)
    (rounds_lru : Lru ℕ (Round lib fl hl bs)) (inflight_lru : Lru Bytes AddBlockWrapper)
    (ar : Archive hl) (encode : Checkpoint → Cid) where
  open lib use {cast}
  open fl use {F}

  abbrev M : Type 0
  M = Node lib fl hl bs rounds_lru inflight_lru

  abbrev C : Type 0
  C = Collected lib fl hl bs rounds_lru inflight_lru ar encode

  -- The preferred vote's checkpoint, and the bytes of its requests.
  pub record Decides (n : M) (bytes : List Bytes) : Type 0 where
    pub vote : Vote F
    pub checkpoint : CheckpointWrapper
    pub is_preferred : n.snowballer.snowball.preferred ≡ some vote
    pub is_decided : vote.checkpoint ≡ some checkpoint
    pub are_listed : checkpoint.value.add_block_requests ≡ bytes

  requests_of-listed :
      (o : Option (Vote F)) (bytes : List Bytes)
      → requests_of lib fl hl bs rounds_lru inflight_lru ar encode o ≡ returns bytes
      → (v : Vote F) × (cp : CheckpointWrapper) × (o ≡ some v)
        × (v.checkpoint ≡ some cp)
        × (cp.value.add_block_requests ≡ bytes)
  unfolding requests_of
  requests_of-listed none bytes e = absurd (cc)
  requests_of-listed (some v) bytes e = elim (Option-cases v.checkpoint) [
    | inl gone ↦ absurd (cc (rw gone at e))
    | inr (cp, here) ↦
        let f : ◌≡◌ {A = Checked (List Bytes)} (returns cp.value.add_block_requests)
            (returns bytes) =
          rw here at e in
        (v, cp, refl, here, cc)
  ]

  pub requests_of-Decides :
      (n : M) (bytes : List Bytes)
      → requests_of lib fl hl bs rounds_lru inflight_lru ar encode n.snowballer.snowball.preferred
        ≡ returns bytes
      → Decides n bytes
  requests_of-Decides n bytes e =
      let (v, cp, a, b, c) = requests_of-listed n.snowballer.snowball.preferred bytes e in
      record { vote = v; checkpoint = cp; is_preferred = a; is_decided = b; are_listed = c }

  -- The state that the round `r` starts from: an empty one for the round zero, and for any other
  -- round the state of the round one height below it.
  abbrev pub StartsFrom : Round lib fl hl bs → M → GlobalState hl bs → Type 0
  StartsFrom r n gs =
      ((r.height ≡ 0) × (gs ≡ record { hamt = some hl.new_node; inflight = [] }))
      ⊎ ((r.height ≢ 0)
          × ((p : Round lib fl hl bs) × (rh : RoundHolder lib fl hl bs rounds_lru) × (get_round lib
                  fl hl bs rounds_lru ar encode (r.height - 1) n.rounds
                ≡ returns (some p, rh))
              × (p.state ≡ some gs)))

  -- The node with another cache of rounds.
  pub record Begins (r : Round lib fl hl bs) (n m : M) (gs : GlobalState hl bs) : Type 0 where
    pub starts : StartsFrom r n gs
    pub root : hl.Node
    pub has_root : gs.hamt ≡ some root
    pub same_pool : m.mempool ≡ n.mempool
    pub same_store : m.store ≡ n.store

  same_start :
      (gs gs' : GlobalState hl bs) (m m' : M)
      → ◌≡◌ {A = Checked (GlobalState hl bs × M)} (returns (gs, m)) (returns (gs', m'))
      → (gs ≡ gs') × (m ≡ m')
  same_start gs gs' m m' e = (cc, cc)

  copied-Begins :
      (r p : Round lib fl hl bs) (rh : RoundHolder lib fl hl bs rounds_lru) (n m : M)
      (s gs : GlobalState hl bs) (o : Option hl.Node)
      → r.height ≢ 0
      → get_round lib fl hl bs rounds_lru ar encode (r.height - 1) n.rounds ≡ returns (some p, rh)
      → p.state ≡ some s
      → s.hamt ≡ o
      → copied lib fl hl bs rounds_lru inflight_lru ar encode rh n s o ≡ returns (gs, m)
      → Begins r n m gs
  unfolding copied
  copied-Begins r p rh n m s gs none later got here rooted e = absurd (cc)
  copied-Begins r p rh n m s gs (some h) later got here rooted e =
      let (f, g) = same_start s gs (record n { rounds = rh }) m e in
      record {
        starts = inr (later, (p, rh, got, here ∙ ap (λ x. some x) f));
        root = h;
        has_root = ap (λ (x : GlobalState hl bs). x.hamt) (sym f) ∙ rooted;
        same_pool = ap (λ (x : M). x.mempool) (sym g);
        same_store = ap (λ (x : M). x.store) (sym g);
      }

  found-Begins :
      (r : Round lib fl hl bs) (o : Option (Round lib fl hl bs))
      (rh : RoundHolder lib fl hl bs rounds_lru) (n m : M) (gs : GlobalState hl bs)
      → r.height ≢ 0
      → get_round lib fl hl bs rounds_lru ar encode (r.height - 1) n.rounds ≡ returns (o, rh)
      → state_before lib fl hl bs rounds_lru inflight_lru ar encode r n ≡ returns (gs, m)
      → Begins r n m gs
  unfolding state_before
  found-Begins r none rh n m gs later got e =
      let z = eqb_of_ne r.height 0 later in absurd (cc (rw (z, got) at e))
  found-Begins r (some p) rh n m gs later got e =
      let z = eqb_of_ne r.height 0 later in
      elim (Option-cases p.state) [
        | inl gone ↦ absurd (cc (rw (z, got, gone) at e))
        | inr (s, here) ↦
            copied-Begins r p rh n m s gs s.hamt later got here refl (rw (z, got, here) at e)
      ]

  pub state_before-Begins :
      (r : Round lib fl hl bs) (n m : M) (gs : GlobalState hl bs)
      → state_before lib fl hl bs rounds_lru inflight_lru ar encode r n ≡ returns (gs, m)
      → Begins r n m gs
  unfolding state_before new_global_state
  state_before-Begins r n m gs e = elim (Bool-cases (eqb r.height 0)) [
    | inl z ↦
        let (f, g) = same_start (new_global_state hl bs) gs n m (rw z at e) in
        record {
          starts = inl ((eqb_iff r.height 0).0 z, sym f);
          root = hl.new_node;
          has_root = ap (λ (x : GlobalState hl bs). x.hamt) (sym f);
          same_pool = ap (λ (x : M). x.mempool) (sym g);
          same_store = ap (λ (x : M). x.store) (sym g);
        }
    | inr z ↦
        elim (Checked-cases (get_round lib fl hl bs rounds_lru ar encode (r.height - 1) n.rounds)) [
          | inl broken ↦ absurd (cc (rw (z, broken) at e))
          | inr ((o, rh), got) ↦
              found-Begins r o rh n m gs (λ h. let t = (eqb_iff r.height 0).1 h in absurd (cc)) got
                e
        ]
  ]

  same_collected : (c c' : C) → ◌≡◌ {A = Checked C} (returns c) (returns c') → c ≡ c'
  same_collected c c' e = cc

  -- The loop goes through only where the pool holds every request, and gives them in order.
  pub collect-AreHeld :
      (pool : Mempool) (waiting : inflight_lru.Cache) (bytes : List Bytes) (c : C)
      → collect lib fl hl bs rounds_lru inflight_lru ar encode pool waiting bytes ≡ returns c
      → (h : AreHeld lib pool bytes) × (c.abrws ≡ requests lib pool bytes h)
  unfolding collect
  collect-AreHeld pool waiting [] c e = (
    tt,
    sym (
        ap (λ (x : C). x.abrws)
          (same_collected (record { abrws = []; ids = []; promoted = []; waiting = waiting }) c e)),
  )
  collect-AreHeld pool waiting (b ∷ bytes) c e = elim (Option-cases (cast b)) [
    | inl broken ↦ absurd (cc (rw (broken, collect) at e))
    | inr (id, castable) ↦ elim (Option-cases (get id pool)) [
      | inl missing ↦ absurd (cc (rw (castable, collect, missing) at e))
      | inr (w, held) ↦
          let next = next_of lib fl hl bs rounds_lru inflight_lru ar encode w waiting in
          let left = taken lib fl hl bs rounds_lru inflight_lru ar encode w waiting next in
          elim (Checked-cases
            (collect lib fl hl bs rounds_lru inflight_lru ar encode pool left bytes)) [
              | inl broken ↦ absurd (cc (rw (castable, collect, held, broken) at e))
              | inr (rest, done) ↦
                  let (h, same) = collect-AreHeld pool left bytes rest done in
                  let f =
                    same_collected
                      (record {
                        abrws = w ∷ rest.abrws;
                        ids = id ∷ rest.ids;
                        promoted =
                            follows lib fl hl bs rounds_lru inflight_lru ar encode w next
                            ++ rest.promoted;
                        waiting = rest.waiting;
                      })
                      c (rw (castable, collect, held, done) at e) in
                  (
                    ((id, w, castable, held), h),
                    ap (λ (x : C). x.abrws) (sym f) ∙ ap (λ ws. w ∷ ws) same,
                  )
            ]
    ]
  ]
