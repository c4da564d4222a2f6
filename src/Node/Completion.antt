-- ===== src/Node/Completion.antt =====
-- The end of a round (node.go, handleSnowballerDone), and what getCurrent shows after it.
use tupelo.Prelude.{
  ℕ, ◌+◌, ◌-◌, ◌^◌, ◌<◌, some, List, false, ◌≡◌, inl, inr, refl, sym, ap, ◌∙◌, subst, eqb,
  eqb_of_ne, arith,
}
use tupelo.GoString.{Bytes, bytes_eq_inst}
use tupelo.External.CidLib.{CidLib, Cid}
use tupelo.External.Float.{Float64}
use tupelo.External.Lru.{Lru}
use tupelo.External.Hamt.{Hamt}
use tupelo.External.Archive.{Archive}
use tupelo.External.BlockStore.{BlockStore}
use tupelo.Checkpoint.{Checkpoint}
use tupelo.Request.{AddBlockWrapper}
use tupelo.GlobalState.{Current, GlobalState, find_current, add_inflights}
use tupelo.GlobalState.Added.{IsFound, add_inflights-find}
use tupelo.Snowballer.{Checked, returns}
use tupelo.Rounds.{Round, RoundHolder, new_round, get_round, set_current, default_k}
use tupelo.Rounds.Holder.{set_current-get_round}
use tupelo.Node.{
  Node, next_height, min, shown, locked, current_of, get_current, state_before, Collected, collect,
  start_next, requests_of, finish, handle_snowballer_done,
}
use tupelo.Node.Collecting.{AreHeld, requests}
use tupelo.Node.Decided.{
  Decides, requests_of-Decides, StartsFrom, state_before-Begins, collect-AreHeld,
}
use tupelo.Node.Soundness.{Checked-cases}

module _ (lib : CidLib) (fl : Float64) (hl : Hamt) (bs : BlockStore)
    (rounds_lru : Lru ℕ (Round lib fl hl bs)) (inflight_lru : Lru Bytes AddBlockWrapper)
    (ar : Archive hl) (encode : Checkpoint → Cid) where
  abbrev M : Type 0
  M = Node lib fl hl bs rounds_lru inflight_lru

  abbrev C : Type 0
  C = Collected lib fl hl bs rounds_lru inflight_lru ar encode

  -- The round `r` as its successor finds it.
  abbrev completed : Round lib fl hl bs → GlobalState hl bs → C → M → Round lib fl hl bs
  completed r gs c n = record r {
    snowball = n.snowballer.snowball;
    state = some (add_inflights hl bs c.abrws gs);
  }

  current_of-later :
      (object : Bytes) (n : M) (r p : Round lib fl hl bs) (gs : GlobalState hl bs)
      (rh : RoundHolder lib fl hl bs rounds_lru)
      → eqb r.height 0 ≡ false
      → get_round lib fl hl bs rounds_lru ar encode (r.height - 1) n.rounds ≡ returns (some p, rh)
      → p.state ≡ some gs
      → current_of lib fl hl bs rounds_lru inflight_lru ar encode object n (some r)
        ≡ returns (find_current hl bs n.store object gs, record n { rounds = rh })
  unfolding current_of locked shown
  current_of-later object n r p gs rh later got e =
      rw (later, got)
        (ap
          (λ o.
            shown lib fl hl bs rounds_lru inflight_lru ar encode object (record n { rounds = rh })
              o)
          e)

  -- The state that the next round starts from is the completed one's.
  start_next-shows :
      (others : ℕ) (r : Round lib fl hl bs) (gs : GlobalState hl bs) (c : C) (n : M)
      (object : Bytes)
      → r.height + 1 < 2 ^ 64
      → (m : M) × (get_current lib fl hl bs rounds_lru inflight_lru ar encode object
            (start_next lib fl hl bs rounds_lru inflight_lru ar encode others r gs c n)
          ≡ returns (find_current hl bs n.store object (add_inflights hl bs c.abrws gs), m))
  unfolding get_current start_next new_round set_current
  start_next-shows others r gs c n object u =
      let h : next_height r.height ≡ r.height + 1 = omega arith in
      let next =
        new_round lib fl hl bs (next_height r.height) (fl.of_int 0) 0 (min default_k others) in
      let after = start_next lib fl hl bs rounds_lru inflight_lru ar encode others r gs c n in
      let (rh, found, _) =
        set_current-get_round lib fl hl bs rounds_lru ar encode (completed r gs c n) next
          (record n.rounds { current_round = some (completed r gs c n) }) refl (omega (arith, h)) in
      let back : next_height r.height - 1 ≡ r.height = omega (arith, h) in
      (
        record after { rounds = rh },
        current_of-later object after next (completed r gs c n) (add_inflights hl bs c.abrws gs) rh
            (eqb_of_ne _ _ (omega (arith, h)))
            (subst
              (λ k.
                get_round lib fl hl bs rounds_lru ar encode k after.rounds
                ≡ returns (some (completed r gs c n), rh))
              (sym back) found)
            refl,
      )

  -- The steps of handleSnowballerDone.
  record Passes (others : ℕ) (r : Round lib fl hl bs) (n n' : M) : Type 0 where
    bytes : List Bytes
    asked :
        requests_of lib fl hl bs rounds_lru inflight_lru ar encode n.snowballer.snowball.preferred
        ≡ returns bytes
    before : GlobalState hl bs
    middle : M
    starts :
        state_before lib fl hl bs rounds_lru inflight_lru ar encode r n ≡ returns (before, middle)
    collected : C
    collects :
        collect lib fl hl bs rounds_lru inflight_lru ar encode middle.mempool middle.inflight bytes
        ≡ returns collected
    ends :
        n'
        ≡ start_next lib fl hl bs rounds_lru inflight_lru ar encode others r before collected middle

  same_first {ℓ κ} :
      {A : Type ℓ} {B : Type κ} (a a' : A) (b b' : B)
      → ◌≡◌ {A = Checked (A × B)} (returns (a, b)) (returns (a', b'))
      → a ≡ a'
  same_first a a' b b' e = cc

  finish-Passes :
      (others : ℕ) (r : Round lib fl hl bs) (n n' : M) (promoted : List AddBlockWrapper)
      → finish lib fl hl bs rounds_lru inflight_lru ar encode others n (some r)
        ≡ returns (n', promoted)
      → Passes others r n n'
  unfolding finish
  finish-Passes others r n n' promoted e =
      elim (Checked-cases (
        requests_of lib fl hl bs rounds_lru inflight_lru ar encode
          n.snowballer.snowball.preferred)) [
            | inl none_there ↦ absurd (cc (rw none_there at e))
            | inr (bytes, asked) ↦
                elim (Checked-cases
                  (state_before lib fl hl bs rounds_lru inflight_lru ar encode r n)) [
                    | inl broken ↦ absurd (cc (rw (asked, broken) at e))
                    | inr ((gs, m), starts) ↦
                        elim (Checked-cases (
                          collect lib fl hl bs rounds_lru inflight_lru ar encode m.mempool
                            m.inflight bytes)) [
                              | inl unknown ↦ absurd (cc (rw (asked, starts, unknown) at e))
                              | inr (c, collects) ↦ record {
                                bytes = bytes;
                                asked = asked;
                                before = gs;
                                middle = m;
                                starts = starts;
                                collected = c;
                                collects = collects;
                                ends = sym (
                                    same_first
                                      (start_next lib fl hl bs rounds_lru inflight_lru ar encode
                                        others r gs c m)
                                      n' c.promoted promoted (rw (asked, starts, collects) at e));
                              }
                            ]
                  ]
          ]

  -- What the round `r` of the node `n` decides: the bytes of the decided checkpoint's requests,
  -- which the pool holds, and the state that the round starts from.
  pub record Completes (r : Round lib fl hl bs) (n : M) : Type 0 where
    pub bytes : List Bytes
    pub decides : Decides lib fl hl bs rounds_lru inflight_lru ar encode n bytes
    pub held : AreHeld lib n.mempool bytes
    pub before : GlobalState hl bs
    pub starts : StartsFrom lib fl hl bs rounds_lru inflight_lru ar encode r n before

  Passes-Completes :
      (others : ℕ) (r : Round lib fl hl bs) (n n' : M)
      → r.height + 1 < 2 ^ 64
      → Passes others r n n'
      → (k : Completes r n) × ((object : Bytes)
          → (c : Current) × (m : M) × (get_current lib fl hl bs rounds_lru inflight_lru ar encode
                object n'
              ≡ returns (c, m))
            × IsFound hl bs n.store object (requests lib n.mempool k.bytes k.held) k.before c)
  Passes-Completes others r n n' u p =
      let b =
        state_before-Begins lib fl hl bs rounds_lru inflight_lru ar encode r n p.middle p.before
          p.starts in
      let (h, same) =
        collect-AreHeld lib fl hl bs rounds_lru inflight_lru ar encode n.mempool p.middle.inflight
          p.bytes p.collected
          (ap
              (λ pool.
                collect lib fl hl bs rounds_lru inflight_lru ar encode pool p.middle.inflight
                  p.bytes)
              (sym b.same_pool)
            ∙ p.collects) in
      let shown = λ (object : Bytes).
        find_current hl bs p.middle.store object (add_inflights hl bs p.collected.abrws p.before) in
      (
        record {
          bytes = p.bytes;
          decides =
              requests_of-Decides lib fl hl bs rounds_lru inflight_lru ar encode n p.bytes p.asked;
          held = h;
          before = p.before;
          starts = b.starts;
        },
        λ object.
            let (m, e) = start_next-shows others r p.before p.collected p.middle object u in
            (
              shown object,
              m,
              ap (get_current lib fl hl bs rounds_lru inflight_lru ar encode object) p.ends ∙ e,
              subst
                  (λ st.
                    IsFound hl bs st object (requests lib n.mempool p.bytes h) p.before
                      (shown object))
                  b.same_store
                  (subst (λ ws. IsFound hl bs p.middle.store object ws p.before (shown object)) same
                    (add_inflights-find hl bs p.middle.store object p.collected.abrws p.before
                      b.root b.has_root)),
            ),
      )

  -- A round `r` below the last height ends, where the handler returns: then the preferred vote has
  -- a checkpoint, the pool holds each of its requests, and getCurrent returns, for each object, the
  -- last of those requests that is for the object, and for an object without one what Find returned
  -- in the state that the round started from. That state is empty for the round zero, and for a
  -- later round it is the state of the round one height below.
  pub handle_snowballer_done-shows :
      (others : ℕ) (r : Round lib fl hl bs) (n n' : M) (promoted : List AddBlockWrapper)
      → n.rounds.current_round ≡ some r
      → r.height + 1 < 2 ^ 64
      → handle_snowballer_done lib fl hl bs rounds_lru inflight_lru ar encode others false n
        ≡ returns (n', promoted)
      → (k : Completes r n) × ((object : Bytes)
          → (c : Current) × (m : M) × (get_current lib fl hl bs rounds_lru inflight_lru ar encode
                object n'
              ≡ returns (c, m))
            × IsFound hl bs n.store object (requests lib n.mempool k.bytes k.held) k.before c)
  unfolding handle_snowballer_done
  handle_snowballer_done-shows others r n n' promoted e u h = Passes-Completes others r n n' u (
      finish-Passes others r n n' promoted
        (ap (λ o. finish lib fl hl bs rounds_lru inflight_lru ar encode others n o) (sym e) ∙ h))
