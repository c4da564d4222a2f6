-- ===== src/Node/Collecting.antt =====
-- The loop of handleSnowballerDone over the requests of the decided checkpoint (node.go).
use tupelo.Prelude.{
  ℕ, Option, none, some, List, [], ◌∷◌, ◌++◌, false, ◌≡◌, inl, inr, refl, ap, ◌∙◌, All, In,
  Bool-cases,
}
use tupelo.GoString.{Bytes, bytes_eq, bytes_eq_iff, bytes_eq_inst}
use tupelo.External.CidLib.{CidLib, Cid}
use tupelo.External.Float.{Float64}
use tupelo.External.Lru.{Lru}
use tupelo.External.Hamt.{Hamt}
use tupelo.External.Archive.{Archive}
use tupelo.External.BlockStore.{BlockStore}
use tupelo.Checkpoint.{Checkpoint}
use tupelo.Request.{AddBlockWrapper}
use tupelo.Mempool.{Mempool, get}
use tupelo.GlobalState.{GlobalState}
use tupelo.Snowballer.{returns}
use tupelo.Rounds.{Round}
use tupelo.Node.{
  Node, state_before, Collected, collect, next_of, taken, follows, requests_of, start_next, finish,
  handle_snowballer_done,
}

module _ (lib : CidLib) where
  open lib use {cast}

  -- The bytes are those of identifiers, under which the pool holds requests.
  abbrev pub AreHeld : Mempool → List Bytes → Type 0
  AreHeld pool [] = Unit
  AreHeld pool (b ∷ bs) =
      ((id : Cid) × (w : AddBlockWrapper) × (cast b ≡ some id) × (get id pool ≡ some w))
      × AreHeld pool bs

  -- Those requests, in the order of the checkpoint.
  abbrev pub requests : (pool : Mempool) (bs : List Bytes) → AreHeld pool bs → List AddBlockWrapper
  requests pool [] h = []
  requests pool (b ∷ bs) h = h.0.1 ∷ requests pool bs h.1

  -- Each of the requests continues the tip of one of the others.
  abbrev pub AreLinked : List AddBlockWrapper → List AddBlockWrapper → Type 0
  AreLinked ws vs =
      All
        (λ (v : AddBlockWrapper).
          (w : AddBlockWrapper) × In w ws
          × (v.add_block_request.previous_tip ≡ w.add_block_request.new_tip))
        vs

  AreLinked-more :
      (w : AddBlockWrapper) (ws vs : List AddBlockWrapper) → AreLinked ws vs → AreLinked (w ∷ ws) vs
  AreLinked-more w ws [] h = tt
  AreLinked-more w ws (v ∷ vs) h =
      let (x, i, e) = h.0 in ((x, inr i, e), AreLinked-more w ws vs h.1)

  module _ (fl : Float64) (hl : Hamt) (bs : BlockStore) (rounds_lru : Lru ℕ (Round lib fl hl bs))
      (inflight_lru : Lru Bytes AddBlockWrapper) (ar : Archive hl) (encode : Checkpoint → Cid) where
    abbrev M : Type 0
    M = Node lib fl hl bs rounds_lru inflight_lru

    abbrev C : Type 0
    C = Collected lib fl hl bs rounds_lru inflight_lru ar encode

    follows-AreLinked :
        (w : AddBlockWrapper) (ws vs : List AddBlockWrapper) (o : Option AddBlockWrapper)
        → AreLinked (w ∷ ws) vs
        → AreLinked (w ∷ ws) (follows lib fl hl bs rounds_lru inflight_lru ar encode w o ++ vs)
    unfolding follows
    follows-AreLinked w ws vs none h = h
    follows-AreLinked w ws vs (some next) h =
        elim (Bool-cases
          (bytes_eq next.add_block_request.previous_tip w.add_block_request.new_tip)) [
            | inl linked ↦ rw linked ((w, inl refl, (bytes_eq_iff _ _).0 linked), h)
            | inr apart ↦ rw apart h
          ]

    -- What the loop returns.
    record Collects (pool : Mempool) (waiting : inflight_lru.Cache) (ids : List Bytes)
        (ws : List AddBlockWrapper) : Type 0 where
      collected : C
      answer :
          collect lib fl hl bs rounds_lru inflight_lru ar encode pool waiting ids
          ≡ returns collected
      all : collected.abrws ≡ ws
      linked : AreLinked ws collected.promoted

    collect-Collects :
        (pool : Mempool) (waiting : inflight_lru.Cache) (ids : List Bytes) (h : AreHeld pool ids)
        → Collects pool waiting ids (requests pool ids h)
    unfolding collect
    collect-Collects pool waiting [] h = record {
      collected = _;
      answer = refl;
      all = refl;
      linked = tt;
    }
    collect-Collects pool waiting (b ∷ ids) h =
        let (id, w, c, g) = h.0 in
        let next = next_of lib fl hl bs rounds_lru inflight_lru ar encode w waiting in
        let rest : Collects pool
            (taken lib fl hl bs rounds_lru inflight_lru ar encode w waiting next) ids
            (requests pool ids h.1) =
          collect-Collects pool
            (taken lib fl hl bs rounds_lru inflight_lru ar encode w waiting next) ids h.1 in
        record {
          collected = record {
            abrws = w ∷ rest.collected.abrws;
            ids = id ∷ rest.collected.ids;
            promoted =
                follows lib fl hl bs rounds_lru inflight_lru ar encode w next
                ++ rest.collected.promoted;
            waiting = rest.collected.waiting;
          };
          answer = rw (c, collect, g, rest.answer) refl;
          all = ap (λ ws. w ∷ ws) rest.all;
          linked =
              follows-AreLinked w (requests pool ids h.1) rest.collected.promoted next
                (AreLinked-more w (requests pool ids h.1) rest.collected.promoted rest.linked);
        }

    -- Where the decided checkpoint's requests are all in the pool, and the state that the round
    -- starts from is there, handleSnowballerDone does not panic, and the requests that it stores
    -- next all continue the tip of a request of the checkpoint.
    pub handle_snowballer_done-returns :
        (others : ℕ) (r : Round lib fl hl bs) (n m : M) (gs : GlobalState hl bs) (ids : List Bytes)
        (h : AreHeld m.mempool ids)
        → n.rounds.current_round ≡ some r
        → requests_of lib fl hl bs rounds_lru inflight_lru ar encode n.snowballer.snowball.preferred
          ≡ returns ids
        → state_before lib fl hl bs rounds_lru inflight_lru ar encode r n ≡ returns (gs, m)
        → (n' : M) × (promoted : List AddBlockWrapper) × (handle_snowballer_done lib fl hl bs
              rounds_lru inflight_lru ar encode others false n
            ≡ returns (n', promoted))
          × AreLinked (requests m.mempool ids h) promoted
    unfolding handle_snowballer_done finish
    handle_snowballer_done-returns others r n m gs ids h e asked starts =
        let c : Collects m.mempool m.inflight ids (requests m.mempool ids h) =
          collect-Collects m.mempool m.inflight ids h in
        (
          start_next lib fl hl bs rounds_lru inflight_lru ar encode others r gs c.collected m,
          c.collected.promoted,
          ap (λ o. finish lib fl hl bs rounds_lru inflight_lru ar encode others n o) e
              ∙ rw (finish, asked, starts, c.answer) refl,
          c.linked,
        )
