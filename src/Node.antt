-- ===== src/Node.antt =====
-- signer/gossip/node.go: what a node does with a request, and at the end of a round. The actors,
-- spans and logs are left out: each message is one step. A goroutine that a step starts is a step
-- of its own, at any later time.
pub mod Handling
pub mod Soundness
pub mod Collecting
pub mod Decided
pub mod Completion
use tupelo.Prelude.{
  ℕ, ◌+◌, ◌-◌, ◌%◌, ◌^◌, Option, none, some, List, [], ◌∷◌, ◌++◌, Bool, false, ltb, eqb,
  if◌then◌else◌,
}
use tupelo.GoString.{Bytes, bytes_eq, format_uint}
use tupelo.External.CidLib.{CidLib, Cid}
use tupelo.External.Float.{Float64}
use tupelo.External.Lru.{Lru}
use tupelo.External.Hamt.{Hamt}
use tupelo.External.BlockStore.{BlockStore}
use tupelo.External.Archive.{Archive}
use tupelo.Checkpoint.{Checkpoint}
use tupelo.Vote.{Vote}
use tupelo.Request.{AddBlockWrapper}
use tupelo.Mempool.{Mempool, add, get, bulk_delete}
use tupelo.Snowballer.{◌>>=◌, Checked, panics, returns, SnowballerState}
use tupelo.GlobalState.{
  Current, absent, error, request, GlobalState, new_global_state, find_current, add_inflights,
}
use tupelo.Rounds.{Round, RoundHolder, new_round, get_round, set_current, default_k}

-- How handleAddBlockRequest ends, in the order of its returns.
pub data Handled : Type 0 where
  failed : Handled
  stored : Handled
  unsaved : Handled
  queued : Handled
  older : Handled
  tips_differ : Handled
  byzantine : Handled
  ignored : Handled

-- inFlightID
unfoldable pub in_flight_id : Bytes → ℕ → Bytes
in_flight_id object height = object ++ format_uint height

abbrev min : ℕ → ℕ → ℕ
min x y = if ltb x y then x else y

-- height+1 on a uint64
abbrev pub next_height : ℕ → ℕ
next_height h = (h + 1) % 2 ^ 64

module _ (lib : CidLib) (fl : Float64) (hl : Hamt) (bs : BlockStore)
    (rounds_lru : Lru ℕ (Round lib fl hl bs)) (inflight_lru : Lru Bytes AddBlockWrapper) where
  open lib use {cast}
  open fl use {F, of_int}

  pub record Node : Type 0 where
    pub mempool : Mempool
    pub inflight : inflight_lru.Cache
    pub rounds : RoundHolder lib fl hl bs rounds_lru
    pub store : bs.Store
    pub snowballer : SnowballerState lib fl

  -- Node.storeAsInFlight
  unfoldable pub store_as_in_flight : AddBlockWrapper → Node → Node
  unfolding in_flight_id
  store_as_in_flight w n = record n {
    inflight =
        inflight_lru.add (in_flight_id w.add_block_request.object_id w.add_block_request.height) w
          n.inflight;
  }

  put_in_pool : AddBlockWrapper → Node → Option (Cid × bs.Store) → Option Node
  put_in_pool w n none = none
  put_in_pool w n (some (id, st)) =
      some (record n { store = st; mempool = add lib (record w { cid = id }) n.mempool })

  -- Node.storeAbr; none is an error of the store.
  unfoldable pub store_abr : AddBlockWrapper → Node → Option Node
  unfolding put_in_pool
  store_abr w n = put_in_pool w n (bs.put w.add_block_request n.store)

  saved : Node → Option Node → Handled × Node
  saved n none = (unsaved, n)
  saved n (some n') = (stored, n')

  -- handleAddBlockRequest, from the result of getCurrent on.
  unfoldable pub handle_on : Current → AddBlockWrapper → Node → Handled × Node
  unfolding saved store_abr store_as_in_flight
  handle_on error w n = (failed, n)
  handle_on absent w n =
      if eqb w.add_block_request.height 0
      then saved n (store_abr w n)
      else (queued, store_as_in_flight w n)
  handle_on (request current) w n =
      let abr = w.add_block_request in
      if ltb abr.height current.height
      then (older, n)
      else if eqb (next_height current.height) abr.height
      then (if bytes_eq current.new_tip abr.previous_tip
          then saved n (store_abr w n)
          else (tips_differ, n))
      else if ltb (next_height current.height) abr.height
      then (queued, store_as_in_flight w n)
      else if eqb abr.height current.height
      then (byzantine, n)
      else (ignored, n)

  module _ (ar : Archive hl) (encode : Checkpoint → Cid) where
    shown : Bytes → Node → Option (GlobalState hl bs) → Checked (Current × Node)
    shown object n none = panics
    shown object n (some gs) = returns (find_current hl bs n.store object gs, n)

    locked : Bytes → Node → Option (Round lib fl hl bs) → Checked (Current × Node)
    unfolding shown
    locked object n none = returns (error, n)
    locked object n (some r) = shown object n r.state

    current_of : Bytes → Node → Option (Round lib fl hl bs) → Checked (Current × Node)
    unfolding locked
    current_of object n none = panics
    current_of object n (some r) = if eqb r.height 0 then returns (absent, n) else do
      (found, rh) ← get_round lib fl hl bs rounds_lru ar encode (r.height - 1) n.rounds
      locked object (record n { rounds = rh }) found

    -- Node.getCurrent; it panics on a round without a state.
    unfoldable pub get_current : Bytes → Node → Checked (Current × Node)
    unfolding current_of
    get_current object n = current_of object n n.rounds.current_round

    -- Node.handleAddBlockRequest
    unfoldable pub handle_add_block_request : AddBlockWrapper → Node → Checked (Handled × Node)
    unfolding handle_on get_current
    handle_add_block_request w n = do
      (current, n') ← get_current w.add_block_request.object_id n
      returns (handle_on current w n')

    -- previousRound.state.Copy()
    copied :
        RoundHolder lib fl hl bs rounds_lru
        → Node
        → GlobalState hl bs
        → Option hl.Node
        → Checked (GlobalState hl bs × Node)
    copied rh n gs none = panics
    copied rh n gs (some root) = returns (gs, record n { rounds = rh })

    -- The state that a completed round starts from: a new one, or a copy of the previous round's,
    -- which panics where there is no such round, or no state, or no HAMT.
    pub state_before : Round lib fl hl bs → Node → Checked (GlobalState hl bs × Node)
    unfolding copied
    state_before r n = if eqb r.height 0 then returns (new_global_state hl bs, n) else do
      (found, rh) ← get_round lib fl hl bs rounds_lru ar encode (r.height - 1) n.rounds
      elim found [
        | none ↦ panics
        | some p ↦ elim p.state [ none ↦ panics | some gs ↦ copied rh n gs gs.hamt ]
      ]

    -- What the loop of handleSnowballerDone collects: the requests, their identifiers, and those
    -- that wait for them and are stored next (in goroutines).
    pub record Collected : Type 0 where
      pub abrws : List AddBlockWrapper
      pub ids : List Cid
      pub promoted : List AddBlockWrapper
      pub waiting : inflight_lru.Cache

    -- The request in flight that follows `w`.
    next_of : AddBlockWrapper → inflight_lru.Cache → Option AddBlockWrapper
    unfolding in_flight_id
    next_of w waiting =
        inflight_lru.peek
          (in_flight_id w.add_block_request.object_id (next_height w.add_block_request.height))
          waiting

    taken : AddBlockWrapper → inflight_lru.Cache → Option AddBlockWrapper → inflight_lru.Cache
    unfolding in_flight_id
    taken w waiting none = waiting
    taken w waiting (some next) =
        inflight_lru.remove
          (in_flight_id w.add_block_request.object_id (next_height w.add_block_request.height))
          waiting

    follows : AddBlockWrapper → Option AddBlockWrapper → List AddBlockWrapper
    follows w none = []
    follows w (some next) =
        if bytes_eq next.add_block_request.previous_tip w.add_block_request.new_tip
        then next ∷ []
        else []

    -- The loop over the requests of the decided checkpoint. It panics on bytes that are no
    -- identifier, and on a request that the pool does not hold.
    unfoldable pub collect : Mempool → inflight_lru.Cache → List Bytes → Checked Collected
    unfolding next_of taken follows
    collect pool waiting [] =
        returns (record { abrws = []; ids = []; promoted = []; waiting = waiting })
    collect pool waiting (b ∷ bytes) = elim (cast b) [
      | none ↦ panics
      | some id ↦ elim (get id pool) [
        | none ↦ panics
        | some w ↦ do
          let next = next_of w waiting
          rest ← collect pool (taken w waiting next) bytes
          returns (record {
            abrws = w ∷ rest.abrws;
            ids = id ∷ rest.ids;
            promoted = follows w next ++ rest.promoted;
            waiting = rest.waiting;
          })
      ]
    ]

    -- The end of handleSnowballerDone: the round `r`, whose Snowball is the snowballer's, gets its
    -- state, and a new round starts. `others` is notaryGroup.Size()-1: the node is in the group.
    unfoldable pub start_next : ℕ → Round lib fl hl bs → GlobalState hl bs → Collected → Node → Node
    start_next others r gs c n =
        let next =
          new_round lib fl hl bs (next_height r.height) (of_int 0) 0 (min default_k others) in
        let completed = record r {
          snowball = n.snowballer.snowball;
          state = some (add_inflights hl bs c.abrws gs);
        } in
        record n {
          mempool = bulk_delete c.ids n.mempool;
          inflight = c.waiting;
          rounds =
              set_current lib fl hl bs rounds_lru next
                (record n.rounds { current_round = some completed });
          snowballer = record { snowball = next.snowball; height = next.height; started = false };
        }

    pub requests_of : Option (Vote F) → Checked (List Bytes)
    requests_of none = panics
    requests_of (some v) = elim v.checkpoint [
      | none ↦ panics
      | some cp ↦ returns cp.value.add_block_requests
    ]

    finish : ℕ → Node → Option (Round lib fl hl bs) → Checked (Node × List AddBlockWrapper)
    unfolding state_before collect start_next requests_of
    finish others n none = panics
    finish others n (some r) = do
      bytes ← requests_of n.snowballer.snowball.preferred
      (gs, n') ← state_before r n
      c ← collect n'.mempool n'.inflight bytes
      returns (start_next others r gs c n', c.promoted)

    -- Node.handleSnowballerDone: the node, and the requests to store next. The state's background
    -- work is a step of its own. `crashed` is that of the message.
    unfoldable pub handle_snowballer_done : ℕ → Bool → Node → Checked (Node × List AddBlockWrapper)
    unfolding finish
    handle_snowballer_done others crashed n =
        let done = finish others n n.rounds.current_round in
        if crashed then returns (n, []) else done
