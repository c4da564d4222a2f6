-- ===== src/GlobalState.antt =====
-- signer/gossip/state.go: the state of a completed round, which maps each object to its latest
-- request: a HAMT, and in front of it the requests that the background has still to move there.
-- The lock is left out: each method is one step.
pub mod View
pub mod Added
use tupelo.Prelude.{Option, none, some, List, [], ◌∷◌, if◌then◌else◌}
use tupelo.GoString.{Bytes, bytes_eq, bytes_eq_inst}
use tupelo.GoMap.{GoMap, lookup, insert, delete}
use tupelo.External.CidLib.{Cid, undef}
use tupelo.External.Hamt.{Hamt, HamtFind, found, not_found, failed}
use tupelo.External.BlockStore.{BlockStore}
use tupelo.Request.{AddBlockRequest, AddBlockWrapper}

-- What Find returns: (nil, nil), (nil, err), or a request.
pub data Current : Type 0 where
  absent : Current
  error : Current
  request : AddBlockRequest → Current

-- &services.AddBlockRequest{}
abbrev pub empty_request : AddBlockRequest
empty_request = record {
  object_id = [];
  previous_tip = [];
  new_tip = [];
  height = 0;
  payload = [];
  state = [];
}

module _ (hl : Hamt) (bs : BlockStore) where
  open hl use {Node, new_node, find, set, flush}
  open bs use {Store, fetch}

  pub record GlobalState : Type 0 where
    pub hamt : Option Node
    pub inflight : GoMap Bytes AddBlockWrapper

  -- newGlobalState. Copy copies both maps, which is no change to a value.
  unfoldable pub new_global_state : GlobalState
  new_global_state = record { hamt = some new_node; inflight = [] }

  -- globalState.addInflights
  unfoldable pub add_inflights : List AddBlockWrapper → GlobalState → GlobalState
  add_inflights [] gs = gs
  add_inflights (w ∷ ws) gs =
      add_inflights ws (record gs { inflight = insert w.add_block_request.object_id w gs.inflight })

  unfoldable pub fetch_current : Store → HamtFind → Current
  fetch_current st not_found = absent
  fetch_current st failed = error
  fetch_current st (found c) =
      if bytes_eq c undef
      then request empty_request
      else elim (fetch c st) [ none ↦ error | some abr ↦ request abr ]

  unfoldable pub find_in : Store → Bytes → Option Node → Option AddBlockWrapper → Current
  unfolding fetch_current
  find_in st k none o = absent
  find_in st k (some n) (some w) = request w.add_block_request
  find_in st k (some n) none = fetch_current st (find k n)

  -- globalState.Find
  unfoldable pub find_current : Store → Bytes → GlobalState → Current
  unfolding find_in
  find_current st k gs = find_in st k gs.hamt (lookup k gs.inflight)

  unfoldable pub put_back : Bytes → GlobalState → Option Node → Option GlobalState
  put_back k gs none = none
  put_back k gs (some n) = some (record { hamt = some n; inflight = delete k gs.inflight })

  set_in : Option Node → Bytes → Cid → Option Node
  set_in none k c = none
  set_in (some n) k c = set k c n

  -- One round of backgroundProcess: the request of object `k` moves to the HAMT.
  unfoldable pub settle : Bytes → AddBlockWrapper → GlobalState → Option GlobalState
  unfolding put_back set_in
  settle k w gs = put_back k gs (set_in gs.hamt k w.cid)

  unfoldable pub settle_all : GoMap Bytes AddBlockWrapper → GlobalState → Option GlobalState
  unfolding settle
  settle_all [] gs = some gs
  settle_all ((k, w) ∷ rest) gs = elim (settle k w gs) [
    | none ↦ none
    | some gs' ↦ settle_all rest gs'
  ]

  flushed : GlobalState → Option Node → Option GlobalState
  flushed gs none = none
  flushed gs (some n) = elim (flush n) [
    | none ↦ none
    | some n' ↦ some (record gs { hamt = some n' })
  ]

  -- globalState.backgroundProcess up to the publication of the round: the loop over a copy of the
  -- requests in flight, then the flush. None is an error of the HAMT.
  unfoldable pub background_process : GlobalState → Option GlobalState
  unfolding settle_all flushed
  background_process gs = elim (settle_all gs.inflight gs) [
    | none ↦ none
    | some gs' ↦ flushed gs' gs'.hamt
  ]
