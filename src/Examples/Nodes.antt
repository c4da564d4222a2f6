-- ===== src/Examples/Nodes.antt =====
-- Tests of a node and of its rounds (node.go, rounds.go).
use tupelo.Prelude.{ℕ, some, none, [], ◌∷◌, List, ◌≡◌, refl, arith, true, false}
use tupelo.GoString.{Bytes, bytes_eq_inst, format_uint}
use tupelo.External.CidLib.{plain}
use tupelo.External.Float.{milli}
use tupelo.External.Lru.{unbounded}
use tupelo.External.Hamt.{map_hamt}
use tupelo.External.BlockStore.{list_store}
use tupelo.External.Archive.{Archive}
use tupelo.GoMap.{lookup, insert, delete}
use tupelo.Prelude.Eq.{nat_eq}
use tupelo.Checkpoint.{Checkpoint}
use tupelo.Request.{AddBlockWrapper}
use tupelo.Mempool.{
  new_mempool, add, get, bulk_delete, delete_id_and_conflict_set, to_conflict_set_id,
}
use tupelo.Mempool.Invariant.{new_mempool-IsValid}
use tupelo.GlobalState.{Current, absent, add_inflights, new_global_state}
use tupelo.GlobalState.Added.{IsFound}
use tupelo.Snowball.{Snowball}
use tupelo.Snowballer.{returns}
use tupelo.Rounds.{Round, RoundHolder, get_round, set_current, new_round}
use tupelo.Rounds.Holder.{set_current-get_round, get_round-again}
use tupelo.Node.{
  state_before, requests_of, Node, stored, handle_on, handle_add_block_request,
  handle_snowballer_done, get_current,
}
use tupelo.Node.Handling.{IsNext, Admits, handle_on-Admits}
use tupelo.Node.Soundness.{IsSound, handle_add_block_request-IsSound}
use tupelo.Node.Collecting.{AreHeld, AreLinked, requests, handle_snowballer_done-returns}
use tupelo.Node.Completion.{Completes, handle_snowballer_done-shows}
use tupelo.Examples.{transfer, other, agreed}

abbrev R : Type 0
R = Round plain milli map_hamt list_store

abbrev H : Type 0
H = RoundHolder plain milli map_hamt list_store (unbounded ℕ R)

abbrev N : Type 0
N = Node plain milli map_hamt list_store (unbounded ℕ R) (unbounded Bytes AddBlockWrapper)

-- A node without an archive, and one number for every checkpoint.
abbrev nothing_kept : Archive map_hamt
nothing_kept = record {
  read = λ k. none;
  read_round = λ c. none;
  read_checkpoint = λ c. none;
  read_hamt = λ c. none;
}

abbrev encode : Checkpoint → Bytes
encode c = 7 ∷ []

abbrev decided : Snowball ℕ
decided = record {
  alpha = 666;
  beta = 1;
  k = 3;
  count = 0;
  counts = [];
  total_count = 0;
  preferred = some (record { checkpoint = some agreed; tally_count = 1000; id = [] });
  last = none;
  decided = true;
}

abbrev round_at : ℕ → R
round_at h = record { snowball = decided; height = h; state = none; published = false }

abbrev holding : H
holding = record { current_round = some (round_at 0); round_cache = [] }

abbrev genesis : N
genesis = record {
  mempool = new_mempool;
  inflight = [];
  rounds = holding;
  store = [];
  snowballer = record { snowball = decided; height = 0; started = true };
}

set_current-get_round_example :
    (rh' : H) × (get_round plain milli map_hamt list_store
        (unbounded ℕ R)
        nothing_kept
        encode
        0
        (set_current plain milli map_hamt list_store (unbounded ℕ R) (round_at 1) holding)
      ≡ returns (some (round_at 0), rh'))
    × (rh'.current_round ≡ some (round_at 1))
set_current-get_round_example =
    set_current-get_round plain milli map_hamt list_store (unbounded ℕ R) nothing_kept encode
      (round_at 0) (round_at 1) holding refl (λ p. absurd (omega (arith, p)))

found_at_first :
    get_round plain milli map_hamt list_store (unbounded ℕ R) nothing_kept encode 0 holding
    ≡ returns (some (round_at 0), holding)
unfolding get_round
found_at_first = refl

get_round-again_example :
    (rh'' : H) × (get_round plain milli map_hamt list_store
        (unbounded ℕ R)
        nothing_kept
        encode
        0
        holding
      ≡ returns (some (round_at 0), rh''))
    × (rh''.current_round ≡ some (round_at 0))
get_round-again_example =
    get_round-again plain milli map_hamt list_store (unbounded ℕ R) nothing_kept nothing_kept encode
      0 (round_at 0) holding holding found_at_first

handle_on-Admits_example :
    Admits plain milli map_hamt list_store
      (unbounded ℕ R)
      (unbounded Bytes AddBlockWrapper)
      (IsNext absent transfer.add_block_request)
      transfer
      genesis
      (handle_on plain milli map_hamt list_store
        (unbounded ℕ R)
        (unbounded Bytes AddBlockWrapper)
        absent
        transfer
        genesis)
handle_on-Admits_example =
    handle_on-Admits plain milli map_hamt list_store (unbounded ℕ R)
      (unbounded Bytes AddBlockWrapper) absent transfer genesis (omega arith)

-- The node after the request was stored.
abbrev after_transfer : N
after_transfer = record genesis {
  mempool = add plain (record transfer { cid = 0 ∷ [] }) new_mempool;
  store = transfer.add_block_request ∷ [];
}

it_stores :
    handle_add_block_request plain milli map_hamt list_store
      (unbounded ℕ R)
      (unbounded Bytes AddBlockWrapper)
      nothing_kept
      encode
      transfer
      genesis
    ≡ returns (stored, after_transfer)
unfolding handle_add_block_request
it_stores = refl

genesis-IsSound : IsSound plain list_store new_mempool []
unfolding lookup
genesis-IsSound = record { valid = new_mempool-IsValid plain; backed = λ id w e. absurd (cc) }

handle_add_block_request-IsSound_example :
    IsSound plain list_store after_transfer.mempool after_transfer.store
handle_add_block_request-IsSound_example =
    handle_add_block_request-IsSound plain list_store milli map_hamt (unbounded ℕ R)
      (unbounded Bytes AddBlockWrapper) nothing_kept encode transfer genesis after_transfer stored
      (omega arith) genesis-IsSound it_stores

abbrev full : N
full = record genesis { mempool = add plain transfer (add plain other new_mempool) }

abbrev next_snowball : Snowball ℕ
next_snowball = record {
  alpha = 666;
  beta = 10;
  k = 3;
  count = 0;
  counts = [];
  total_count = 0;
  preferred = none;
  last = none;
  decided = false;
}

abbrev settled_round : R
settled_round = record (round_at 0) {
  state = some (record {
    hamt = some [];
    inflight =
        (transfer.add_block_request.object_id, transfer)
        ∷ (other.add_block_request.object_id, other)
        ∷ [];
  });
}

-- The node after the round: both requests have left the pool for the round's state.
abbrev ended : N
ended = record full {
  mempool = new_mempool;
  rounds = record {
    current_round =
        some (record { snowball = next_snowball; height = 1; state = none; published = false });
    round_cache = (0, settled_round) ∷ [];
  };
  snowballer = record { snowball = next_snowball; height = 1; started = false };
}

it_ends :
    handle_snowballer_done plain milli map_hamt list_store
      (unbounded ℕ R)
      (unbounded Bytes AddBlockWrapper)
      nothing_kept
      encode
      3
      false
      full
    ≡ returns (ended, [])
unfolding handle_snowballer_done lookup insert add get bulk_delete set_current new_round
    delete_id_and_conflict_set add_inflights to_conflict_set_id new_global_state format_uint delete
it_ends = refl

handle_snowballer_done-shows_example :
    (k : Completes plain milli map_hamt list_store
      (unbounded ℕ R)
      (unbounded Bytes AddBlockWrapper)
      nothing_kept
      encode
      (round_at 0)
      full)
    × ((object : Bytes)
        → (c : Current) × (m : N) × (get_current plain milli map_hamt list_store
              (unbounded ℕ R)
              (unbounded Bytes AddBlockWrapper)
              nothing_kept
              encode
              object
              ended
            ≡ returns (c, m))
          × IsFound map_hamt list_store full.store object
              (requests plain full.mempool k.bytes k.held)
              k.before
              c)
handle_snowballer_done-shows_example =
    handle_snowballer_done-shows plain milli map_hamt list_store (unbounded ℕ R)
      (unbounded Bytes AddBlockWrapper) nothing_kept encode 3 (round_at 0) full ended [] refl
      (omega arith) it_ends

full-AreHeld : AreHeld plain full.mempool ((1 ∷ []) ∷ (3 ∷ []) ∷ [])
unfolding add lookup insert get to_conflict_set_id
full-AreHeld = ((1 ∷ [], transfer, refl, refl), ((3 ∷ [], other, refl, refl), tt))

full_starts :
    state_before plain milli map_hamt list_store
      (unbounded ℕ R)
      (unbounded Bytes AddBlockWrapper)
      nothing_kept
      encode
      (round_at 0)
      full
    ≡ returns (new_global_state map_hamt list_store, full)
unfolding handle_snowballer_done
full_starts = refl

full_asks :
    requests_of plain milli map_hamt list_store
      (unbounded ℕ R)
      (unbounded Bytes AddBlockWrapper)
      nothing_kept
      encode
      (some (record { checkpoint = some agreed; tally_count = 1000; id = [] }))
    ≡ returns ((1 ∷ []) ∷ (3 ∷ []) ∷ [])
unfolding handle_snowballer_done
full_asks = refl

handle_snowballer_done-returns_example :
    (n' : N) × (promoted : List AddBlockWrapper) × (handle_snowballer_done plain milli map_hamt
        list_store
        (unbounded ℕ R)
        (unbounded Bytes AddBlockWrapper)
        nothing_kept
        encode
        3
        false
        full
      ≡ returns (n', promoted))
    × AreLinked plain (requests plain full.mempool ((1 ∷ []) ∷ (3 ∷ []) ∷ []) full-AreHeld) promoted
handle_snowballer_done-returns_example =
    handle_snowballer_done-returns plain milli map_hamt list_store (unbounded ℕ R)
      (unbounded Bytes AddBlockWrapper) nothing_kept encode 3 (round_at 0) full full
      (new_global_state map_hamt list_store) ((1 ∷ []) ∷ (3 ∷ []) ∷ []) full-AreHeld refl full_asks
      full_starts
