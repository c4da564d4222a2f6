-- ===== src/Rounds.antt =====
-- signer/gossip/rounds.go: the rounds of a node: the current one, a cache of the earlier ones, and
-- behind it the archive of the completed ones. With FetchCheckpoint and FetchHamt of
-- sdk/gossip/types/rounds.go, on a wrapper that has fetched nothing yet, and roundKey of
-- signer/gossip/node.go. The lock and the spans are left out.
pub mod Holder
use tupelo.Prelude.{ℕ, Option, none, some, [], ◌++◌, Bool, false, eqb, if◌then◌else◌}
use tupelo.GoString.{Bytes, bytes, format_uint}
use tupelo.External.CidLib.{CidLib, Cid}
use tupelo.External.Float.{Float64}
use tupelo.External.Lru.{Lru}
use tupelo.External.Hamt.{Hamt}
use tupelo.External.BlockStore.{BlockStore}
use tupelo.External.Archive.{Archive, CompletedRound}
use tupelo.Checkpoint.{Checkpoint, CheckpointWrapper, wrap_checkpoint}
use tupelo.Snowball.{Snowball, new_snowball}
use tupelo.Snowballer.{Checked, panics, returns}
use tupelo.GlobalState.{GlobalState, new_global_state}

infixl 5 ◌>>=◌
abbrev ◌>>=◌ {ℓ κ} : {A : Type ℓ} {B : Type κ} → Option A → (A → Option B) → Option B
none >>= f = none
some a >>= f = f a

-- roundKey, and completedRoundsKeyRoot
unfoldable pub round_key : ℕ → Bytes
round_key height = bytes "/Snowball/CompletedRounds" ++ bytes "/" ++ format_uint height

abbrev default_beta : ℕ
default_beta = 10

abbrev pub default_k : ℕ
default_k = 100

module _ (lib : CidLib) (fl : Float64) (hl : Hamt) (bs : BlockStore) where
  open lib use {cast}
  open fl use {F, of_int, feq, two_thirds}

  -- `state` is nil until the round is completed.
  pub record Round : Type 0 where
    pub snowball : Snowball F
    pub height : ℕ
    pub state : Option (GlobalState hl bs)
    pub published : Bool

  -- newRound; 0 stands for the default.
  unfoldable pub new_round : ℕ → F → ℕ → ℕ → Round
  unfolding new_snowball
  new_round height alpha beta k = record {
    snowball =
        new_snowball lib fl (if feq alpha (of_int 0) then two_thirds else alpha)
          (if eqb beta 0 then default_beta else beta) (if eqb k 0 then default_k else k);
    height = height;
    state = none;
    published = false;
  }

  -- &Snowball{preferred: &Vote{Checkpoint: cp}}
  abbrev restored_snowball : CheckpointWrapper → Snowball F
  restored_snowball cp = record {
    alpha = of_int 0;
    beta = 0;
    k = 0;
    count = 0;
    counts = [];
    total_count = 0;
    preferred = some (record { checkpoint = some cp; tally_count = of_int 0; id = [] });
    last = none;
    decided = false;
  }

  module _ (ar : Archive hl) (encode : Checkpoint → Cid) where
    open ar use {read, read_round, read_checkpoint, read_hamt}

    -- RoundWrapper.FetchCheckpoint
    unfoldable pub fetch_checkpoint : CompletedRound → Option CheckpointWrapper
    unfolding wrap_checkpoint
    fetch_checkpoint r = do
      c ← cast r.checkpoint_cid
      checkpoint ← read_checkpoint c
      some (wrap_checkpoint encode checkpoint)

    -- RoundWrapper.FetchHamt
    unfoldable pub fetch_hamt : CompletedRound → Option hl.Node
    fetch_hamt r = do c ← cast r.state_cid; read_hamt c

    -- roundHolder.restoreRound
    unfoldable pub restore_round : ℕ → Option Round
    unfolding fetch_checkpoint fetch_hamt new_global_state
    restore_round height = do
      round_cid ← read (round_key height)
      c ← cast round_cid
      r ← read_round c
      cp ← fetch_checkpoint r
      n ← fetch_hamt r
      some (record {
        snowball = restored_snowball cp;
        height = r.height;
        state = some (record (new_global_state hl bs) { hamt = some n });
        published = false;
      })

  module _ (lru : Lru ℕ Round) where
    open lru use {Cache, empty, peek, get, add}

    pub record RoundHolder : Type 0 where
      pub current_round : Option Round
      pub round_cache : Cache

    -- newRoundHolder
    abbrev pub new_round_holder : RoundHolder
    new_round_holder = record { current_round = none; round_cache = empty }

    -- roundHolder.SetCurrent
    unfoldable pub set_current : Round → RoundHolder → RoundHolder
    set_current r rh = record {
      current_round = some r;
      round_cache = elim rh.current_round [
        | none ↦ rh.round_cache
        | some old ↦ add old.height old rh.round_cache
      ];
    }

    module _ (ar : Archive hl) (encode : Checkpoint → Cid) where
      -- The end of roundHolder.Get: a restored round is added to the cache.
      restored : ℕ → RoundHolder → Option Round → Option Round × RoundHolder
      restored height rh none = (none, rh)
      restored height rh (some r) =
          (some r, record rh { round_cache = add height r rh.round_cache })

      cached : ℕ → RoundHolder → Option Round → Option Round × RoundHolder
      unfolding restored restore_round
      cached height rh (some r) = (some r, record rh { round_cache = get height rh.round_cache })
      cached height rh none = restored height rh (restore_round ar encode height)

      get_with : ℕ → Option Round → RoundHolder → Checked (Option Round × RoundHolder)
      unfolding cached
      get_with height none rh = panics
      get_with height (some r) rh = returns (
          if eqb height r.height
          then (some r, rh)
          else cached height rh (peek height rh.round_cache))

      -- roundHolder.Get; it panics on a holder without a current round.
      unfoldable pub get_round : ℕ → RoundHolder → Checked (Option Round × RoundHolder)
      unfolding get_with
      get_round height rh = get_with height rh.current_round rh
