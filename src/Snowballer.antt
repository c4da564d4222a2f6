-- ===== src/Snowballer.antt =====
-- signer/gossip/snowballnetwork.go: the votes that a node collects for one tick. Streams, the cache
-- of decoded checkpoints and the choice of the peers are left out: their result is the list of
-- checkpoints that the peers answered.
pub mod Checks
pub mod Proposal
pub mod Screening
use tupelo.Prelude.{
  not, ℕ, zero, suc, Option, none, some, List, [], ◌∷◌, ◌++◌, Bool, true, false, if◌then◌else◌,
}
use tupelo.GoString.{Bytes, bytes_eq_inst}
use tupelo.GoMap.{GoMap, insert, contains}
use tupelo.External.CidLib.{CidLib, Cid}
use tupelo.External.Float.{Float64}
use tupelo.Checkpoint.{Checkpoint, CheckpointWrapper, wrap_checkpoint}
use tupelo.Vote.{Vote, nil_vote, zero_vote_id}
use tupelo.Vote.Tallies.{RangeOrder, calculate_tallies}
use tupelo.Snowball.{Snowball, prefer, tick}
use tupelo.Mempool.{preferred, Mempool, key_of, get, contains_all}

-- What a check of a checkpoint returns; a `panic` on bytes that are no identifier.
pub data Checked {ℓ} (A : Type ℓ) : Type ℓ where
  panics : Checked A
  returns : A → Checked A

infixl 5 ◌>>=◌
abbrev pub ◌>>=◌ {ℓ κ} : {A : Type ℓ} {B : Type κ} → Checked A → (A → Checked B) → Checked B
panics >>= f = panics
returns a >>= f = f a

-- len(abrs) == 0
abbrev is_empty : List Bytes → Bool
is_empty [] = true
is_empty (b ∷ bs) = false

module _ (lib : CidLib) where
  open lib use {cast}

  has_all_from : Mempool → Bool → List Cid → List Bytes → Checked (Bool × List Cid)
  has_all_from m all missing [] = returns (all, missing)
  has_all_from m all missing (b ∷ bs) = elim (cast b) [
    | none ↦ panics
    | some c ↦
        let known = contains_all (c ∷ []) m in
        has_all_from m (if known then all else false) (if known then missing else missing ++ c ∷ [])
          bs
  ]

  -- snowballer.mempoolHasAllABRs: its result, and the identifiers that it sends to the syncer.
  unfoldable pub mempool_has_all : Mempool → List Bytes → Checked (Bool × List Cid)
  unfolding has_all_from contains_all
  mempool_has_all m bs = has_all_from m true [] bs

  unfoldable pub conflicting_from : Mempool → GoMap Bytes (Unit {0}) → List Bytes → Checked Bool
  conflicting_from m seen [] = returns false
  conflicting_from m seen (b ∷ bs) = elim (cast b) [
    | none ↦ panics
    | some c ↦ elim (get c m) [
      | none ↦ returns true
      | some w ↦
          if contains (key_of w) seen
          then returns true
          else conflicting_from m (insert (key_of w) tt seen) bs
    ]
  ]

  -- snowballer.hasConflictingABRs
  unfoldable pub has_conflicting : Mempool → List Bytes → Checked Bool
  unfolding conflicting_from
  has_conflicting m bs = conflicting_from m [] bs

  module _ (fl : Float64) where
    open fl use {F, of_int}

    -- &Vote{Checkpoint: cp}
    abbrev pub vote_on : CheckpointWrapper → Vote F
    vote_on cp = record { checkpoint = some cp; tally_count = of_int 0; id = [] }

    -- doTick's test of a peer's checkpoint: the vote, and what is asked of the syncer on the way.
    -- The checks run in the order of the condition, and one that decides it ends it.
    unfoldable pub screen_vote : Mempool → CheckpointWrapper → Checked (Vote F × List Cid)
    screen_vote m cp =
        let abrs = cp.value.add_block_requests in
        let nothing : Vote F = nil_vote lib fl (vote_on cp) in
        if is_empty abrs then returns (nothing, []) else do
          (all, missing) ← mempool_has_all m abrs
          if not all then returns (nothing, missing) else do
            conflict ← has_conflicting m abrs
            returns (if conflict then nothing else vote_on cp, missing)

    unfoldable pub screen_votes :
        Mempool → List CheckpointWrapper → Checked (List (Vote F) × List Cid)
    unfolding screen_vote
    screen_votes m [] = returns ([], [])
    screen_votes m (cp ∷ cps) = do
      (v, missing) ← screen_vote m cp
      (vs, more) ← screen_votes m cps
      returns (v ∷ vs, missing ++ more)

    -- A vote for nothing, for each peer that did not answer.
    unfoldable pub pad_votes : ℕ → List (Vote F) → List (Vote F)
    pad_votes zero vs = vs
    pad_votes (suc k) [] =
        record { checkpoint = none; tally_count = of_int 0; id = zero_vote_id } ∷ pad_votes k []
    pad_votes (suc k) (v ∷ vs) = v ∷ pad_votes k vs

    pub record SnowballerState : Type 0 where
      pub snowball : Snowball F
      pub height : ℕ
      pub started : Bool

    -- snowballer.Start, up to the goroutine of `run`; `encode` is the identifier of a checkpoint.
    unfoldable pub start : (Checkpoint → Cid) → Mempool → SnowballerState → SnowballerState
    start encode m snb =
        let proposal : Checkpoint = record {
          height = snb.height;
          add_block_requests = preferred m;
        } in
        if snb.started
        then snb
        else if is_empty (preferred m)
        then record snb { started = true }
        else record snb {
          started = true;
          snowball = prefer lib fl (vote_on (wrap_checkpoint encode proposal)) snb.snowball;
        }

    module _ (sum_order array_order : RangeOrder (Vote F)) where
      abbrev or_panic : Option (List (Vote F)) → Checked (List (Vote F))
      or_panic none = panics
      or_panic (some vs) = returns vs

      -- snowballer.doTick, for the checkpoints that the asked peers answered.
      unfoldable pub do_tick :
          Mempool → List CheckpointWrapper → SnowballerState → Checked (SnowballerState × List Cid)
      unfolding screen_votes pad_votes
      do_tick m answers snb = do
        (votes, missing) ← screen_votes m answers
        tallied ←
            or_panic
              (calculate_tallies lib fl sum_order array_order (pad_votes snb.snowball.k votes))
        returns (record snb { snowball = tick lib fl tallied snb.snowball }, missing)
