-- ===== src/Vote.antt =====
-- signer/gossip/vote.go: a vote for a checkpoint, or for none.
pub mod Tallies
use tupelo.Prelude.{Option, none, some, [], ◌≡◌, if◌then◌else◌, arith}
use tupelo.GoString.{Bytes, bytes, bytes_eq}
use tupelo.External.CidLib.{CidLib}
use tupelo.External.Float.{Float64}
use tupelo.Checkpoint.{CheckpointWrapper, cid, checkpoint_length}

-- ZeroVoteID
abbrev pub zero_vote_id : Bytes
zero_vote_id = bytes "n"

pub record Vote (F : Type 0) : Type 0 where
  pub checkpoint : Option CheckpointWrapper
  pub tally_count : F
  pub id : Bytes

module _ (lib : CidLib) (fl : Float64) where
  open lib use {to_string}
  open fl use {F, of_int}

  id_or_cid : Option CheckpointWrapper → Bytes → Bytes
  id_or_cid none id = zero_vote_id
  id_or_cid (some c) id = if bytes_eq id [] then to_string (cid c) else id

  -- The result of Vote.ID.
  unfoldable pub vote_id : Vote F → Bytes
  unfolding id_or_cid
  vote_id v = id_or_cid v.checkpoint v.id

  keep_id : Option CheckpointWrapper → Vote F → Vote F
  keep_id none v = v
  keep_id (some c) v = if bytes_eq v.id [] then record v { id = to_string (cid c) } else v

  -- The vote after a call of Vote.ID, which keeps the identifier that it computed.
  unfoldable pub with_id : Vote F → Vote F
  unfolding keep_id
  with_id v = keep_id v.checkpoint v

  -- Vote.Nil
  unfoldable pub nil_vote : Vote F → Vote F
  nil_vote v = record v { tally_count = of_int 0; checkpoint = none; id = zero_vote_id }

  length_of : Option CheckpointWrapper → F
  length_of none = of_int 0
  length_of (some c) = of_int (checkpoint_length c)

  -- Vote.Length
  unfoldable pub vote_length : Vote F → F
  unfolding length_of
  vote_length v = length_of v.checkpoint

  -- Keeping the identifier changes no later result of Vote.ID, so the model need not track it.
  pub vote_id-with_id : (v : Vote F) → vote_id (with_id v) ≡ vote_id v
  unfolding vote_id with_id
  vote_id-with_id v = ground arith
