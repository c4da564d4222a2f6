-- ===== src/External/Archive.antt =====
-- What a node reads of the rounds that it completed: its data store, and in the DAG store the
-- rounds, checkpoints and HAMT nodes by their identifiers.
use tupelo.Prelude.{ℕ, Option}
use tupelo.GoString.{Bytes}
use tupelo.External.CidLib.{Cid}
use tupelo.External.Hamt.{Hamt}
use tupelo.Checkpoint.{Checkpoint}

-- gossip.Round of the messages repository.
pub record CompletedRound : Type 0 where
  pub height : ℕ
  pub state_cid : Bytes
  pub checkpoint_cid : Bytes

pub record Archive (hl : Hamt) : Type 0 where
  -- datastore.Batching.Get of datastore.NewKey of a string: none is an error, ErrNotFound among
  -- them.
  pub read : Bytes → Option Bytes
  -- DagStore.Get and cbornode.DecodeInto
  pub read_round : Cid → Option CompletedRound
  pub read_checkpoint : Cid → Option Checkpoint
  -- hamt.LoadNode
  pub read_hamt : Cid → Option hl.Node
