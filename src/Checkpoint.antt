-- ===== src/Checkpoint.antt =====
-- sdk/gossip/types/checkpoint.go: the proposal of a round, with the identifier of its encoding.
use tupelo.Prelude.{ℕ, List, length}
use tupelo.GoString.{Bytes}
use tupelo.External.CidLib.{Cid}

-- gossip.Checkpoint of the messages repository, with the fields that the code reads.
pub record Checkpoint : Type 0 where
  pub height : ℕ
  pub add_block_requests : List Bytes

-- `wrapped` stands for the CBOR node; the code reads its identifier alone.
pub record CheckpointWrapper : Type 0 where
  pub value : Checkpoint
  pub wrapped : Cid

-- WrapCheckpoint; `encode` is the identifier of the CBOR encoding (safewrap).
unfoldable pub wrap_checkpoint : (Checkpoint → Cid) → Checkpoint → CheckpointWrapper
wrap_checkpoint encode c = record { value = c; wrapped = encode c }

-- CheckpointWrapper.CID
abbrev pub cid : CheckpointWrapper → Cid
cid c = c.wrapped

-- CheckpointWrapper.Length
abbrev pub checkpoint_length : CheckpointWrapper → ℕ
checkpoint_length c = length c.value.add_block_requests
