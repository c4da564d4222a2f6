-- ===== src/Request.antt =====
-- signer/gossip/tracing.go and the messages repository: add block requests and their wrappers. The
-- tracing context of a wrapper is left out.
use tupelo.Prelude.{ℕ, List}
use tupelo.GoString.{Bytes}
use tupelo.External.CidLib.{Cid}

-- services.AddBlockRequest, with the fields that the code reads.
pub record AddBlockRequest : Type 0 where
  pub object_id : Bytes
  pub previous_tip : Bytes
  pub new_tip : Bytes
  pub height : ℕ
  pub payload : Bytes
  pub state : List Bytes

-- AddBlockWrapper; a node of `NewNodes` is given by its encoding.
pub record AddBlockWrapper : Type 0 where
  pub add_block_request : AddBlockRequest
  pub new_nodes : List Bytes
  pub cid : Cid
