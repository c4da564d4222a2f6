-- ===== src/Examples.antt =====
-- The data of the tests: three requests, two of which conflict, and two checkpoints.
pub mod Consensus
pub mod Pool
pub mod Rounds
pub mod Nodes
pub mod Tokens
pub mod Transactions
pub mod Confirmations
pub mod Owners
use tupelo.Prelude.{ℕ, some, none, [], ◌∷◌, ◌++◌, refl}
use tupelo.GoString.{Bytes, bytes}
use tupelo.Request.{AddBlockRequest, AddBlockWrapper}
use tupelo.Checkpoint.{CheckpointWrapper}
use tupelo.Vote.{Vote}
use tupelo.Vote.Tallies.{RangeOrder}

abbrev pub request_of : Bytes → Bytes → ℕ → AddBlockRequest
request_of object tip height = record {
  object_id = bytes "did:" ++ object;
  previous_tip = [];
  new_tip = tip;
  height = height;
  payload = [];
  state = [];
}

-- Two requests for one object and height, and one for another object.
abbrev pub transfer : AddBlockWrapper
transfer = record {
  add_block_request = request_of (bytes "a") (bytes "x") 0;
  new_nodes = [];
  cid = 1 ∷ [];
}

abbrev pub rival : AddBlockWrapper
rival = record {
  add_block_request = request_of (bytes "a") (bytes "y") 0;
  new_nodes = [];
  cid = 2 ∷ [];
}

abbrev pub other : AddBlockWrapper
other = record {
  add_block_request = request_of (bytes "b") (bytes "z") 0;
  new_nodes = [];
  cid = 3 ∷ [];
}

abbrev pub agreed : CheckpointWrapper
agreed = record {
  value = record { height = 1; add_block_requests = (1 ∷ []) ∷ (3 ∷ []) ∷ [] };
  wrapped = 7 ∷ [];
}

abbrev pub conflicting : CheckpointWrapper
conflicting = record {
  value = record { height = 1; add_block_requests = (1 ∷ []) ∷ (2 ∷ []) ∷ [] };
  wrapped = 8 ∷ [];
}

abbrev pub vote_of : CheckpointWrapper → ℕ → Vote ℕ
vote_of cp tally = record { checkpoint = some cp; tally_count = tally; id = [] }

abbrev pub no_vote : Vote ℕ
no_vote = record { checkpoint = none; tally_count = 0; id = bytes "n" }

-- `range` in the order in which the keys were set.
abbrev pub in_order : RangeOrder (Vote ℕ)
in_order = record {
  order = λ xs. xs;
  occurrences-order = λ p xs. refl;
  In-order = λ xs x. ((λ i. i), (λ i. i));
}
