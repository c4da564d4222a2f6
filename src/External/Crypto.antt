-- ===== src/External/Crypto.antt =====
-- sdk/bls (a pairing library), go-ethereum's crypto and the parens interpreter, as far as
-- signatures use them. The code relies on no more than their types.
use tupelo.Prelude.{Option, List, Bool}
use tupelo.GoString.{Bytes}

pub record Crypto : Type 1 where
  pub VerKey : Type 0
  -- bls.VerKey.Bytes and bls.BytesToVerKey
  pub key_bytes : VerKey → Bytes
  pub bytes_to_key : Bytes → VerKey
  -- VerKey.Verify of a signature over a message, bls.SumSignatures and bls.SumVerKeys: none is an
  -- error.
  pub verify : VerKey → Bytes → Bytes → Option Bool
  pub sum_signatures : List Bytes → Option Bytes
  pub sum_keys : List VerKey → Option VerKey
  -- crypto.Keccak256 and the text of a Keccak256Hash
  pub keccak : Bytes → Bytes
  pub hash_text : Bytes → Bytes
  -- common.BytesToAddress
  pub bytes_to_address : Bytes → Bytes
  -- crypto.PubkeyToAddress of what UnmarshalPubkey gives: none is an error.
  pub key_address : Bytes → Option Bytes
  -- crypto.VerifySignature of a key, a hash and a signature without its last byte
  pub verify_ecdsa : Bytes → Bytes → Bytes → Bool
  -- parens.ExecuteStr of a script where `hashed-preimage` has this value: whether its result is
  -- `true`, and none on an error.
  pub execute : Bytes → Bytes → Option Bool
