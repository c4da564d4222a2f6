-- ===== src/Signatures.antt =====
-- sdk/signatures/signature.go: signatures of one key and of the group. A signature that the code
-- changes in place is returned; spans and the texts of errors are left out.
pub mod Counts
use tupelo.Prelude.{
  ℕ, zero, suc, ◌+◌, ◌-◌, Option, List, [], ◌∷◌, ◌++◌, Bool, true, false, ◌||◌, if◌then◌else◌,
  length, ltb, eqb, not,
}
use tupelo.GoString.{Bytes}
use tupelo.External.Crypto.{Crypto}
use tupelo.Outcome.{Outcome, panics, fails, returns, ◌>>=◌, or_fail}

-- signatures.PublicKey_Type of the messages repository; `other_key` is any other value.
pub data KeyType : Type 0 where
  secp256k1 : KeyType
  bls_group_sig : KeyType
  other_key : ℕ → KeyType

pub record PublicKey : Type 0 where
  pub key_type : KeyType
  pub public_key : Bytes

pub record Ownership : Type 0 where
  pub key : PublicKey
  pub conditions : Bytes

pub record Signature : Type 0 where
  pub ownership : Ownership
  pub signers : List ℕ
  pub signature : Bytes
  pub pre_image : Bytes

pub data SignatureError : Type 0 where
  bad_key : SignatureError
  unknown_key_type : SignatureError
  no_key : SignatureError
  lengths_differ : SignatureError
  sum_failed : SignatureError
  bad_conditions : SignatureError
  not_verified : SignatureError
  wrong_type : SignatureError
  would_overflow : SignatureError
  bad_index : SignatureError

abbrev pub Signed : Type 0 → Type 0
Signed A = Outcome SignatureError A

abbrev is_empty : Bytes → Bool
is_empty [] = true
is_empty (b ∷ bs) = false

-- SignerCount
unfoldable pub signer_count : List ℕ → ℕ
signer_count [] = 0
signer_count (cnt ∷ cnts) = if ltb 0 cnt then suc (signer_count cnts) else signer_count cnts

-- `s[:len(s)-1]`, which panics on no bytes
unfoldable pub without_last : Bytes → Signed Bytes
without_last [] = panics
without_last (b ∷ []) = returns []
without_last (b ∷ c ∷ bs) = do rest ← without_last (c ∷ bs); returns (b ∷ rest)

-- math.MaxUint32
abbrev pub max_uint32 : ℕ
max_uint32 = 4294967295

-- The inner loop of AggregateBLSSignatures, for two lists of one length.
unfoldable pub add_counts : List ℕ → List ℕ → Signed (List ℕ)
add_counts [] cnts = returns []
add_counts (existing ∷ totals) [] = returns (existing ∷ totals)
add_counts (existing ∷ totals) (cnt ∷ cnts) =
    if ltb (max_uint32 - existing) cnt || ltb (max_uint32 - cnt) existing
    then fails would_overflow
    else do rest ← add_counts totals cnts; returns ((existing + cnt) ∷ rest)

-- make([]uint32, n)
abbrev pub zeros : ℕ → List ℕ
zeros zero = []
zeros (suc n) = 0 ∷ zeros n

-- signers[i] = 1
abbrev pub set_one : ℕ → List ℕ → List ℕ
set_one i [] = []
set_one zero (c ∷ cs) = 1 ∷ cs
set_one (suc i) (c ∷ cs) = c ∷ set_one i cs

abbrev pub bls_signature : List ℕ → Bytes → Bytes → Signature
bls_signature signers sig key = record {
  ownership = record {
    key = record { key_type = bls_group_sig; public_key = key };
    conditions = [];
  };
  signers = signers;
  signature = sig;
  pre_image = [];
}

abbrev pub is_bls : KeyType → Bool
is_bls secp256k1 = false
is_bls bls_group_sig = true
is_bls (other_key n) = false

module _ (cr : Crypto) where
  open cr use {
    VerKey, key_bytes, bytes_to_key, verify, sum_signatures, sum_keys, keccak, hash_text,
    bytes_to_address, key_address, verify_ecdsa, execute,
  }

  address_of_key : PublicKey → KeyType → Signed Bytes
  address_of_key key secp256k1 = or_fail bad_key (key_address key.public_key)
  address_of_key key bls_group_sig = returns (bytes_to_address (keccak key.public_key))
  address_of_key key (other_key n) = fails unknown_key_type

  -- Address
  unfoldable pub address : Ownership → Signed Bytes
  unfolding address_of_key
  address o =
      if is_empty o.conditions
      then address_of_key o.key o.key.key_type
      else returns (bytes_to_address (keccak (o.key.public_key ++ o.conditions)))

  -- `cnt` times the key.
  unfoldable pub repeat_key : ℕ → VerKey → List VerKey
  repeat_key zero k = []
  repeat_key (suc n) k = k ∷ repeat_key n k

  -- The keys that have signed, each as often as it has.
  unfoldable pub signing_keys : List VerKey → List ℕ → List VerKey
  unfolding repeat_key
  signing_keys [] cnts = []
  signing_keys (k ∷ ks) [] = []
  signing_keys (k ∷ ks) (cnt ∷ cnts) = repeat_key cnt k ++ signing_keys ks cnts

  -- RestoreBLSPublicKey
  unfoldable pub restore_bls_public_key : List VerKey → Signature → Signed Signature
  unfolding signing_keys
  restore_bls_public_key known s =
      if eqb (length known) (length s.signers)
      then (do
        key ← or_fail sum_failed (sum_keys (signing_keys known s.signers))
        returns (record s {
          ownership = record {
            key = record { key_type = bls_group_sig; public_key = key_bytes key };
            conditions = s.ownership.conditions;
          };
        }))
      else fails lengths_differ

  -- validConditions, without a scope of the caller
  unfoldable pub valid_conditions : Signature → Signed Bool
  valid_conditions s =
      if is_empty s.ownership.conditions
      then returns true
      else or_fail bad_conditions (execute s.ownership.conditions (hash_text s.pre_image))

  verified_by : Signature → Bytes → KeyType → Signed Bool
  verified_by s hsh secp256k1 = do
    sig ← without_last s.signature
    returns (verify_ecdsa s.ownership.key.public_key hsh sig)
  verified_by s hsh bls_group_sig =
      or_fail not_verified (verify (bytes_to_key s.ownership.key.public_key) s.signature hsh)
  verified_by s hsh (other_key n) = fails unknown_key_type

  -- Valid
  unfoldable pub valid : Signature → Bytes → Signed Bool
  unfolding valid_conditions verified_by
  valid s hsh = if is_empty s.ownership.key.public_key then fails no_key else do
    conditions_valid ← valid_conditions s
    if conditions_valid then verified_by s hsh s.ownership.key.key_type else returns false

  -- BLSSign; `own` is the signer's key, and `sig` its signature, where none is an error.
  unfoldable pub bls_sign : Option VerKey → Option Bytes → ℕ → ℕ → Signed Signature
  bls_sign own sig signer_len signer_index =
      if ltb signer_index signer_len
      then (do
        ver_key ← or_fail bad_key own
        bits ← or_fail bad_key sig
        returns (bls_signature (set_one signer_index (zeros signer_len)) bits (key_bytes ver_key)))
      else fails bad_index

  -- The loop of AggregateBLSSignatures over the signatures: the counts, the signatures and the
  -- keys.
  unfoldable pub aggregate_from :
      ℕ → List ℕ → List Signature → Signed (List ℕ × List Bytes × List VerKey)
  aggregate_from signer_count totals [] = returns (totals, [], [])
  aggregate_from signer_count totals (sig ∷ sigs) =
      if not (is_bls sig.ownership.key.key_type)
      then fails wrong_type
      else if not (eqb (length sig.signers) signer_count)
      then fails lengths_differ
      else do
        totals' ← add_counts totals sig.signers
        (signers, bits, keys) ← aggregate_from signer_count totals' sigs
        returns (signers, sig.signature ∷ bits, bytes_to_key sig.ownership.key.public_key ∷ keys)

  -- AggregateBLSSignatures; it panics without a signature.
  unfoldable pub aggregate_bls_signatures : List Signature → Signed Signature
  unfolding aggregate_from
  aggregate_bls_signatures [] = panics
  aggregate_bls_signatures (first ∷ sigs) = do
    (signers, bits, keys) ←
        aggregate_from (length first.signers) (zeros (length first.signers)) (first ∷ sigs)
    aggregate_sig ← or_fail sum_failed (sum_signatures bits)
    aggregate_public ← or_fail sum_failed (sum_keys keys)
    returns (bls_signature signers aggregate_sig (key_bytes aggregate_public))
