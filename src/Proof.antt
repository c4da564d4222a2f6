-- ===== src/Proof.antt =====
-- sdk/proof/proof.go: what a client checks of the proof that a transaction was accepted. A node
-- store in memory serves only to compute the identifier of the request; the last error test, of a
-- CBOR encoder that has failed, is left out, as the encodings are total here.
pub mod Soundness
use tupelo.Prelude.{ℕ, Option, List, [], ◌∷◌, Bool, true, false, if◌then◌else◌, ltb}
use tupelo.GoString.{Bytes, bytes_eq}
use tupelo.External.CidLib.{CidLib, Cid}
use tupelo.External.Crypto.{Crypto}
use tupelo.External.Archive.{CompletedRound}
use tupelo.Checkpoint.{Checkpoint}
use tupelo.Request.{AddBlockRequest}
use tupelo.Signatures.{Signature, SignatureError, signer_count, restore_bls_public_key, valid}
use tupelo.Outcome.{Outcome, returns, ◌>>=◌, or_fail, with_error}

-- gossip.RoundConfirmation and gossip.Proof of the messages repository
pub record RoundConfirmation : Type 0 where
  pub height : ℕ
  pub round_cid : Bytes
  pub signature : Signature

pub record Proof : Type 0 where
  pub object_id : Bytes
  pub tip : Bytes
  pub add_block_request : AddBlockRequest
  pub checkpoint : Checkpoint
  pub round : CompletedRound
  pub round_confirmation : RoundConfirmation

pub data ProofError : Type 0 where
  bad_signature : SignatureError → ProofError
  bad_cid : ProofError
  not_stored : ProofError

abbrev pub Checked : Type 0 → Type 0
Checked A = Outcome ProofError A

-- The identifiers of the encodings: of a round, of a checkpoint, and of a request, where none is an
-- error of the store.
pub record Encodings : Type 0 where
  pub round_cid : CompletedRound → Cid
  pub checkpoint_cid : Checkpoint → Cid
  pub request_cid : AddBlockRequest → Option Cid

module _ (lib : CidLib) (cr : Crypto) (enc : Encodings) where
  open lib use {cast}
  open cr use {VerKey}

  -- verifyRoundConfirmation
  unfoldable pub verify_round_confirmation : RoundConfirmation → ℕ → List VerKey → Checked Bool
  verify_round_confirmation conf quorum_count ver_keys =
      if ltb (signer_count conf.signature.signers) quorum_count then returns false else do
        sig ← with_error (λ e. bad_signature e) (restore_bls_public_key cr ver_keys conf.signature)
        with_error (λ e. bad_signature e) (valid cr sig conf.round_cid)

  -- The loop over the requests of the checkpoint
  unfoldable pub abr_found : Cid → List Bytes → Checked Bool
  abr_found abr_cid [] = returns false
  abr_found abr_cid (b ∷ bs) = do
    cp_abr_cid ← or_fail bad_cid (cast b)
    if bytes_eq cp_abr_cid abr_cid then returns true else abr_found abr_cid bs

  -- The parts of Verify, from the last test to the first: the tip and the object,
  unfoldable pub verify_object : Proof → Checked Bool
  verify_object proof = do
    tip_cid ← or_fail bad_cid (cast proof.tip)
    tip_cid_from_abr ← or_fail bad_cid (cast proof.add_block_request.new_tip)
    if bytes_eq tip_cid tip_cid_from_abr
        then returns (bytes_eq proof.object_id proof.add_block_request.object_id)
        else returns false

  -- the request in the checkpoint,
  unfoldable pub verify_request : Proof → Checked Bool
  verify_request proof = do
    abr_cid ← or_fail not_stored (enc.request_cid proof.add_block_request)
    found ← abr_found abr_cid proof.checkpoint.add_block_requests
    if found then verify_object proof else returns false

  -- the checkpoint of the round,
  unfoldable pub verify_checkpoint : Proof → Checked Bool
  verify_checkpoint proof = do
    checkpoint_cid_from_round ← or_fail bad_cid (cast proof.round.checkpoint_cid)
    if bytes_eq (enc.checkpoint_cid proof.checkpoint) checkpoint_cid_from_round
        then verify_request proof
        else returns false

  -- and the round of the confirmation.
  unfoldable pub verify_round : Proof → Checked Bool
  verify_round proof = do
    round_cid_from_conf ← or_fail bad_cid (cast proof.round_confirmation.round_cid)
    if bytes_eq (enc.round_cid proof.round) round_cid_from_conf
        then verify_checkpoint proof
        else returns false

  -- Verify
  unfoldable pub verify : Proof → ℕ → List VerKey → Checked Bool
  verify proof quorum_count ver_keys = do
    valid_round_confirmation ←
        verify_round_confirmation proof.round_confirmation quorum_count ver_keys
    if valid_round_confirmation then verify_round proof else returns false
