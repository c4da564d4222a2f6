-- ===== src/Examples/Confirmations.antt =====
-- Tests of signatures, proofs and the round subscriber: two of three signers are a quorum.
use tupelo.Prelude.{ℕ, ◌≤◌, Option, none, some, List, [], ◌∷◌, All, ◌≡◌, refl, true}
use tupelo.Prelude.Eq.{nat_eq}
use tupelo.GoString.{Bytes, bytes, bytes_eq_inst}
use tupelo.External.CidLib.{plain}
use tupelo.External.Crypto.{Crypto}
use tupelo.External.Hamt.{map_hamt}
use tupelo.External.Archive.{Archive, CompletedRound}
use tupelo.Checkpoint.{Checkpoint, CheckpointWrapper}
use tupelo.Signatures.{Signature, signer_count, aggregate_bls_signatures, bls_signature}
use tupelo.Signatures.Counts.{Covers, aggregate_bls_signatures-signer_count}
use tupelo.Proof.{RoundConfirmation, Proof, Encodings, verify}
use tupelo.Proof.Soundness.{IsProof, verify-IsProof}
use tupelo.Subscriber.{
  RoundSubscriber, Reply, counted, published, new_round_subscriber, handle_message,
}
use tupelo.Subscriber.Heights.{IsFiled, Advances, handle_message-IsFiled}
use tupelo.Subscriber.Quorum.{Decides, handle_message-Decides}
use tupelo.Outcome.{returns}
use tupelo.Examples.{transfer}

abbrev first_of : List Bytes → Option Bytes
first_of [] = none
first_of (b ∷ bs) = some b

-- Every signature of a key is valid, and the first one stands for the sum.
abbrev trusting : Crypto
trusting = record {
  VerKey = Bytes;
  key_bytes = λ k. k;
  bytes_to_key = λ b. b;
  verify = λ k s m. some true;
  sum_signatures = first_of;
  sum_keys = first_of;
  keccak = λ b. b;
  hash_text = λ b. b;
  bytes_to_address = λ b. b;
  key_address = λ b. some b;
  verify_ecdsa = λ k h s. true;
  execute = λ s p. some true;
}

abbrev keys : List Bytes
keys = bytes "a" ∷ bytes "b" ∷ bytes "c" ∷ []

abbrev signed_by : List ℕ → Signature
signed_by signers = bls_signature signers (bytes "s") (bytes "a")

abbrev both : List Signature
both = signed_by (1 ∷ 0 ∷ 0 ∷ []) ∷ signed_by (0 ∷ 1 ∷ 0 ∷ []) ∷ []

both_aggregated : aggregate_bls_signatures trusting both ≡ returns (signed_by (1 ∷ 1 ∷ 0 ∷ []))
unfolding aggregate_bls_signatures tupelo.Signatures.add_counts
both_aggregated = refl

aggregate_bls_signatures-signer_count_example :
    All
      (λ sig.
        Covers (1 ∷ 1 ∷ 0 ∷ []) sig.signers
        × (signer_count sig.signers ≤ signer_count (1 ∷ 1 ∷ 0 ∷ [])))
      both
aggregate_bls_signatures-signer_count_example =
    aggregate_bls_signatures-signer_count trusting both (signed_by (1 ∷ 1 ∷ 0 ∷ [])) both_aggregated

abbrev round : CompletedRound
round = record { height = 1; state_cid = bytes "state"; checkpoint_cid = bytes "checkpoint" }

abbrev decided : Checkpoint
decided = record { height = 1; add_block_requests = bytes "other" ∷ bytes "request" ∷ [] }

abbrev confirmed : List ℕ → RoundConfirmation
confirmed signers = record { height = 1; round_cid = bytes "round"; signature = signed_by signers }

abbrev names : Encodings
names = record {
  round_cid = λ r. bytes "round";
  checkpoint_cid = λ c. bytes "checkpoint";
  request_cid = λ a. some (bytes "request");
}

abbrev proof : Proof
proof = record {
  object_id = transfer.add_block_request.object_id;
  tip = transfer.add_block_request.new_tip;
  add_block_request = transfer.add_block_request;
  checkpoint = decided;
  round = round;
  round_confirmation = confirmed (1 ∷ 1 ∷ 0 ∷ []);
}

proof_verified : verify plain trusting names proof 2 keys ≡ returns true
unfolding verify tupelo.Proof.verify_round_confirmation signer_count
    tupelo.Signatures.restore_bls_public_key tupelo.Signatures.valid tupelo.Proof.verify_round
    tupelo.Proof.verify_checkpoint tupelo.Proof.verify_request tupelo.Proof.verify_object
    tupelo.Proof.abr_found
proof_verified = refl

verify-IsProof_example : IsProof plain trusting names proof 2 keys
verify-IsProof_example = verify-IsProof plain trusting names proof 2 keys proof_verified

abbrev rounds : Archive map_hamt
rounds = record {
  read = λ k. none;
  read_round = λ c. some round;
  read_checkpoint = λ c. some decided;
  read_hamt = λ c. none;
}

abbrev fetched : CompletedRound → Option CheckpointWrapper
fetched r = some (record { value = decided; wrapped = bytes "checkpoint" })

-- The first of the two has been counted.
abbrev waiting : RoundSubscriber
waiting = record {
  inflight = (1, (bytes "round", confirmed (1 ∷ 0 ∷ 0 ∷ [])) ∷ []) ∷ [];
  current = none;
}

first_counted :
    handle_message plain trusting 2 map_hamt rounds fetched keys
      (confirmed (1 ∷ 0 ∷ 0 ∷ []))
      new_round_subscriber
    ≡ returns (waiting, counted)
unfolding handle_message tupelo.Signatures.restore_bls_public_key tupelo.Signatures.valid
    tupelo.Subscriber.add tupelo.GoMap.lookup signer_count tupelo.GoMap.insert
    aggregate_bls_signatures tupelo.Signatures.add_counts
first_counted = refl

abbrev done : RoundSubscriber
done = record { inflight = []; current = some (confirmed (1 ∷ 1 ∷ 0 ∷ [])) }

abbrev told : Reply
told = published (record {
  accepted = bytes "other" ∷ bytes "request" ∷ [];
  checkpoint = record { value = decided; wrapped = bytes "checkpoint" };
  round_confirmation = confirmed (1 ∷ 1 ∷ 0 ∷ []);
  completed_round = round;
})

second_decides :
    handle_message plain trusting 2 map_hamt rounds fetched keys
      (confirmed (0 ∷ 1 ∷ 0 ∷ []))
      waiting
    ≡ returns (done, told)
unfolding handle_message tupelo.Signatures.restore_bls_public_key tupelo.Signatures.valid
    tupelo.Subscriber.add tupelo.GoMap.lookup signer_count tupelo.GoMap.insert
    aggregate_bls_signatures tupelo.Signatures.add_counts
second_decides = refl

handle_message-IsFiled_example : IsFiled done × Advances none done.current
handle_message-IsFiled_example =
    handle_message-IsFiled plain trusting 2 map_hamt rounds fetched keys
      (confirmed (0 ∷ 1 ∷ 0 ∷ [])) waiting done told (((refl, tt), tt), tt) second_decides

handle_message-Decides_example :
    Decides plain trusting 2 map_hamt rounds fetched keys
      (confirmed (0 ∷ 1 ∷ 0 ∷ []))
      waiting
      done
      told
handle_message-Decides_example =
    handle_message-Decides plain trusting 2 map_hamt rounds fetched keys
      (confirmed (0 ∷ 1 ∷ 0 ∷ [])) waiting done told second_decides
