-- ===== src/Proof/Soundness.antt =====
-- What holds of a proof that Verify accepts.
use tupelo.Prelude.{
  ℕ, ◌≤◌, some, List, [], ◌∷◌, Any, Bool, true, false, if◌then◌else◌, ltb, ◌≡◌, refl, inl, inr,
  arith, Bool-cases,
}
use tupelo.GoString.{Bytes, bytes_eq, bytes_eq_iff}
use tupelo.External.CidLib.{CidLib, Cid}
use tupelo.External.Crypto.{Crypto}
use tupelo.Signatures.{Signature, signer_count, restore_bls_public_key, valid}
use tupelo.Proof.{
  RoundConfirmation, Proof, Checked, Encodings, bad_signature, bad_cid, not_stored, abr_found,
  verify_round_confirmation, verify, verify_object, verify_request, verify_checkpoint, verify_round,
}
use tupelo.Outcome.{
  Outcome, returns, ◌>>=◌, or_fail, with_error, returned_first, some_returned, accepted_then,
  returned_anyway,
}

refused_first :
    {E : Type 0} (c : Bool) (x : Outcome E Bool)
    → if◌then◌else◌ c (returns false) x ≡ returns true
    → (c ≡ false) × (x ≡ returns true)
refused_first true x h = absurd (cc)
refused_first false x h = (refl, h)

module _ (lib : CidLib) (cr : Crypto) (enc : Encodings) where
  open lib use {cast}
  open cr use {VerKey}

  -- The confirmation has the signers and a signature under their keys.
  pub record IsConfirmed (conf : RoundConfirmation) (quorum_count : ℕ) (ver_keys : List VerKey)
      : Type 0 where
    pub quorum : quorum_count ≤ signer_count conf.signature.signers
    pub restored : Signature
    pub is_restored : restore_bls_public_key cr ver_keys conf.signature ≡ returns restored
    pub is_valid : valid cr restored conf.round_cid ≡ returns true

  -- Each part names the next one: the confirmation the round, the round the checkpoint, the
  -- checkpoint the request, and the request the object and the tip.
  pub record IsProof (proof : Proof) (quorum_count : ℕ) (ver_keys : List VerKey) : Type 0 where
    pub confirmed : IsConfirmed proof.round_confirmation quorum_count ver_keys
    pub names_round : cast proof.round_confirmation.round_cid ≡ some (enc.round_cid proof.round)
    pub names_checkpoint :
        cast proof.round.checkpoint_cid ≡ some (enc.checkpoint_cid proof.checkpoint)
    pub request_cid : Cid
    pub is_request : enc.request_cid proof.add_block_request ≡ some request_cid
    pub names_request : Any (λ b. cast b ≡ some request_cid) proof.checkpoint.add_block_requests
    pub tip_cid : Cid
    pub is_tip : cast proof.tip ≡ some tip_cid
    pub names_tip : cast proof.add_block_request.new_tip ≡ some tip_cid
    pub names_object : proof.object_id ≡ proof.add_block_request.object_id

  confirmed_by :
      (conf : RoundConfirmation) (quorum_count : ℕ) (ver_keys : List VerKey)
      → verify_round_confirmation lib cr enc conf quorum_count ver_keys ≡ returns true
      → IsConfirmed conf quorum_count ver_keys
  unfolding verify_round_confirmation
  confirmed_by conf q keys h =
      let check : Signature → Checked Bool =
        λ s. with_error (λ e. bad_signature e) (valid cr s conf.round_cid) in
      let sig = with_error (λ e. bad_signature e) (restore_bls_public_key cr keys conf.signature) in
      let (t, h1) = refused_first (ltb (signer_count conf.signature.signers) q) (sig >>= check) h in
      let (s, e, h2) = returned_first sig check h1 in
      record {
        quorum = ground arith;
        restored = s;
        is_restored =
            returned_anyway (λ e. bad_signature e) (restore_bls_public_key cr keys conf.signature)
              e;
        is_valid = returned_anyway (λ e. bad_signature e) (valid cr s conf.round_cid) h2;
      }

  found_among :
      (c : Cid) (bs : List Bytes)
      → abr_found lib cr enc c bs ≡ returns true
      → Any (λ b. cast b ≡ some c) bs
  unfolding abr_found
  found_among c [] h = absurd (cc)
  found_among c (b ∷ bs) h =
      let (d, e, h1) =
        returned_first (or_fail bad_cid (cast b))
          (λ d. if◌then◌else◌ (bytes_eq d c) (returns true) (abr_found lib cr enc c bs)) h in
      let k = some_returned bad_cid (cast b) e in
      elim (Bool-cases (bytes_eq d c)) [
        | inl t ↦ let f = (bytes_eq_iff d c).0 t in inl (cc)
        | inr t ↦ inr (found_among c bs (rw t at h1))
      ]

  -- One comparison of identifiers: what is read is the identifier that is compared.
  named_by :
      (named : Cid) (b : Bytes) (rest : Checked Bool)
      → (or_fail bad_cid (cast b) >>= (λ c. if◌then◌else◌ (bytes_eq named c) rest (returns false)))
        ≡ returns true
      → (cast b ≡ some named) × (rest ≡ returns true)
  named_by named b rest h =
      let (c, e, h1) =
        returned_first (or_fail bad_cid (cast b))
          (λ c. if◌then◌else◌ (bytes_eq named c) rest (returns false)) h in
      let (t, h2) = accepted_then (bytes_eq named c) rest h1 in
      let k = some_returned bad_cid (cast b) e in let f = (bytes_eq_iff named c).0 t in (cc, h2)

  object_named :
      (proof : Proof)
      → verify_object lib cr enc proof ≡ returns true
      → (c : Cid) × (cast proof.tip ≡ some c)
        × (cast proof.add_block_request.new_tip ≡ some c)
        × (proof.object_id ≡ proof.add_block_request.object_id)
  unfolding verify_object
  object_named proof h =
      let same = bytes_eq proof.object_id proof.add_block_request.object_id in
      let (c, e, h1) =
        returned_first (or_fail bad_cid (cast proof.tip))
          (λ c.
            or_fail bad_cid (cast proof.add_block_request.new_tip)
            >>= (λ d. if◌then◌else◌ (bytes_eq c d) (returns same) (returns false)))
          h in
      let (n, h2) = named_by c proof.add_block_request.new_tip (returns same) h1 in
      let o : same ≡ true = cc in
      (
        c,
        some_returned bad_cid (cast proof.tip) e,
        n,
        (bytes_eq_iff proof.object_id proof.add_block_request.object_id).0 o,
      )

  request_named :
      (proof : Proof)
      → verify_request lib cr enc proof ≡ returns true
      → (c : Cid) × (enc.request_cid proof.add_block_request ≡ some c)
        × Any (λ b. cast b ≡ some c) proof.checkpoint.add_block_requests
        × (verify_object lib cr enc proof ≡ returns true)
  unfolding verify_request
  request_named proof h =
      let ending : Bool → Checked Bool =
        λ b. if◌then◌else◌ b (verify_object lib cr enc proof) (returns false) in
      let bs = proof.checkpoint.add_block_requests in
      let (c, e, h1) =
        returned_first (or_fail not_stored (enc.request_cid proof.add_block_request))
          (λ c. abr_found lib cr enc c bs >>= ending) h in
      let (found, e1, h2) = returned_first (abr_found lib cr enc c bs) ending h1 in
      let (t, h3) = accepted_then found (verify_object lib cr enc proof) h2 in
      (
        c,
        some_returned not_stored (enc.request_cid proof.add_block_request) e,
        found_among c bs (rw t at e1),
        h3,
      )

  -- A proof that Verify accepts has a signature that is valid under the keys of its signers, at
  -- least as many of them as the quorum, over a round that names a checkpoint that names the
  -- request, which is for the object and the tip of the proof.
  pub verify-IsProof :
      (proof : Proof) (quorum_count : ℕ) (ver_keys : List VerKey)
      → verify lib cr enc proof quorum_count ver_keys ≡ returns true
      → IsProof proof quorum_count ver_keys
  unfolding verify verify_round verify_checkpoint
  verify-IsProof proof q keys h =
      let ending : Bool → Checked Bool =
        λ b. if◌then◌else◌ b (verify_round lib cr enc proof) (returns false) in
      let conf = verify_round_confirmation lib cr enc proof.round_confirmation q keys in
      let (ok, e, h1) = returned_first conf ending h in
      let (t, h2) = accepted_then ok (verify_round lib cr enc proof) h1 in
      let (round, h3) =
        named_by (enc.round_cid proof.round) proof.round_confirmation.round_cid
          (verify_checkpoint lib cr enc proof) h2 in
      let (checkpoint, h4) =
        named_by (enc.checkpoint_cid proof.checkpoint) proof.round.checkpoint_cid
          (verify_request lib cr enc proof) h3 in
      let (c, is, among, h5) = request_named proof h4 in
      let (tip, is_tip, named_tip, object) = object_named proof h5 in
      record {
        confirmed = confirmed_by proof.round_confirmation q keys (rw t at e);
        names_round = round;
        names_checkpoint = checkpoint;
        request_cid = c;
        is_request = is;
        names_request = among;
        tip_cid = tip;
        is_tip = is_tip;
        names_tip = named_tip;
        names_object = object;
      }
