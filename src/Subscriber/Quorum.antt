-- ===== src/Subscriber/Quorum.antt =====
-- The signers of the confirmations that a subscriber takes for decided.
use tupelo.Prelude.{
  ℕ, ◌≤◌, ◌⊎◌, Option, none, some, List, [], ◌∷◌, Bool, true, false, eqb, length, ◌≡◌, refl, inl,
  inr, arith, subst, ap,
}
use tupelo.GoString.{bytes_eq_inst}
use tupelo.Prelude.Eq.{nat_eq}
use tupelo.GoMap.{lookup, insert}
use tupelo.External.CidLib.{CidLib, Cid}
use tupelo.External.Crypto.{Crypto}
use tupelo.External.Hamt.{Hamt}
use tupelo.External.Archive.{Archive, CompletedRound}
use tupelo.Checkpoint.{CheckpointWrapper}
use tupelo.Signatures.{
  Signature, bls_group_sig, signer_count, aggregate_bls_signatures, restore_bls_public_key,
  sum_failed, lengths_differ, signing_keys,
}
use tupelo.Signatures.Counts.{aggregate_bls_signatures-signer_count}
use tupelo.Proof.{RoundConfirmation}
use tupelo.Subscriber.{
  RoundSubscriber, RoundConflictSet, Handled, Reply, counted, bad_cid, bad_signature, is_quorum,
  set_or_new, combine, add, handle_quorum, count, handle_message,
}
use tupelo.Subscriber.Steps.{handle_message-IsHandled}
use tupelo.Outcome.{
  returns, ◌>>=◌, or_fail, with_error, returned_first, returned_anyway, returned_then,
}

module _ (lib : CidLib) (cr : Crypto) (quorum_count : ℕ) where
  -- The updated confirmation has the signers of the new one, and the test is of its signers.
  abbrev IsCombined : RoundConfirmation → RoundConfirmation → Bool → Type 0
  IsCombined conf updated q =
      (signer_count conf.signature.signers ≤ signer_count updated.signature.signers)
      × (q ≡ is_quorum lib cr quorum_count updated.signature)

  combine-IsCombined :
      (c : Cid) (conf updated : RoundConfirmation) (rcs rcs' : RoundConflictSet) (q : Bool)
      (o : Option RoundConfirmation)
      → combine lib cr quorum_count c conf rcs o ≡ returns (q, updated, rcs')
      → IsCombined conf updated q
  unfolding combine
  combine-IsCombined c conf updated rcs rcs' q none g =
      let r : conf ≡ updated = cc in
      let s : is_quorum lib cr quorum_count conf.signature ≡ q = cc in
      subst (λ x. IsCombined conf x q) r (subst (IsCombined conf conf) s (omega arith, refl))
  combine-IsCombined c conf updated rcs rcs' q (some existing) g =
      let joined : Signature → Handled (Bool × RoundConfirmation × RoundConflictSet) = λ sig.
        returns (
          is_quorum lib cr quorum_count sig,
          record existing { signature = sig },
          insert c (record existing { signature = sig }) rcs,
        ) in
      let sigs = existing.signature ∷ conf.signature ∷ [] in
      let (sig, g1, g2) =
        returned_first (with_error (λ e. bad_signature e) (aggregate_bls_signatures cr sigs)) joined
          g in
      let (old, (new, end)) =
        aggregate_bls_signatures-signer_count cr sigs sig
          (returned_anyway (λ e. bad_signature e) (aggregate_bls_signatures cr sigs) g1) in
      let r : record existing { signature = sig } ≡ updated = cc in
      let s : is_quorum lib cr quorum_count sig ≡ q = cc in
      subst (λ x. IsCombined conf x q) r
        (subst (IsCombined conf (record existing { signature = sig })) s (new.1, refl))

  add-IsCombined :
      (conf updated : RoundConfirmation) (rcs rcs' : RoundConflictSet) (q : Bool)
      → add lib cr quorum_count conf rcs ≡ returns (q, updated, rcs')
      → IsCombined conf updated q
  unfolding add
  add-IsCombined conf updated rcs rcs' q g =
      let (c, g1, g2) =
        returned_first (or_fail bad_cid (lib.cast conf.round_cid))
          (λ c. combine lib cr quorum_count c conf rcs (lookup c rcs)) g in
      combine-IsCombined c conf updated rcs rcs' q (lookup c rcs) g2

  restored_signers :
      (keys : List cr.VerKey) (s restored : Signature)
      → restore_bls_public_key cr keys s ≡ returns restored
      → s.signers ≡ restored.signers
  unfolding restore_bls_public_key
  restored_signers keys s restored h =
      let owned : cr.VerKey → Signature = λ key. record s {
        ownership = record {
          key = record { key_type = bls_group_sig; public_key = cr.key_bytes key };
          conditions = s.ownership.conditions;
        };
      } in
      let summing = or_fail sum_failed (cr.sum_keys (signing_keys cr keys s.signers)) in
      let (t, h1) =
        returned_then (eqb (length keys) (length s.signers))
          (summing >>= (λ key. returns (owned key))) lengths_differ h in
      let (key, h2, h3) = returned_first summing (λ key. returns (owned key)) h1 in
      let r : owned key ≡ restored = cc in ap (λ x. x.signers) r

  module _ (hl : Hamt) (ar : Archive hl)
      (fetch_checkpoint : CompletedRound → Option CheckpointWrapper)
      (ver_keys : List cr.VerKey) where
    -- The current confirmation stays and nothing is published, or one with a quorum of signers, the
    -- new confirmation's among them, takes its place.
    abbrev pub Decides : RoundConfirmation → RoundSubscriber → RoundSubscriber → Reply → Type 0
    Decides conf rs rs' reply =
        ((rs'.current ≡ rs.current) × (reply ≡ counted))
        ⊎ ((c : RoundConfirmation) × (rs'.current ≡ some c)
            × (quorum_count ≤ signer_count c.signature.signers)
            × (signer_count conf.signature.signers ≤ signer_count c.signature.signers))

    count-Decides :
        (conf : RoundConfirmation) (h : ℕ) (rs : RoundSubscriber) (q : Bool)
        (updated : RoundConfirmation) (rcs : RoundConflictSet)
        → IsCombined conf updated q
        → Decides conf rs
            (count lib cr quorum_count hl ar fetch_checkpoint ver_keys h rs (q, updated, rcs)).0
            (count lib cr quorum_count hl ar fetch_checkpoint ver_keys h rs (q, updated, rcs)).1
    unfolding count handle_quorum
    count-Decides conf h rs true updated rcs (s, t) = inr (updated, refl, ground arith, s)
    count-Decides conf h rs false updated rcs i = inl (refl, refl)

    -- Where handleMessage gives no error, either the current confirmation stays and nothing is
    -- published, or a confirmation takes its place that has a quorum of signers and no fewer than
    -- the one that came.
    pub handle_message-Decides :
        (conf : RoundConfirmation) (rs rs' : RoundSubscriber) (reply : Reply)
        → handle_message lib cr quorum_count hl ar fetch_checkpoint ver_keys conf rs
          ≡ returns (rs', reply)
        → Decides conf rs rs' reply
    handle_message-Decides conf rs rs' reply g =
        let s =
          handle_message-IsHandled lib cr quorum_count hl ar fetch_checkpoint ver_keys conf rs rs'
            reply g in
        let restored = record conf { signature = s.restored } in
        let (n, q) =
          add-IsCombined restored s.updated (set_or_new (lookup conf.height rs.inflight))
            s.conflict_set s.made_quorum s.is_added in
        let e =
          ap signer_count (restored_signers ver_keys conf.signature s.restored s.is_restored) in
        subst (λ x. Decides conf rs x.0 x.1) s.is_counted
          (count-Decides conf conf.height rs s.made_quorum s.updated s.conflict_set
            (omega arith, q))
