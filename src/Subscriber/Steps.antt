-- ===== src/Subscriber/Steps.antt =====
-- What a confirmation has gone through when handleMessage gives no error.
use tupelo.Prelude.{ℕ, Option, List, Bool, false, not, if◌then◌else◌, ◌≡◌}
use tupelo.Prelude.Eq.{nat_eq}
use tupelo.GoString.{bytes_eq_inst}
use tupelo.GoMap.{lookup}
use tupelo.External.CidLib.{CidLib}
use tupelo.External.Crypto.{Crypto}
use tupelo.External.Hamt.{Hamt}
use tupelo.External.Archive.{Archive, CompletedRound}
use tupelo.Checkpoint.{CheckpointWrapper}
use tupelo.Signatures.{Signature, restore_bls_public_key, valid}
use tupelo.Proof.{RoundConfirmation}
use tupelo.Subscriber.{
  RoundSubscriber, RoundConflictSet, Handled, Reply, bad_signature, too_old, invalid, is_old,
  set_or_new, add, count, handle_message,
}
use tupelo.Outcome.{
  fails, returns, ◌>>=◌, with_error, returned_first, returned_else, returned_anyway,
}

module _ (lib : CidLib) (cr : Crypto) (quorum_count : ℕ) (hl : Hamt) (ar : Archive hl)
    (fetch_checkpoint : CompletedRound → Option CheckpointWrapper) (ver_keys : List cr.VerKey) where
  -- The state and the reply are those after the steps of handleMessage.
  pub record IsHandled (conf : RoundConfirmation) (rs rs' : RoundSubscriber) (reply : Reply)
      : Type 0 where
    pub restored : Signature
    pub is_restored : restore_bls_public_key cr ver_keys conf.signature ≡ returns restored
    pub made_quorum : Bool
    pub updated : RoundConfirmation
    pub conflict_set : RoundConflictSet
    pub is_newer : is_old rs.current conf.height ≡ false
    pub is_added :
        add lib cr quorum_count
          (record conf { signature = restored })
          (set_or_new (lookup conf.height rs.inflight))
        ≡ returns (made_quorum, updated, conflict_set)
    pub is_counted :
        count lib cr quorum_count hl ar fetch_checkpoint ver_keys conf.height rs
          (made_quorum, updated, conflict_set)
        ≡ (rs', reply)

  pub handle_message-IsHandled :
      (conf : RoundConfirmation) (rs rs' : RoundSubscriber) (reply : Reply)
      → handle_message lib cr quorum_count hl ar fetch_checkpoint ver_keys conf rs
        ≡ returns (rs', reply)
      → IsHandled conf rs rs' reply
  unfolding handle_message
  handle_message-IsHandled conf rs rs' reply g =
      let h = conf.height in
      let counting : Bool × RoundConfirmation × RoundConflictSet
          → Handled (RoundSubscriber × Reply) =
        λ x. returns (count lib cr quorum_count hl ar fetch_checkpoint ver_keys h rs x) in
      let adding : Signature → Handled (RoundSubscriber × Reply) = λ sig.
        add lib cr quorum_count (record conf { signature = sig })
          (set_or_new (lookup h rs.inflight))
        >>= counting in
      let verifying : Signature → Bool → Handled (RoundSubscriber × Reply) =
        λ sig ok. if◌then◌else◌ (not ok) (fails invalid) (adding sig) in
      let checking : Signature → Handled (RoundSubscriber × Reply) =
        λ sig. with_error (λ e. bad_signature e) (valid cr sig conf.round_cid) >>= verifying sig in
      let restoring =
        with_error (λ e. bad_signature e) (restore_bls_public_key cr ver_keys conf.signature) in
      let (t, g1) = returned_else (is_old rs.current h) too_old (restoring >>= checking) g in
      let (sig, e1, g2) = returned_first restoring checking g1 in
      let (ok, e2, g3) =
        returned_first (with_error (λ e. bad_signature e) (valid cr sig conf.round_cid))
          (verifying sig) g2 in
      let (u, g4) = returned_else (not ok) invalid (adding sig) g3 in
      let ((q, updated, rcs), e3, g5) =
        returned_first
          (add lib cr quorum_count (record conf { signature = sig })
            (set_or_new (lookup h rs.inflight)))
          counting g4 in
      record {
        restored = sig;
        is_restored =
            returned_anyway (λ e. bad_signature e)
              (restore_bls_public_key cr ver_keys conf.signature) e1;
        made_quorum = q;
        updated = updated;
        conflict_set = rcs;
        is_newer = t;
        is_added = e3;
        is_counted = cc;
      }
