-- ===== src/Subscriber.antt =====
-- sdk/gossip/client/roundsubscriber.go: a client counts the signatures of the confirmations that
-- the signers publish, and tells its subscribers of a round when a quorum has confirmed it. The
-- same counting is in signer/gossip/benchmark/faultdetector.go. The lock, the pub-sub stream and
-- the decoding of a message are left out: a step is the handling of one decoded confirmation.
pub mod Steps
pub mod Heights
pub mod Quorum
use tupelo.Prelude.{
  ℕ, Option, none, some, List, [], ◌∷◌, Bool, true, false, if◌then◌else◌, leb, not,
}
use tupelo.Prelude.Eq.{nat_eq}
use tupelo.GoString.{Bytes, bytes_eq, bytes_eq_inst}
use tupelo.GoMap.{GoMap, lookup, insert}
use tupelo.External.CidLib.{CidLib, Cid}
use tupelo.External.Crypto.{Crypto}
use tupelo.External.Hamt.{Hamt}
use tupelo.External.Archive.{Archive, CompletedRound}
use tupelo.Checkpoint.{CheckpointWrapper}
use tupelo.Signatures.{
  Signature, SignatureError, signer_count, restore_bls_public_key, valid, aggregate_bls_signatures,
}
use tupelo.Proof.{RoundConfirmation}
use tupelo.Outcome.{Outcome, fails, returns, ◌>>=◌, or_fail, with_error}

pub record ValidationNotification : Type 0 where
  pub accepted : List Cid
  pub checkpoint : CheckpointWrapper
  pub round_confirmation : RoundConfirmation
  pub completed_round : CompletedRound

-- ValidationNotification.includes
unfoldable pub includes : List Cid → Cid → Bool
includes [] id = false
includes (c ∷ accepted) id = if bytes_eq c id then true else includes accepted id

-- The confirmations of one height, by round
abbrev pub RoundConflictSet : Type 0
RoundConflictSet = GoMap Cid RoundConfirmation

pub record RoundSubscriber : Type 0 where
  pub inflight : GoMap ℕ RoundConflictSet
  pub current : Option RoundConfirmation

pub data SubscriberError : Type 0 where
  too_old : SubscriberError
  bad_signature : SignatureError → SubscriberError
  invalid : SubscriberError
  bad_cid : SubscriberError

-- What follows the counting of a confirmation: no quorum yet, a quorum whose round could not be
-- fetched, or the notification that is published.
pub data Reply : Type 0 where
  counted : Reply
  not_fetched : Reply
  published : ValidationNotification → Reply

abbrev pub Handled : Type 0 → Type 0
Handled A = Outcome SubscriberError A

-- newRoundSubscriber
abbrev pub new_round_subscriber : RoundSubscriber
new_round_subscriber = record { inflight = []; current = none }

-- conflictSetHolder's entry, or a new one
abbrev pub set_or_new : Option RoundConflictSet → RoundConflictSet
set_or_new none = []
set_or_new (some rcs) = rcs

-- rs.current != nil && confirmation.Height <= rs.current.Height()
abbrev pub is_old : Option RoundConfirmation → ℕ → Bool
is_old none height = false
is_old (some c) height = leb height c.height

-- The loop over `inflight` in handleQuorum
unfoldable pub delete_up_to : ℕ → GoMap ℕ RoundConflictSet → GoMap ℕ RoundConflictSet
delete_up_to height [] = []
delete_up_to height ((key, rcs) ∷ m) =
    let rest = delete_up_to height m in if leb key height then rest else (key, rcs) ∷ rest

abbrev pub reply_of : Option ValidationNotification → Reply
reply_of none = not_fetched
reply_of (some n) = published n

module _ (lib : CidLib) (cr : Crypto) (quorum_count : ℕ) where
  open lib use {cast}

  -- isQuorum
  abbrev pub is_quorum : Signature → Bool
  is_quorum sig = leb quorum_count (signer_count sig.signers)

  combine :
      Cid
      → RoundConfirmation
      → RoundConflictSet
      → Option RoundConfirmation
      → Handled (Bool × RoundConfirmation × RoundConflictSet)
  combine c confirmation rcs none =
      returns (is_quorum confirmation.signature, confirmation, insert c confirmation rcs)
  combine c confirmation rcs (some existing) = do
    new_sig ←
        with_error (λ e. bad_signature e)
          (aggregate_bls_signatures cr (existing.signature ∷ confirmation.signature ∷ []))
    let updated = record existing { signature = new_sig }
    returns (is_quorum new_sig, updated, insert c updated rcs)

  -- roundConflictSet.add
  unfoldable pub add :
      RoundConfirmation → RoundConflictSet → Handled (Bool × RoundConfirmation × RoundConflictSet)
  unfolding combine
  add confirmation rcs = do
    c ← or_fail bad_cid (cast confirmation.round_cid)
    combine c confirmation rcs (lookup c rcs)

  -- The loop over the requests of the checkpoint in handleQuorum
  unfoldable pub cast_all : List Bytes → Option (List Cid)
  cast_all [] = some []
  cast_all (b ∷ bs) = elim (cast b) [
    | none ↦ none
    | some c ↦ elim (cast_all bs) [ none ↦ none | some cs ↦ some (c ∷ cs) ]
  ]

  module _ (hl : Hamt) (ar : Archive hl)
      (fetch_checkpoint : CompletedRound → Option CheckpointWrapper)
      (ver_keys : List cr.VerKey) where
    open ar use {read_round}

    -- RoundConfirmationWrapper.FetchCompletedRound of a wrapper that is new
    unfoldable pub fetch_completed_round : RoundConfirmation → Option CompletedRound
    fetch_completed_round confirmation = elim (cast confirmation.round_cid) [
      | none ↦ none
      | some c ↦ read_round c
    ]

    -- handleQuorum from the fetching of the completed round on
    unfoldable pub notification_of : RoundConfirmation → Option ValidationNotification
    unfolding fetch_completed_round cast_all
    notification_of confirmation = elim (fetch_completed_round confirmation) [
      | none ↦ none
      | some r ↦ elim (fetch_checkpoint r) [
        | none ↦ none
        | some cp ↦ elim (cast_all cp.value.add_block_requests) [
          | none ↦ none
          | some accepted ↦ some (record {
            accepted = accepted;
            checkpoint = cp;
            round_confirmation = confirmation;
            completed_round = r;
          })
        ]
      ]
    ]

    -- roundSubscriber.handleQuorum
    unfoldable pub handle_quorum : RoundConfirmation → RoundSubscriber → RoundSubscriber × Reply
    unfolding delete_up_to notification_of
    handle_quorum confirmation rs = (
      record {
        inflight = delete_up_to confirmation.height rs.inflight;
        current = some confirmation;
      },
      reply_of (notification_of confirmation),
    )

    -- The end of handleMessage, for the conflict set with the confirmation in it
    unfoldable pub count :
        ℕ → RoundSubscriber → Bool × RoundConfirmation × RoundConflictSet → RoundSubscriber × Reply
    unfolding handle_quorum
    count height rs (made_quorum, updated, conflict_set) =
        let filed = record rs { inflight = insert height conflict_set rs.inflight } in
        if made_quorum then handle_quorum updated filed else (filed, counted)

    -- roundSubscriber.handleMessage of a decoded confirmation; an error leaves the state as it was.
    unfoldable pub handle_message :
        RoundConfirmation → RoundSubscriber → Handled (RoundSubscriber × Reply)
    unfolding count
    handle_message confirmation rs =
        if is_old rs.current confirmation.height then fails too_old else do
          sig ←
              with_error (λ e. bad_signature e)
                (restore_bls_public_key cr ver_keys confirmation.signature)
          verified ← with_error (λ e. bad_signature e) (valid cr sig confirmation.round_cid)
          if not verified then fails invalid else do
            added ←
                add (record confirmation { signature = sig })
                  (set_or_new (lookup confirmation.height rs.inflight))
            returns (count confirmation.height rs added)
