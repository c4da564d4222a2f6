-- ===== src/Snowballer/Screening.antt =====
-- Which of the peers' votes count (snowballnetwork.go, doTick).
use tupelo.Prelude.{
  List, [], ◌∷◌, ◌++◌, Bool, true, false, ◌≡◌, ◌≢◌, inl, inr, refl, Bool-cases, Option-cases, All,
}
use tupelo.GoString.{Bytes, bytes_eq_inst}
use tupelo.GoMap.{GoMap, insert, contains}
use tupelo.External.CidLib.{CidLib, Cid}
use tupelo.External.Float.{Float64}
use tupelo.Checkpoint.{CheckpointWrapper}
use tupelo.Snowball.{tick}
use tupelo.Vote.{Vote, nil_vote}
use tupelo.Vote.Tallies.{RangeOrder}
use tupelo.Vote.Tallies.Returned.{calculate_tallies-AreVotesOf}
use tupelo.Mempool.{Mempool, key_of, get, contains_all}
use tupelo.Snowballer.{
  returns, conflicting_from, has_conflicting, vote_on, screen_vote, screen_votes, pad_votes,
  SnowballerState, do_tick,
}
use tupelo.Snowballer.Checks.{
  Casts, Keys, NoRepeats, missing_from, mempool_has_all_lem, has_conflicting_lem,
}
use tupelo.Snowballer.Proposal.{Keys-contains_all}

module _ (lib : CidLib) where
  open lib use {cast}

  conflicting_from-returns :
      (m : Mempool) (seen : GoMap Bytes (Unit {0})) (bs : List Bytes) (cs : List Cid)
      → Casts lib bs cs
      → (b : Bool) × (conflicting_from lib m seen bs ≡ returns b)
  unfolding conflicting_from
  conflicting_from-returns m seen [] [] h = (false, refl)
  conflicting_from-returns m seen (b ∷ bs) [] h = absurd h
  conflicting_from-returns m seen [] (c ∷ cs) h = absurd h
  conflicting_from-returns m seen (b ∷ bs) (c ∷ cs) h = elim (Option-cases (get c m)) [
    | inl gone ↦ (true, rw (h.0, conflicting_from, gone))
    | inr (w, there) ↦ elim (Bool-cases (contains (key_of w) seen)) [
      | inl old ↦ (true, rw (h.0, conflicting_from, there, old))
      | inr new ↦
          let (r, e) = conflicting_from-returns m (insert (key_of w) tt seen) bs cs h.1 in
          (r, rw (h.0, conflicting_from, there, new) e)
    ]
  ]

  has_conflicting-returns :
      (m : Mempool) (bs : List Bytes) (cs : List Cid)
      → Casts lib bs cs
      → (b : Bool) × (has_conflicting lib m bs ≡ returns b)
  unfolding has_conflicting
  has_conflicting-returns m bs cs h = conflicting_from-returns m [] bs cs h

  -- The pool holds all of the checkpoint's requests, there is one, and no two conflict.
  pub record IsAcceptable (m : Mempool) (cs : List Cid) : Type 0 where
    pub some_request : cs ≢ []
    pub keys : List Bytes
    pub held : Keys lib m cs keys
    pub apart : NoRepeats lib keys

  module _ (fl : Float64) where
    open fl use {F}

    -- What doTick makes of an answer.
    pub data Screened (m : Mempool) (cp : CheckpointWrapper) (cs : List Cid) : Type 0 where
      accepted :
          IsAcceptable m cs
          → screen_vote lib fl m cp ≡ returns (vote_on lib fl cp, [])
          → Screened m cp cs
      nilled :
          ¬ IsAcceptable m cs
          → screen_vote lib fl m cp
            ≡ returns (nil_vote lib fl (vote_on lib fl cp), missing_from lib m cs)
          → Screened m cp cs

    screen_full :
        (m : Mempool) (cp : CheckpointWrapper) (b : Bytes) (bs : List Bytes) (c : Cid)
        (cs : List Cid)
        → cp.value.add_block_requests ≡ b ∷ bs
        → Casts lib (b ∷ bs) (c ∷ cs)
        → Screened m cp (c ∷ cs)
    unfolding screen_vote
    screen_full m cp b bs c cs e h =
        let all = mempool_has_all_lem lib m (b ∷ bs) (c ∷ cs) h in
        let iff = has_conflicting_lem lib m (b ∷ bs) (c ∷ cs) h in
        let (r, f) = has_conflicting-returns m (b ∷ bs) (c ∷ cs) h in
        elim (Bool-cases (contains_all (c ∷ cs) m)) [
          | inr lacks ↦
              nilled (λ a. cc (Keys-contains_all lib m (c ∷ cs) a.keys a.held).0)
                (rw (e, all, lacks))
          | inl holds ↦ elim (Bool-cases r) [
            | inl conflict ↦
                nilled (λ a. cc (f, conflict, iff.1 (a.keys, a.held, a.apart)))
                  (rw (e, all, holds, f, conflict))
            | inr none_found ↦
                let (ks, held, apart) = iff.0 (rw none_found at f) in
                accepted (record { some_request = λ p. cc; keys = ks; held = held; apart = apart })
                  (rw (e, all, holds, (Keys-contains_all lib m (c ∷ cs) ks held).1, f, none_found))
          ]
        ]

    -- A peer's checkpoint whose bytes are identifiers: its vote counts, and nothing is asked of the
    -- syncer, exactly if it has a request, the pool holds all of its requests, and no two of them
    -- conflict. Otherwise its vote is nilled, and the syncer is asked for the requests that the
    -- pool lacks.
    pub screen_vote-Screened :
        (m : Mempool) (cp : CheckpointWrapper) (cs : List Cid)
        → Casts lib cp.value.add_block_requests cs
        → Screened m cp cs
    unfolding screen_vote
    screen_vote-Screened m cp cs h = screened cp.value.add_block_requests cs refl h
      where
        screened :
            (bs : List Bytes) (cs : List Cid)
            → cp.value.add_block_requests ≡ bs
            → Casts lib bs cs
            → Screened m cp cs
        screened [] [] e h = nilled (λ a. a.some_request refl) (rw e)
        screened (b ∷ bs) [] e h = absurd h
        screened [] (c ∷ cs) e h = absurd h
        screened (b ∷ bs) (c ∷ cs) e h = screen_full m cp b bs c cs e h

    -- Every answer's bytes are identifiers.
    abbrev pub AllCast : List CheckpointWrapper → Type 0
    AllCast answers =
        All (λ (cp : CheckpointWrapper). (cs : List Cid) × Casts lib cp.value.add_block_requests cs)
          answers

    screen_votes-returns :
        (m : Mempool) (answers : List CheckpointWrapper)
        → AllCast answers
        → (r : List (Vote F) × List Cid) × (screen_votes lib fl m answers ≡ returns r)
    unfolding screen_votes
    screen_votes-returns m [] h = (([], []), refl)
    screen_votes-returns m (cp ∷ answers) h =
        let ((vs, more), e) = screen_votes-returns m answers h.1 in
        let ((v, missing), f) = one (screen_vote-Screened m cp h.0.0 h.0.1) in
        ((v ∷ vs, missing ++ more), rw (f, e))
      where
        one :
            {cs : List Cid}
            → Screened m cp cs
            → (r : Vote F × List Cid) × (screen_vote lib fl m cp ≡ returns r)
        one (accepted a e) = (_, e)
        one (nilled a e) = (_, e)

    module _ (sum_order array_order : RangeOrder (Vote F)) where
      -- A tick does not panic on answers whose bytes are identifiers.
      pub do_tick-returns :
          (m : Mempool) (answers : List CheckpointWrapper) (snb : SnowballerState lib fl)
          → AllCast answers
          → (r : SnowballerState lib fl × List Cid) × (do_tick lib fl sum_order array_order m
                answers snb
              ≡ returns r)
      unfolding do_tick
      do_tick-returns m answers snb h =
          let ((votes, missing), e) = screen_votes-returns m answers h in
          let (vs, f, _) =
            calculate_tallies-AreVotesOf lib fl sum_order array_order
              (pad_votes lib fl snb.snowball.k votes) in
          ((record snb { snowball = tick lib fl vs snb.snowball }, missing), rw (e, f))
