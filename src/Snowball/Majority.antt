-- ===== src/Snowball/Majority.antt =====
-- The majority that Tick picks among the votes of one round (snowball.go, the loop of Tick).
use tupelo.Prelude.{
  none, some, List, [], ◌∷◌, true, false, ◌≡◌, ◌⊎◌, inl, inr, refl, arith, All, In, Bool-cases,
}
use tupelo.GoString.{bytes_eq}
use tupelo.External.CidLib.{CidLib}
use tupelo.External.Float.{Float64}
use tupelo.Vote.{Vote, zero_vote_id, vote_id}
use tupelo.Snowball.{best, majority_from, majority}

module _ (lib : CidLib) (fl : Float64) where
  open fl use {F, lt, lt_irrefl, lt_trans}

  -- The vote is for no checkpoint.
  abbrev pub IsEmptyVote : Vote F → Type 0
  IsEmptyVote v = bytes_eq (vote_id lib fl v) zero_vote_id ≡ true

  abbrev pub IsProperVote : Vote F → Type 0
  IsProperVote v = bytes_eq (vote_id lib fl v) zero_vote_id ≡ false

  -- No proper vote of the list has a higher tally than `m`.
  abbrev pub IsHighest : Vote F → List (Vote F) → Type 0
  IsHighest m vs = All (λ v. IsProperVote v → lt m.tally_count v.tally_count ≡ false) vs

  -- What a majority of `vs` is.
  pub record IsMajority (m : Vote F) (vs : List (Vote F)) : Type 0 where
    pub proper : IsProperVote m
    pub among : In m vs
    pub highest : IsHighest m vs

  -- What the loop returns when it goes on from `a`.
  record Continues (a m : Vote F) (vs : List (Vote F)) : Type 0 where
    grows : (m ≡ a) ⊎ (lt a.tally_count m.tally_count ≡ true)
    is_majority : IsMajority m (a ∷ vs)

  among_later : (m a v : Vote F) (vs : List (Vote F)) → In m (a ∷ vs) → In m (a ∷ v ∷ vs)
  among_later m a v vs (inl h) = inl h
  among_later m a v vs (inr i) = inr (inr i)

  continue_empty :
      (m a v : Vote F) (vs : List (Vote F))
      → IsEmptyVote v
      → Continues a m vs
      → Continues a m (v ∷ vs)
  continue_empty m a v vs e r = record {
    grows = r.grows;
    is_majority = record {
      proper = r.is_majority.proper;
      among = among_later m a v vs r.is_majority.among;
      highest = (r.is_majority.highest.0, ((λ p. cc), r.is_majority.highest.1));
    };
  }

  lower_stays :
      (m a v : Vote F)
      → (m ≡ a) ⊎ (lt a.tally_count m.tally_count ≡ true)
      → lt a.tally_count v.tally_count ≡ false
      → lt m.tally_count v.tally_count ≡ false
  lower_stays m a v g n = ground (arith, lt_trans a.tally_count m.tally_count v.tally_count)

  continue_lower :
      (m a v : Vote F) (vs : List (Vote F))
      → lt a.tally_count v.tally_count ≡ false
      → Continues a m vs
      → Continues a m (v ∷ vs)
  continue_lower m a v vs n r = record {
    grows = r.grows;
    is_majority = record {
      proper = r.is_majority.proper;
      among = among_later m a v vs r.is_majority.among;
      highest =
          (r.is_majority.highest.0, ((λ p. lower_stays m a v r.grows n), r.is_majority.highest.1));
    };
  }

  higher_grows :
      (m a v : Vote F)
      → lt a.tally_count v.tally_count ≡ true
      → (m ≡ v) ⊎ (lt v.tally_count m.tally_count ≡ true)
      → lt a.tally_count m.tally_count ≡ true
  higher_grows m a v h g = ground (arith, lt_trans a.tally_count v.tally_count m.tally_count)

  above_not_below :
      (m a : Vote F)
      → lt a.tally_count m.tally_count ≡ true
      → lt m.tally_count a.tally_count ≡ false
  above_not_below m a h =
      ground (arith, lt_trans a.tally_count m.tally_count a.tally_count, lt_irrefl a.tally_count)

  continue_higher :
      (m a v : Vote F) (vs : List (Vote F))
      → lt a.tally_count v.tally_count ≡ true
      → Continues v m vs
      → Continues a m (v ∷ vs)
  continue_higher m a v vs h r =
      let up = higher_grows m a v h r.grows in
      record {
        grows = inr up;
        is_majority = record {
          proper = r.is_majority.proper;
          among = inr r.is_majority.among;
          highest = ((λ p. above_not_below m a up), r.is_majority.highest);
        };
      }

  majority_from-some :
      (a : Vote F) (vs : List (Vote F))
      → IsProperVote a
      → (m : Vote F) × (majority_from lib fl (some a) vs ≡ some m) × Continues a m vs
  unfolding majority_from best
  majority_from-some a [] h =
      let alone : IsMajority a (a ∷ []) = record {
        proper = h;
        among = inl refl;
        highest = ((λ p. lt_irrefl a.tally_count), tt);
      } in
      (a, refl, record { grows = inl refl; is_majority = alone })
  majority_from-some a (v ∷ vs) h = elim (Bool-cases (bytes_eq (vote_id lib fl v) zero_vote_id)) [
    | inl empty ↦
        let (m, e, c) = majority_from-some a vs h in
        (m, rw empty e, continue_empty m a v vs empty c)
    | inr proper ↦ elim (Bool-cases (lt a.tally_count v.tally_count)) [
      | inl higher ↦
          let (m, e, c) = majority_from-some v vs proper in
          (m, rw (proper, higher) e, continue_higher m a v vs higher c)
      | inr lower ↦
          let (m, e, c) = majority_from-some a vs h in
          (m, rw (proper, lower) e, continue_lower m a v vs lower c)
    ]
  ]

  -- Either every vote is empty and there is no majority, or the majority is a proper vote of the
  -- list, and no proper vote of the list has a higher tally.
  pub majority_lem :
      (vs : List (Vote F))
      → ((majority lib fl vs ≡ none) × All IsEmptyVote vs)
        ⊎ ((m : Vote F) × (majority lib fl vs ≡ some m) × IsMajority m vs)
  unfolding majority majority_from best
  majority_lem [] = inl (refl, tt)
  majority_lem (v ∷ vs) = elim (Bool-cases (bytes_eq (vote_id lib fl v) zero_vote_id)) [
    | inl empty ↦ elim (majority_lem vs) [
      | inl (e, a) ↦ inl (rw empty e, (empty, a))
      | inr (m, e, r) ↦ inr (
        m,
        rw empty e,
        record { proper = r.proper; among = inr r.among; highest = ((λ p. cc), r.highest) },
      )
    ]
    | inr proper ↦
        let (m, e, c) = majority_from-some v vs proper in inr (m, rw proper e, c.is_majority)
  ]
