-- ===== src/Examples/Consensus.antt =====
-- Tests of Snowball and of the tallies (snowball.go, vote.go).
use tupelo.Prelude.{ℕ, some, none, List, [], ◌∷◌, ◌≡◌, refl, true, false, ◌⊎◌, All, arith}
use tupelo.GoString.{bytes_eq_inst}
use tupelo.External.CidLib.{plain}
use tupelo.External.Float.{milli}
use tupelo.Vote.{Vote, vote_id}
use tupelo.Vote.Tallies.{calculate_tallies}
use tupelo.Vote.Tallies.Returned.{AreVotesOf, calculate_tallies-AreVotesOf}
use tupelo.Snowball.{Snowball, majority, majority_from, best, tick, threshold}
use tupelo.GoMap.{lookup, insert}
use tupelo.Snowball.Majority.{IsEmptyVote, IsMajority, majority_lem}
use tupelo.Snowball.Streak.{History, run, Prefers, supported}
use tupelo.Snowball.Decision.{IsJustified, decision-IsJustified, decision_stays}
use tupelo.Snowball.Progress.{agreement_decides}
use tupelo.Snowball.Counts.{IsLedBy, run-IsLedBy}
use tupelo.Examples.{agreed, conflicting, vote_of, no_vote, in_order}

abbrev three_votes : List (Vote ℕ)
three_votes = vote_of agreed 700 ∷ vote_of conflicting 300 ∷ no_vote ∷ []

-- alpha 0.666, beta 1, k 3
abbrev fresh : Snowball ℕ
fresh = record {
  alpha = 666;
  beta = 1;
  k = 3;
  count = 0;
  counts = [];
  total_count = 0;
  preferred = none;
  last = none;
  decided = false;
}

abbrev two_ticks : History plain milli
two_ticks = three_votes ∷ three_votes ∷ []

decided_there : (run plain milli fresh two_ticks).decided ≡ true
unfolding run tick majority majority_from best vote_id lookup insert
decided_there = refl

decision-IsJustified_example :
    IsJustified plain milli 666 1 two_ticks (run plain milli fresh two_ticks)
decision-IsJustified_example =
    decision-IsJustified plain milli two_ticks fresh refl refl decided_there

decision_stays_example :
    ((run plain milli (run plain milli fresh two_ticks) ((no_vote ∷ []) ∷ [])).decided ≡ true)
    × ((run plain milli (run plain milli fresh two_ticks) ((no_vote ∷ []) ∷ [])).preferred
        ≡ (run plain milli fresh two_ticks).preferred)
decision_stays_example =
    decision_stays plain milli ((no_vote ∷ []) ∷ []) (run plain milli fresh two_ticks) decided_there

agreed_there : supported plain milli 666 three_votes ≡ some (7 ∷ [])
unfolding supported majority majority_from best vote_id threshold
agreed_there = refl

nothing_led : IsLedBy plain milli 0 none []
unfolding lookup
nothing_led = ((λ k. refl), (λ k. omega arith))

undecided_there : (run plain milli fresh (three_votes ∷ [])).decided ≡ false
unfolding run tick majority majority_from best vote_id lookup insert
undecided_there = refl

agreement_decides_example :
    ((run plain milli fresh two_ticks).decided ≡ true)
    × Prefers plain milli (7 ∷ []) (run plain milli fresh two_ticks)
agreement_decides_example =
    agreement_decides plain milli two_ticks (7 ∷ []) fresh (omega arith) refl
      (agreed_there, (agreed_there, tt)) (omega arith)

majority_lem_example :
    ((majority plain milli three_votes ≡ none) × All (IsEmptyVote plain milli) three_votes)
    ⊎ ((m : Vote ℕ) × (majority plain milli three_votes ≡ some m)
        × IsMajority plain milli m three_votes)
majority_lem_example = majority_lem plain milli three_votes

run-IsLedBy_example :
    IsLedBy plain milli 1
      (run plain milli fresh (three_votes ∷ [])).preferred
      (run plain milli fresh (three_votes ∷ [])).counts
run-IsLedBy_example =
    run-IsLedBy plain milli (three_votes ∷ []) fresh (omega arith) nothing_led undecided_there

calculate_tallies-AreVotesOf_example :
    (vs : List (Vote ℕ)) × (calculate_tallies plain milli in_order in_order three_votes ≡ some vs)
    × AreVotesOf plain milli three_votes vs
calculate_tallies-AreVotesOf_example =
    calculate_tallies-AreVotesOf plain milli in_order in_order three_votes
