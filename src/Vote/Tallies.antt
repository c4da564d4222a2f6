-- ===== src/Vote/Tallies.antt =====
-- signer/gossip/vote.go: calculateTallies, ComputeProfitWeights and Normalize. A vote is a pointer
-- in the source: responses with one identifier share the first response's vote, and the map of
-- votes holds its current value.
pub mod Represents
pub mod Shares
pub mod Returned
use tupelo.Prelude.{
  ℕ, Option, none, some, List, [], ◌∷◌, ◌↔◌, length, In, occurrences, Bool, ◌≡◌, if◌then◌else◌,
}
use tupelo.GoString.{Bytes, bytes_eq, bytes_eq_inst}
use tupelo.GoMap.{GoMap, lookup, insert, values}
use tupelo.External.CidLib.{CidLib}
use tupelo.External.Float.{Float64}
use tupelo.Vote.{Vote, zero_vote_id, vote_id, vote_length}

-- The order in which `range` visits the entries of a map: Go leaves it open, but visits each entry
-- once. The entries are the same, and as many of them pass any test.
pub record RangeOrder (A : Type 0) : Type 0 where
  pub order : List A → List A
  pub occurrences-order : (p : A → Bool) (xs : List A) → occurrences p (order xs) ≡ occurrences p xs
  pub In-order : (xs : List A) (x : A) → In x (order xs) ↔ In x xs

module _ (lib : CidLib) (fl : Float64) where
  open fl use {F, of_int, add, sub, mul, div, lt, feq}

  abbrev pub Votes : Type 0
  Votes = GoMap Bytes (Vote F)

  abbrev pub Weights : Type 0
  Weights = GoMap Bytes F

  -- Vote.SetTally
  abbrev pub set_tally : F → Vote F → Vote F
  set_tally t v = record v { tally_count = t }

  -- The vote that stands for a response: the one in the map, or the response itself.
  abbrev pub vote_for : Votes → Vote F → Vote F
  vote_for votes res = elim (lookup (vote_id lib fl res) votes) [ none ↦ res | some v ↦ v ]

  -- The first loop of calculateTallies, over `n` responses in all.
  unfoldable pub accumulate : ℕ → Votes → List (Vote F) → Votes
  accumulate n votes [] = votes
  accumulate n votes (res ∷ rest) =
      let v = vote_for votes res in
      accumulate n
        (insert (vote_id lib fl res) (set_tally (add v.tally_count (div (of_int 1) (of_int n))) v)
          votes)
        rest

  -- `weights[id]`, 0 if it is missing
  abbrev weight_of : Bytes → Weights → F
  weight_of k m = elim (lookup k m) [ none ↦ of_int 0 | some x ↦ x ]

  -- The loop of ComputeProfitWeights, with `max`
  unfoldable pub profit_from : Weights → F → List (Vote F) → Weights × F
  profit_from weights max [] = (weights, max)
  profit_from weights max (res ∷ rest) =
      let k = vote_id lib fl res in
      let skip = bytes_eq k zero_vote_id in
      let w = add (weight_of k weights) (vote_length lib fl res) in
      profit_from (if skip then weights else insert k w weights)
        (if skip then max else if lt max w then w else max) rest

  unfoldable pub map_weights : (F → F) → Weights → Weights
  map_weights f [] = []
  map_weights f ((k, w) ∷ m) = (k, f w) ∷ map_weights f m

  -- ComputeProfitWeights
  unfoldable pub compute_profit_weights : List (Vote F) → Weights
  unfolding profit_from map_weights
  compute_profit_weights responses =
      let (weights, max) = profit_from [] (of_int 0) responses in
      map_weights (λ w. div w max) weights

  unfoldable pub min_weight : F → Weights → F
  min_weight min [] = min
  min_weight min ((k, w) ∷ m) = min_weight (if lt w min then w else min) m

  unfoldable pub max_weight : F → Weights → F
  max_weight max [] = max
  max_weight max ((k, w) ∷ m) = max_weight (if lt max w then w else max) m

  -- Normalize
  unfoldable pub normalize : Weights → Weights
  unfolding min_weight max_weight map_weights
  normalize weights =
      let min = min_weight (of_int 1) weights in
      let shifted = map_weights (λ w. sub w min) weights in
      let max = max_weight (of_int 0) shifted in
      map_weights (λ w. if feq max (of_int 0) then of_int 1 else div w max) shifted

  -- `votes[id].SetTally(votes[id].Tally() * weight)` for each weight; a nil vote is a panic, none.
  unfoldable pub scale : Votes → Weights → Option Votes
  scale votes [] = some votes
  scale votes ((k, w) ∷ m) = elim (lookup k votes) [
    | none ↦ none
    | some v ↦ scale (insert k (set_tally (mul v.tally_count w) v) votes) m
  ]

  unfoldable pub sum_tallies : F → List (Vote F) → F
  sum_tallies total [] = total
  sum_tallies total (v ∷ vs) = sum_tallies (add total v.tally_count) vs

  -- The last loop: every tally divided by the total.
  unfoldable pub divide_tallies : F → Votes → Votes
  divide_tallies total [] = []
  divide_tallies total ((k, v) ∷ m) =
      (k, set_tally (div v.tally_count total) v) ∷ divide_tallies total m

  module _ (sum_order array_order : RangeOrder (Vote F)) where
    unfoldable pub share_out : Votes → List (Vote F)
    unfolding sum_tallies divide_tallies
    share_out votes =
        let total = sum_tallies (of_int 0) (sum_order.order (values votes)) in
        array_order.order (values (divide_tallies total votes))

    -- calculateTallies
    unfoldable pub calculate_tallies : List (Vote F) → Option (List (Vote F))
    unfolding accumulate compute_profit_weights normalize scale share_out
    calculate_tallies responses =
        elim (scale (accumulate (length responses) [] responses)
          (normalize (compute_profit_weights responses))) [
            | none ↦ none
            | some votes ↦ some (share_out votes)
          ]
