-- ===== src/Vote/Tallies/Returned.antt =====
-- The votes that calculateTallies returns (vote.go).
use tupelo.Prelude.{
  ◌≤◌, some, none, List, [], ◌∷◌, ◌≡◌, ◌≢◌, refl, sym, ap, ◌∙◌, length, In, occurrences, Bool-cases,
  inl, inr, arith,
}
use tupelo.GoString.{Bytes, bytes_eq, bytes_eq_iff, bytes_eq_inst}
use tupelo.GoMap.{HasUniqueKeys, lookup, values}
use tupelo.GoMap.Laws.{lookup-head, lookup-tail, In-values, values-In, lookup-empty}
use tupelo.External.CidLib.{CidLib}
use tupelo.External.Float.{Float64}
use tupelo.Vote.{Vote, vote_id}
use tupelo.Vote.Tallies.{
  RangeOrder, Votes, accumulate, compute_profit_weights, normalize, divide_tallies, sum_tallies,
  share_out, calculate_tallies,
}
use tupelo.Vote.Tallies.Represents.{IsVoteOf, IsTallyOf, accumulate-IsTallyOf}
use tupelo.Vote.Tallies.Shares.{weights-AllKeys, scale-IsTallyOf, divide_tallies-IsTallyOf}

module _ (lib : CidLib) (fl : Float64) where
  open fl use {F, of_int}

  -- The votes are those of the responses: each is a response's but for its tally, every
  -- response's identifier has one, and no identifier stands twice in the list.
  pub record AreVotesOf (rs vs : List (Vote F)) : Type 0 where
    pub from : (v : Vote F) → In v vs → IsVoteOf lib fl rs v
    pub for :
        (r : Vote F) → In r rs → (v : Vote F) × In v vs × (vote_id lib fl v ≡ vote_id lib fl r)
    pub once : (k : Bytes) → occurrences (λ v. bytes_eq (vote_id lib fl v) k) vs ≤ 1

  nothing-IsTallyOf : IsTallyOf lib fl [] []
  nothing-IsTallyOf = record {
    keyed = λ k v h. absurd (cc (lookup-empty {V = Vote F} k));
    unique = tt;
    covers = λ r i. elim i [ ];
  }

  -- The votes of a map whose keys are their identifiers: none under a missing key, and one at most
  -- under any other.
  occurrences-values :
      (k : Bytes) (votes : Votes lib fl)
      → HasUniqueKeys votes
      → ((j : Bytes) (v : Vote F) → lookup j votes ≡ some v → vote_id lib fl v ≡ j)
      → (lookup k votes ≡ none
          → occurrences (λ v. bytes_eq (vote_id lib fl v) k) (values votes) ≡ 0)
        × (occurrences (λ v. bytes_eq (vote_id lib fl v) k) (values votes) ≤ 1)
  unfolding values
  occurrences-values k [] u keyed = ((λ h. refl), omega arith)
  occurrences-values k ((j, v) ∷ votes) u keyed =
      let here = keyed j v (lookup-head j v votes) in
      let (missing, most) = occurrences-values k votes u.1 (λ i w h.
        keyed i w
          (lookup-tail j i v votes (λ e. absurd (cc (u.0, h, ap (λ x. lookup x votes) e))) ∙ h)) in
      elim (Bool-cases (bytes_eq (vote_id lib fl v) k)) [
        | inl t ↦
            let same : j ≡ k = sym here ∙ (bytes_eq_iff (vote_id lib fl v) k).0 t in
            let gone = missing (ap (λ x. lookup x votes) (sym same) ∙ u.0) in
            let held = lookup-head j v votes in
            (
              (λ h. absurd (cc (held, h, ap (λ x. lookup x ((j, v) ∷ votes)) same))),
              rw (t, gone) (omega arith),
            )
        | inr f ↦
            let other : j ≢ k =
              λ e. let t = (bytes_eq_iff (vote_id lib fl v) k).1 (here ∙ e) in absurd (cc) in
            (
              (λ h.
                  let rest = missing (sym (lookup-tail j k v votes other) ∙ h) in
                  rw f (omega (arith, rest))),
              rw f (omega (arith, most)),
            )
      ]

  module _ (sum_order array_order : RangeOrder (Vote F)) where
    array-AreVotesOf :
        (rs : List (Vote F)) (votes : Votes lib fl)
        → IsTallyOf lib fl rs votes
        → AreVotesOf rs (array_order.order (values votes))
    array-AreVotesOf rs votes r =
        let stands = λ (v : Vote F) (i : In v (array_order.order (values votes))).
          values-In v votes r.unique ((array_order.In-order (values votes) v).0 i) in
        record {
          from = λ v i. let (k, e) = stands v i in (r.keyed k v e).1;
          for = λ x i.
              let (v, e) = r.covers x i in
              (
                v,
                (array_order.In-order (values votes) v).1 (In-values (vote_id lib fl x) v votes e),
                (r.keyed (vote_id lib fl x) v e).0,
              );
          once = λ k.
              rw (array_order.occurrences-order (λ v. bytes_eq (vote_id lib fl v) k) (values votes))
                (occurrences-values k votes r.unique (λ j v h. (r.keyed j v h).0)).1;
        }

    -- calculateTallies never meets a nil vote, whatever the order in which Go visits the maps: it
    -- returns, for each identifier among the responses, the vote of one response with that
    -- identifier, but for the tally, and no other votes; no identifier stands twice.
    pub calculate_tallies-AreVotesOf :
        (rs : List (Vote F))
        → (vs : List (Vote F)) × (calculate_tallies lib fl sum_order array_order rs ≡ some vs)
          × AreVotesOf rs vs
    unfolding calculate_tallies
    calculate_tallies-AreVotesOf rs =
        let counted = accumulate-IsTallyOf lib fl (length rs) [] [] rs nothing-IsTallyOf in
        let (votes, e, r) =
          scale-IsTallyOf lib fl rs (accumulate lib fl (length rs) [] rs)
            (normalize lib fl (compute_profit_weights lib fl rs)) counted
            (weights-AllKeys lib fl rs) in
        let total = sum_tallies lib fl (of_int 0) (sum_order.order (values votes)) in
        (
          share_out lib fl sum_order array_order votes,
          rw (e, calculate_tallies),
          array-AreVotesOf rs (divide_tallies lib fl total votes)
              (divide_tallies-IsTallyOf lib fl rs total votes r),
        )
