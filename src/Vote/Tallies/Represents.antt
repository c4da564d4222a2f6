-- ===== src/Vote/Tallies/Represents.antt =====
-- Which votes calculateTallies returns (vote.go).
use tupelo.Prelude.{
  In-append_last, In-append_left, In-append_self, append_assoc, append-nil, ℕ, some, List, [], ◌∷◌,
  ◌++◌, ◌≡◌, inl, inr, refl, sym, ap, ◌∙◌, subst, In, Option-cases,
}
use tupelo.Prelude.Eq.{eq-cases}
use tupelo.GoString.{Bytes, bytes_eq_inst}
use tupelo.GoMap.{HasUniqueKeys, lookup, insert}
use tupelo.GoMap.Laws.{
  lookup-insert_self, lookup-insert_ne, lookup-insert-some, HasUniqueKeys-insert,
}
use tupelo.External.CidLib.{CidLib}
use tupelo.External.Float.{Float64}
use tupelo.Vote.{Vote, vote_id}
use tupelo.Vote.Tallies.{Votes, set_tally, vote_for, accumulate}

module _ (lib : CidLib) (fl : Float64) where
  open fl use {F, of_int, add, div, mul}

  -- `v` is the vote of one of the responses, but for its tally.
  abbrev pub IsVoteOf : List (Vote F) → Vote F → Type 0
  IsVoteOf rs v = (r : Vote F) × In r rs × (v.checkpoint ≡ r.checkpoint) × (v.id ≡ r.id)

  -- The map holds a vote for every response, under its identifier, and no other.
  pub record IsTallyOf (rs : List (Vote F)) (votes : Votes lib fl) : Type 0 where
    pub keyed :
        (k : Bytes) (v : Vote F) → lookup k votes ≡ some v → (vote_id lib fl v ≡ k) × IsVoteOf rs v
    pub unique : HasUniqueKeys votes
    pub covers : (r : Vote F) → In r rs → (v : Vote F) × (lookup (vote_id lib fl r) votes ≡ some v)

  vote_id-set_tally :
      (t : F) (v : Vote F) → vote_id lib fl (set_tally lib fl t v) ≡ vote_id lib fl v
  unfolding vote_id
  vote_id-set_tally t v = refl

  -- A new tally for a vote of the map changes neither.
  pub retally :
      (rs : List (Vote F)) (votes : Votes lib fl) (k : Bytes) (v : Vote F) (t : F)
      → IsTallyOf rs votes
      → lookup k votes ≡ some v
      → IsTallyOf rs (insert k (set_tally lib fl t v) votes)
  retally rs votes k v t r e = record {
    keyed = λ j u h. elim (lookup-insert-some k j (set_tally lib fl t v) votes h) [
      | inl (p, q) ↦
          subst (λ (x : Vote F). (vote_id lib fl x ≡ j) × IsVoteOf rs x) q
            (vote_id-set_tally t v ∙ (r.keyed k v e).0 ∙ p, (r.keyed k v e).1)
      | inr (_, old) ↦ r.keyed j u old
    ];
    unique = HasUniqueKeys-insert k (set_tally lib fl t v) votes r.unique;
    covers = λ x i. elim (eq-cases k (vote_id lib fl x)) [
      | inl same ↦ (
        set_tally lib fl t v,
        subst (λ j. lookup j (insert k (set_tally lib fl t v) votes) ≡ some (set_tally lib fl t v))
            same (lookup-insert_self k (set_tally lib fl t v) votes),
      )
      | inr other ↦
          let (u, f) = r.covers x i in
          (u, lookup-insert_ne k (vote_id lib fl x) (set_tally lib fl t v) votes other ∙ f)
    ];
  }

  IsVoteOf-later :
      (rs : List (Vote F)) (res v : Vote F) → IsVoteOf rs v → IsVoteOf (rs ++ res ∷ []) v
  IsVoteOf-later rs res v (r, i, c, e) = (r, In-append_left r res rs i, c, e)

  -- The vote that stands for a response is one for its identifier.
  vote_for-IsVoteOf :
      (rs : List (Vote F)) (votes : Votes lib fl) (res : Vote F)
      → IsTallyOf rs votes
      → (vote_id lib fl (vote_for lib fl votes res) ≡ vote_id lib fl res)
        × IsVoteOf (rs ++ res ∷ []) (vote_for lib fl votes res)
  vote_for-IsVoteOf rs votes res r = elim (Option-cases (lookup (vote_id lib fl res) votes)) [
    | inl e ↦ rw (e, vote_for) (refl, (res, In-append_self res rs, refl, refl))
    | inr (v, e) ↦
        let (k, o) = r.keyed (vote_id lib fl res) v e in
        rw (e, vote_for) (k, IsVoteOf-later rs res v o)
  ]

  -- One round of the first loop.
  count_response :
      (rs : List (Vote F)) (votes : Votes lib fl) (res : Vote F) (t : F)
      → IsTallyOf rs votes
      → IsTallyOf
          (rs ++ res ∷ [])
          (insert (vote_id lib fl res) (set_tally lib fl t (vote_for lib fl votes res)) votes)
  count_response rs votes res t r =
      let k = vote_id lib fl res in
      let w = set_tally lib fl t (vote_for lib fl votes res) in
      let (same, vote) = vote_for-IsVoteOf rs votes res r in
      record {
        keyed = λ j u h. elim (lookup-insert-some k j w votes h) [
          | inl (p, q) ↦
              subst (λ (x : Vote F). (vote_id lib fl x ≡ j) × IsVoteOf (rs ++ res ∷ []) x) q
                (vote_id-set_tally t (vote_for lib fl votes res) ∙ same ∙ p, vote)
          | inr (_, old) ↦ ((r.keyed j u old).0, IsVoteOf-later rs res u (r.keyed j u old).1)
        ];
        unique = HasUniqueKeys-insert k w votes r.unique;
        covers = λ x i. elim (eq-cases k (vote_id lib fl x)) [
          | inl p ↦ (
            w,
            subst (λ j. lookup j (insert k w votes) ≡ some w) p (lookup-insert_self k w votes),
          )
          | inr other ↦ elim (In-append_last x res rs i) [
            | inl old ↦
                let (u, f) = r.covers x old in
                (u, lookup-insert_ne k (vote_id lib fl x) w votes other ∙ f)
            | inr new ↦ absurd (other (ap (vote_id lib fl) new))
          ]
        ];
      }

  pub accumulate-IsTallyOf :
      (n : ℕ) (rs : List (Vote F)) (votes : Votes lib fl) (rest : List (Vote F))
      → IsTallyOf rs votes
      → IsTallyOf (rs ++ rest) (accumulate lib fl n votes rest)
  unfolding accumulate
  accumulate-IsTallyOf n rs votes [] r = subst (λ x. IsTallyOf x votes) (sym (append-nil rs)) r
  accumulate-IsTallyOf n rs votes (res ∷ rest) r =
      let v = vote_for lib fl votes res in
      let t = add v.tally_count (div (of_int 1) (of_int n)) in
      let votes' = insert (vote_id lib fl res) (set_tally lib fl t v) votes in
      subst (λ x. IsTallyOf x (accumulate lib fl n votes' rest)) (append_assoc rs (res ∷ []) rest)
        (accumulate-IsTallyOf n (rs ++ res ∷ []) votes' rest (count_response rs votes res t r))
