-- ===== src/Vote/Tallies/Shares.antt =====
-- The map of votes of calculateTallies stays a tally of the responses (vote.go): every weight finds
-- its vote, and the last division keeps the votes.
use tupelo.Prelude.{
  none, some, List, [], ◌∷◌, Bool, true, false, ◌≡◌, inl, inr, refl, sym, ap, ◌∙◌, subst, In,
  if◌then◌else◌, Bool-cases, arith,
}
use tupelo.GoString.{Bytes, bytes_eq, bytes_eq_inst}
use tupelo.GoMap.{GoMap, lookup, insert, HasUniqueKeys}
use tupelo.External.CidLib.{CidLib}
use tupelo.External.Float.{Float64}
use tupelo.Vote.{Vote, zero_vote_id, vote_id, vote_length}
use tupelo.Vote.Tallies.{
  Votes, Weights, weight_of, set_tally, profit_from, map_weights, compute_profit_weights, normalize,
  scale, divide_tallies,
}
use tupelo.Vote.Tallies.Represents.{IsVoteOf, IsTallyOf, retally}

-- A property of every key of a map.
abbrev pub AllKeys : {V : Type 0} → (Bytes → Type 0) → GoMap Bytes V → Type 0
AllKeys P [] = Unit
AllKeys P ((k, w) ∷ m) = P k × AllKeys P m

AllKeys-insert :
    {V : Type 0} (P : Bytes → Type 0) (k : Bytes) (w : V) (m : GoMap Bytes V)
    → P k
    → AllKeys P m
    → AllKeys P (insert k w m)
unfolding insert
AllKeys-insert P k w [] p a = (p, tt)
AllKeys-insert P k w ((j, v) ∷ m) p a = elim (Bool-cases (bytes_eq j k)) [
  | inl same ↦ rw same a
  | inr other ↦ rw other (a.0, AllKeys-insert P k w m p a.1)
]

module _ (lib : CidLib) (fl : Float64) where
  open fl use {F, of_int, add, div, mul, lt}

  -- The identifier of one of the responses.
  abbrev pub IsIdOf : List (Vote F) → Bytes → Type 0
  IsIdOf rs k = (r : Vote F) × In r rs × (vote_id lib fl r ≡ k)

  profit_from-AllKeys :
      (P : Bytes → Type 0) (weights : Weights lib fl) (max : F) (rest : List (Vote F))
      → AllKeys P weights
      → ((r : Vote F) → In r rest → P (vote_id lib fl r))
      → AllKeys P (profit_from lib fl weights max rest).0
  unfolding profit_from
  profit_from-AllKeys P weights max [] a h = a
  profit_from-AllKeys P weights max (res ∷ rest) a h =
      let k = vote_id lib fl res in
      let skip = bytes_eq k zero_vote_id in
      let w = add (weight_of lib fl k weights) (vote_length lib fl res) in
      profit_from-AllKeys P (if skip then weights else insert k w weights)
        (if skip then max else if lt max w then w else max) rest
        (either weights (insert k w weights) skip a
          (AllKeys-insert P k w weights (h res (inl refl)) a))
        (λ r i. h r (inr i))
    where
      either :
          (x y : Weights lib fl) (b : Bool)
          → AllKeys P x
          → AllKeys P y
          → AllKeys P (if b then x else y)
      either x y true p q = p
      either x y false p q = q

  map_weights-AllKeys :
      (P : Bytes → Type 0) (f : F → F) (m : Weights lib fl)
      → AllKeys P m
      → AllKeys P (map_weights lib fl f m)
  unfolding map_weights
  map_weights-AllKeys P f [] a = tt
  map_weights-AllKeys P f ((k, w) ∷ m) a = (a.0, map_weights-AllKeys P f m a.1)

  pub weights-AllKeys :
      (rs : List (Vote F))
      → AllKeys (IsIdOf rs) (normalize lib fl (compute_profit_weights lib fl rs))
  unfolding normalize compute_profit_weights
  weights-AllKeys rs = map_weights-AllKeys (IsIdOf rs) _ _ (
      map_weights-AllKeys (IsIdOf rs) _ _ (
        map_weights-AllKeys (IsIdOf rs) _ _
          (profit_from-AllKeys (IsIdOf rs) [] (of_int 0) rs tt (λ r i. (r, i, refl)))))

  -- Every weight finds its vote.
  pub scale-IsTallyOf :
      (rs : List (Vote F)) (votes : Votes lib fl) (m : Weights lib fl)
      → IsTallyOf lib fl rs votes
      → AllKeys (IsIdOf rs) m
      → (votes' : Votes lib fl) × (scale lib fl votes m ≡ some votes') × IsTallyOf lib fl rs votes'
  unfolding scale
  scale-IsTallyOf rs votes [] r a = (votes, refl, r)
  scale-IsTallyOf rs votes ((k, w) ∷ m) r a =
      let (x, i, e) = a.0 in
      let (v, f) = r.covers x i in
      let there : lookup k votes ≡ some v = ap (λ j. lookup j votes) (sym e) ∙ f in
      let t = mul v.tally_count w in
      let (votes', g, r') =
        scale-IsTallyOf rs (insert k (set_tally lib fl t v) votes) m
          (retally lib fl rs votes k v t r there) a.1 in
      (votes', rw (there, scale) g, r')

  divide_tallies-some :
      (total : F) (k : Bytes) (votes : Votes lib fl) {v : Vote F}
      → lookup k (divide_tallies lib fl total votes) ≡ some v
      → (u : Vote F) × (lookup k votes ≡ some u)
        × (set_tally lib fl (div u.tally_count total) u ≡ v)
  unfolding divide_tallies lookup
  divide_tallies-some total k [] h = absurd (cc)
  divide_tallies-some total k ((j, w) ∷ m) h = elim (Bool-cases (bytes_eq j k)) [
    | inl same ↦ (w, ground arith, ground arith)
    | inr other ↦
        let (u, e, f) = divide_tallies-some total k m (ground arith) in (u, ground arith, f)
  ]

  lookup-divide_tallies :
      (total : F) (k : Bytes) (votes : Votes lib fl) {u : Vote F}
      → lookup k votes ≡ some u
      → lookup k (divide_tallies lib fl total votes)
        ≡ some (set_tally lib fl (div u.tally_count total) u)
  unfolding divide_tallies lookup
  lookup-divide_tallies total k [] h = absurd (cc)
  lookup-divide_tallies total k ((j, w) ∷ m) h = elim (Bool-cases (bytes_eq j k)) [
    | inl same ↦ ground arith
    | inr other ↦ rw other (lookup-divide_tallies total k m (ground arith))
  ]

  divide_tallies-none :
      (total : F) (k : Bytes) (votes : Votes lib fl)
      → lookup k votes ≡ none
      → lookup k (divide_tallies lib fl total votes) ≡ none
  unfolding divide_tallies lookup
  divide_tallies-none total k [] h = refl
  divide_tallies-none total k ((j, w) ∷ m) h = ground (arith, divide_tallies-none total k m)

  divide_tallies-HasUniqueKeys :
      (total : F) (votes : Votes lib fl)
      → HasUniqueKeys votes
      → HasUniqueKeys (divide_tallies lib fl total votes)
  unfolding divide_tallies
  divide_tallies-HasUniqueKeys total [] u = tt
  divide_tallies-HasUniqueKeys total ((j, w) ∷ m) u =
      (divide_tallies-none total j m u.0, divide_tallies-HasUniqueKeys total m u.1)

  pub divide_tallies-IsTallyOf :
      (rs : List (Vote F)) (total : F) (votes : Votes lib fl)
      → IsTallyOf lib fl rs votes
      → IsTallyOf lib fl rs (divide_tallies lib fl total votes)
  divide_tallies-IsTallyOf rs total votes r = record {
    keyed = λ k v h.
        let (u, e, f) = divide_tallies-some total k votes h in
        subst (λ (x : Vote F). (vote_id lib fl x ≡ k) × IsVoteOf lib fl rs x) f
          (unfold vote_id in (r.keyed k u e).0, (r.keyed k u e).1);
    unique = divide_tallies-HasUniqueKeys total votes r.unique;
    covers = λ x i.
        let (u, e) = r.covers x i in
        (
          set_tally lib fl (div u.tally_count total) u,
          lookup-divide_tallies total (vote_id lib fl x) votes e,
        );
  }
