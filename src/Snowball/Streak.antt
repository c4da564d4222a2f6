-- ===== src/Snowball/Streak.antt =====
-- The streak of ticks with one majority (snowball.go, the end of Tick), and what each tick makes of
-- it.
use tupelo.Prelude.{
  subst, sym, ap, ◌∙◌, ltb, ℕ, suc, ◌+◌, ◌%◌, ◌^◌, ◌≤◌, ◌<◌, Option, none, some, List, [], ◌∷◌,
  true, false, ◌≡◌, inl, inr, refl, arith, length, if◌then◌else◌, Bool-cases, ◌≢◌,
}
use tupelo.Prelude.Eq.{eq_refl}
use tupelo.GoString.{Bytes, bytes_eq, bytes_eq_iff, bytes_eq_inst}
use tupelo.External.CidLib.{CidLib}
use tupelo.External.Float.{Float64}
use tupelo.Vote.{Vote, vote_id}
use tupelo.Snowball.{
  below_threshold, count_majority, Snowball, above_threshold, count_streak, tick, tick_majority,
  threshold, majority,
}

module _ (lib : CidLib) (fl : Float64) where
  open fl use {F, lt}

  -- The ticks of one round, the newest first.
  abbrev pub History : Type 0
  History = List (List (Vote F))

  unfoldable pub run : Snowball F → History → Snowball F
  run s [] = s
  run s (votes ∷ h) = tick lib fl votes (run s h)

  -- The identifier of the majority of `n` votes that reaches the threshold.
  supported_majority : F → ℕ → Option (Vote F) → Option Bytes
  supported_majority alpha n none = none
  supported_majority alpha n (some m) =
      if lt m.tally_count (threshold lib fl alpha n) then none else some (vote_id lib fl m)

  unfoldable pub supported : F → List (Vote F) → Option Bytes
  unfolding supported_majority
  supported alpha votes = supported_majority alpha (length votes) (majority lib fl votes)

  abbrev supports_test : Bytes → Option Bytes → ℕ → ℕ
  supports_test x none n = 0
  supports_test x (some y) n = if bytes_eq x y then suc n else 0

  -- How many of the latest ticks in a row had the majority `x`.
  unfoldable pub streak : F → Bytes → History → ℕ
  streak alpha x [] = 0
  streak alpha x (votes ∷ h) = supports_test x (supported alpha votes) (streak alpha x h)

  -- The preferred vote is one for `x`.
  abbrev pub Prefers : Bytes → Snowball F → Type 0
  Prefers x s = (v : Vote F) × (s.preferred ≡ some v) × (vote_id lib fl v ≡ x)

  -- A decided Snowball only counts its ticks.
  pub tick-decided :
      (votes : List (Vote F)) (s : Snowball F)
      → s.decided ≡ true
      → tick lib fl votes s ≡ record s { total_count = (s.total_count + 1) % 2 ^ 64 }
  unfolding tick
  tick-decided votes s d = rw d

  pub tick-undecided :
      (votes : List (Vote F)) (s : Snowball F)
      → s.decided ≡ false
      → tick lib fl votes s
        ≡ tick_majority lib fl
            (length votes)
            (majority lib fl votes)
            (record s { total_count = (s.total_count + 1) % 2 ^ 64 })
  unfolding tick
  tick-undecided votes s d =
      let s' = record s { total_count = (s.total_count + 1) % 2 ^ 64 } in
      ap (λ b. if b then s' else tick_majority lib fl (length votes) (majority lib fl votes) s') d

  pub tick-same :
      (votes : List (Vote F)) (s : Snowball F)
      → ((tick lib fl votes s).alpha ≡ s.alpha) × ((tick lib fl votes s).beta ≡ s.beta)
  unfolding tick
  tick-same votes s = ground arith

  -- What a tick with support for the identifier of `m` makes of a streak.
  pub data Outcome (m : Vote F) (last : Option (Vote F)) (count beta : ℕ) (t : Snowball F)
      : Type 0 where
    begins :
        ((l : Vote F) → last ≡ some l → vote_id lib fl m ≢ vote_id lib fl l)
        → t.last ≡ some m
        → t.count ≡ 1
        → t.decided ≡ false
        → Outcome m last count beta t
    extends :
        (l : Vote F)
        → last ≡ some l
        → vote_id lib fl m ≡ vote_id lib fl l
        → t.last ≡ some l
        → t.count ≡ count + 1
        → t.count ≤ beta
        → t.decided ≡ false
        → Outcome m last count beta t
    decides :
        (l : Vote F)
        → last ≡ some l
        → vote_id lib fl m ≡ vote_id lib fl l
        → beta < count + 1
        → t.decided ≡ true
        → t.preferred ≡ some l
        → Outcome m last count beta t

  count_streak-Outcome :
      (m : Vote F) (o : Option (Vote F)) (s : Snowball F)
      → s.last ≡ o
      → s.decided ≡ false
      → Outcome m o s.count s.beta (count_streak lib fl m o s)
  unfolding count_streak
  count_streak-Outcome m none s e d = begins (λ l h. cc) refl refl d
  count_streak-Outcome m (some l) s e d =
      elim (Bool-cases (bytes_eq (vote_id lib fl m) (vote_id lib fl l))) [
        | inl same ↦ elim (Bool-cases (ltb s.beta (s.count + 1))) [
          | inl enough ↦
              rw (same, enough)
                (decides l refl ((bytes_eq_iff _ _).0 same) (ground arith) refl refl)
          | inr few ↦
              rw (same, few) (extends l refl ((bytes_eq_iff _ _).0 same) e refl (ground arith) d)
        ]
        | inr other ↦ rw other (
            begins (λ k h q. ground (arith, bytes_eq_iff (vote_id lib fl m) (vote_id lib fl l)))
              refl refl d)
      ]

  count_majority-same :
      (m : Vote F) (s : Snowball F)
      → ((count_majority lib fl m s).last ≡ s.last)
        × ((count_majority lib fl m s).count ≡ s.count)
        × ((count_majority lib fl m s).beta ≡ s.beta)
        × ((count_majority lib fl m s).decided ≡ s.decided)
  unfolding count_majority
  count_majority-same m s = ground arith

  Outcome-from :
      (m : Vote F) {o o' : Option (Vote F)} {c c' b b' : ℕ} {t : Snowball F}
      → o' ≡ o
      → c' ≡ c
      → b' ≡ b
      → Outcome m o' c' b' t
      → Outcome m o c b t
  Outcome-from m p q r x = rw (p, q, r) at x

  above_threshold-Outcome :
      (m : Vote F) (s : Snowball F)
      → s.decided ≡ false
      → Outcome m s.last s.count s.beta (above_threshold lib fl m s)
  unfolding above_threshold
  above_threshold-Outcome m s d =
      let k = count_majority-same m s in
      let t = count_majority lib fl m s in
      Outcome-from m k.0 k.1 k.2 (count_streak-Outcome m t.last t refl (k.3 ∙ d))

  -- What a tick makes of an undecided Snowball, by the support of its votes.
  pub data TickOutcome (support : Option Bytes) (last : Option (Vote F)) (count beta : ℕ)
      (t : Snowball F) : Type 0 where
    resets :
        support ≡ none
        → t.count ≡ 0
        → t.last ≡ last
        → t.decided ≡ false
        → TickOutcome support last count beta t
    goes_on :
        (m : Vote F)
        → support ≡ some (vote_id lib fl m)
        → Outcome m last count beta t
        → TickOutcome support last count beta t

  below_threshold-same :
      (m : Vote F) (s : Snowball F)
      → ((below_threshold lib fl m s).count ≡ 0)
        × ((below_threshold lib fl m s).last ≡ s.last)
        × ((below_threshold lib fl m s).decided ≡ s.decided)
  unfolding below_threshold
  below_threshold-same m s = ground arith

  tick_majority-TickOutcome :
      (n : ℕ) (o : Option (Vote F)) (s : Snowball F)
      → s.decided ≡ false
      → TickOutcome
          (supported_majority s.alpha n o)
          s.last
          s.count
          s.beta
          (tick_majority lib fl n o s)
  unfolding tick_majority supported_majority
  tick_majority-TickOutcome n none s d = resets refl refl refl d
  tick_majority-TickOutcome n (some m) s d =
      elim (Bool-cases (lt m.tally_count (threshold lib fl s.alpha n))) [
        | inl low ↦ let k = below_threshold-same m s in rw low (resets refl k.0 k.1 (k.2 ∙ d))
        | inr high ↦ rw high (goes_on m refl (above_threshold-Outcome m s d))
      ]

  pub tick-TickOutcome :
      (votes : List (Vote F)) (s : Snowball F)
      → s.decided ≡ false
      → TickOutcome (supported s.alpha votes) s.last s.count s.beta (tick lib fl votes s)
  unfolding tick supported
  tick-TickOutcome votes s d =
      let s' = record s { total_count = (s.total_count + 1) % 2 ^ 64 } in
      subst (λ t. TickOutcome (supported s.alpha votes) s.last s.count s.beta t)
        (sym (tick-undecided votes s d))
        (tick_majority-TickOutcome (length votes) (majority lib fl votes) s' d)

  -- A tick that supports `x` makes the streak of `x` longer.
  pub streak-supported :
      (alpha : F) (x : Bytes) (votes : List (Vote F)) (h : History)
      → supported alpha votes ≡ some x
      → streak alpha x (votes ∷ h) ≡ suc (streak alpha x h)
  unfolding streak
  streak-supported alpha x votes h e = ground (arith, eq_refl x)
