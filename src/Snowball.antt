-- ===== src/Snowball.antt =====
-- signer/gossip/snowball.go: one node's Snowball consensus on the checkpoint of a round. The lock
-- and the tracing are left out: each method is one step. A vote's memoised identifier is not
-- tracked (Vote.vote_id-with_id).
pub mod Majority
pub mod Streak
pub mod Decision
pub mod Progress
pub mod Counts
use tupelo.Prelude.{
  ℕ, ◌+◌, ◌%◌, ◌^◌, Option, none, some, List, [], ◌∷◌, Bool, true, false, ltb, length,
  if◌then◌else◌,
}
use tupelo.GoString.{Bytes, bytes_eq, bytes_eq_inst}
use tupelo.GoMap.{GoMap, lookup, insert}
use tupelo.External.CidLib.{CidLib}
use tupelo.External.Float.{Float64}
use tupelo.Vote.{Vote, zero_vote_id, vote_id}

pub record Snowball (F : Type 0) : Type 0 where
  pub alpha : F
  pub beta : ℕ
  pub k : ℕ
  pub count : ℕ
  pub counts : GoMap Bytes ℕ
  pub total_count : ℕ
  pub preferred : Option (Vote F)
  pub last : Option (Vote F)
  pub decided : Bool

-- `m[k]` on a map of numbers: a missing key reads 0.
abbrev pub count_of : Bytes → GoMap Bytes ℕ → ℕ
count_of k m = elim (lookup k m) [ none ↦ 0 | some n ↦ n ]

-- `counts[k]++` on a uint16
abbrev pub bump_count : Bytes → GoMap Bytes ℕ → GoMap Bytes ℕ
bump_count k m = insert k ((count_of k m + 1) % 2 ^ 16) m

module _ (lib : CidLib) (fl : Float64) where
  open fl use {F, of_int, mul, div, lt}

  -- NewSnowball
  unfoldable pub new_snowball : F → ℕ → ℕ → Snowball F
  new_snowball alpha beta k = record {
    alpha = alpha;
    beta = beta;
    k = k;
    count = 0;
    counts = [];
    total_count = 0;
    preferred = none;
    last = none;
    decided = false;
  }

  -- Snowball.Reset
  unfoldable pub reset : Snowball F → Snowball F
  reset s = record s { preferred = none; last = none; counts = []; count = 0; decided = false }

  -- Snowball.PreferInLock, and Snowball.Prefer, which takes the lock first
  unfoldable pub prefer : Vote F → Snowball F → Snowball F
  prefer v s = record s {
    preferred = some v;
    counts = elim (lookup (vote_id lib fl v) s.counts) [
      | none ↦ insert (vote_id lib fl v) 1 s.counts
      | some n ↦ s.counts
    ];
  }

  -- One round of Tick's loop over the votes.
  unfoldable pub best : Option (Vote F) → Vote F → Option (Vote F)
  best none v = if bytes_eq (vote_id lib fl v) zero_vote_id then none else some v
  best (some m) v =
      if bytes_eq (vote_id lib fl v) zero_vote_id
      then some m
      else if lt m.tally_count v.tally_count
      then some v
      else some m

  -- Tick's loop: the first of the non-empty votes with the highest tally.
  unfoldable pub majority_from : Option (Vote F) → List (Vote F) → Option (Vote F)
  majority_from acc [] = acc
  majority_from acc (v ∷ vs) = majority_from (best acc v) vs

  unfoldable pub majority : List (Vote F) → Option (Vote F)
  majority vs = majority_from none vs

  -- s.alpha*2/denom, where denom is at least 2
  unfoldable pub threshold : F → ℕ → F
  threshold alpha n =
      let denom = if lt (of_int n) (of_int 2) then of_int 2 else of_int n in
      div (mul alpha (of_int 2)) denom

  -- The branch of Tick for a majority below the threshold.
  unfoldable pub below_threshold : Vote F → Snowball F → Snowball F
  unfolding prefer
  below_threshold m s =
      let s' : Snowball F = elim s.preferred [ none ↦ prefer m s | some p ↦ s ] in
      record s' { count = 0 }

  -- `s.preferred == nil || s.counts[majority.ID()] > s.counts[s.preferred.ID()]`
  unfoldable pub overtakes : Vote F → Snowball F → Bool
  overtakes m s = elim s.preferred [
    | none ↦ true
    | some p ↦ ltb (count_of (vote_id lib fl p) s.counts) (count_of (vote_id lib fl m) s.counts)
  ]

  -- The `else` branch at the end of Tick: one more tick in a row with this majority. `l` is s.last.
  unfoldable pub extend_streak : Vote F → Snowball F → Snowball F
  unfolding prefer
  extend_streak l s =
      let s' = record s { count = s.count + 1 } in
      if ltb s'.beta s'.count then record (prefer l s') { decided = true } else s'

  -- The end of Tick: a new streak, or one more tick of the streak.
  unfoldable pub count_streak : Vote F → Option (Vote F) → Snowball F → Snowball F
  unfolding extend_streak
  count_streak m none s = record s { last = some m; count = 1 }
  count_streak m (some l) s =
      if bytes_eq (vote_id lib fl m) (vote_id lib fl l)
      then extend_streak l s
      else record s { last = some m; count = 1 }

  -- Tick counts the majority, and prefers it if it overtakes.
  unfoldable pub count_majority : Vote F → Snowball F → Snowball F
  unfolding overtakes
  count_majority m s =
      let s' = record s { counts = bump_count (vote_id lib fl m) s.counts } in
      if overtakes m s' then record s' { preferred = some m } else s'

  -- The branch of Tick for a majority that reaches the threshold.
  unfoldable pub above_threshold : Vote F → Snowball F → Snowball F
  unfolding count_majority count_streak
  above_threshold m s = let s' = count_majority m s in count_streak m s'.last s'

  -- Tick on an undecided state, with the majority of `n` votes. The logs, and with them the
  -- identifier of the preferred vote's checkpoint that one of them prints, are left out.
  unfoldable pub tick_majority : ℕ → Option (Vote F) → Snowball F → Snowball F
  unfolding below_threshold above_threshold threshold
  tick_majority n none s = record s { count = 0 }
  tick_majority n (some m) s =
      if lt m.tally_count (threshold s.alpha n) then below_threshold m s else above_threshold m s

  -- Snowball.Tick; `totalCount` is a uint64.
  unfoldable pub tick : List (Vote F) → Snowball F → Snowball F
  unfolding tick_majority
  tick votes s =
      let s' = record s { total_count = (s.total_count + 1) % 2 ^ 64 } in
      if s.decided then s' else tick_majority (length votes) (majority votes) s'
