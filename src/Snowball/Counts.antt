-- ===== src/Snowball/Counts.antt =====
-- The counts of Snowball and its preference (snowball.go, `counts` and PreferInLock).
use tupelo.Prelude.{
  ltb→lt, if◌then◌else◌, ℕ, ◌+◌, ◌%◌, ◌^◌, ◌≤◌, ◌<◌, Option, none, some, List, [], ◌∷◌, true, false,
  ◌≡◌, ◌⊎◌, inl, inr, refl, arith, Bool-cases, sym, ap, subst, ltb, length,
}
use tupelo.Prelude.Eq.{eq_refl, ◌==◌}
use native.Mathlib.Nat.{le_refl}
use tupelo.GoString.{Bytes, bytes_eq_inst, bytes_eq_iff}
use tupelo.GoMap.{GoMap}
use tupelo.GoMap.Laws.{lookup-insert}
use tupelo.External.CidLib.{CidLib}
use tupelo.External.Float.{Float64}
use tupelo.Vote.{Vote, vote_id}
use tupelo.Snowball.Streak.{History, run, tick-decided, tick-undecided}
use tupelo.Snowball.{
  majority, threshold, overtakes, Snowball, count_of, bump_count, prefer, count_majority,
  below_threshold, above_threshold, count_streak, tick_majority, tick,
}

module _ (lib : CidLib) (fl : Float64) where
  open fl use {F}

  -- Without a preference nothing is counted; a preference has the highest count.
  abbrev pub Leads : Option (Vote F) → GoMap Bytes ℕ → Type 0
  Leads none counts = (k : Bytes) → count_of k counts ≡ 0
  Leads (some p) counts = (k : Bytes) → count_of k counts ≤ count_of (vote_id lib fl p) counts

  -- After `n` ticks no count passes n + 1 (PreferInLock may set the first).
  abbrev pub IsLedBy : ℕ → Option (Vote F) → GoMap Bytes ℕ → Type 0
  IsLedBy n preferred counts = Leads preferred counts × ((k : Bytes) → count_of k counts ≤ n + 1)

  count_of-bump :
      (x k : Bytes) (m : GoMap Bytes ℕ)
      → count_of k (bump_count x m) ≡ (if x == k then (count_of x m + 1) % 2 ^ 16 else count_of k m)
  count_of-bump x k m = ground (arith, lookup-insert x k ((count_of x m + 1) % 2 ^ 16) m)

  -- The counts after PreferInLock of an identifier.
  count_of-prefer :
      (v : Vote F) (k : Bytes) (s : Snowball F)
      → (count_of k (prefer lib fl v s).counts ≡ count_of k s.counts)
        ⊎ ((count_of k s.counts ≡ 0)
            × (k ≡ vote_id lib fl v)
            × (count_of k (prefer lib fl v s).counts ≡ 1))
  unfolding prefer
  count_of-prefer v k s =
      ground
        (arith, lookup-insert (vote_id lib fl v) k 1 s.counts, bytes_eq_iff (vote_id lib fl v) k)

  overtaken :
      (m p : Vote F) (k : Bytes) (counts : GoMap Bytes ℕ)
      → count_of k counts ≤ count_of (vote_id lib fl p) counts
      → count_of (vote_id lib fl m) counts + 1 < 2 ^ 16
      → let counts' = bump_count (vote_id lib fl m) counts in
        count_of (vote_id lib fl p) counts' < count_of (vote_id lib fl m) counts'
        → count_of k counts' ≤ count_of (vote_id lib fl m) counts'
  overtaken m p k counts h b o = ground (
    arith,
    count_of-bump (vote_id lib fl m) k counts,
    count_of-bump (vote_id lib fl m) (vote_id lib fl m) counts,
    count_of-bump (vote_id lib fl m) (vote_id lib fl p) counts,
    bytes_eq_iff (vote_id lib fl m) k,
    bytes_eq_iff (vote_id lib fl m) (vote_id lib fl p),
    eq_refl (vote_id lib fl m),
  )

  not_overtaken :
      (m p : Vote F) (k : Bytes) (counts : GoMap Bytes ℕ)
      → count_of k counts ≤ count_of (vote_id lib fl p) counts
      → count_of (vote_id lib fl m) counts + 1 < 2 ^ 16
      → let counts' = bump_count (vote_id lib fl m) counts in
        ltb (count_of (vote_id lib fl p) counts') (count_of (vote_id lib fl m) counts') ≡ false
        → count_of k counts' ≤ count_of (vote_id lib fl p) counts'
  not_overtaken m p k counts h b o = ground (
    arith,
    count_of-bump (vote_id lib fl m) k counts,
    count_of-bump (vote_id lib fl m) (vote_id lib fl m) counts,
    count_of-bump (vote_id lib fl m) (vote_id lib fl p) counts,
    bytes_eq_iff (vote_id lib fl m) k,
    bytes_eq_iff (vote_id lib fl m) (vote_id lib fl p),
    eq_refl (vote_id lib fl m),
  )

  bump-bounded :
      (x k : Bytes) (n : ℕ) (counts : GoMap Bytes ℕ)
      → count_of k counts ≤ n
      → count_of x counts ≤ n
      → count_of k (bump_count x counts) ≤ n + 1
  bump-bounded x k n counts h g = ground (arith, count_of-bump x k counts)

  first_counted :
      (m : Vote F) (k : Bytes) (counts : GoMap Bytes ℕ)
      → count_of k counts ≡ 0
      → count_of (vote_id lib fl m) counts ≡ 0
      → let counts' = bump_count (vote_id lib fl m) counts in
        count_of k counts' ≤ count_of (vote_id lib fl m) counts'
  first_counted m k counts h g = ground (
    arith,
    count_of-bump (vote_id lib fl m) k counts,
    count_of-bump (vote_id lib fl m) (vote_id lib fl m) counts,
    eq_refl (vote_id lib fl m),
  )

  room : (c n : ℕ) → c ≤ n + 1 → n + 2 < 2 ^ 16 → c + 1 < 2 ^ 16
  room c n h w = omega arith

  -- One counted majority, with fewer than 2^16 ticks so far.
  count_majority-IsLedBy :
      (n : ℕ) (m : Vote F) (o : Option (Vote F)) (s : Snowball F)
      → s.preferred ≡ o
      → n + 2 < 2 ^ 16
      → IsLedBy n o s.counts
      → IsLedBy (n + 1) (count_majority lib fl m s).preferred (count_majority lib fl m s).counts
  unfolding count_majority
  count_majority-IsLedBy n m none s e w (r, b) =
      rw (e, overtakes)
        (
          (λ k. first_counted m k s.counts (r k) (r (vote_id lib fl m))),
          (λ k. bump-bounded (vote_id lib fl m) k (n + 1) s.counts (b k) (b (vote_id lib fl m))),
        )
  count_majority-IsLedBy n m (some p) s e w (r, b) =
      elim (Bool-cases (
        ltb (count_of (vote_id lib fl p) (bump_count (vote_id lib fl m) s.counts))
          (count_of (vote_id lib fl m) (bump_count (vote_id lib fl m) s.counts)))) [
            | inl o ↦
                rw (e, overtakes, o)
                  (
                    (λ k.
                        overtaken m p k s.counts (r k) (room _ n (b (vote_id lib fl m)) w)
                          (ltb→lt _ _ o)),
                    (λ k.
                        bump-bounded (vote_id lib fl m) k (n + 1) s.counts (b k)
                          (b (vote_id lib fl m))),
                  )
            | inr o ↦
                rw (e, overtakes, o)
                  (
                    (λ k. not_overtaken m p k s.counts (r k) (room _ n (b (vote_id lib fl m)) w) o),
                    (λ k.
                        bump-bounded (vote_id lib fl m) k (n + 1) s.counts (b k)
                          (b (vote_id lib fl m))),
                  )
          ]

  prefer-Leads :
      (v : Vote F) (k : Bytes) (s : Snowball F)
      → count_of k s.counts ≡ 0
      → count_of k (prefer lib fl v s).counts
        ≤ count_of (vote_id lib fl v) (prefer lib fl v s).counts
  prefer-Leads v k s z = elim (count_of-prefer v k s) [
    | inl same ↦ omega arith
    | inr (_, e, _) ↦ rw e (le_refl _)
  ]

  prefer-bounded :
      (v : Vote F) (k : Bytes) (n : ℕ) (s : Snowball F)
      → count_of k s.counts ≤ n + 1
      → count_of k (prefer lib fl v s).counts ≤ n + 1 + 1
  prefer-bounded v k n s b = elim (count_of-prefer v k s) [
    | inl same ↦ omega arith
    | inr (_, _, one) ↦ omega arith
  ]

  below_threshold-IsLedBy :
      (n : ℕ) (m : Vote F) (o : Option (Vote F)) (s : Snowball F)
      → s.preferred ≡ o
      → IsLedBy n o s.counts
      → IsLedBy (n + 1) (below_threshold lib fl m s).preferred (below_threshold lib fl m s).counts
  unfolding below_threshold
  below_threshold-IsLedBy n m none s e (r, b) =
      rw e ((λ k. prefer-Leads m k s (r k)), (λ k. prefer-bounded m k n s (b k)))
  below_threshold-IsLedBy n m (some p) s e (r, b) =
      rw e (subst (λ q. Leads q s.counts) (sym e) r, (λ k. omega (arith, b k)))

  count_streak-keeps :
      (m : Vote F) (o : Option (Vote F)) (s : Snowball F)
      → (count_streak lib fl m o s).decided ≡ false
      → ((count_streak lib fl m o s).preferred ≡ s.preferred)
        × ((count_streak lib fl m o s).counts ≡ s.counts)
  unfolding count_streak
  count_streak-keeps m none s u = (refl, refl)
  count_streak-keeps m (some l) s u = ground arith

  above_threshold-IsLedBy :
      (n : ℕ) (m : Vote F) (s : Snowball F)
      → n + 2 < 2 ^ 16
      → IsLedBy n s.preferred s.counts
      → (above_threshold lib fl m s).decided ≡ false
      → IsLedBy (n + 1) (above_threshold lib fl m s).preferred (above_threshold lib fl m s).counts
  unfolding above_threshold
  above_threshold-IsLedBy n m s w r u =
      let t = count_majority lib fl m s in
      let (p, c) = count_streak-keeps m t.last t u in
      rw (p, c) (count_majority-IsLedBy n m s.preferred s refl w r)

  tick_majority-IsLedBy :
      (n i : ℕ) (o : Option (Vote F)) (s : Snowball F)
      → n + 2 < 2 ^ 16
      → IsLedBy n s.preferred s.counts
      → (tick_majority lib fl i o s).decided ≡ false
      → IsLedBy (n + 1) (tick_majority lib fl i o s).preferred (tick_majority lib fl i o s).counts
  unfolding tick_majority
  tick_majority-IsLedBy n i none s w r u = (r.0, (λ k. omega (arith, r.1 k)))
  tick_majority-IsLedBy n i (some m) s w r u =
      (elim (fl.lt m.tally_count (threshold lib fl s.alpha i))
          as (λ b.
            let t = if b then below_threshold lib fl m s else above_threshold lib fl m s in
            t.decided ≡ false → IsLedBy (n + 1) t.preferred t.counts) [
              | true ↦ λ _. below_threshold-IsLedBy n m s.preferred s refl r
              | false ↦ above_threshold-IsLedBy n m s w r
            ])
        u

  tick-IsLedBy :
      (n : ℕ) (votes : List (Vote F)) (s : Snowball F)
      → n + 2 < 2 ^ 16
      → s.decided ≡ false
      → IsLedBy n s.preferred s.counts
      → (tick lib fl votes s).decided ≡ false
      → IsLedBy (n + 1) (tick lib fl votes s).preferred (tick lib fl votes s).counts
  tick-IsLedBy n votes s w d r u =
      let s' = record s { total_count = (s.total_count + 1) % 2 ^ 64 } in
      subst (λ (t : Snowball F). t.decided ≡ false → IsLedBy (n + 1) t.preferred t.counts)
        (sym (tick-undecided lib fl votes s d))
        (tick_majority-IsLedBy n (length votes) (majority lib fl votes) s' w r) u

  was_undecided :
      (votes : List (Vote F)) (s : Snowball F)
      → (tick lib fl votes s).decided ≡ false
      → s.decided ≡ false
  was_undecided votes s u = elim (Bool-cases s.decided) [
    | inl d ↦ absurd (cc (ap (λ (t : Snowball F). t.decided) (tick-decided lib fl votes s d)))
    | inr d ↦ d
  ]

  -- From counts of at most 1 that the preference leads (as in a new Snowball), over fewer than
  -- 2^16 - 1 ticks no uint16 count wraps, and while undecided the preference keeps
  -- the highest count.
  pub run-IsLedBy :
      (h : History lib fl) (s : Snowball F)
      → length h + 1 < 2 ^ 16
      → IsLedBy 0 s.preferred s.counts
      → (run lib fl s h).decided ≡ false
      → IsLedBy (length h) (run lib fl s h).preferred (run lib fl s h).counts
  unfolding run
  run-IsLedBy [] s w r u = r
  run-IsLedBy (votes ∷ h) s w r u =
      let d = was_undecided votes (run lib fl s h) u in
      subst (λ n. IsLedBy n (run lib fl s (votes ∷ h)).preferred (run lib fl s (votes ∷ h)).counts)
        (omega arith)
        (tick-IsLedBy (length h) votes (run lib fl s h) (omega arith) d
          (run-IsLedBy h s (omega arith) r d) u)
