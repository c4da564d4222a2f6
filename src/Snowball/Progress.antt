-- ===== src/Snowball/Progress.antt =====
-- Tick (snowball.go) on votes that agree.
use tupelo.Prelude.{
  ◌%◌, ◌^◌, ℕ, suc, ◌+◌, ◌≤◌, ◌<◌, some, List, [], ◌∷◌, true, false, ◌≡◌, inl, inr, refl, arith,
  length, All, Bool-cases, ◌∙◌, sym, ap, subst,
}
use tupelo.GoString.{Bytes}
use tupelo.External.CidLib.{CidLib}
use tupelo.External.Float.{Float64}
use tupelo.Vote.{Vote, vote_id}
use tupelo.Snowball.{Snowball, tick}
use tupelo.Snowball.Streak.{
  History, run, supported, Prefers, begins, extends, decides, TickOutcome, resets, goes_on,
  tick-TickOutcome, tick-decided, tick-same,
}

module _ (lib : CidLib) (fl : Float64) where
  open fl use {F}

  -- Every tick supports `x`.
  abbrev pub Agrees : F → Bytes → History lib fl → Type 0
  Agrees alpha x h = All (λ votes. supported lib fl alpha votes ≡ some x) h

  -- After `n` ticks that support `x`: decided for `x`, or on a streak of at least `n`.
  data Progress (x : Bytes) (beta n : ℕ) (s : Snowball F) : Type 0 where
    done : s.decided ≡ true → Prefers lib fl x s → Progress x beta n s
    fresh : n ≡ 0 → s.decided ≡ false → Progress x beta n s
    running :
        (l : Vote F)
        → s.decided ≡ false
        → s.last ≡ some l
        → vote_id lib fl l ≡ x
        → n ≤ s.count
        → s.count ≤ beta
        → Progress x beta n s

  progress_outcome :
      (x : Bytes) (n : ℕ) (s t : Snowball F)
      → 1 ≤ s.beta
      → TickOutcome lib fl (some x) s.last s.count s.beta t
      → Progress x s.beta n s
      → s.decided ≡ false
      → Progress x s.beta (suc n) t
  progress_outcome x n s t p (resets u c l d) k f = absurd (cc)
  progress_outcome x n s t p (goes_on m u o) (done d r) f = absurd (cc)
  progress_outcome x n s t p (goes_on m u (begins g l c d)) (fresh z f) _ =
      running m d l (cc) (omega arith) (omega arith)
  progress_outcome x n s t p (goes_on m u (begins g l c d)) (running k f e i a b) _ =
      absurd (g k e (cc))
  progress_outcome x n s t p (goes_on m u (extends l o i k c b d)) (fresh z f) _ =
      running l d k (cc) (omega arith) b
  progress_outcome x n s t p (goes_on m u (extends l o i k c b d)) (running v f e j a y) _ =
      running l d k (cc) (omega arith) b
  progress_outcome x n s t p (goes_on m u (decides l o i b d q)) k _ = done d (l, q, cc)

  tick-Progress :
      (votes : List (Vote F)) (x : Bytes) (n : ℕ) (s : Snowball F)
      → 1 ≤ s.beta
      → supported lib fl s.alpha votes ≡ some x
      → Progress x s.beta n s
      → Progress x s.beta (suc n) (tick lib fl votes s)
  tick-Progress votes x n s p u k = elim (Bool-cases s.decided) [
    | inl d ↦
        let e = tick-decided lib fl votes s d in
        done (ap (λ (t : Snowball F). t.decided) e ∙ d) (still_prefers e (prefers_of d k))
    | inr d ↦
        progress_outcome x n s (tick lib fl votes s) p
          (subst (λ o. TickOutcome lib fl o s.last s.count s.beta (tick lib fl votes s)) u
            (tick-TickOutcome lib fl votes s d))
          k d
  ]
    where
      prefers_of : s.decided ≡ true → Progress x s.beta n s → Prefers lib fl x s
      prefers_of d (done e r) = r
      prefers_of d (fresh z e) = absurd (cc)
      prefers_of d (running l e j i a b) = absurd (cc)

      still_prefers :
          tick lib fl votes s ≡ record s { total_count = (s.total_count + 1) % 2 ^ 64 }
          → Prefers lib fl x s
          → Prefers lib fl x (tick lib fl votes s)
      still_prefers e r = (r.0, ap (λ (t : Snowball F). t.preferred) e ∙ r.1, r.2)

  run-same :
      (h : History lib fl) (s : Snowball F)
      → ((run lib fl s h).alpha ≡ s.alpha) × ((run lib fl s h).beta ≡ s.beta)
  unfolding run
  run-same [] s = (refl, refl)
  run-same (votes ∷ h) s =
      let (a, b) = run-same h s in
      let (a', b') = tick-same lib fl votes (run lib fl s h) in (a' ∙ a, b' ∙ b)

  run-Progress :
      (h : History lib fl) (x : Bytes) (s : Snowball F)
      → 1 ≤ s.beta
      → s.decided ≡ false
      → Agrees s.alpha x h
      → Progress x s.beta (length h) (run lib fl s h)
  unfolding run
  run-Progress [] x s p d a = fresh refl d
  run-Progress (votes ∷ h) x s p d a =
      let t = run lib fl s h in
      let (same_a, same_b) = run-same h s in
      subst (λ b. Progress x b (suc (length h)) (tick lib fl votes t)) same_b
        (tick-Progress votes x (length h) t (omega (arith, same_b))
          (subst (λ a. supported lib fl a votes ≡ some x) (sym same_a) a.0)
          (subst (λ b. Progress x b (length h) t) (sym same_b) (run-Progress h x s p d a.1)))

  -- Where beta is at least 1, more than beta ticks in a row that support `x` make an undecided
  -- Snowball decide for `x`.
  pub agreement_decides :
      (h : History lib fl) (x : Bytes) (s : Snowball F)
      → 1 ≤ s.beta
      → s.decided ≡ false
      → Agrees s.alpha x h
      → s.beta < length h
      → ((run lib fl s h).decided ≡ true) × Prefers lib fl x (run lib fl s h)
  agreement_decides h x s p d a long = conclude (run-Progress h x s p d a)
    where
      conclude :
          Progress x s.beta (length h) (run lib fl s h)
          → ((run lib fl s h).decided ≡ true) × Prefers lib fl x (run lib fl s h)
      conclude (done e r) = (e, r)
      conclude (fresh z e) = absurd (omega arith)
      conclude (running l e j i a' b') = absurd (omega arith)
