-- ===== src/Snowball/Decision.antt =====
-- The decision of Snowball and the streaks of ticks before it (snowball.go, Tick).

use tupelo.Prelude.{
  subst, ℕ, ◌≤◌, ◌<◌, Option, none, some, List, [], ◌∷◌, ◌++◌, true, false, ◌≡◌, inl, inr, refl,
  arith, Bool-cases, ◌∙◌, sym, ap,
}
use tupelo.GoString.{Bytes}
use tupelo.External.CidLib.{CidLib}
use tupelo.External.Float.{Float64}
use tupelo.Vote.{Vote, vote_id}
use tupelo.Snowball.{Snowball, tick}
use tupelo.Snowball.Streak.{
  History, run, supported, streak, Prefers, begins, extends, decides, TickOutcome, resets, goes_on,
  tick-TickOutcome, tick-decided, tick-same, streak-supported,
}

module _ (lib : CidLib) (fl : Float64) where
  open fl use {F}

  abbrev LastBound : F → History lib fl → Option (Vote F) → ℕ → Type 0
  LastBound alpha h none count = count ≡ 0
  LastBound alpha h (some l) count = count ≤ streak lib fl alpha (vote_id lib fl l) h

  last_bound :
      (alpha : F) (h : History lib fl) {o : Option (Vote F)} {c : ℕ} (l : Vote F)
      → o ≡ some l
      → LastBound alpha h o c
      → c ≤ streak lib fl alpha (vote_id lib fl l) h
  last_bound alpha h l e b = rw e at b

  -- A decision was preceded by a long enough streak for what it prefers.
  pub record IsJustified (alpha : F) (beta : ℕ) (h : History lib fl) (s : Snowball F) : Type 0 where
    pub choice : Bytes
    pub after : History lib fl
    pub before : History lib fl
    pub splits : h ≡ after ++ before
    pub long : beta < streak lib fl alpha choice before
    pub prefers : Prefers lib fl choice s

  record Tracks (alpha : F) (beta : ℕ) (h : History lib fl) (s : Snowball F) : Type 0 where
    same_alpha : s.alpha ≡ alpha
    same_beta : s.beta ≡ beta
    undecided : s.decided ≡ false → LastBound alpha h s.last s.count
    decided : s.decided ≡ true → IsJustified alpha beta h s

  LastBound-zero :
      (alpha : F) (h : History lib fl) (o : Option (Vote F)) {c : ℕ} → c ≡ 0 → LastBound alpha h o c
  LastBound-zero alpha h none e = e
  LastBound-zero alpha h (some l) e = omega arith

  LastBound-some :
      (alpha : F) (h : History lib fl) {o : Option (Vote F)} {c : ℕ} (l : Vote F)
      → o ≡ some l
      → c ≤ streak lib fl alpha (vote_id lib fl l) h
      → LastBound alpha h o c
  LastBound-some alpha h l e b = rw e b

  -- The invariant over one tick of an undecided Snowball.
  justify_outcome :
      (h : History lib fl) (votes : List (Vote F)) (s t : Snowball F)
      → LastBound s.alpha h s.last s.count
      → TickOutcome lib fl (supported lib fl s.alpha votes) s.last s.count s.beta t
      → (t.decided ≡ false → LastBound s.alpha (votes ∷ h) t.last t.count)
        × (t.decided ≡ true → IsJustified s.alpha s.beta (votes ∷ h) t)
  justify_outcome h votes s t b (resets u c l d) =
      ((λ _. LastBound-zero s.alpha (votes ∷ h) t.last c), (λ e. cc))
  justify_outcome h votes s t b (goes_on m u (begins f l c d)) = (
    (λ _.
        LastBound-some s.alpha (votes ∷ h) m l
          (omega (arith, streak-supported lib fl s.alpha (vote_id lib fl m) votes h u))),
    (λ e. cc),
  )
  justify_outcome h votes s t b (goes_on m u (extends l o i k c d e)) = (
    (λ _. LastBound-some s.alpha (votes ∷ h) l k (
        omega (
          arith,
          streak-supported lib fl s.alpha (vote_id lib fl l) votes h (u ∙ ap some i),
          last_bound s.alpha h l o b,
        ))),
    (λ x. cc),
  )
  justify_outcome h votes s t b (goes_on m u (decides l o i c d p)) = (
    (λ x. cc),
    (λ _. record {
      choice = vote_id lib fl l;
      after = [];
      before = votes ∷ h;
      splits = refl;
      long = omega (
        arith,
        streak-supported lib fl s.alpha (vote_id lib fl l) votes h (u ∙ ap some i),
        last_bound s.alpha h l o b,
      );
      prefers = (l, p, refl);
    }),
  )

  IsJustified-later :
      (alpha : F) (beta : ℕ) (h : History lib fl) (votes : List (Vote F)) (s t : Snowball F)
      → t.preferred ≡ s.preferred
      → IsJustified alpha beta h s
      → IsJustified alpha beta (votes ∷ h) t
  IsJustified-later alpha beta h votes s t e j = record {
    choice = j.choice;
    after = votes ∷ j.after;
    before = j.before;
    splits = ap (λ g. votes ∷ g) j.splits;
    long = j.long;
    prefers = (j.prefers.0, e ∙ j.prefers.1, j.prefers.2);
  }

  -- The invariant over one tick.
  tick-Tracks :
      (h : History lib fl) (votes : List (Vote F)) (s : Snowball F) (alpha : F) (beta : ℕ)
      → Tracks alpha beta h s
      → Tracks alpha beta (votes ∷ h) (tick lib fl votes s)
  tick-Tracks h votes s alpha beta k =
      let (same_a, same_b) = tick-same lib fl votes s in
      elim (Bool-cases s.decided) [
        | inl d ↦
            let e = tick-decided lib fl votes s d in
            record {
              same_alpha = same_a ∙ k.same_alpha;
              same_beta = same_b ∙ k.same_beta;
              undecided = λ u. absurd (cc (ap (λ (t : Snowball F). t.decided) e));
              decided = λ _.
                  IsJustified-later alpha beta h votes s (tick lib fl votes s)
                    (ap (λ (t : Snowball F). t.preferred) e) (k.decided d);
            }
        | inr d ↦
            let (u, j) =
              justify_outcome h votes s (tick lib fl votes s)
                (subst (λ a. LastBound a h s.last s.count) (sym k.same_alpha) (k.undecided d))
                (tick-TickOutcome lib fl votes s d) in
            record {
              same_alpha = same_a ∙ k.same_alpha;
              same_beta = same_b ∙ k.same_beta;
              undecided = λ e.
                  subst
                    (λ a.
                      LastBound a (votes ∷ h) (tick lib fl votes s).last
                        (tick lib fl votes s).count)
                    k.same_alpha (u e);
              decided = λ e.
                  subst (λ b. IsJustified alpha b (votes ∷ h) (tick lib fl votes s)) k.same_beta
                    (subst (λ a. IsJustified a s.beta (votes ∷ h) (tick lib fl votes s))
                      k.same_alpha (j e));
            }
      ]

  run-Tracks :
      (h : History lib fl) (s : Snowball F)
      → s.count ≡ 0
      → s.decided ≡ false
      → Tracks s.alpha s.beta h (run lib fl s h)
  unfolding run
  run-Tracks [] s c d = record {
    same_alpha = refl;
    same_beta = refl;
    undecided = λ _. LastBound-zero s.alpha [] s.last c;
    decided = λ e. cc;
  }
  run-Tracks (votes ∷ h) s c d =
      tick-Tracks h votes (run lib fl s h) s.alpha s.beta (run-Tracks h s c d)

  -- From an undecided Snowball with count 0, whatever the votes, a decision is for an identifier
  -- that had more than beta supporting ticks in a row at some moment of the history.
  pub decision-IsJustified :
      (h : History lib fl) (s : Snowball F)
      → s.count ≡ 0
      → s.decided ≡ false
      → (run lib fl s h).decided ≡ true
      → IsJustified s.alpha s.beta h (run lib fl s h)
  decision-IsJustified h s c d e = (run-Tracks h s c d).decided e

  -- Once decided, further ticks change neither the decision nor the preference.
  pub decision_stays :
      (h : History lib fl) (s : Snowball F)
      → s.decided ≡ true
      → ((run lib fl s h).decided ≡ true) × ((run lib fl s h).preferred ≡ s.preferred)
  unfolding run
  decision_stays [] s d = (d, refl)
  decision_stays (votes ∷ h) s d =
      let (d', p) = decision_stays h s d in
      let e = tick-decided lib fl votes (run lib fl s h) d' in
      (ap (λ (t : Snowball F). t.decided) e ∙ d', ap (λ (t : Snowball F). t.preferred) e ∙ p)
