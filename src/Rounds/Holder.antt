-- ===== src/Rounds/Holder.antt =====
-- What the holder of the rounds finds (rounds.go, SetCurrent and Get).
use tupelo.Prelude.{
  ℕ, Option, none, some, true, ◌≡◌, ◌≢◌, refl, ◌⊎◌, eqb, eqb_iff, eqb_of_ne, arith, Bool-cases,
  Option-cases, inl, inr, ap, ◌∙◌, sym, subst,
}
use tupelo.External.CidLib.{CidLib, Cid}
use tupelo.External.Float.{Float64}
use tupelo.External.Lru.{Lru}
use tupelo.External.Hamt.{Hamt}
use tupelo.External.BlockStore.{BlockStore}
use tupelo.External.Archive.{Archive}
use tupelo.Checkpoint.{Checkpoint}
use tupelo.Snowballer.{Checked, returns}
use tupelo.Rounds.{
  Round, RoundHolder, set_current, get_round, get_with, cached, restored, restore_round,
}

same_answer {ℓ κ} :
    {A : Type ℓ} {B : Type κ} (a a' : A) (b b' : B)
    → ◌≡◌ {A = Checked (Option A × B)} (returns (some a, b)) (returns (some a', b'))
    → (a ≡ a') × (b ≡ b')
same_answer a a' b b' e = let p : a ≡ a' = cc in let q : b ≡ b' = cc in (p, q)

no_answer {ℓ κ} :
    {A : Type ℓ} {B : Type κ} (a : A) (b b' : B)
    → ◌≢◌ {A = Checked (Option A × B)} (returns (none, b)) (returns (some a, b'))
no_answer a b b' e = cc

module _ (lib : CidLib) (fl : Float64) (hl : Hamt) (bs : BlockStore)
    (lru : Lru ℕ (Round lib fl hl bs)) where
  open lru use {peek, get, add, peek-add_self, peek-get}

  -- A round that the holder has at hand.
  record IsHeld (h : ℕ) (r : Round lib fl hl bs) (rh : RoundHolder lib fl hl bs lru) : Type 0 where
    top : Round lib fl hl bs
    current : rh.current_round ≡ some top
    found : ((top.height ≡ h) × (top ≡ r)) ⊎ ((top.height ≢ h) × (peek h rh.round_cache ≡ some r))

  module _ (ar : Archive hl) (encode : Checkpoint → Cid) where
    top_answers :
        (h : ℕ) (r : Round lib fl hl bs) (rh : RoundHolder lib fl hl bs lru)
        → h ≡ r.height
        → get_with lib fl hl bs lru ar encode h (some r) rh ≡ returns (some r, rh)
    unfolding get_with
    top_answers h r rh e = let t : eqb h r.height ≡ true = ground (arith, e) in rw t refl

    below_answers :
        (h : ℕ) (r : Round lib fl hl bs) (rh : RoundHolder lib fl hl bs lru)
        → h ≢ r.height
        → get_with lib fl hl bs lru ar encode h (some r) rh
          ≡ returns (cached lib fl hl bs lru ar encode h rh (peek h rh.round_cache))
    unfolding get_with cached
    below_answers h r rh e = rw (eqb_of_ne h r.height e) refl

    held-get_round :
        (h : ℕ) (r : Round lib fl hl bs) (rh : RoundHolder lib fl hl bs lru)
        → IsHeld h r rh
        → (rh' : RoundHolder lib fl hl bs lru) × (get_round lib fl hl bs lru ar encode h rh
            ≡ returns (some r, rh'))
          × (rh'.current_round ≡ rh.current_round)
    unfolding get_round
    held-get_round h r rh k = elim k.found [
      | inl (same, it) ↦ (
        rh,
        ap (λ o. get_with lib fl hl bs lru ar encode h o rh) (k.current ∙ ap some it)
            ∙ top_answers h r rh (sym same ∙ ap (λ (x : Round lib fl hl bs). x.height) it),
        refl,
      )
      | inr (other, there) ↦ (
        record rh { round_cache = get h rh.round_cache },
        ap (λ o. get_with lib fl hl bs lru ar encode h o rh) k.current
            ∙ below_answers h k.top rh (λ p. other (sym p))
            ∙ ap (λ o. returns (cached lib fl hl bs lru ar encode h rh o)) there,
        refl,
      )
    ]

    -- The round that a new current round replaces is found at once, where the heights differ, and
    -- the new one stays current.
    pub set_current-get_round :
        (old r : Round lib fl hl bs) (rh : RoundHolder lib fl hl bs lru)
        → rh.current_round ≡ some old
        → old.height ≢ r.height
        → (rh' : RoundHolder lib fl hl bs lru) × (get_round lib fl hl bs lru ar encode old.height
              (set_current lib fl hl bs lru r rh)
            ≡ returns (some old, rh'))
          × (rh'.current_round ≡ some r)
    unfolding set_current
    set_current-get_round old r rh e d =
        held-get_round old.height old (set_current lib fl hl bs lru r rh) (record {
          top = r;
          current = refl;
          found = inr ((λ p. d (sym p)), rw (e) (peek-add_self old.height old rh.round_cache));
        })

    cached-IsHeld :
        (h : ℕ) (r top : Round lib fl hl bs) (rh rh' : RoundHolder lib fl hl bs lru)
        → rh.current_round ≡ some top
        → h ≢ top.height
        → returns (cached lib fl hl bs lru ar encode h rh (peek h rh.round_cache))
          ≡ returns (some r, rh')
        → IsHeld h r rh'
    unfolding cached restored
    cached-IsHeld h r top rh rh' current below e = elim (Option-cases (peek h rh.round_cache)) [
      | inr (x, there) ↦
          let (it, here) =
            same_answer x r (record rh { round_cache = get h rh.round_cache }) rh'
              (ap (λ o. returns (cached lib fl hl bs lru ar encode h rh o)) (sym there) ∙ e) in
          subst (IsHeld h r) here (record {
            top = top;
            current = current;
            found = inr ((λ p. below (sym p)), peek-get h h rh.round_cache ∙ there ∙ ap some it);
          })
      | inl missing ↦
          let e' : returns
                (restored lib fl hl bs lru ar encode h rh (restore_round lib fl hl bs ar encode h))
              ≡ returns (some r, rh') =
            ap (λ o. returns (cached lib fl hl bs lru ar encode h rh o)) (sym missing) ∙ e in
          elim (Option-cases (restore_round lib fl hl bs ar encode h)) [
            | inl lost ↦ absurd (
                no_answer r rh rh'
                  (ap (λ o. returns (restored lib fl hl bs lru ar encode h rh o)) (sym lost) ∙ e'))
            | inr (x, back) ↦
                let (it, here) =
                  same_answer x r (record rh { round_cache = add h x rh.round_cache }) rh'
                    (ap (λ o. returns (restored lib fl hl bs lru ar encode h rh o)) (sym back)
                      ∙ e') in
                subst (IsHeld h r) here (record {
                  top = top;
                  current = current;
                  found = inr ((λ p. below (sym p)), peek-add_self h x rh.round_cache ∙ ap some it);
                })
          ]
    ]

    -- What Get finds is at hand afterwards.
    get_round-IsHeld :
        (h : ℕ) (r : Round lib fl hl bs) (rh rh' : RoundHolder lib fl hl bs lru)
        → get_round lib fl hl bs lru ar encode h rh ≡ returns (some r, rh')
        → IsHeld h r rh'
    unfolding get_round get_with
    get_round-IsHeld h r rh rh' e = elim (Option-cases rh.current_round) [
      | inl gone ↦ absurd (cc (ap (λ o. get_with lib fl hl bs lru ar encode h o rh) gone))
      | inr (top, current) ↦
          let answer : get_with lib fl hl bs lru ar encode h (some top) rh ≡ returns (some r, rh') =
            ap (λ o. get_with lib fl hl bs lru ar encode h o rh) (sym current) ∙ e in
          elim (Bool-cases (eqb h top.height)) [
            | inl same ↦
                let height : h ≡ top.height = (eqb_iff h top.height).0 same in
                let (it, here) =
                  same_answer top r rh rh' (sym (top_answers h top rh height) ∙ answer) in
                subst (IsHeld h r) here
                  (record { top = top; current = current; found = inl (sym height, it) })
            | inr other ↦
                let below : h ≢ top.height = λ p. cc ((eqb_iff h top.height).1 p) in
                cached-IsHeld h r top rh rh' current below
                  (sym (below_answers h top rh below) ∙ answer)
          ]
    ]

  -- A round that Get finds, the next Get of its height finds too, whatever the archive holds by
  -- then.
  pub get_round-again :
      (ar later : Archive hl) (encode : Checkpoint → Cid) (h : ℕ) (r : Round lib fl hl bs)
      (rh rh' : RoundHolder lib fl hl bs lru)
      → get_round lib fl hl bs lru ar encode h rh ≡ returns (some r, rh')
      → (rh'' : RoundHolder lib fl hl bs lru) × (get_round lib fl hl bs lru later encode h rh'
          ≡ returns (some r, rh''))
        × (rh''.current_round ≡ rh'.current_round)
  get_round-again ar later encode h r rh rh' e =
      held-get_round later encode h r rh' (get_round-IsHeld ar encode h r rh rh' e)
