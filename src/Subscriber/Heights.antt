-- ===== src/Subscriber/Heights.antt =====
-- The heights of a subscriber's confirmations.
use tupelo.Prelude.{
  ℕ, ◌<◌, ◌⊎◌, Option, none, some, List, [], ◌∷◌, All, Bool, true, false, leb, ◌≡◌, refl, inl, inr,
  arith, Bool-cases, subst, sym,
}
use tupelo.Prelude.Eq.{Eq, ◌==◌, eq_of_test, nat_eq}
use tupelo.GoString.{bytes_eq_inst}
use tupelo.GoMap.{GoMap, lookup, insert}
use tupelo.External.CidLib.{CidLib, Cid}
use tupelo.External.Crypto.{Crypto}
use tupelo.External.Hamt.{Hamt}
use tupelo.External.Archive.{Archive, CompletedRound}
use tupelo.Checkpoint.{CheckpointWrapper}
use tupelo.Signatures.{Signature, aggregate_bls_signatures}
use tupelo.Proof.{RoundConfirmation}
use tupelo.Subscriber.{
  RoundSubscriber, RoundConflictSet, Handled, Reply, bad_cid, bad_signature, is_old, is_quorum,
  set_or_new, delete_up_to, combine, add, handle_quorum, count, handle_message,
}
use tupelo.Subscriber.Steps.{handle_message-IsHandled}
use tupelo.Outcome.{returns, or_fail, with_error, returned_first}

-- Every confirmation of the set has this height.
abbrev pub HasHeight : ℕ → RoundConflictSet → Type 0
HasHeight h = All (λ (c, conf). conf.height ≡ h)

-- The height is above that of the current confirmation.
abbrev pub Above : Option RoundConfirmation → ℕ → Type 0
Above none h = Unit
Above (some c) h = c.height < h

abbrev pub IsFiledAt : Option RoundConfirmation → ℕ × RoundConflictSet → Type 0
IsFiledAt current (h, rcs) = HasHeight h rcs × Above current h

-- The confirmations are filed under their heights, all of them above the current one.
abbrev pub IsFiled : RoundSubscriber → Type 0
IsFiled rs = All (IsFiledAt rs.current) rs.inflight

-- The current confirmation stays, or one of a greater height takes its place.
abbrev pub Advances : Option RoundConfirmation → Option RoundConfirmation → Type 0
Advances before after =
    (before ≡ after) ⊎ ((c : RoundConfirmation) × (after ≡ some c) × Above before c.height)

module _ {K V : Type 0} ⦃e : Eq K⦄ (P : K × V → Type 0) where
  All-insert : (k : K) (v : V) (m : GoMap K V) → P (k, v) → All P m → All P (insert k v m)
  unfolding insert
  All-insert k v [] p h = (p, tt)
  All-insert k v ((j, w) ∷ m) p (h, hs) = elim (Bool-cases (j == k)) [
    | inl t ↦ let f = eq_of_test j k t in rw t (subst (λ x. P (x, v)) (sym f) p, hs)
    | inr t ↦ rw t (h, All-insert k v m p hs)
  ]

  All-lookup : (k : K) (m : GoMap K V) (v : V) → lookup k m ≡ some v → All P m → P (k, v)
  unfolding lookup
  All-lookup k [] v g h = absurd (cc)
  All-lookup k ((j, w) ∷ m) v g (h, hs) = elim (Bool-cases (j == k)) [
    | inl t ↦
        let f = eq_of_test j k t in
        let u : w ≡ v = ground arith in subst (λ x. P (k, x)) u (subst (λ x. P (x, w)) f h)
    | inr t ↦ All-lookup k m v (rw t at g) hs
  ]

-- What a quorum leaves is above its height.
All-delete_up_to :
    (before : Option RoundConfirmation) (c : RoundConfirmation) (m : GoMap ℕ RoundConflictSet)
    → All (IsFiledAt before) m
    → All (IsFiledAt (some c)) (delete_up_to c.height m)
unfolding delete_up_to
All-delete_up_to before c [] h = tt
All-delete_up_to before c ((key, rcs) ∷ m) ((h, a), hs) = elim (Bool-cases (leb key c.height)) [
  | inl t ↦ rw t (All-delete_up_to before c m hs)
  | inr t ↦ rw t ((h, ground arith), All-delete_up_to before c m hs)
]

module _ (lib : CidLib) (cr : Crypto) (quorum_count : ℕ) where
  -- The set with a confirmation of its height has that height, and so has what was updated.
  combine-HasHeight :
      (c : Cid) (h : ℕ) (conf updated : RoundConfirmation) (rcs rcs' : RoundConflictSet) (q : Bool)
      (o : Option RoundConfirmation)
      → lookup c rcs ≡ o
      → conf.height ≡ h
      → HasHeight h rcs
      → combine lib cr quorum_count c conf rcs o ≡ returns (q, updated, rcs')
      → (updated.height ≡ h) × HasHeight h rcs'
  unfolding combine
  combine-HasHeight c h conf updated rcs rcs' q none l e f g =
      let r : conf ≡ updated = cc in
      let s : insert c conf rcs ≡ rcs' = cc in
      (
        subst (λ x. x.height ≡ h) r e,
        subst (HasHeight h) s (All-insert (λ (d, x). x.height ≡ h) c conf rcs e f),
      )
  combine-HasHeight c h conf updated rcs rcs' q (some existing) l e f g =
      let joined : Signature → Handled (Bool × RoundConfirmation × RoundConflictSet) = λ sig.
        returns (
          is_quorum lib cr quorum_count sig,
          record existing { signature = sig },
          insert c (record existing { signature = sig }) rcs,
        ) in
      let sigs = existing.signature ∷ conf.signature ∷ [] in
      let (sig, g1, g2) =
        returned_first (with_error (λ e. bad_signature e) (aggregate_bls_signatures cr sigs)) joined
          g in
      let u = record existing { signature = sig } in
      let r : u ≡ updated = cc in
      let s : insert c u rcs ≡ rcs' = cc in
      let i : existing.height ≡ h = All-lookup (λ (d, x). x.height ≡ h) c rcs existing l f in
      (
        subst (λ x. x.height ≡ h) r i,
        subst (HasHeight h) s (All-insert (λ (d, x). x.height ≡ h) c u rcs i f),
      )

  add-HasHeight :
      (h : ℕ) (conf updated : RoundConfirmation) (rcs rcs' : RoundConflictSet) (q : Bool)
      → conf.height ≡ h
      → HasHeight h rcs
      → add lib cr quorum_count conf rcs ≡ returns (q, updated, rcs')
      → (updated.height ≡ h) × HasHeight h rcs'
  unfolding add
  add-HasHeight h conf updated rcs rcs' q e f g =
      let (c, g1, g2) =
        returned_first (or_fail bad_cid (lib.cast conf.round_cid))
          (λ c. combine lib cr quorum_count c conf rcs (lookup c rcs)) g in
      combine-HasHeight c h conf updated rcs rcs' q (lookup c rcs) refl e f g2

  set_or_new-HasHeight :
      (current : Option RoundConfirmation) (h : ℕ) (m : GoMap ℕ RoundConflictSet)
      (o : Option RoundConflictSet)
      → lookup h m ≡ o
      → All (IsFiledAt current) m
      → HasHeight h (set_or_new o)
  set_or_new-HasHeight current h m none l f = tt
  set_or_new-HasHeight current h m (some rcs) l f = (All-lookup (IsFiledAt current) h m rcs l f).0

  not_old :
      (current : Option RoundConfirmation) (h : ℕ) → is_old current h ≡ false → Above current h
  not_old none h e = tt
  not_old (some c) h e = ground arith

  module _ (hl : Hamt) (ar : Archive hl)
      (fetch_checkpoint : CompletedRound → Option CheckpointWrapper)
      (ver_keys : List cr.VerKey) where
    count-IsFiled :
        (h : ℕ) (rs : RoundSubscriber) (q : Bool) (updated : RoundConfirmation)
        (rcs : RoundConflictSet)
        → IsFiled rs
        → Above rs.current h
        → updated.height ≡ h
        → HasHeight h rcs
        → IsFiled
            (count lib cr quorum_count hl ar fetch_checkpoint ver_keys h rs (q, updated, rcs)).0
          × Advances rs.current
              (count lib cr quorum_count hl ar fetch_checkpoint ver_keys h rs
                (q, updated, rcs)).0.current
    unfolding count handle_quorum
    count-IsFiled h rs true updated rcs f a e i = (
      All-delete_up_to rs.current updated (insert h rcs rs.inflight)
          (All-insert (IsFiledAt rs.current) h rcs rs.inflight (i, a) f),
      inr (updated, refl, subst (Above rs.current) (sym e) a),
    )
    count-IsFiled h rs false updated rcs f a e i =
        (All-insert (IsFiledAt rs.current) h rcs rs.inflight (i, a) f, inl refl)

    -- Where handleMessage gives no error, it keeps the confirmations filed under their heights, all
    -- above the current one, and the current confirmation stays or one of a greater height takes
    -- its place.
    pub handle_message-IsFiled :
        (conf : RoundConfirmation) (rs rs' : RoundSubscriber) (reply : Reply)
        → IsFiled rs
        → handle_message lib cr quorum_count hl ar fetch_checkpoint ver_keys conf rs
          ≡ returns (rs', reply)
        → IsFiled rs' × Advances rs.current rs'.current
    handle_message-IsFiled conf rs rs' reply f g =
        let h = conf.height in
        let s =
          handle_message-IsHandled lib cr quorum_count hl ar fetch_checkpoint ver_keys conf rs rs'
            reply g in
        let set = set_or_new (lookup h rs.inflight) in
        let (i, j) =
          add-HasHeight h (record conf { signature = s.restored }) s.updated set s.conflict_set
            s.made_quorum refl
            (set_or_new-HasHeight rs.current h rs.inflight (lookup h rs.inflight) refl f)
            s.is_added in
        subst (λ x. IsFiled x.0 × Advances rs.current x.0.current) s.is_counted
          (count-IsFiled h rs s.made_quorum s.updated s.conflict_set f
            (not_old rs.current h s.is_newer) i j)
