-- ===== src/Tokens/Ledger/Refinement/Mint.antt =====
-- TreeLedger.MintToken against the account's mint.
use tupelo.Prelude.{
  ℕ, ◌+◌, ◌%◌, none, some, List, [], ◌∷◌, ◌++◌, map, true, false, ◌≡◌, refl, sym, ◌∙◌, Bool-cases,
  Option-cases, inl, inr, ltb, eqb, map-append, subst, if◌then◌else◌,
}
use tupelo.External.CidLib.{Cid}
use tupelo.External.Dag.{Dag}
use tupelo.Tokens.{
  TokenMint, TokenMonetaryPolicy, token_mint_label, token_send_label, token_receive_label,
  token_balance_label,
}
use tupelo.Tokens.Name.{TokenName}
use tupelo.Tokens.Ledger.{
  word, check_maximum, mint_token, transaction_cids_for_type, balance, over_maximum, zero_amount,
  no_policy,
}
use tupelo.Tokens.Ledger.Recorded.{Nodes, Recorded, sum_from-mints}
use tupelo.Tokens.Ledger.Refinement.{
  path_of, token_path_lem, labels_differ, Writes, records, Recording, recording, Represents, Agree,
  Agree-fails, Agree-returns, other_held, policy_kept,
}
use tupelo.Tokens.Account.{Account, mint, minted, exceeds}
use tupelo.Outcome.{fails, returns}

module _ (dag : Dag) (tn : TokenName) where
  open dag use {Tree, resolve_policy, resolve_token, set, create_node, encode_mint}

  check_maximum-exceeds :
      (t : Tree) (policy : TokenMonetaryPolicy) (amount : ℕ) (cs : List Cid) (ms : List TokenMint)
      → Nodes dag t cs (map encode_mint ms)
      → check_maximum dag policy amount cs t
        ≡ (if◌then◌else◌ (exceeds policy amount ms) (fails over_maximum) (returns tt))
  unfolding check_maximum
  check_maximum-exceeds t policy amount cs ms n =
      let e = sum_from-mints dag t 0 cs ms n in
      elim (Bool-cases (ltb 0 policy.maximum)) [ inl b ↦ rw (b, e) | inr b ↦ rw b ]

  Represents-minted :
      (t t' : Tree) (a : Account) (amount : ℕ)
      → Represents dag tn t a
      → Recording dag
          (path_of tn)
          token_mint_label
          t
          t'
          ((a.balance + amount) % word)
          (map encode_mint a.mints ++ encode_mint (record { amount = amount }) ∷ [])
      → Represents dag tn t' (minted amount a)
  Represents-minted t t' a amount r s =
      let p = path_of tn in
      let k = token_mint_label in
      let n = (a.balance + amount) % word in
      let vs = map encode_mint a.mints ++ encode_mint (record { amount = amount }) ∷ [] in
      record {
        balance_held = s.balanced;
        policy_held = policy_kept dag p k t t' n vs s refl ∙ r.policy_held;
        mints_held =
            subst (Recorded dag (p ++ k ∷ []) t')
              (sym (map-append encode_mint a.mints (record { amount = amount } ∷ []))) s.listed;
        sends_held =
            other_held dag p k t t' n vs s token_send_label (map dag.encode_send a.sends) refl refl
              r.sends_held;
        receives_held =
            other_held dag p k t t' n vs s token_receive_label (map dag.encode_receive a.receives)
              refl refl r.receives_held;
      }

  -- For a policy that the tree holds, the result of the writes is a tree that holds the new
  -- account.
  pub mint_allowed :
      (w : Writes dag) (amount : ℕ) (t : Tree) (a : Account) (policy : TokenMonetaryPolicy)
      → eqb amount 0 ≡ false
      → a.policy ≡ some policy
      → Represents dag tn t a
      → exceeds policy amount a.mints ≡ false
      → (t' : Tree) × (mint_token dag tn amount t ≡ returns t')
        × Represents dag tn t' (minted amount a)
  unfolding mint_token transaction_cids_for_type balance
  mint_allowed w amount t a policy z e r x =
      let p = path_of tn in
      let k = token_mint_label in
      let n = (a.balance + amount) % word in
      let (cs, listed, nodes) = r.mints_held in
      let v = encode_mint (record { amount = amount }) in
      let (c, t1, t2, t3, e1, e2, e3) =
        records dag w p k v n a.balance cs t r.balance_held
          (labels_differ k token_balance_label refl) in
      let b1 = dag.token-create v t p e1 in
      let held = r.policy_held in
      let bal = r.balance_held in
      let m = check_maximum-exceeds t policy amount cs a.mints nodes in
      let s =
        recording dag p k v n a.balance cs (map encode_mint a.mints) c t t1 t2 t3 e1 e2 e3 bal
          (labels_differ k token_balance_label refl) nodes in
      (
        t3,
        rw (z, token_path_lem tn, held, e, listed, m, x, e1, e2, b1, bal, e3),
        Represents-minted t t3 a amount r s,
      )

  mint_zero :
      (amount : ℕ) (t : Tree) → eqb amount 0 ≡ true → mint_token dag tn amount t ≡ fails zero_amount
  unfolding mint_token
  mint_zero amount t z = rw z

  mint_without_policy :
      (amount : ℕ) (t : Tree) (a : Account)
      → eqb amount 0 ≡ false
      → Represents dag tn t a
      → a.policy ≡ none
      → mint_token dag tn amount t ≡ fails no_policy
  unfolding mint_token
  mint_without_policy amount t a z r e =
      let held = r.policy_held in rw (z, token_path_lem tn, held, e)

  mint_over_maximum :
      (amount : ℕ) (t : Tree) (a : Account) (policy : TokenMonetaryPolicy)
      → eqb amount 0 ≡ false
      → Represents dag tn t a
      → a.policy ≡ some policy
      → exceeds policy amount a.mints ≡ true
      → mint_token dag tn amount t ≡ fails over_maximum
  unfolding mint_token transaction_cids_for_type
  mint_over_maximum amount t a policy z r e x =
      let held = r.policy_held in
      let (cs, listed, nodes) = r.mints_held in
      let m = check_maximum-exceeds t policy amount cs a.mints nodes in
      rw (z, token_path_lem tn, held, e, listed, m, x)

  -- When the store takes every node and every write to a field of a token that is there and the
  -- tree holds an account, MintToken fails with the error of the account's mint, or returns a tree
  -- that holds the account which the account's mint returns.
  pub mint_token-refines :
      (w : Writes dag) (amount : ℕ) (t : Tree) (a : Account)
      → Represents dag tn t a
      → Agree dag tn (mint_token dag tn amount t) (mint amount a)
  mint_token-refines w amount t a r =
      let x = mint_token dag tn amount t in
      elim (Bool-cases (eqb amount 0)) [
        | inl z ↦ Agree-fails dag tn x (mint amount a) zero_amount (mint_zero amount t z) (rw z)
        | inr z ↦ elim (Option-cases a.policy) [
          | inl e ↦
              Agree-fails dag tn x (mint amount a) no_policy (mint_without_policy amount t a z r e)
                (rw (z, e))
          | inr (policy, e) ↦ elim (Bool-cases (exceeds policy amount a.mints)) [
            | inl o ↦
                Agree-fails dag tn x (mint amount a) over_maximum
                  (mint_over_maximum amount t a policy z r e o) (rw (z, e, o))
            | inr o ↦
                let (t', e', r') = mint_allowed w amount t a policy z e r o in
                Agree-returns dag tn x (mint amount a) t' (minted amount a) e' (rw (z, e, o)) r'
          ]
        ]
      ]
