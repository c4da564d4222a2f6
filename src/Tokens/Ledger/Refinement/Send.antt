-- ===== src/Tokens/Ledger/Refinement/Send.antt =====
-- TreeLedger.SendToken against the account's send.
use tupelo.Prelude.{
  ◌-◌, [], ◌∷◌, ◌++◌, map, true, false, ◌≡◌, refl, sym, ◌∙◌, Bool-cases, inl, inr, ltb, eqb,
  map-append, subst,
}
use tupelo.External.Dag.{Dag}
use tupelo.Tokens.{
  TokenSend, token_mint_label, token_send_label, token_receive_label, token_balance_label,
}
use tupelo.Tokens.Name.{TokenName}
use tupelo.Tokens.Ledger.{send_token, transaction_cids_for_type, balance, low_balance, zero_amount}
use tupelo.Tokens.Ledger.Recorded.{Recorded, cids-resolved}
use tupelo.Tokens.Ledger.Refinement.{
  path_of, token_path_lem, labels_differ, Writes, records, Recording, recording, Represents, Agree,
  Agree-fails, Agree-returns, other_held, policy_kept,
}
use tupelo.Tokens.Account.{Account, sent, send}
use tupelo.Outcome.{fails, returns}

module _ (dag : Dag) (tn : TokenName) where
  open dag use {Tree, encode_send}

  Represents-sent :
      (t t' : Tree) (a : Account) (x : TokenSend)
      → Represents dag tn t a
      → Recording dag
          (path_of tn)
          token_send_label
          t
          t'
          (a.balance - x.amount)
          (map encode_send a.sends ++ encode_send x ∷ [])
      → Represents dag tn t' (sent x a)
  Represents-sent t t' a x r s =
      let p = path_of tn in
      let k = token_send_label in
      let n = a.balance - x.amount in
      let vs = map encode_send a.sends ++ encode_send x ∷ [] in
      record {
        balance_held = s.balanced;
        policy_held = policy_kept dag p k t t' n vs s refl ∙ r.policy_held;
        mints_held =
            other_held dag p k t t' n vs s token_mint_label (map dag.encode_mint a.mints) refl refl
              r.mints_held;
        sends_held =
            subst (Recorded dag (p ++ k ∷ []) t') (sym (map-append encode_send a.sends (x ∷ [])))
              s.listed;
        receives_held =
            other_held dag p k t t' n vs s token_receive_label (map dag.encode_receive a.receives)
              refl refl r.receives_held;
      }

  send_allowed :
      (w : Writes dag) (x : TokenSend) (t : Tree) (a : Account)
      → eqb x.amount 0 ≡ false
      → Represents dag tn t a
      → ltb a.balance x.amount ≡ false
      → (t' : Tree) × (send_token dag tn x.id x.destination x.amount t ≡ returns t')
        × Represents dag tn t' (sent x a)
  unfolding send_token transaction_cids_for_type balance
  send_allowed w x t a z r o =
      let p = path_of tn in
      let k = token_send_label in
      let n = a.balance - x.amount in
      let (cs, listed, nodes) = r.sends_held in
      let (c, t1, t2, t3, e1, e2, e3) =
        records dag w p k (encode_send x) n a.balance cs t r.balance_held
          (labels_differ k token_balance_label refl) in
      let bal = r.balance_held in
      let listed1 =
        cids-resolved dag (p ++ k ∷ []) t t1 (dag.resolve-create (encode_send x) t (p ++ k ∷ []) e1)
        ∙ listed in
      let s =
        recording dag p k (encode_send x) n a.balance cs (map encode_send a.sends) c t t1 t2 t3 e1
          e2 e3 bal (labels_differ k token_balance_label refl) nodes in
      (t3, rw (z, token_path_lem tn, bal, o, e1, listed1, e2, e3), Represents-sent t t3 a x r s)

  send_zero :
      (x : TokenSend) (t : Tree)
      → eqb x.amount 0 ≡ true
      → send_token dag tn x.id x.destination x.amount t ≡ fails zero_amount
  unfolding send_token
  send_zero x t z = rw z

  send_low :
      (x : TokenSend) (t : Tree) (a : Account)
      → eqb x.amount 0 ≡ false
      → Represents dag tn t a
      → ltb a.balance x.amount ≡ true
      → send_token dag tn x.id x.destination x.amount t ≡ fails low_balance
  unfolding send_token balance
  send_low x t a z r o = let bal = r.balance_held in rw (z, token_path_lem tn, bal, o)

  -- When the store takes every node and every write to a field of a token that is there and the
  -- tree holds an account, SendToken fails with the error of the account's send, or returns a tree
  -- that holds the account which the account's send returns.
  pub send_token-refines :
      (w : Writes dag) (x : TokenSend) (t : Tree) (a : Account)
      → Represents dag tn t a
      → Agree dag tn (send_token dag tn x.id x.destination x.amount t) (send x a)
  send_token-refines w x t a r =
      let y = send_token dag tn x.id x.destination x.amount t in
      elim (Bool-cases (eqb x.amount 0)) [
        | inl z ↦ Agree-fails dag tn y (send x a) zero_amount (send_zero x t z) (rw z)
        | inr z ↦ elim (Bool-cases (ltb a.balance x.amount)) [
          | inl o ↦ Agree-fails dag tn y (send x a) low_balance (send_low x t a z r o) (rw (z, o))
          | inr o ↦
              let (t', e, r') = send_allowed w x t a z r o in
              Agree-returns dag tn y (send x a) t' (sent x a) e (rw (z, o)) r'
        ]
      ]
