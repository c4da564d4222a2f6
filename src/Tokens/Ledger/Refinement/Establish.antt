-- ===== src/Tokens/Ledger/Refinement/Establish.antt =====
-- TreeLedger.EstablishToken, and TreeLedger.ReceiveToken where the tree has no such token.
use tupelo.Prelude.{List, [], ◌∷◌, ◌++◌, map, false, some, ◌≡◌, refl, sym, subst}
use tupelo.GoString.{Bytes, bytes_eq}
use tupelo.External.Dag.{Dag, Value, nil, as_link}
use tupelo.Tokens.{
  TokenReceive, TokenMonetaryPolicy, token_mint_label, token_send_label, token_receive_label,
  token_balance_label, monetary_policy_label,
}
use tupelo.Tokens.Path.{TreePath}
use tupelo.Tokens.Name.{TokenName}
use tupelo.Tokens.Ledger.{create_token, receive_token, add_receive, establish_token, token_exists}
use tupelo.Tokens.Ledger.Recorded.{Recorded, Recorded-kept}
use tupelo.Tokens.Ledger.Refinement.{
  path_of, token_path_lem, labels_differ, Writes, Represents, Agree,
}
use tupelo.Tokens.Ledger.Refinement.Receive.{create_token-Represents, add_receive-refines}
use tupelo.Tokens.Account.{Account, receive, new_account}
use tupelo.Outcome.{returns}

module _ (dag : Dag) (tn : TokenName) where
  open dag use {Tree, set, resolve, resolve_token, encode_policy}

  -- Writing the policy keeps a list of transactions.
  kept_by_policy :
      (policy : TokenMonetaryPolicy) (t t' : Tree) (a : Account)
      → set as_link (path_of tn ++ monetary_policy_label ∷ []) (encode_policy policy) t ≡ some t'
      → Represents dag tn t a
      → (j : Bytes) (vs : List Value) → bytes_eq monetary_policy_label j ≡ false
      → Recorded dag (path_of tn ++ j ∷ []) t vs
      → Recorded dag (path_of tn ++ j ∷ []) t' vs
  kept_by_policy policy t t' a e r j vs h =
      let p = path_of tn in
      let k = monetary_policy_label in
      Recorded-kept dag (p ++ j ∷ []) t t' vs
        (dag.resolve-set_field as_link p k j (encode_policy policy) t e (labels_differ k j h)
          r.balance_held)
        (λ c u. dag.get-set as_link (p ++ k ∷ []) (encode_policy policy) t c u e)

  Represents-policy :
      (policy : TokenMonetaryPolicy) (t t' : Tree) (a : Account)
      → set as_link (path_of tn ++ monetary_policy_label ∷ []) (encode_policy policy) t ≡ some t'
      → Represents dag tn t a
      → Represents dag tn t' (record a { policy = some policy })
  Represents-policy policy t t' a e r =
      let p = path_of tn in
      let k = monetary_policy_label in
      let kept = kept_by_policy policy t t' a e r in
      record {
        balance_held =
            dag.token-set_field p k (encode_policy policy) t e
              (labels_differ k token_balance_label refl) r.balance_held;
        policy_held = dag.policy-set (p ++ k ∷ []) policy t e;
        mints_held = kept token_mint_label (map dag.encode_mint a.mints) refl r.mints_held;
        sends_held = kept token_send_label (map dag.encode_send a.sends) refl r.sends_held;
        receives_held =
            kept token_receive_label (map dag.encode_receive a.receives) refl r.receives_held;
      }

  -- When the tree takes the new token, and the store takes every node and every write to a field of
  -- a token that is there, EstablishToken returns a tree that holds the token with the
  -- given policy, the balance zero and no transactions.
  pub establish_token-Represents :
      (w : Writes dag) (policy : TokenMonetaryPolicy) (t t0 : Tree)
      → set as_link (path_of tn) dag.empty_token t ≡ some t0
      → (t' : Tree) × (establish_token dag tn policy t ≡ returns t')
        × Represents dag tn t' (new_account (some policy))
  unfolding establish_token
  establish_token-Represents w policy t t0 e0 =
      let p = path_of tn in
      let k = monetary_policy_label in
      let (t1, e1, r1) = create_token-Represents dag tn w t t0 e0 in
      let (t2, e2) = w.sets_field as_link p k (encode_policy policy) t1 r1.balance_held in
      (
        t2,
        rw (e1, token_path_lem tn, e2),
        Represents-policy policy t1 t2 (new_account dag.policy_of_new) e2 r1,
      )

  receive_missing :
      (x : TokenReceive) (t t1 : Tree) (rest : TreePath)
      → resolve (path_of tn) t ≡ some (nil, rest)
      → create_token dag tn t ≡ returns t1
      → receive_token dag tn x.send_token_transaction_id x.amount t ≡ add_receive dag tn x t1
  unfolding receive_token token_exists
  receive_missing x t t1 rest e c = rw (token_path_lem tn, e, c)

  -- When the path of the token resolves to nothing, the tree takes a new token there, and the store
  -- takes every node and every write to a field of a token that is there, ReceiveToken agrees with
  -- the receive of a new account.
  pub receive_token-establishes :
      (w : Writes dag) (x : TokenReceive) (t t0 : Tree) (rest : TreePath)
      → set as_link (path_of tn) dag.empty_token t ≡ some t0
      → resolve (path_of tn) t ≡ some (nil, rest)
      → Agree dag tn
          (receive_token dag tn x.send_token_transaction_id x.amount t)
          (receive x (new_account dag.policy_of_new))
  receive_token-establishes w x t t0 rest e0 e =
      let (t1, e1, r1) = create_token-Represents dag tn w t t0 e0 in
      subst (λ y. Agree dag tn y (receive x (new_account dag.policy_of_new)))
        (sym (receive_missing x t t1 rest e e1))
        (add_receive-refines dag tn w x t1 (new_account dag.policy_of_new) r1)
