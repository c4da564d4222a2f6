-- ===== src/Tokens/Ledger/Refinement/Receive.antt =====
-- TreeLedger.ReceiveToken against the account's receive, and the tokens that are new to a tree.
use tupelo.Prelude.{
  ◌+◌, ◌%◌, [], ◌∷◌, ◌++◌, map, true, false, ◌≡◌, refl, sym, ◌∙◌, Bool-cases, inl, inr, map-append,
  some, In, subst,
}
use tupelo.GoString.{Bytes, bytes_eq}
use tupelo.External.Dag.{Dag, token_links, number, inline, as_link}
use tupelo.Tokens.{
  TokenReceive, token_mint_label, token_send_label, token_receive_label, token_balance_label,
  monetary_policy_label,
}
use tupelo.Tokens.Name.{TokenName}
use tupelo.Tokens.Ledger.{
  receive_token, add_receive, create_token, token_exists, transaction_cids_for_type, balance,
  already_received, word,
}
use tupelo.Tokens.Ledger.Recorded.{Recorded, has_received-receives, Recorded-nil}
use tupelo.Tokens.Ledger.Refinement.{
  path_of, token_path_lem, labels_differ, Writes, records, Recording, recording, Represents, Agree,
  Agree-fails, Agree-returns, other_held, policy_kept,
}
use tupelo.Tokens.Account.{Account, received, receive, is_received, new_account}
use tupelo.Outcome.{fails, returns}

module _ (dag : Dag) (tn : TokenName) where
  open dag use {Tree, set, encode_receive, resolve}

  Represents-received :
      (t t' : Tree) (a : Account) (x : TokenReceive)
      → Represents dag tn t a
      → Recording dag
          (path_of tn)
          token_receive_label
          t
          t'
          ((a.balance + x.amount) % word)
          (map encode_receive a.receives ++ encode_receive x ∷ [])
      → Represents dag tn t' (received x a)
  Represents-received t t' a x r s =
      let p = path_of tn in
      let k = token_receive_label in
      let n = (a.balance + x.amount) % word in
      let vs = map encode_receive a.receives ++ encode_receive x ∷ [] in
      record {
        balance_held = s.balanced;
        policy_held = policy_kept dag p k t t' n vs s refl ∙ r.policy_held;
        mints_held =
            other_held dag p k t t' n vs s token_mint_label (map dag.encode_mint a.mints) refl refl
              r.mints_held;
        sends_held =
            other_held dag p k t t' n vs s token_send_label (map dag.encode_send a.sends) refl refl
              r.sends_held;
        receives_held =
            subst (Recorded dag (p ++ k ∷ []) t')
              (sym (map-append encode_receive a.receives (x ∷ []))) s.listed;
      }

  receive_new :
      (w : Writes dag) (x : TokenReceive) (t : Tree) (a : Account)
      → Represents dag tn t a
      → is_received x.send_token_transaction_id a.receives ≡ false
      → (t' : Tree) × (add_receive dag tn x t ≡ returns t') × Represents dag tn t' (received x a)
  unfolding add_receive transaction_cids_for_type balance
  receive_new w x t a r o =
      let p = path_of tn in
      let k = token_receive_label in
      let n = (a.balance + x.amount) % word in
      let (cs, listed, nodes) = r.receives_held in
      let (c, t1, t2, t3, e1, e2, e3) =
        records dag w p k (encode_receive x) n a.balance cs t r.balance_held
          (labels_differ k token_balance_label refl) in
      let bal = r.balance_held in
      let b1 = dag.token-create (encode_receive x) t p e1 in
      let m = has_received-receives dag t x.send_token_transaction_id cs a.receives nodes in
      let s =
        recording dag p k (encode_receive x) n a.balance cs (map encode_receive a.receives) c t t1
          t2 t3 e1 e2 e3 bal (labels_differ k token_balance_label refl) nodes in
      (
        t3,
        rw (token_path_lem tn, listed, m, o, e1, e2, b1, bal, e3),
        Represents-received t t3 a x r s,
      )

  receive_again :
      (x : TokenReceive) (t : Tree) (a : Account)
      → Represents dag tn t a
      → is_received x.send_token_transaction_id a.receives ≡ true
      → add_receive dag tn x t ≡ fails already_received
  unfolding add_receive transaction_cids_for_type
  receive_again x t a r o =
      let (cs, listed, nodes) = r.receives_held in
      let m = has_received-receives dag t x.send_token_transaction_id cs a.receives nodes in
      rw (token_path_lem tn, listed, m, o)

  pub add_receive-refines :
      (w : Writes dag) (x : TokenReceive) (t : Tree) (a : Account)
      → Represents dag tn t a
      → Agree dag tn (add_receive dag tn x t) (receive x a)
  add_receive-refines w x t a r =
      let y = add_receive dag tn x t in
      elim (Bool-cases (is_received x.send_token_transaction_id a.receives)) [
        | inl o ↦
            Agree-fails dag tn y (receive x a) already_received (receive_again x t a r o) (rw o)
        | inr o ↦
            let (t', e, r') = receive_new w x t a r o in
            Agree-returns dag tn y (receive x a) t' (received x a) e (rw o) r'
      ]

  receive_existing :
      (x : TokenReceive) (t : Tree) (a : Account)
      → Represents dag tn t a
      → receive_token dag tn x.send_token_transaction_id x.amount t ≡ add_receive dag tn x t
  unfolding receive_token token_exists
  receive_existing x t a r =
      let (v, rest, e, n) = dag.resolve-token (path_of tn) t r.balance_held in
      rw (token_path_lem tn, e, n)

  -- When the store takes every node and every write to a field of a token that is there and the
  -- tree holds an account, ReceiveToken fails when the account has received the transaction, or
  -- returns a tree that holds the account with the receive.
  pub receive_token-refines :
      (w : Writes dag) (x : TokenReceive) (t : Tree) (a : Account)
      → Represents dag tn t a
      → Agree dag tn (receive_token dag tn x.send_token_transaction_id x.amount t) (receive x a)
  receive_token-refines w x t a r =
      subst (λ y. Agree dag tn y (receive x a)) (sym (receive_existing x t a r))
        (add_receive-refines w x t a r)

  -- A created token has the balance zero and no transactions.
  pub create_token-Represents :
      (w : Writes dag) (t t1 : Tree)
      → set as_link (path_of tn) dag.empty_token t ≡ some t1
      → (t' : Tree) × (create_token dag tn t ≡ returns t')
        × Represents dag tn t' (new_account dag.policy_of_new)
  unfolding create_token
  create_token-Represents w t t1 e1 =
      let p = path_of tn in
      let b1 = dag.token-new p t e1 in
      let (t2, e2) = w.sets_field inline p token_balance_label (number 0) t1 b1 in
      let empty : (j : Bytes)
          → bytes_eq token_balance_label j ≡ false
          → In j token_links
          → Recorded dag (p ++ j ∷ []) t2 [] =
        λ j h i.
          let (rest, e) = dag.resolve-new p j t i e1 in
          Recorded-nil dag (p ++ j ∷ []) rest t2 (
            dag.resolve-set_field inline p token_balance_label j (number 0) t1 e2
              (labels_differ token_balance_label j h) b1
            ∙ e) in
      (
        t2,
        rw (token_path_lem tn, e1, e2),
        record {
          balance_held = dag.token-set_balance p 0 t1 e2 b1;
          policy_held =
              dag.policy-set_field inline p token_balance_label monetary_policy_label (number 0) t1
                e2 (labels_differ token_balance_label monetary_policy_label refl) b1
              ∙ dag.policy-new p t e1;
          mints_held = empty token_mint_label refl (inr (inl refl));
          sends_held = empty token_send_label refl (inr (inr (inl refl)));
          receives_held = empty token_receive_label refl (inr (inr (inr (inl refl))));
        },
      )
