-- ===== src/Tokens/Ledger/Operations.antt =====
-- Sequences of token transactions on one tree: a transaction that fails leaves the tree as it was,
-- as the chain tree's caller drops the block.
use tupelo.Prelude.{ℕ, List, [], ◌∷◌}
use tupelo.External.Dag.{Dag}
use tupelo.Tokens.{TokenSend, TokenReceive}
use tupelo.Tokens.Name.{TokenName}
use tupelo.Tokens.Ledger.{Result, mint_token, send_token, receive_token}
use tupelo.Tokens.Ledger.Refinement.{Writes, Represents, Agree}
use tupelo.Tokens.Ledger.Refinement.Mint.{mint_token-refines}
use tupelo.Tokens.Ledger.Refinement.Send.{send_token-refines}
use tupelo.Tokens.Ledger.Refinement.Receive.{receive_token-refines}
use tupelo.Tokens.Account.{Account, mint, send, receive}
use tupelo.Outcome.{panics, fails, returns}

pub data Operation : Type 0 where
  minting : ℕ → Operation
  sending : TokenSend → Operation
  receiving : TokenReceive → Operation

abbrev pub result_or : {A : Type 0} → A → Result A → A
result_or a panics = a
result_or a (fails e) = a
result_or a (returns b) = b

abbrev pub apply : Operation → Account → Result Account
apply (minting amount) a = mint amount a
apply (sending s) a = send s a
apply (receiving r) a = receive r a

unfoldable pub run : List Operation → Account → Account
run [] a = a
run (o ∷ os) a = run os (result_or a (apply o a))

module _ (dag : Dag) (tn : TokenName) where
  open dag use {Tree}

  abbrev pub apply_tree : Operation → Tree → Result Tree
  apply_tree (minting amount) t = mint_token dag tn amount t
  apply_tree (sending s) t = send_token dag tn s.id s.destination s.amount t
  apply_tree (receiving r) t = receive_token dag tn r.send_token_transaction_id r.amount t

  unfoldable pub run_tree : List Operation → Tree → Tree
  run_tree [] t = t
  run_tree (o ∷ os) t = run_tree os (result_or t (apply_tree o t))

  apply-refines :
      (w : Writes dag) (o : Operation) (t : Tree) (a : Account)
      → Represents dag tn t a
      → Agree dag tn (apply_tree o t) (apply o a)
  apply-refines w (minting amount) t a r = mint_token-refines dag tn w amount t a r
  apply-refines w (sending s) t a r = send_token-refines dag tn w s t a r
  apply-refines w (receiving x) t a r = receive_token-refines dag tn w x t a r

  Represents-result :
      (t : Tree) (a : Account) (x : Result Tree) (y : Result Account)
      → Represents dag tn t a
      → Agree dag tn x y
      → Represents dag tn (result_or t x) (result_or a y)
  Represents-result t a panics y r g = elim g [ ]
  Represents-result t a (fails e) panics r g = elim g [ ]
  Represents-result t a (fails e) (fails e') r g = r
  Represents-result t a (fails e) (returns b) r g = elim g [ ]
  Represents-result t a (returns t') panics r g = elim g [ ]
  Represents-result t a (returns t') (fails e) r g = elim g [ ]
  Represents-result t a (returns t') (returns b) r g = g

  -- When the store takes every node and every write to a field of a token that is there and the
  -- tree holds an account, the tree after any sequence of mints, sends and receives holds the
  -- account after the same sequence.
  pub run_tree-refines :
      (w : Writes dag) (os : List Operation) (t : Tree) (a : Account)
      → Represents dag tn t a
      → Represents dag tn (run_tree os t) (run os a)
  unfolding run run_tree
  run_tree-refines w [] t a r = r
  run_tree-refines w (o ∷ os) t a r =
      run_tree-refines w os (result_or t (apply_tree o t)) (result_or a (apply o a))
        (Represents-result t a (apply_tree o t) (apply o a) r (apply-refines w o t a r))
