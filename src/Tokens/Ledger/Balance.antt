-- ===== src/Tokens/Ledger/Balance.antt =====
-- What TreeLedger.Balance reads after any sequence of transactions on an established token.
use tupelo.Prelude.{◌≤◌, ◌<◌, List, some, ◌≡◌, refl, All, arith}
use tupelo.External.Dag.{Dag, as_link}
use tupelo.Tokens.{TokenMonetaryPolicy}
use tupelo.Tokens.Name.{TokenName}
use tupelo.Tokens.Ledger.{establish_token, balance}
use tupelo.Tokens.Ledger.Refinement.{path_of, token_path_lem, Writes, Represents}
use tupelo.Tokens.Ledger.Refinement.Establish.{establish_token-Represents}
use tupelo.Tokens.Ledger.Operations.{Operation, run, run_tree, run_tree-refines}
use tupelo.Tokens.Account.{Account, new_account}
use tupelo.Tokens.Account.Conservation.{
  IsBalanced, run-IsBalanced, new_account-IsBalanced, total_minted,
}
use tupelo.Tokens.Account.Maximum.{IsSmall, run-IsWithin}
use tupelo.Outcome.{returns}

module _ (dag : Dag) (tn : TokenName) where
  open dag use {Tree, set}

  balance-held :
      (t : Tree) (a : Account) → Represents dag tn t a → balance dag tn t ≡ returns a.balance
  unfolding balance
  balance-held t a r = let b = r.balance_held in rw (token_path_lem tn, b)

  -- When the tree takes the new token, and the store takes every node and every write to a field of
  -- a token that is there, a token that EstablishToken makes holds an account after any sequence of
  -- mints, sends and receives, and Balance reads its balance: that and the sends sum up to the
  -- mints and the receives modulo 2^64, it is below 2^64, and no transaction is received twice.
  pub establish-IsBalanced :
      (w : Writes dag) (policy : TokenMonetaryPolicy) (os : List Operation) (t t0 : Tree)
      → set as_link (path_of tn) dag.empty_token t ≡ some t0
      → (t' : Tree) × (a : Account) × (establish_token dag tn policy t ≡ returns t')
        × Represents dag tn (run_tree dag tn os t') a
        × (balance dag tn (run_tree dag tn os t') ≡ returns a.balance)
        × IsBalanced a
  establish-IsBalanced w policy os t t0 e0 =
      let (t', e, r) = establish_token-Represents dag tn w policy t t0 e0 in
      let a = run os (new_account (some policy)) in
      let r' = run_tree-refines dag tn w os t' (new_account (some policy)) r in
      (
        t',
        a,
        e,
        r',
        balance-held (run_tree dag tn os t') a r',
        run-IsBalanced os (new_account (some policy)) (new_account-IsBalanced (some policy)),
      )

  -- When the tree takes the new token, the store takes every node and every write to a field of a
  -- token that is there, the policy has a maximum, and no minted amount takes that maximum past 64
  -- bits, a token that EstablishToken makes holds after any sequence of mints, sends and receives
  -- an account whose mints sum up to the maximum at most.
  pub establish-within_maximum :
      (w : Writes dag) (policy : TokenMonetaryPolicy) (os : List Operation) (t t0 : Tree)
      → set as_link (path_of tn) dag.empty_token t ≡ some t0
      → 0 < policy.maximum
      → All (IsSmall policy.maximum) os
      → (t' : Tree) × (a : Account) × (establish_token dag tn policy t ≡ returns t')
        × Represents dag tn (run_tree dag tn os t') a
        × (total_minted a.mints ≤ policy.maximum)
  establish-within_maximum w policy os t t0 e0 z s =
      let (t', e, r) = establish_token-Represents dag tn w policy t t0 e0 in
      let i =
        run-IsWithin policy os (new_account (some policy)) z s
          (record { has_policy = refl; within = omega arith }) in
      (
        t',
        run os (new_account (some policy)),
        e,
        run_tree-refines dag tn w os t' (new_account (some policy)) r,
        i.within,
      )
