-- ===== src/Tokens/Account/Maximum.antt =====
-- The maximum of a monetary policy, which the code compares with a sum of 64 bits.
use tupelo.Prelude.{
  ℕ, ◌+◌, ◌%◌, ◌≤◌, ◌<◌, List, [], ◌∷◌, All, Bool, true, false, ◌≡◌, refl, some, ltb, eqb,
  if◌then◌else◌, arith, subst, sym,
}
use tupelo.External.Dag.{Dag}
use tupelo.Tokens.{TokenMint, TokenMonetaryPolicy}
use tupelo.Tokens.Name.{TokenName}
use tupelo.Tokens.Ledger.{
  Result, word, zero_amount, over_maximum, low_balance, already_received, mint_token,
}
use tupelo.Tokens.Ledger.Refinement.{Writes, Represents}
use tupelo.Tokens.Ledger.Refinement.Mint.{mint_allowed}
use tupelo.Tokens.Ledger.Operations.{Operation, minting, sending, receiving, apply, run, result_or}
use tupelo.Tokens.Account.{
  Account, mint_under, minted, exceeds, minted_from, send_more, sent, received, is_received,
}
use tupelo.Tokens.Account.Conservation.{total_minted, total_minted-append}
use tupelo.Outcome.{fails, returns}

minted_from-total :
    (sum : ℕ) (ms : List TokenMint)
    → sum < word
    → minted_from sum ms ≡ (sum + total_minted ms) % word
minted_from-total sum [] h = omega arith
minted_from-total sum (m ∷ ms) h =
    let i = minted_from-total ((sum + m.amount) % word) ms (omega arith) in omega arith

-- The sum that the code compares, for mints that do not exceed the maximum together.
sum_compared :
    (ms : List TokenMint) (amount maximum : ℕ)
    → total_minted ms ≤ maximum
    → maximum < word
    → (minted_from 0 ms + amount) % word ≡ (total_minted ms + amount) % word
sum_compared ms amount maximum l h = let i = minted_from-total 0 ms (omega arith) in omega arith

-- The account has this policy, and its mints are within the maximum.
pub record IsWithin (policy : TokenMonetaryPolicy) (a : Account) : Type 0 where
  pub has_policy : a.policy ≡ some policy
  pub within : total_minted a.mints ≤ policy.maximum

-- An operation that mints no amount with which the maximum leaves the 64 bits.
abbrev pub IsSmall : ℕ → Operation → Type 0
IsSmall maximum (minting amount) = maximum + amount < word
IsSmall maximum (sending s) = Unit
IsSmall maximum (receiving r) = Unit

module _ (policy : TokenMonetaryPolicy) where
  IsWithin-test :
      (a : Account) (c : Bool) (x y : Result Account)
      → (c ≡ true → IsWithin policy (result_or a x))
      → (c ≡ false → IsWithin policy (result_or a y))
      → IsWithin policy (result_or a (if◌then◌else◌ c x y))
  IsWithin-test a true x y t f = t refl
  IsWithin-test a false x y t f = f refl

  not_exceeded :
      (amount : ℕ) (ms : List TokenMint)
      → 0 < policy.maximum
      → policy.maximum + amount < word
      → total_minted ms ≤ policy.maximum
      → exceeds policy amount ms ≡ false
      → total_minted ms + amount ≤ policy.maximum
  not_exceeded amount ms z s l e =
      let i = sum_compared ms amount policy.maximum l (omega arith) in ground arith

  minted-IsWithin :
      (amount : ℕ) (a : Account)
      → 0 < policy.maximum
      → policy.maximum + amount < word
      → IsWithin policy a
      → exceeds policy amount a.mints ≡ false
      → IsWithin policy (minted amount a)
  minted-IsWithin amount a z s i e = record {
    has_policy = i.has_policy;
    within =
        let l = not_exceeded amount a.mints z s i.within e in
        let t = total_minted-append a.mints (record { amount = amount }) in omega arith;
  }

  mint-IsWithin :
      (amount : ℕ) (a : Account)
      → 0 < policy.maximum
      → policy.maximum + amount < word
      → IsWithin policy a
      → IsWithin policy (result_or a (mint_under (some policy) amount a))
  mint-IsWithin amount a z s i =
      IsWithin-test a (exceeds policy amount a.mints) (fails over_maximum)
        (returns (minted amount a)) (λ t. i) (minted-IsWithin amount a z s i)

  apply-IsWithin :
      (o : Operation) (a : Account)
      → 0 < policy.maximum
      → IsSmall policy.maximum o
      → IsWithin policy a
      → IsWithin policy (result_or a (apply o a))
  apply-IsWithin (minting amount) a z s i =
      IsWithin-test a (eqb amount 0) (fails zero_amount) (mint_under a.policy amount a) (λ t. i)
        (λ f.
          subst (λ p. IsWithin policy (result_or a (mint_under p amount a))) (sym i.has_policy)
            (mint-IsWithin amount a z s i))
  apply-IsWithin (sending s) a z u i =
      IsWithin-test a (eqb s.amount 0) (fails zero_amount) (send_more s a) (λ t. i)
        (λ f.
          IsWithin-test a (ltb a.balance s.amount) (fails low_balance) (returns (sent s a)) (λ t. i)
            (λ g. record { has_policy = i.has_policy; within = i.within }))
  apply-IsWithin (receiving r) a z u i =
      IsWithin-test a (is_received r.send_token_transaction_id a.receives) (fails already_received)
        (returns (received r a)) (λ t. i)
        (λ f. record { has_policy = i.has_policy; within = i.within })

  -- While the maximum is above zero and no minted amount takes the maximum past 64 bits, the mints
  -- of an account that are within the maximum stay within it over any sequence of operations.
  pub run-IsWithin :
      (os : List Operation) (a : Account)
      → 0 < policy.maximum
      → All (IsSmall policy.maximum) os
      → IsWithin policy a
      → IsWithin policy (run os a)
  unfolding run
  run-IsWithin [] a z s i = i
  run-IsWithin (o ∷ os) a z (s, ss) i =
      run-IsWithin os (result_or a (apply o a)) z ss (apply-IsWithin o a z s i)

wrapped_passes :
    (policy : TokenMonetaryPolicy) (amount : ℕ) (ms : List TokenMint)
    → policy.maximum < word
    → total_minted ms ≤ policy.maximum
    → word ≤ total_minted ms + amount
    → total_minted ms + amount ≤ word + policy.maximum
    → exceeds policy amount ms ≡ false
wrapped_passes policy amount ms h l lo hi =
    let i = sum_compared ms amount policy.maximum l h in
    let e : (total_minted ms + amount) % word ≤ policy.maximum = omega arith in ground arith

-- When the store takes every node and every write to a field of a token that is there and the tree
-- holds an account within its maximum, an amount that takes the sum of the mints past 64 bits to no
-- more than the maximum is minted, and the mints are then above the maximum.
pub mint_token-wraps :
    (dag : Dag) (tn : TokenName) (w : Writes dag) (policy : TokenMonetaryPolicy) (amount : ℕ)
    (t : dag.Tree) (a : Account)
    → policy.maximum < word
    → IsWithin policy a
    → Represents dag tn t a
    → word ≤ total_minted a.mints + amount
    → total_minted a.mints + amount ≤ word + policy.maximum
    → (t' : dag.Tree) × (b : Account) × (mint_token dag tn amount t ≡ returns t')
      × Represents dag tn t' b
      × (policy.maximum < total_minted b.mints)
mint_token-wraps dag tn w policy amount t a h i r lo hi =
    let l = i.within in
    let z : eqb amount 0 ≡ false = ground arith in
    let x = wrapped_passes policy amount a.mints h l lo hi in
    let (t', e, r') = mint_allowed dag tn w amount t a policy z i.has_policy r x in
    let s = total_minted-append a.mints (record { amount = amount }) in
    (t', minted amount a, e, r', omega arith)
