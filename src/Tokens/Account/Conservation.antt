-- ===== src/Tokens/Account/Conservation.antt =====
-- The balance of an account against the sums of its transactions, over any sequence of operations.
use tupelo.Prelude.{
  ℕ, ◌+◌, ◌%◌, ◌<◌, List, [], ◌∷◌, ◌++◌, Bool, true, false, ◌≡◌, refl, Option, none, some, ltb, eqb,
  arith, if◌then◌else◌,
}
use tupelo.GoString.{Bytes, bytes_eq, bytes_eq_iff}
use tupelo.Tokens.{TokenMint, TokenSend, TokenReceive, TokenMonetaryPolicy}
use tupelo.Tokens.Ledger.{Result, word, zero_amount, over_maximum, low_balance, already_received}
use tupelo.Tokens.Ledger.Operations.{Operation, minting, sending, receiving, run, result_or}
use tupelo.Tokens.Account.{
  Account, mint, mint_under, send, receive, exceeds, is_received, new_account, minted, sent,
  received, send_more,
}
use tupelo.Outcome.{fails, returns}

abbrev pub total_minted : List TokenMint → ℕ
total_minted [] = 0
total_minted (m ∷ ms) = m.amount + total_minted ms

abbrev pub total_sent : List TokenSend → ℕ
total_sent [] = 0
total_sent (s ∷ ss) = s.amount + total_sent ss

abbrev pub total_received : List TokenReceive → ℕ
total_received [] = 0
total_received (r ∷ rs) = r.amount + total_received rs

-- No two receives have the same transaction.
abbrev pub DistinctIds : List TokenReceive → Type 0
DistinctIds [] = Unit
DistinctIds (r ∷ rs) = (is_received r.send_token_transaction_id rs ≡ false) × DistinctIds rs

-- What came in is what is there and what went out, up to the 64 bits; the balance has 64 bits; no
-- transaction was received twice.
pub record IsBalanced (a : Account) : Type 0 where
  pub conserved :
      (a.balance + total_sent a.sends) % word
      ≡ (total_minted a.mints + total_received a.receives) % word
  pub within_word : a.balance < word
  pub once : DistinctIds a.receives

pub total_minted-append :
    (ms : List TokenMint) (m : TokenMint) → total_minted (ms ++ m ∷ []) ≡ total_minted ms + m.amount
total_minted-append [] m = omega arith
total_minted-append (x ∷ ms) m = omega (arith, total_minted-append ms m)

total_sent-append :
    (ss : List TokenSend) (s : TokenSend) → total_sent (ss ++ s ∷ []) ≡ total_sent ss + s.amount
total_sent-append [] s = omega arith
total_sent-append (x ∷ ss) s = omega (arith, total_sent-append ss s)

total_received-append :
    (rs : List TokenReceive) (r : TokenReceive)
    → total_received (rs ++ r ∷ []) ≡ total_received rs + r.amount
total_received-append [] r = omega arith
total_received-append (x ∷ rs) r = omega (arith, total_received-append rs r)

not_first : (c b : Bool) → if◌then◌else◌ c true b ≡ false → (c ≡ false) × (b ≡ false)
not_first true b h = absurd (cc)
not_first false b h = (refl, h)

is_received-append :
    (id : Bytes) (rs : List TokenReceive) (r : TokenReceive)
    → is_received id rs ≡ false
    → bytes_eq r.send_token_transaction_id id ≡ false
    → is_received id (rs ++ r ∷ []) ≡ false
is_received-append id [] r h e = rw e
is_received-append id (x ∷ rs) r h e =
    let (t, i) = not_first (bytes_eq x.send_token_transaction_id id) (is_received id rs) h in
    rw (t, is_received-append id rs r i e)

different_ids : (a b : Bytes) → bytes_eq a b ≡ false → bytes_eq b a ≡ false
different_ids a b h = ground (arith, bytes_eq_iff a b, bytes_eq_iff b a)

DistinctIds-append :
    (rs : List TokenReceive) (r : TokenReceive)
    → DistinctIds rs
    → is_received r.send_token_transaction_id rs ≡ false
    → DistinctIds (rs ++ r ∷ [])
DistinctIds-append [] r d h = (refl, tt)
DistinctIds-append (x ∷ rs) r (d, ds) h =
    let a = x.send_token_transaction_id in
    let b = r.send_token_transaction_id in
    let (t, i) = not_first (bytes_eq a b) (is_received b rs) h in
    (is_received-append a rs r d (different_ids a b t), DistinctIds-append rs r ds i)

added : (b n s i : ℕ) → (b + s) % word ≡ i % word → ((b + n) % word + s) % word ≡ (i + n) % word
added b n s i h = omega arith

below_word : (b : ℕ) → b % word < word
below_word b = omega arith

-- The account after a test: what the branch that the test takes leaves.
IsBalanced-test :
    (a : Account) (c : Bool) (x y : Result Account)
    → (c ≡ true → IsBalanced (result_or a x))
    → (c ≡ false → IsBalanced (result_or a y))
    → IsBalanced (result_or a (if◌then◌else◌ c x y))
IsBalanced-test a true x y t f = t refl
IsBalanced-test a false x y t f = f refl

mint_under-IsBalanced :
    (policy : Option TokenMonetaryPolicy) (amount : ℕ) (a : Account)
    → IsBalanced a
    → IsBalanced (result_or a (mint_under policy amount a))
mint_under-IsBalanced none amount a i = i
mint_under-IsBalanced (some policy) amount a i =
    IsBalanced-test a (exceeds policy amount a.mints) (fails over_maximum)
      (returns (minted amount a)) (λ t. i)
      (λ f. record {
        conserved =
            let e = total_minted-append a.mints (record { amount = amount }) in
            let g =
              added a.balance amount (total_sent a.sends)
                (total_minted a.mints + total_received a.receives) i.conserved in
            omega arith;
        within_word = below_word (a.balance + amount);
        once = i.once;
      })

send-IsBalanced : (s : TokenSend) (a : Account) → IsBalanced a → IsBalanced (result_or a (send s a))
send-IsBalanced s a i =
    IsBalanced-test a (eqb s.amount 0) (fails zero_amount) (send_more s a) (λ t. i)
      (λ f.
        IsBalanced-test a (ltb a.balance s.amount) (fails low_balance) (returns (sent s a)) (λ t. i)
          (λ g. record {
            conserved = let e = total_sent-append a.sends s in let h = i.conserved in ground arith;
            within_word = let w = i.within_word in ground arith;
            once = i.once;
          }))

receive-IsBalanced :
    (r : TokenReceive) (a : Account) → IsBalanced a → IsBalanced (result_or a (receive r a))
receive-IsBalanced r a i =
    IsBalanced-test a (is_received r.send_token_transaction_id a.receives) (fails already_received)
      (returns (received r a)) (λ t. i)
      (λ f. record {
        conserved =
            let e = total_received-append a.receives r in
            let g =
              added a.balance r.amount (total_sent a.sends)
                (total_minted a.mints + total_received a.receives) i.conserved in
            omega arith;
        within_word = below_word (a.balance + r.amount);
        once = DistinctIds-append a.receives r i.once f;
      })

pub run-IsBalanced : (os : List Operation) (a : Account) → IsBalanced a → IsBalanced (run os a)
unfolding run
run-IsBalanced [] a i = i
run-IsBalanced (minting amount ∷ os) a i = run-IsBalanced os (result_or a (mint amount a)) (
    IsBalanced-test a (eqb amount 0) (fails zero_amount) (mint_under a.policy amount a) (λ t. i)
      (λ f. mint_under-IsBalanced a.policy amount a i))
run-IsBalanced (sending s ∷ os) a i =
    run-IsBalanced os (result_or a (send s a)) (send-IsBalanced s a i)
run-IsBalanced (receiving r ∷ os) a i =
    run-IsBalanced os (result_or a (receive r a)) (receive-IsBalanced r a i)

pub new_account-IsBalanced : (policy : Option TokenMonetaryPolicy) → IsBalanced (new_account policy)
new_account-IsBalanced policy = record { conserved = refl; within_word = omega arith; once = tt }
