-- ===== src/Tokens/Account.antt =====
-- What the ledger of one token promises, without trees and nodes: an account with its balance and
-- the transactions in their order. Amounts are of 64 bits.
pub mod Conservation
pub mod Maximum
use tupelo.Prelude.{
  ℕ, ◌+◌, ◌-◌, ◌%◌, Option, none, some, List, [], ◌∷◌, ◌++◌, Bool, true, false, if◌then◌else◌, ltb,
  eqb, ◌&&◌,
}
use tupelo.GoString.{Bytes, bytes_eq}
use tupelo.Tokens.{TokenMint, TokenSend, TokenReceive, TokenMonetaryPolicy}
use tupelo.Tokens.Ledger.{
  Result, word, zero_amount, no_policy, over_maximum, low_balance, already_received,
}
use tupelo.Outcome.{fails, returns}

pub record Account : Type 0 where
  pub balance : ℕ
  pub policy : Option TokenMonetaryPolicy
  pub mints : List TokenMint
  pub sends : List TokenSend
  pub receives : List TokenReceive

abbrev pub new_account : Option TokenMonetaryPolicy → Account
new_account policy = record { balance = 0; policy = policy; mints = []; sends = []; receives = [] }

-- The sum that 64 bits keep.
abbrev pub minted_from : ℕ → List TokenMint → ℕ
minted_from sum [] = sum
minted_from sum (m ∷ ms) = minted_from ((sum + m.amount) % word) ms

abbrev pub exceeds : TokenMonetaryPolicy → ℕ → List TokenMint → Bool
exceeds policy amount ms =
    ltb 0 policy.maximum && ltb policy.maximum ((minted_from 0 ms + amount) % word)

abbrev pub is_received : Bytes → List TokenReceive → Bool
is_received id [] = false
is_received id (r ∷ rs) =
    if bytes_eq r.send_token_transaction_id id then true else is_received id rs

abbrev pub minted : ℕ → Account → Account
minted amount a = record a {
  balance = (a.balance + amount) % word;
  mints = a.mints ++ record { amount = amount } ∷ [];
}

abbrev pub sent : TokenSend → Account → Account
sent s a = record a { balance = a.balance - s.amount; sends = a.sends ++ s ∷ [] }

abbrev pub received : TokenReceive → Account → Account
received r a = record a { balance = (a.balance + r.amount) % word; receives = a.receives ++ r ∷ [] }

abbrev pub mint_under : Option TokenMonetaryPolicy → ℕ → Account → Result Account
mint_under none amount a = fails no_policy
mint_under (some policy) amount a =
    if exceeds policy amount a.mints then fails over_maximum else returns (minted amount a)

abbrev pub mint : ℕ → Account → Result Account
mint amount a = if eqb amount 0 then fails zero_amount else mint_under a.policy amount a

abbrev pub send_more : TokenSend → Account → Result Account
send_more s a = if ltb a.balance s.amount then fails low_balance else returns (sent s a)

abbrev pub send : TokenSend → Account → Result Account
send s a = if eqb s.amount 0 then fails zero_amount else send_more s a

abbrev pub receive : TokenReceive → Account → Result Account
receive r a =
    if is_received r.send_token_transaction_id a.receives
    then fails already_received
    else returns (received r a)
