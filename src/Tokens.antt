-- ===== src/Tokens.antt =====
-- sdk/consensus/tree_ledger.go and transactions.go: tokens of a chain tree. The records of the
-- three token transactions, and the constants of the two files.
pub mod Path
pub mod Name
pub mod Account
pub mod Ledger
pub mod Canonical
pub mod Transactions
use tupelo.Prelude.{ℕ}
use tupelo.GoString.{Bytes, bytes}

pub record TokenMint : Type 0 where
  pub amount : ℕ

pub record TokenSend : Type 0 where
  pub id : Bytes
  pub amount : ℕ
  pub destination : Bytes

pub record TokenReceive : Type 0 where
  pub send_token_transaction_id : Bytes
  pub amount : ℕ

-- transactions.TokenMonetaryPolicy of the messages repository
pub record TokenMonetaryPolicy : Type 0 where
  pub maximum : ℕ

abbrev pub tree_path_for_authentications : Bytes
tree_path_for_authentications = bytes "_tupelo/authentications"

abbrev pub tree_path_for_tokens : Bytes
tree_path_for_tokens = bytes "_tupelo/tokens"

abbrev pub tree_path_for_stake : Bytes
tree_path_for_stake = bytes "_tupelo/stake"

abbrev pub tree_path_for_data : Bytes
tree_path_for_data = bytes "data"

abbrev pub token_mint_label : Bytes
token_mint_label = bytes "mints"

abbrev pub token_send_label : Bytes
token_send_label = bytes "sends"

abbrev pub token_receive_label : Bytes
token_receive_label = bytes "receives"

abbrev pub monetary_policy_label : Bytes
monetary_policy_label = bytes "monetaryPolicy"

abbrev pub token_balance_label : Bytes
token_balance_label = bytes "balance"
