-- ===== src/Validators.antt =====
-- IsTokenRecipient of sdk/gossip/types/validators.go: a block that receives tokens is valid where
-- each of them was sent to its chain tree.
pub mod Recipients
use tupelo.Prelude.{ℕ, length, Option, none, some, List, [], ◌∷◌, Bool, true, false, if◌then◌else◌}
use tupelo.GoString.{Bytes, bytes, bytes_eq}
use tupelo.External.CidLib.{CidLib}
use tupelo.External.Dag.{Dag, Value}
use tupelo.External.Dag.Sender.{Sender}
use tupelo.Tokens.Transactions.Sending.{
  TransactionError, unknown, Ranges, ReceiveTokenPayload, sender_dag, token_name_of, token_send_of,
}
use tupelo.Outcome.{Outcome, panics, returns, ◌>>=◌, or_fail}

-- transactions.Transaction of the messages repository: one that receives a token, where none is the
-- error of EnsureReceiveTokenPayload, or another.
pub data Transaction : Type 0 where
  receiving_token : Option ReceiveTokenPayload → Transaction
  other_type : Transaction

-- getReceiveTokenPayloads
unfoldable pub get_receive_token_payloads :
    List Transaction → Outcome TransactionError (List ReceiveTokenPayload)
get_receive_token_payloads [] = returns []
get_receive_token_payloads (other_type ∷ txns) = get_receive_token_payloads txns
get_receive_token_payloads (receiving_token payload ∷ txns) = do
  rt ← or_fail unknown payload
  receive_tokens ← get_receive_token_payloads txns
  returns (rt ∷ receive_tokens)

abbrev pub has_none : List ReceiveTokenPayload → Bool
has_none [] = true
has_none (rt ∷ rts) = false

module _ (dag : Dag) (lib : CidLib) (sender : Sender dag) (names sends : ℕ → Ranges)
    (as_string : Value → Option Bytes) where
  open dag use {Tree, resolve}

  -- id.(string) != sendToken.Destination, which panics where the id is no string
  abbrev is_destination : Option Bytes → Bytes → Outcome TransactionError Bool
  is_destination none destination = panics
  is_destination (some id) destination = returns (bytes_eq id destination)

  -- The loop over the receives, which compares one send of each: the first that `range` gives;
  -- `as_string` gives the string that a value is. `names n` and `sends n` are the orders of `range`
  -- in the calls for the receive that `n` others follow.
  unfoldable pub all_for : Value → List ReceiveTokenPayload → Outcome TransactionError Bool
  all_for id [] = returns true
  all_for id (rt ∷ receive_tokens) = do
    from ← sender_dag dag lib sender rt
    token_name ← token_name_of dag (names (length receive_tokens)) from
    send_token ← token_send_of dag (sends (length receive_tokens)) from token_name
    same ← is_destination (as_string id) send_token.destination
    if same then all_for id receive_tokens else returns false

  -- IsTokenRecipient
  unfoldable pub is_token_recipient : Tree → List Transaction → Outcome TransactionError Bool
  unfolding all_for
  is_token_recipient tree txns = do
    receive_tokens ← get_receive_token_payloads txns
    if has_none receive_tokens then returns true else do
      (id, remaining) ← or_fail unknown (resolve (bytes "id" ∷ []) tree)
      all_for id receive_tokens
