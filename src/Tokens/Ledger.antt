-- ===== src/Tokens/Ledger.antt =====
-- TreeLedger of sdk/consensus/tree_ledger.go. The ledger's `tree` is the tree that each operation
-- takes and the one that it returns; contexts and the texts of errors are left out.
pub mod Recorded
pub mod Refinement
pub mod Operations
pub mod Balance
use tupelo.Prelude.{
  ℕ, ◌+◌, ◌-◌, ◌%◌, List, [], ◌∷◌, ◌++◌, map, Bool, true, false, not, if◌then◌else◌, ltb, eqb,
}
use tupelo.GoString.{Bytes, bytes_eq}
use tupelo.External.CidLib.{Cid}
use tupelo.External.Dag.{
  Dag, Item, link, other, Value, nil, number, simple, sequence, mapping, inline, as_link, is_nil,
}
use tupelo.Tokens.{
  TokenMonetaryPolicy, TokenReceive, tree_path_for_tokens, token_mint_label, token_send_label,
  token_receive_label, monetary_policy_label, token_balance_label,
}
use tupelo.Tokens.Path.{TreePath, decode_path}
use tupelo.Tokens.Name.{TokenName, token_name_string}
use tupelo.Outcome.{Outcome, panics, fails, returns, ◌>>=◌, or_fail}

-- The errors that the operations make, and `dag_failed` for those of the DAG.
pub data LedgerError : Type 0 where
  bad_path : LedgerError
  dag_failed : LedgerError
  zero_amount : LedgerError
  no_policy : LedgerError
  over_maximum : LedgerError
  low_balance : LedgerError
  already_received : LedgerError

abbrev pub Result {ℓ} : Type ℓ → Type ℓ
Result A = Outcome LedgerError A

-- 2 ^ 64
abbrev pub word : ℕ
word = 18446744073709551616

-- TreeLedger.tokenPath, TokenPath
unfoldable pub token_path : TokenName → Result TreePath
token_path tn = do
  root ← or_fail bad_path (decode_path tree_path_for_tokens)
  returns (root ++ token_name_string tn ∷ [])

-- `c.(cid.Cid)` of each element
unfoldable pub cids_of_items : List Item → Result (List Cid)
cids_of_items [] = returns []
cids_of_items (other b ∷ xs) = panics
cids_of_items (link c ∷ xs) = do cs ← cids_of_items xs; returns (c ∷ cs)

unfoldable pub cids_of_value : Value → Result (List Cid)
unfolding cids_of_items
cids_of_value nil = returns []
cids_of_value (sequence xs) = cids_of_items xs
cids_of_value (number n) = panics
cids_of_value (simple b) = panics
cids_of_value (mapping m) = panics

module _ (dag : Dag) where
  open dag use {
    Tree, resolve, resolve_token, resolve_policy, set, create_node, get, encode_mint, encode_send,
    encode_receive, encode_policy, empty_token, decode_receive,
  }

  -- transactionCidsForPath
  unfoldable pub transaction_cids_for_path : TreePath → Tree → Result (List Cid)
  transaction_cids_for_path path tree = do
    (uncast_cids, remaining) ← or_fail dag_failed (resolve path tree)
    cids_of_value uncast_cids

  -- TreeLedger.sumTokenTransactions, from the sum `sum`
  unfoldable pub sum_from : Tree → ℕ → List Cid → Result ℕ
  sum_from tree sum [] = returns sum
  sum_from tree sum (c ∷ cs) = do
    node ← or_fail dag_failed (get c tree)
    rec ← or_fail dag_failed (decode_receive node)
    sum_from tree ((sum + rec.amount) % word) cs

  -- The receives are searched for a transaction; `true` when one has it.
  unfoldable pub has_received : Tree → Bytes → List Cid → Result Bool
  has_received tree id [] = returns false
  has_received tree id (c ∷ cs) = do
    node ← or_fail dag_failed (get c tree)
    tr ← or_fail dag_failed (decode_receive node)
    if bytes_eq tr.send_token_transaction_id id then returns true else has_received tree id cs

  -- The test of the maximum in MintToken; a maximum of zero is none.
  unfoldable pub check_maximum : TokenMonetaryPolicy → ℕ → List Cid → Tree → Result (Unit {0})
  check_maximum policy amount mint_cids tree =
      if ltb 0 policy.maximum
      then (do
        current_minted_total ← sum_from tree 0 mint_cids
        if ltb policy.maximum ((current_minted_total + amount) % word)
            then fails over_maximum
            else returns tt)
      else returns tt

  module _ (token_name : TokenName) where
    -- TreeLedger.tokenTransactionCidsForType, TokenTransactionCidsForType
    unfoldable pub transaction_cids_for_type : Bytes → Tree → Result (List Cid)
    transaction_cids_for_type tx_type tree = do
      path ← token_path token_name
      transaction_cids_for_path (path ++ tx_type ∷ []) tree

    -- TreeLedger.Balance
    unfoldable pub balance : Tree → Result ℕ
    balance tree = do path ← token_path token_name; or_fail dag_failed (resolve_token path tree)

    -- TreeLedger.TokenExists
    unfoldable pub token_exists : Tree → Result Bool
    token_exists tree = do
      path ← token_path token_name
      (existing_token, remaining) ← or_fail dag_failed (resolve path tree)
      returns (not (is_nil existing_token))

    -- TreeLedger.createToken
    unfoldable pub create_token : Tree → Result Tree
    create_token tree = do
      path ← token_path token_name
      new_tree ← or_fail dag_failed (set as_link path empty_token tree)
      or_fail dag_failed (set inline (path ++ token_balance_label ∷ []) (number 0) new_tree)

    -- TreeLedger.EstablishToken
    unfoldable pub establish_token : TokenMonetaryPolicy → Tree → Result Tree
    establish_token policy tree = do
      new_tree ← create_token tree
      path ← token_path token_name
      or_fail dag_failed
          (set as_link (path ++ monetary_policy_label ∷ []) (encode_policy policy) new_tree)

    -- TreeLedger.MintToken
    unfoldable pub mint_token : ℕ → Tree → Result Tree
    mint_token amount tree = if eqb amount 0 then fails zero_amount else do
      path ← token_path token_name
      policy ← or_fail no_policy (resolve_policy (path ++ monetary_policy_label ∷ []) tree)
      mint_cids ← transaction_cids_for_type token_mint_label tree
      allowed ← check_maximum policy amount mint_cids tree
      (new_mint, stored) ←
          or_fail dag_failed (create_node (encode_mint (record { amount = amount })) tree)
      new_tree ← or_fail dag_failed (
          set as_link (path ++ token_mint_label ∷ [])
            (sequence (map (λ c. link c) (mint_cids ++ new_mint ∷ []))) stored)
      curr_balance ← balance stored
      or_fail dag_failed (
          set inline (path ++ token_balance_label ∷ []) (number ((curr_balance + amount) % word))
            new_tree)

    -- TreeLedger.SendToken: the balance is at least the amount where it is lowered.
    unfoldable pub send_token : Bytes → Bytes → ℕ → Tree → Result Tree
    send_token tx_id destination amount tree = if eqb amount 0 then fails zero_amount else do
      path ← token_path token_name
      available_balance ← balance tree
      if ltb available_balance amount then fails low_balance else do
        (new_send, stored) ← or_fail dag_failed (
            create_node
              (encode_send (record { id = tx_id; amount = amount; destination = destination }))
              tree)
        sent_cids ← transaction_cids_for_type token_send_label stored
        new_tree ← or_fail dag_failed (
            set as_link (path ++ token_send_label ∷ [])
              (sequence (map (λ c. link c) (sent_cids ++ new_send ∷ []))) stored)
        or_fail dag_failed (
            set inline (path ++ token_balance_label ∷ []) (number (available_balance - amount))
              new_tree)

    -- TreeLedger.ReceiveToken from the search of the receives on, when the token exists
    unfoldable pub add_receive : TokenReceive → Tree → Result Tree
    add_receive receive tree = do
      path ← token_path token_name
      token_receives ← transaction_cids_for_type token_receive_label tree
      received ← has_received tree receive.send_token_transaction_id token_receives
      if received then fails already_received else do
        (new_receive, stored) ← or_fail dag_failed (create_node (encode_receive receive) tree)
        new_tree ← or_fail dag_failed (
            set as_link (path ++ token_receive_label ∷ [])
              (sequence (map (λ c. link c) (token_receives ++ new_receive ∷ []))) stored)
        curr_balance ← balance stored
        or_fail dag_failed (
            set inline (path ++ token_balance_label ∷ [])
              (number ((curr_balance + receive.amount) % word)) new_tree)

    -- TreeLedger.ReceiveToken
    unfoldable pub receive_token : Bytes → ℕ → Tree → Result Tree
    receive_token send_token_tx_id amount tree = do
      exists ← token_exists tree
      established ← if exists then returns tree else create_token tree
      add_receive (record { send_token_transaction_id = send_token_tx_id; amount = amount })
          established
