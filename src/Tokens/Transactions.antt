-- ===== src/Tokens/Transactions.antt =====
-- The transactors of sdk/consensus/transactions.go. A transaction is given by its payload, where
-- none is the error of the accessor (EnsureMintTokenPayload and the like); the result is the new
-- tree, valid, or the code of the error.
pub mod Sending
pub mod Sent
pub mod Tip
pub mod Receiving
use tupelo.Prelude.{ℕ, Option, none, some, List, [], ◌++◌, Bool, true, false, if◌then◌else◌}
use tupelo.GoString.{Bytes, bytes_eq}
use tupelo.External.CidLib.{CidLib}
use tupelo.External.Dag.{Dag, Value, nil, number, simple, sequence, mapping, inline, as_link}
use tupelo.External.Dag.Sender.{Sender}
use tupelo.Tokens.{
  TokenMonetaryPolicy, tree_path_for_authentications, tree_path_for_stake, tree_path_for_data,
}
use tupelo.Tokens.Path.{TreePath, decode_path}
use tupelo.Tokens.Canonical.{canonical_token_name}
use tupelo.Tokens.Ledger.{token_exists, establish_token, mint_token, send_token, receive_token}
use tupelo.Outcome.{Outcome, fails, ◌>>=◌, or_fail, with_error}
use tupelo.Tokens.Transactions.Sending.{
  TransactionError, unknown, failed, Ranges, ReceiveTokenPayload, sender_dag, token_name_of,
  token_send_of,
}

pub record SetDataPayload : Type 0 where
  pub path : Bytes
  pub value : Bytes

pub record EstablishTokenPayload : Type 0 where
  pub name : Bytes
  pub monetary_policy : Option TokenMonetaryPolicy

pub record MintTokenPayload : Type 0 where
  pub name : Bytes
  pub amount : ℕ

pub record SendTokenPayload : Type 0 where
  pub id : Bytes
  pub name : Bytes
  pub amount : ℕ
  pub destination : Bytes

-- complexType: nil, lists and maps are in none of its cases.
abbrev pub complex_type : Value → Bool
complex_type nil = true
complex_type (number n) = false
complex_type (simple b) = false
complex_type (sequence xs) = true
complex_type (mapping m) = true

-- `x, _ := DecodePath(…)`
abbrev pub or_empty : Option TreePath → TreePath
or_empty none = []
or_empty (some p) = p

abbrev pub or_no_policy : Option TokenMonetaryPolicy → TokenMonetaryPolicy
or_no_policy none = record { maximum = 0 }
or_no_policy (some p) = p

abbrev pub Transacted : Type 0 → Type 0
Transacted T = Outcome TransactionError T

module _ (dag : Dag) where
  open dag use {Tree, set}

  -- SetDataTransaction; `decode` is cbornode.DecodeInto of an `interface{}`.
  unfoldable pub set_data_transaction :
      (Bytes → Option Value) → Option SetDataPayload → Tree → Transacted Tree
  set_data_transaction decode txn tree = do
    payload ← or_fail unknown txn
    path ← or_fail unknown (decode_path payload.path)
    val ← or_fail unknown (decode payload.value)
    let write = if complex_type val then as_link else inline
    or_fail failed (set write (or_empty (decode_path tree_path_for_data) ++ path) val tree)

  -- SetOwnershipTransaction; `encode` is the encoding of a list of strings.
  unfoldable pub set_ownership_transaction :
      (List Bytes → Value) → Option (List Bytes) → Tree → Transacted Tree
  set_ownership_transaction encode txn tree = do
    authentication ← or_fail unknown txn
    path ← or_fail unknown (decode_path tree_path_for_authentications)
    or_fail failed (set as_link path (encode authentication) tree)

  -- StakeTransaction; `encode` is the encoding of the payload.
  unfoldable pub stake_transaction : {P : Type 0} → (P → Value) → Option P → Tree → Transacted Tree
  stake_transaction encode txn tree = do
    payload ← or_fail unknown txn
    path ← or_fail unknown (decode_path tree_path_for_stake)
    or_fail failed (set as_link path (encode payload) tree)

  -- EstablishTokenTransaction
  unfoldable pub establish_token_transaction :
      Bytes → Option EstablishTokenPayload → Tree → Transacted Tree
  establish_token_transaction chain_tree_did txn tree = do
    payload ← or_fail unknown txn
    token_name ←
        with_error (λ e. unknown) (canonical_token_name dag tree chain_tree_did payload.name true)
    exists ← with_error (λ e. unknown) (token_exists dag token_name tree)
    if exists
        then fails unknown
        else with_error (λ e. unknown)
            (establish_token dag token_name (or_no_policy payload.monetary_policy) tree)

  -- MintTokenTransaction
  unfoldable pub mint_token_transaction : Bytes → Option MintTokenPayload → Tree → Transacted Tree
  mint_token_transaction chain_tree_did txn tree = do
    payload ← or_fail unknown txn
    token_name ←
        with_error (λ e. unknown) (canonical_token_name dag tree chain_tree_did payload.name true)
    with_error (λ e. unknown) (mint_token dag token_name payload.amount tree)

  -- SendTokenTransaction
  unfoldable pub send_token_transaction : Bytes → Option SendTokenPayload → Tree → Transacted Tree
  send_token_transaction chain_tree_did txn tree = do
    payload ← or_fail unknown txn
    token_name ←
        with_error (λ e. unknown) (canonical_token_name dag tree chain_tree_did payload.name false)
    with_error (λ e. failed)
        (send_token dag token_name payload.id payload.destination payload.amount tree)

  module _ (lib : CidLib) (sender : Sender dag) (names sends : Ranges) where
    open lib use {cast}
    open sender use {tip}

    -- ReceiveTokenTransaction; each of its two calls has an order of `range` of its own.
    unfoldable pub receive_token_transaction : Option ReceiveTokenPayload → Tree → Transacted Tree
    receive_token_transaction txn tree = do
      payload ← or_fail failed txn
      tip_cid ← or_fail failed (cast payload.tip)
      from ← sender_dag dag lib sender payload
      if bytes_eq tip_cid (tip from)
          then (do
            token_name ← token_name_of dag names from
            token_send ← token_send_of dag sends from token_name
            with_error (λ e. failed)
                (receive_token dag token_name payload.send_token_transaction_id token_send.amount
                  tree))
          else fails failed
