-- ===== src/Tokens/Transactions/Sending.antt =====
-- The sender's side of a received token in sdk/consensus/transactions.go: GetSenderDagFromReceive,
-- GetTokenNameFromReceive and GetSendTokenFromReceive.
use tupelo.Prelude.{ℕ, suc, Option, none, some, List, [], ◌∷◌, ◌++◌, if◌then◌else◌}
use tupelo.GoString.{Bytes, bytes, bytes_eq, bytes_eq_inst}
use tupelo.GoString.Rune.{rune_string}
use tupelo.GoMap.{GoMap, insert}
use tupelo.External.CidLib.{CidLib, Cid}
use tupelo.External.Dag.{Dag, Item, link, other, Value, nil, number, simple, sequence, mapping}
use tupelo.External.Dag.Sender.{DagNode, Sender}
use tupelo.Tokens.{TokenSend, tree_path_for_tokens, token_send_label}
use tupelo.Tokens.Path.{TreePath, decode_path}
use tupelo.Tokens.Name.{TokenName, token_name_string, token_name_from_string}
use tupelo.Tokens.Canonical.{as_map, has_remaining}
use tupelo.Outcome.{Outcome, fails, returns, ◌>>=◌, or_fail}
use tupelo.Vote.Tallies.{RangeOrder}

-- ErrUnknown, and the code 999
pub data TransactionError : Type 0 where
  unknown : TransactionError
  failed : TransactionError

-- The order in which `range` takes the entries of a map.
abbrev pub Ranges : Type 0
Ranges = RangeOrder (Bytes × Item)

-- transactions.ReceiveTokenPayload of the messages repository, with the fields that the code reads.
pub record ReceiveTokenPayload : Type 0 where
  pub send_token_transaction_id : Bytes
  pub tip : Bytes
  pub leaves : List Bytes

abbrev pub as_list : Value → Option (List Item)
as_list (sequence xs) = some xs
as_list nil = none
as_list (number n) = none
as_list (simple b) = none
as_list (mapping m) = none

-- tokenSendsMap: the sends under `string(i)`, from the index `i` on.
unfoldable pub sends_map : ℕ → GoMap Bytes Item → List Item → GoMap Bytes Item
sends_map i m [] = m
sends_map i m (ts ∷ sends) = sends_map (suc i) (insert (rune_string i) ts m) sends

module _ (dag : Dag) where
  open dag use {Tree, resolve, get, decode_send}

  -- findFirstLinkedNode, for entries in the order in which they are taken
  unfoldable pub find_first_linked_node :
      Tree → GoMap Bytes Item → Outcome TransactionError (Bytes × Value)
  find_first_linked_node tree [] = fails failed
  find_first_linked_node tree ((k, other b) ∷ parent_node) = find_first_linked_node tree parent_node
  find_first_linked_node tree ((k, link c) ∷ parent_node) = elim (get c tree) [
    | none ↦ find_first_linked_node tree parent_node
    | some node ↦ returns (k, node)
  ]

  -- The two tests after a Resolve: no error, and nothing of the path remains.
  unfoldable pub resolve_whole : TreePath → Tree → Outcome TransactionError Value
  resolve_whole path tree = do
    (value, remaining) ← or_fail failed (resolve path tree)
    if has_remaining remaining then fails failed else returns value

  module _ (ranges : Ranges) where
    -- GetTokenNameFromReceive
    unfoldable pub token_name_of : Tree → Outcome TransactionError TokenName
    unfolding find_first_linked_node resolve_whole
    token_name_of from = do
      tree_path ← or_fail failed (decode_path tree_path_for_tokens)
      uncast_tokens ← resolve_whole (bytes "tree" ∷ tree_path) from
      tokens ← or_fail failed (as_map uncast_tokens)
      (token_name, node) ← find_first_linked_node from (ranges.order tokens)
      returns (token_name_from_string token_name)

    -- GetSendTokenFromReceive
    unfoldable pub token_send_of : Tree → TokenName → Outcome TransactionError TokenSend
    unfolding find_first_linked_node resolve_whole sends_map
    token_send_of from token_name = do
      tree_path ← or_fail failed (decode_path tree_path_for_tokens)
      uncast_token_sends ←
          resolve_whole
            ((bytes "tree" ∷ tree_path) ++ token_name_string token_name ∷ token_send_label ∷ [])
            from
      token_sends ← or_fail failed (as_list uncast_token_sends)
      (key, token_send_node) ←
          find_first_linked_node from (ranges.order (sends_map 0 [] token_sends))
      or_fail failed (decode_send token_send_node)

  module _ (lib : CidLib) (sender : Sender dag) where
    open lib use {cast}
    open sender use {decode_node, new_dag_with_nodes}

    -- The loop over the leaves, behind `nodes`: the tip goes first.
    unfoldable pub sender_nodes :
        Cid → List DagNode → List Bytes → Outcome TransactionError (List DagNode)
    sender_nodes tip_cid nodes [] = returns nodes
    sender_nodes tip_cid nodes (l ∷ leaves) = do
      cbor_node ← or_fail failed (decode_node l)
      sender_nodes tip_cid
          (if bytes_eq cbor_node.cid tip_cid then cbor_node ∷ nodes else nodes ++ cbor_node ∷ [])
          leaves

    -- GetSenderDagFromReceive
    unfoldable pub sender_dag : ReceiveTokenPayload → Outcome TransactionError Tree
    unfolding sender_nodes
    sender_dag payload = do
      tip_cid ← or_fail failed (cast payload.tip)
      nodes ← sender_nodes tip_cid [] payload.leaves
      or_fail failed (new_dag_with_nodes nodes)
