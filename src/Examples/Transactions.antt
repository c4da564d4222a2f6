-- ===== src/Examples/Transactions.antt =====
-- A received token: the sender's DAG, and the chain tree that receives.
use tupelo.Prelude.{Option, none, some, List, [], ◌∷◌, ◌++◌, Any, ◌≡◌, refl, ◌↔◌, true, subst}
use tupelo.GoString.{Bytes, bytes}
use tupelo.GoString.Split.{join}
use tupelo.External.CidLib.{plain}
use tupelo.External.Dag.{Value, link, nil, simple, sequence, mapping}
use tupelo.External.Dag.Memory.{path_eq_inst, Memory, written}
use tupelo.External.Dag.Memory.Laws.{memory_dag}
use tupelo.External.Dag.Sender.{DagNode, Sender}
use tupelo.Tokens.Path.{decode_path}
use tupelo.Tokens.Name.{token_name_string, token_name_from_string}
use tupelo.Tokens.Ledger.{balance, receive_token}
use tupelo.Tokens.Ledger.Refinement.{path_of}
use tupelo.Outcome.{returns}
use tupelo.Tokens.Transactions.{receive_token_transaction}
use tupelo.Tokens.Transactions.Sending.{Ranges, ReceiveTokenPayload, sender_dag}
use tupelo.Tokens.Transactions.Tip.{IsNodeOf, sender_dag-tip}
use tupelo.Tokens.Transactions.Receiving.{IsReceived, receive_token_transaction-IsReceived}
use tupelo.GoMap.{lookup}
use tupelo.Validators.{get_receive_token_payloads, is_token_recipient, other_type, receiving_token}
use tupelo.Validators.Recipients.{AllFor, is_token_recipient-AllFor}
use tupelo.Examples.Tokens.{coin, no_tokens, payment}

-- A sender's DAG: a token with one send, over the nodes that came with the transaction; the first
-- node gives the tip.
abbrev sender_tree : DagNode → Memory
sender_tree n = record {
  entries =
      ([], simple n.cid)
      ∷ (
        bytes "tree" ∷ bytes "_tupelo" ∷ bytes "tokens" ∷ [],
        mapping ((token_name_string coin, link (0 ∷ [])) ∷ []),
      )
      ∷ (bytes "tree" ∷ path_of coin ++ bytes "sends" ∷ [], sequence (link (1 ∷ []) ∷ []))
      ∷ [];
  nodes = memory_dag.empty_token ∷ memory_dag.encode_send payment ∷ [];
}

abbrev root_of : List DagNode → Option Memory
root_of [] = none
root_of (n ∷ ns) = some (sender_tree n)

abbrev tip_value : Option Value → Bytes
tip_value (some (simple b)) = b
tip_value _ = []

tip-root :
    (n : DagNode) (ns : List DagNode) {t : Memory}
    → root_of (n ∷ ns) ≡ some t
    → tip_value (lookup [] t.entries) ≡ n.cid
unfolding lookup
tip-root n ns {t} e =
    let f : sender_tree n ≡ t = cc in subst (λ u. tip_value (lookup [] u.entries) ≡ n.cid) f refl

abbrev senders : Sender memory_dag
senders = record {
  decode_node = λ l. some (record { cid = l; content = nil });
  new_dag_with_nodes = root_of;
  tip = λ t. tip_value (lookup [] t.entries);
  tip-new = tip-root;
}

abbrev as_it_is : Ranges
as_it_is = record {
  order = λ xs. xs;
  occurrences-order = λ p xs. refl;
  In-order = λ xs x. (λ i. i, λ i. i);
}

-- The tip is the second leaf.
abbrev payload : ReceiveTokenPayload
payload = record {
  send_token_transaction_id = bytes "p";
  tip = bytes "tip";
  leaves = bytes "leaf" ∷ bytes "tip" ∷ [];
}

abbrev given : Memory
given = written (path_of coin ++ bytes "balance" ∷ []) (Value.number 5) (
    written (path_of coin ++ bytes "receives" ∷ []) (sequence (link (0 ∷ []) ∷ []))
      (record (written (path_of coin ++ bytes "balance" ∷ []) (Value.number 0)
        (written (path_of coin) memory_dag.empty_token no_tokens)) {
          nodes =
              memory_dag.encode_receive
                (record { send_token_transaction_id = bytes "p"; amount = 5 })
              ∷ [];
        }))

payload_received :
    receive_token_transaction memory_dag plain senders as_it_is as_it_is (some payload) no_tokens
    ≡ returns given
unfolding receive_token_transaction sender_dag lookup
    tupelo.Tokens.Transactions.Sending.token_name_of decode_path tupelo.GoString.Split.trim_byte
    tupelo.GoString.Split.split tupelo.External.Dag.Memory.memory_get
    tupelo.Tokens.Transactions.Sending.token_send_of token_name_string join token_name_from_string
    tupelo.GoString.Split.all_but_last tupelo.GoString.Split.last_piece tupelo.GoMap.insert
    receive_token tupelo.Tokens.Ledger.token_exists tupelo.Tokens.Ledger.token_path
    tupelo.External.Dag.Memory.nth_node tupelo.GoString.Rune.rune_string
    tupelo.GoString.Split.extend_first tupelo.Tokens.Ledger.add_receive balance
    tupelo.Tokens.Ledger.cids_of_items tupelo.Tokens.Ledger.cids_of_value
    tupelo.Tokens.Ledger.create_token tupelo.Tokens.Ledger.has_received
    tupelo.Tokens.Ledger.transaction_cids_for_path tupelo.Tokens.Ledger.transaction_cids_for_type
    tupelo.Tokens.Name.from_components tupelo.Tokens.Transactions.Sending.find_first_linked_node
    tupelo.Tokens.Transactions.Sending.resolve_whole tupelo.Tokens.Transactions.Sending.sender_nodes
    tupelo.Tokens.Transactions.Sending.sends_map tupelo.External.Dag.Memory.remove_below
payload_received = refl

receive_token_transaction-IsReceived_example :
    (r : IsReceived memory_dag plain senders as_it_is as_it_is payload no_tokens given) × Any
      (IsNodeOf memory_dag plain senders r.tip_cid)
      payload.leaves
receive_token_transaction-IsReceived_example =
    receive_token_transaction-IsReceived memory_dag plain senders as_it_is as_it_is payload
      (bytes "leaf") (bytes "tip" ∷ []) no_tokens given refl payload_received

sender_dag-tip_example :
    (bytes "tip" ≡ bytes "tip")
    ↔ Any (IsNodeOf memory_dag plain senders (bytes "tip")) payload.leaves
unfolding sender_dag lookup
sender_dag-tip_example =
    sender_dag-tip memory_dag plain senders payload (bytes "tip")
      (sender_tree (record { cid = bytes "tip"; content = nil })) (bytes "leaf") (bytes "tip" ∷ [])
      refl refl refl

-- The chain tree that the payment goes to.
abbrev named_tree : Memory
named_tree = record no_tokens { entries = (bytes "id" ∷ [], simple (bytes "did:tupelo:b")) ∷ [] }

abbrev as_string : Value → Option Bytes
as_string (simple b) = some b
as_string _ = none

is_recipient :
    is_token_recipient memory_dag plain senders
      (λ n. as_it_is)
      (λ n. as_it_is)
      as_string
      named_tree
      (other_type ∷ receiving_token (some payload) ∷ [])
    ≡ returns true
unfolding is_token_recipient tupelo.Validators.get_receive_token_payloads sender_dag lookup
    tupelo.Tokens.Transactions.Sending.token_name_of decode_path tupelo.GoString.Split.trim_byte
    tupelo.GoString.Split.split tupelo.External.Dag.Memory.memory_get
    tupelo.Tokens.Transactions.Sending.token_send_of token_name_string join token_name_from_string
    tupelo.GoString.Split.all_but_last tupelo.GoString.Split.last_piece tupelo.GoMap.insert
    tupelo.External.Dag.Memory.nth_node tupelo.GoString.Rune.rune_string
is_recipient = refl

is_token_recipient-AllFor_example :
    AllFor memory_dag plain senders
      (λ n. as_it_is)
      (λ n. as_it_is)
      as_string
      named_tree
      (other_type ∷ receiving_token (some payload) ∷ [])
is_token_recipient-AllFor_example =
    is_token_recipient-AllFor memory_dag plain senders (λ n. as_it_is) (λ n. as_it_is) as_string
      named_tree (other_type ∷ receiving_token (some payload) ∷ []) is_recipient
