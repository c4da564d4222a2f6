-- ===== src/Tokens/Transactions/Receiving.antt =====
-- What ReceiveTokenTransaction has checked when it gives a new tree.
use tupelo.Prelude.{some, List, ◌∷◌, Any, ◌≡◌, sym, if◌then◌else◌}
use tupelo.GoString.{Bytes, bytes_eq, bytes_eq_iff}
use tupelo.External.CidLib.{CidLib, Cid}
use tupelo.External.Dag.{Dag}
use tupelo.External.Dag.Sender.{Sender}
use tupelo.Tokens.{TokenSend}
use tupelo.Tokens.Name.{TokenName}
use tupelo.Tokens.Ledger.{receive_token}
use tupelo.Outcome.{
  fails, returns, ◌>>=◌, or_fail, with_error, returned_first, some_returned, returned_anyway,
  returned_then,
}
use tupelo.Tokens.Transactions.{receive_token_transaction, Transacted}
use tupelo.Tokens.Transactions.Sending.{
  failed, Ranges, ReceiveTokenPayload, sender_dag, token_name_of, token_send_of,
}
use tupelo.Tokens.Transactions.Sent.{IsToken, IsSend, token_name_of-IsToken, token_send_of-IsSend}
use tupelo.Tokens.Transactions.Tip.{IsNodeOf, sender_dag-tip}

module _ (dag : Dag) (lib : CidLib) (sender : Sender dag) (names sends : Ranges) where
  open dag use {Tree}
  open lib use {cast}
  open sender use {tip}

  -- The tree is what the ledger makes of a send that stands in the sender's DAG.
  pub record IsReceived (payload : ReceiveTokenPayload) (tree result : Tree) : Type 0 where
    pub tip_cid : Cid
    pub from : Tree
    pub token_name : TokenName
    pub token_send : TokenSend
    pub is_cast : cast payload.tip ≡ some tip_cid
    pub is_made : sender_dag dag lib sender payload ≡ returns from
    pub has_tip : tip from ≡ tip_cid
    pub is_token : IsToken dag from token_name
    pub is_send : IsSend dag from token_name token_send
    pub is_credited :
        receive_token dag token_name payload.send_token_transaction_id token_send.amount tree
        ≡ returns result

  IsReceived-from :
      (payload : ReceiveTokenPayload) (tree result : Tree)
      → receive_token_transaction dag lib sender names sends (some payload) tree ≡ returns result
      → IsReceived payload tree result
  unfolding receive_token_transaction
  IsReceived-from payload tree result h =
      let credit : Tree → TokenName → TokenSend → Transacted Tree = λ from tn s.
        with_error (λ e. failed)
          (receive_token dag tn payload.send_token_transaction_id s.amount tree) in
      let sent : Tree → TokenName → Transacted Tree =
        λ from tn. token_send_of dag sends from tn >>= credit from tn in
      let named : Tree → Transacted Tree = λ from. token_name_of dag names from >>= sent from in
      let checked : Cid → Tree → Transacted Tree =
        λ c from. if◌then◌else◌ (bytes_eq c (tip from)) (named from) (fails failed) in
      let (c, h1, k1) =
        returned_first (or_fail failed (cast payload.tip))
          (λ c. sender_dag dag lib sender payload >>= checked c) h in
      let (from, h2, k2) = returned_first (sender_dag dag lib sender payload) (checked c) k1 in
      let (t, k3) = returned_then (bytes_eq c (tip from)) (named from) failed k2 in
      let (tn, h4, k4) = returned_first (token_name_of dag names from) (sent from) k3 in
      let (s, h5, k5) = returned_first (token_send_of dag sends from tn) (credit from tn) k4 in
      record {
        tip_cid = c;
        from = from;
        token_name = tn;
        token_send = s;
        is_cast = some_returned failed (cast payload.tip) h1;
        is_made = h2;
        has_tip = sym ((bytes_eq_iff c (tip from)).0 t);
        is_token = token_name_of-IsToken dag names from tn h4;
        is_send = token_send_of-IsSend dag sends from tn s h5;
        is_credited =
            returned_anyway (λ e. failed)
              (receive_token dag tn payload.send_token_transaction_id s.amount tree) k5;
      }

  -- A tree that ReceiveTokenTransaction gives, for a payload that has a leaf, is the ledger's tree
  -- after the receive of the amount of a send: in the DAG made of the leaves, the token's name is a
  -- key of the chain tree's tokens, under which a node stands, and the send is a node that this
  -- token's list of sends links to. That DAG has the payload's tip, and the tip is among the
  -- leaves.
  pub receive_token_transaction-IsReceived :
      (payload : ReceiveTokenPayload) (l : Bytes) (leaves : List Bytes) (tree result : Tree)
      → payload.leaves ≡ l ∷ leaves
      → receive_token_transaction dag lib sender names sends (some payload) tree ≡ returns result
      → (r : IsReceived payload tree result) × Any
          (IsNodeOf dag lib sender r.tip_cid)
          payload.leaves
  receive_token_transaction-IsReceived payload l leaves tree result p h =
      let r = IsReceived-from payload tree result h in
      (
        r,
        (sender_dag-tip dag lib sender payload r.tip_cid r.from l leaves r.is_cast p r.is_made).0
            r.has_tip,
      )
