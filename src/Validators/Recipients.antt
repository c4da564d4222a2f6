-- ===== src/Validators/Recipients.antt =====
-- What a block has that IsTokenRecipient accepts.
use tupelo.Prelude.{
  subst, ℕ, length, Option, none, some, List, [], ◌∷◌, All, Bool, true, false, if◌then◌else◌, ◌≡◌,
  refl, ap,
}
use tupelo.GoString.{Bytes, bytes, bytes_eq, bytes_eq_iff}
use tupelo.External.CidLib.{CidLib}
use tupelo.External.Dag.{Dag, Value}
use tupelo.External.Dag.Sender.{Sender}
use tupelo.Tokens.{TokenSend}
use tupelo.Tokens.Name.{TokenName}
use tupelo.Tokens.Transactions.Sending.{
  TransactionError, unknown, Ranges, ReceiveTokenPayload, sender_dag, token_name_of, token_send_of,
}
use tupelo.Tokens.Transactions.Sent.{IsToken, IsSend, token_name_of-IsToken, token_send_of-IsSend}
use tupelo.Tokens.Path.{TreePath}
use tupelo.Validators.{
  Transaction, receiving_token, other_type, get_receive_token_payloads, has_none, is_destination,
  all_for, is_token_recipient,
}
use tupelo.Outcome.{Outcome, returns, ◌>>=◌, or_fail, returned_first, some_returned, accepted_then}

module _ (dag : Dag) (lib : CidLib) (sender : Sender dag) (names sends : ℕ → Ranges)
    (as_string : Value → Option Bytes) where
  open dag use {Tree, resolve}

  -- A send that stands in the DAG made of the payload's leaves goes to the chain tree with this id.
  pub record IsFor (id : Bytes) (rt : ReceiveTokenPayload) : Type 0 where
    pub from : Tree
    pub token_name : TokenName
    pub token_send : TokenSend
    pub is_made : sender_dag dag lib sender rt ≡ returns from
    pub is_token : IsToken dag from token_name
    pub is_send : IsSend dag from token_name token_send
    pub is_destined : token_send.destination ≡ id

  destined :
      (o : Option Bytes) (destination : Bytes) (x : Outcome TransactionError Bool)
      → (is_destination dag lib sender names sends as_string o destination
          >>= (λ same. if◌then◌else◌ same x (returns false)))
        ≡ returns true
      → (o ≡ some destination) × (x ≡ returns true)
  destined none destination x h = absurd (cc)
  destined (some id) destination x h =
      let (t, k) = accepted_then (bytes_eq id destination) x h in
      (ap (λ b. some b) ((bytes_eq_iff id destination).0 t), k)

  -- Each of the receives is for the chain tree with this id.
  abbrev AllDestined : Value → List ReceiveTokenPayload → Type 0
  AllDestined id = All (λ rt. (name : Bytes) × (as_string id ≡ some name) × IsFor name rt)

  -- The receive is for the chain tree.
  abbrev IsReceipt : Tree → ReceiveTokenPayload → Type 0
  IsReceipt tree rt =
      (id : Value) × (rest : TreePath) × (name : Bytes) × (resolve (bytes "id" ∷ []) tree
        ≡ some (id, rest))
      × (as_string id ≡ some name)
      × IsFor name rt

  -- A transaction that receives a token has a payload, and is for the chain tree.
  abbrev IsReceivedBy : Tree → Transaction → Type 0
  IsReceivedBy tree other_type = Unit
  IsReceivedBy tree (receiving_token none) = ⊥
  IsReceivedBy tree (receiving_token (some rt)) = IsReceipt tree rt

  abbrev pub AllFor : Tree → List Transaction → Type 0
  AllFor tree = All (IsReceivedBy tree)

  all_for-AllDestined :
      (id : Value) (rts : List ReceiveTokenPayload)
      → all_for dag lib sender names sends as_string id rts ≡ returns true
      → AllDestined id rts
  unfolding all_for
  all_for-AllDestined id [] h = tt
  all_for-AllDestined id (rt ∷ rts) h =
      let rest = all_for dag lib sender names sends as_string id rts in
      let compared : TokenSend → Outcome TransactionError Bool = λ s.
        is_destination dag lib sender names sends as_string (as_string id) s.destination
        >>= (λ same. if◌then◌else◌ same rest (returns false)) in
      let sent : Tree → TokenName → Outcome TransactionError Bool =
        λ from tn. token_send_of dag (sends (length rts)) from tn >>= compared in
      let named : Tree → Outcome TransactionError Bool =
        λ from. token_name_of dag (names (length rts)) from >>= sent from in
      let (from, e1, h1) = returned_first (sender_dag dag lib sender rt) named h in
      let (tn, e2, h2) =
        returned_first (token_name_of dag (names (length rts)) from) (sent from) h1 in
      let (s, e3, h3) =
        returned_first (token_send_of dag (sends (length rts)) from tn) compared h2 in
      let (d, h4) = destined (as_string id) s.destination rest h3 in
      (
        (
          s.destination,
          d,
          record {
            from = from;
            token_name = tn;
            token_send = s;
            is_made = e1;
            is_token = token_name_of-IsToken dag (names (length rts)) from tn e2;
            is_send = token_send_of-IsSend dag (sends (length rts)) from tn s e3;
            is_destined = refl;
          },
        ),
        all_for-AllDestined id rts h4,
      )

  AllDestined-receipts :
      (tree : Tree) (id : Value) (rest : TreePath) (rts : List ReceiveTokenPayload)
      → resolve (bytes "id" ∷ []) tree ≡ some (id, rest)
      → AllDestined id rts
      → All (IsReceipt tree) rts
  AllDestined-receipts tree id rest [] e a = tt
  AllDestined-receipts tree id rest (rt ∷ rts) e ((name, n, f), a) =
      ((id, rest, name, e, n, f), AllDestined-receipts tree id rest rts e a)

  after_has_none :
      (rts : List ReceiveTokenPayload) (tree : Tree)
      → if◌then◌else◌ (has_none rts) (returns true) (
          or_fail unknown (resolve (bytes "id" ∷ []) tree)
          >>= (λ (v : Value × TreePath). all_for dag lib sender names sends as_string v.0 rts))
        ≡ returns true
      → All (IsReceipt tree) rts
  after_has_none [] tree h = tt
  after_has_none (rt ∷ rts) tree h =
      let ((id, rest), e, k) =
        returned_first (or_fail unknown (resolve (bytes "id" ∷ []) tree))
          (λ (v : Value × TreePath). all_for dag lib sender names sends as_string v.0 (rt ∷ rts))
          h in
      AllDestined-receipts tree id rest (rt ∷ rts)
        (some_returned unknown (resolve (bytes "id" ∷ []) tree) e)
        (all_for-AllDestined id (rt ∷ rts) k)

  payloads-AllFor :
      (tree : Tree) (txns : List Transaction) (rts : List ReceiveTokenPayload)
      → get_receive_token_payloads txns ≡ returns rts
      → All (IsReceipt tree) rts
      → AllFor tree txns
  unfolding get_receive_token_payloads
  payloads-AllFor tree [] rts h a = tt
  payloads-AllFor tree (other_type ∷ txns) rts h a = (tt, payloads-AllFor tree txns rts h a)
  payloads-AllFor tree (receiving_token none ∷ txns) rts h a = absurd (cc)
  payloads-AllFor tree (receiving_token (some rt) ∷ txns) rts h a =
      let (rest, e, k) =
        returned_first (get_receive_token_payloads txns)
          (λ (rest : List ReceiveTokenPayload). returns (rt ∷ rest)) h in
      let f : rts ≡ rt ∷ rest = cc in
      let b : All (IsReceipt tree) (rt ∷ rest) = subst (All (IsReceipt tree)) f a in
      (b.0, payloads-AllFor tree txns rest e b.1)

  -- In a block that IsTokenRecipient accepts, each transaction that receives a token has a payload
  -- whose leaves make a DAG in which a send to the tree's id stands: a node that is linked from the
  -- list of sends of a token that the sender's chain tree has. The tree's id is then a string.
  pub is_token_recipient-AllFor :
      (tree : Tree) (txns : List Transaction)
      → is_token_recipient dag lib sender names sends as_string tree txns ≡ returns true
      → AllFor tree txns
  unfolding is_token_recipient
  is_token_recipient-AllFor tree txns h =
      let (rts, e, k) =
        returned_first (get_receive_token_payloads txns)
          (λ rts. if◌then◌else◌ (has_none rts) (returns true) (
            or_fail unknown (resolve (bytes "id" ∷ []) tree)
            >>= (λ (v : Value × TreePath). all_for dag lib sender names sends as_string v.0 rts)))
          h in
      payloads-AllFor tree txns rts e (after_has_none rts tree k)
