-- ===== src/External/Dag.antt =====
-- github.com/quorumcontrol/chaintree/dag: a tree of linked CBOR nodes, read and written by path,
-- and the CBOR encoding of the token structs. A write gives a new tree over the same store.
pub mod Memory
pub mod Sender
use tupelo.Prelude.{ℕ, Option, some, List, [], ◌∷◌, ◌++◌, Bool, true, false, ◌≡◌, ◌≢◌, In}
use tupelo.GoString.{Bytes}
use tupelo.GoMap.{GoMap}
use tupelo.External.CidLib.{Cid}
use tupelo.Tokens.{
  TokenMint, TokenSend, TokenReceive, TokenMonetaryPolicy, monetary_policy_label,
  token_balance_label, token_mint_label, token_send_label, token_receive_label,
}
use tupelo.Tokens.Path.{TreePath}

-- A value inside a list or a map: an identifier, or the encoding of anything else.
pub data Item : Type 0 where
  link : Cid → Item
  other : Bytes → Item

-- What a node decodes to as an `interface{}`: `simple` is the encoding of a value of another of the
-- built in types.
pub data Value : Type 0 where
  nil : Value
  number : ℕ → Value
  simple : Bytes → Value
  sequence : List Item → Value
  mapping : GoMap Bytes Item → Value

-- Set and SetAsLink
pub data Write : Type 0 where
  inline : Write
  as_link : Write

abbrev pub is_nil : Value → Bool
is_nil nil = true
is_nil (number n) = false
is_nil (simple b) = false
is_nil (sequence xs) = false
is_nil (mapping m) = false

-- The fields of a Token that are links: all but the balance.
abbrev pub token_links : List Bytes
token_links = monetary_policy_label ∷ token_mint_label ∷ token_send_label ∷ token_receive_label ∷ []

pub record Dag : Type 1 where
  pub Tree : Type 0
  -- The encodings of the registered structs; `empty_token` is that of `Token{}`.
  pub encode_mint : TokenMint → Value
  pub encode_send : TokenSend → Value
  pub encode_receive : TokenReceive → Value
  pub encode_policy : TokenMonetaryPolicy → Value
  pub empty_token : Value
  -- cbornode.DecodeInto with a TokenReceive and a TokenSend: none is an error.
  pub decode_receive : Value → Option TokenReceive
  pub decode_send : Value → Option TokenSend
  -- Resolve: the value, and what remains of the path.
  pub resolve : TreePath → Tree → Option (Value × TreePath)
  -- ResolveInto with a Token, of which the code reads the balance, and with a policy.
  pub resolve_token : TreePath → Tree → Option ℕ
  pub resolve_policy : TreePath → Tree → Option TokenMonetaryPolicy
  pub set : Write → TreePath → Value → Tree → Option Tree
  pub create_node : Value → Tree → Option (Cid × Tree)
  -- Get: none is an error, a missing node among them.
  pub get : Cid → Tree → Option Value
  -- ResolveInto with a policy, of a token that has none.
  pub policy_of_new : Option TokenMonetaryPolicy
  -- A mint decodes as a receive without a transaction.
  pub decode_receive-encode_mint :
      (m : TokenMint)
      → decode_receive (encode_mint m)
        ≡ some (record { send_token_transaction_id = []; amount = m.amount })
  pub decode_receive-encode_receive :
      (r : TokenReceive) → decode_receive (encode_receive r) ≡ some r
  pub decode_send-encode_send : (s : TokenSend) → decode_send (encode_send s) ≡ some s
  -- The encoding of `Token{}`: the balance is zero, and the four links are null.
  pub token-new :
      (p : TreePath) (t : Tree) {t' : Tree}
      → set as_link p empty_token t ≡ some t'
      → resolve_token p t' ≡ some 0
  pub resolve-new :
      (p : TreePath) (k : Bytes) (t : Tree) {t' : Tree}
      → In k token_links
      → set as_link p empty_token t ≡ some t'
      → (rest : TreePath) × (resolve (p ++ k ∷ []) t' ≡ some (nil, rest))
  pub policy-new :
      (p : TreePath) (t : Tree) {t' : Tree}
      → set as_link p empty_token t ≡ some t'
      → resolve_policy (p ++ monetary_policy_label ∷ []) t' ≡ policy_of_new
  -- A token is no nil value.
  pub resolve-token :
      (p : TreePath) (t : Tree) {b : ℕ}
      → resolve_token p t ≡ some b
      → (v : Value) × (rest : TreePath) × (resolve p t ≡ some (v, rest)) × (is_nil v ≡ false)
  -- A write reads back.
  pub token-set_balance :
      (p : TreePath) (n : ℕ) (t : Tree) {t' : Tree} {b : ℕ}
      → set inline (p ++ token_balance_label ∷ []) (number n) t ≡ some t'
      → resolve_token p t ≡ some b
      → resolve_token p t' ≡ some n
  pub resolve-set_sequence :
      (p : TreePath) (xs : List Item) (t : Tree) {t' : Tree}
      → set as_link p (sequence xs) t ≡ some t'
      → resolve p t' ≡ some (sequence xs, [])
  pub policy-set :
      (p : TreePath) (q : TokenMonetaryPolicy) (t : Tree) {t' : Tree}
      → set as_link p (encode_policy q) t ≡ some t'
      → resolve_policy p t' ≡ some q
  -- A write to one field of a token changes no other.
  pub token-set_field :
      (p : TreePath) (k : Bytes) (v : Value) (t : Tree) {t' : Tree} {b : ℕ}
      → set as_link (p ++ k ∷ []) v t ≡ some t'
      → k ≢ token_balance_label
      → resolve_token p t ≡ some b
      → resolve_token p t' ≡ some b
  pub resolve-set_field :
      (w : Write) (p : TreePath) (k j : Bytes) (v : Value) (t : Tree) {t' : Tree} {b : ℕ}
      → set w (p ++ k ∷ []) v t ≡ some t'
      → k ≢ j
      → resolve_token p t ≡ some b
      → resolve (p ++ j ∷ []) t' ≡ resolve (p ++ j ∷ []) t
  pub policy-set_field :
      (w : Write) (p : TreePath) (k j : Bytes) (v : Value) (t : Tree) {t' : Tree} {b : ℕ}
      → set w (p ++ k ∷ []) v t ≡ some t'
      → k ≢ j
      → resolve_token p t ≡ some b
      → resolve_policy (p ++ j ∷ []) t' ≡ resolve_policy (p ++ j ∷ []) t
  -- The store keeps its nodes, and a new one has no place in the tree yet.
  pub get-set :
      (w : Write) (p : TreePath) (v : Value) (t : Tree) (c : Cid) (u : Value) {t' : Tree}
      → set w p v t ≡ some t'
      → get c t ≡ some u
      → get c t' ≡ some u
  pub get-create :
      (v : Value) (t : Tree) {c : Cid} {t' : Tree}
      → create_node v t ≡ some (c, t')
      → get c t' ≡ some v
  pub get-create_kept :
      (v : Value) (t : Tree) (d : Cid) (u : Value) {c : Cid} {t' : Tree}
      → create_node v t ≡ some (c, t')
      → get d t ≡ some u
      → get d t' ≡ some u
  pub resolve-create :
      (v : Value) (t : Tree) (p : TreePath) {c : Cid} {t' : Tree}
      → create_node v t ≡ some (c, t')
      → resolve p t' ≡ resolve p t
  pub token-create :
      (v : Value) (t : Tree) (p : TreePath) {c : Cid} {t' : Tree}
      → create_node v t ≡ some (c, t')
      → resolve_token p t' ≡ resolve_token p t
  pub policy-create :
      (v : Value) (t : Tree) (p : TreePath) {c : Cid} {t' : Tree}
      → create_node v t ≡ some (c, t')
      → resolve_policy p t' ≡ resolve_policy p t
