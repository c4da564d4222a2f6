-- ===== src/External/Dag/Memory/Laws.antt =====
-- The DAG in memory keeps the laws of a DAG.
use tupelo.Prelude.{
  ℕ, Option, none, some, [], ◌∷◌, ◌++◌, false, ◌≡◌, ◌≢◌, refl, ap, ◌∙◌, length, subst,
}
use tupelo.GoString.{Bytes}
use tupelo.GoMap.{lookup}
use tupelo.External.CidLib.{Cid}
use tupelo.External.Dag.{
  Dag, Value, Write, inline, as_link, other, nil, number, simple, sequence, mapping, is_nil,
}
use tupelo.External.Dag.Memory.{
  path_eq_inst, Memory, written, resolved, memory_set, memory_resolve, memory_token, memory_policy,
  memory_get, memory_create, token_of, policy_of, decode_receive_items, decode_send_items,
  nth_node-last, nth_node-kept, lookup-written_self, lookup-written_below, lookup-written_child,
  lookup-written_parent,
}
use tupelo.Tokens.{
  TokenMint, TokenSend, TokenReceive, TokenMonetaryPolicy, token_balance_label,
  monetary_policy_label,
}
use tupelo.Tokens.Path.{TreePath}

abbrev memory_empty : Value
memory_empty = simple []

abbrev memory_mint : TokenMint → Value
memory_mint m = sequence (other (m.amount ∷ []) ∷ [])

abbrev memory_send : TokenSend → Value
memory_send s = sequence (other s.id ∷ other (s.amount ∷ []) ∷ other s.destination ∷ [])

abbrev memory_receive : TokenReceive → Value
memory_receive r = sequence (other r.send_token_transaction_id ∷ other (r.amount ∷ []) ∷ [])

abbrev memory_policy_value : TokenMonetaryPolicy → Value
memory_policy_value p = number p.maximum

abbrev memory_decode_receive : Value → Option TokenReceive
memory_decode_receive (sequence xs) = decode_receive_items xs
memory_decode_receive nil = none
memory_decode_receive (number n) = none
memory_decode_receive (simple b) = none
memory_decode_receive (mapping m) = none

abbrev memory_decode_send : Value → Option TokenSend
memory_decode_send (sequence xs) = decode_send_items xs
memory_decode_send nil = none
memory_decode_send (number n) = none
memory_decode_send (simple b) = none
memory_decode_send (mapping m) = none

pub written_as :
    (w : Write) (p : TreePath) (v : Value) (t : Memory) {t' : Memory}
    → memory_set w p v t ≡ some t'
    → written p v t ≡ t'
written_as w p v t e = cc

pub created_as :
    (v : Value) (t : Memory) {c : Cid} {t' : Memory}
    → memory_create v t ≡ some (c, t')
    → (length t.nodes ∷ [] ≡ c) × (record t { nodes = t.nodes ++ v ∷ [] } ≡ t')
created_as v t e = (cc, cc)

pub token_new : (p : TreePath) (t : Memory) → memory_token p (written p memory_empty t) ≡ some 0
token_new p t = rw (
  lookup-written_self p memory_empty t,
  lookup-written_below p token_balance_label memory_empty t,
)

pub policy_new :
    (p : TreePath) (t : Memory)
    → memory_policy (p ++ monetary_policy_label ∷ []) (written p memory_empty t) ≡ none
policy_new p t = rw (lookup-written_below p monetary_policy_label memory_empty t)

pub resolve_new :
    (p : TreePath) (k : Bytes) (t : Memory)
    → (rest : TreePath) × (memory_resolve (p ++ k ∷ []) (written p memory_empty t)
        ≡ some (nil, rest))
resolve_new p k t = (p ++ k ∷ [], rw (lookup-written_below p k memory_empty t))

pub token_resolved :
    (p : TreePath) (o o' : Option Value) {b : ℕ}
    → token_of o o' ≡ some b
    → (v : Value) × (rest : TreePath) × (resolved p o ≡ some (v, rest)) × (is_nil v ≡ false)
token_resolved p none o' e = absurd (cc)
token_resolved p (some nil) o' e = absurd (cc)
token_resolved p (some (number n)) o' e = absurd (cc)
token_resolved p (some (sequence xs)) o' e = absurd (cc)
token_resolved p (some (mapping m)) o' e = absurd (cc)
token_resolved p (some (simple b)) o' e = (simple b, [], refl, refl)

token_rebalanced :
    (o o' : Option Value) (n : ℕ) {b : ℕ}
    → token_of o o' ≡ some b
    → token_of o (some (number n)) ≡ some n
token_rebalanced none o' n e = absurd (cc)
token_rebalanced (some nil) o' n e = absurd (cc)
token_rebalanced (some (number m)) o' n e = absurd (cc)
token_rebalanced (some (sequence xs)) o' n e = absurd (cc)
token_rebalanced (some (mapping m)) o' n e = absurd (cc)
token_rebalanced (some (simple b)) o' n e = refl

pub token_balance_set :
    (p : TreePath) (n : ℕ) (t : Memory) {b : ℕ}
    → memory_token p t ≡ some b
    → memory_token p (written (p ++ token_balance_label ∷ []) (number n) t) ≡ some n
token_balance_set p n t h =
    let q = p ++ token_balance_label ∷ [] in
    ap (λ o. token_of o (lookup q (written q (number n) t).entries))
      (lookup-written_parent p token_balance_label (number n) t)
    ∙ ap (λ o. token_of (lookup p t.entries) o) (lookup-written_self q (number n) t)
    ∙ token_rebalanced (lookup p t.entries) (lookup q t.entries) n h

pub token_field_set :
    (p : TreePath) (k : Bytes) (v : Value) (t : Memory)
    → k ≢ token_balance_label
    → memory_token p (written (p ++ k ∷ []) v t) ≡ memory_token p t
token_field_set p k v t d =
    let q = p ++ token_balance_label ∷ [] in
    ap (λ o. token_of o (lookup q (written (p ++ k ∷ []) v t).entries))
      (lookup-written_parent p k v t)
    ∙ ap (λ o. token_of (lookup p t.entries) o) (lookup-written_child p k token_balance_label v t d)

pub get_written :
    (c : Cid) (p : TreePath) (v : Value) (t : Memory)
    → memory_get c (written p v t) ≡ memory_get c t
unfolding memory_get
get_written [] p v t = refl
get_written (n ∷ []) p v t = refl
get_written (n ∷ m ∷ c) p v t = refl

pub get_created :
    (v : Value) (t : Memory) {c : Cid} {t' : Memory}
    → memory_create v t ≡ some (c, t')
    → memory_get c t' ≡ some v
unfolding memory_get
get_created v t e =
    let x : memory_get (length t.nodes ∷ []) (record t { nodes = t.nodes ++ v ∷ [] }) ≡ some v =
      nth_node-last v t.nodes in
    cc x

pub get_kept :
    (d : Cid) (u v : Value) (t : Memory)
    → memory_get d t ≡ some u
    → memory_get d (record t { nodes = t.nodes ++ v ∷ [] }) ≡ some u
unfolding memory_get
get_kept [] u v t h = h
get_kept (n ∷ []) u v t h = nth_node-kept n v u t.nodes h
get_kept (n ∷ m ∷ c) u v t h = h

-- A DAG in memory, in which the code runs.
abbrev pub memory_dag : Dag
memory_dag = record {
  Tree = Memory;
  encode_mint = memory_mint;
  encode_send = memory_send;
  encode_receive = memory_receive;
  encode_policy = memory_policy_value;
  empty_token = memory_empty;
  decode_receive = memory_decode_receive;
  decode_send = memory_decode_send;
  resolve = memory_resolve;
  resolve_token = memory_token;
  resolve_policy = memory_policy;
  set = memory_set;
  create_node = memory_create;
  get = memory_get;
  policy_of_new = none;
  decode_receive-encode_mint = λ m. refl;
  decode_receive-encode_receive = λ r. refl;
  decode_send-encode_send = λ s. refl;
  token-new = λ p t {t'} e.
      subst (λ u. memory_token p u ≡ some 0) (written_as as_link p memory_empty t e)
        (token_new p t);
  resolve-new = λ p k t {t'} i e.
      subst (λ u. (rest : TreePath) × (memory_resolve (p ++ k ∷ []) u ≡ some (nil, rest)))
        (written_as as_link p memory_empty t e) (resolve_new p k t);
  policy-new = λ p t {t'} e.
      subst (λ u. memory_policy (p ++ monetary_policy_label ∷ []) u ≡ none)
        (written_as as_link p memory_empty t e) (policy_new p t);
  resolve-token = λ p t {b} e.
      token_resolved p (lookup p t.entries) (lookup (p ++ token_balance_label ∷ []) t.entries) e;
  token-set_balance = λ p n t {t'} {b} e h.
      subst (λ u. memory_token p u ≡ some n)
        (written_as inline (p ++ token_balance_label ∷ []) (number n) t e)
        (token_balance_set p n t h);
  resolve-set_sequence = λ p xs t {t'} e.
      subst (λ u. memory_resolve p u ≡ some (sequence xs, []))
        (written_as as_link p (sequence xs) t e)
        (ap (resolved p) (lookup-written_self p (sequence xs) t));
  policy-set = λ p q t {t'} e.
      subst (λ u. memory_policy p u ≡ some q) (written_as as_link p (number q.maximum) t e)
        (ap policy_of (lookup-written_self p (number q.maximum) t));
  token-set_field = λ p k v t {t'} {b} e d h.
      subst (λ u. memory_token p u ≡ some b) (written_as as_link (p ++ k ∷ []) v t e)
        (token_field_set p k v t d ∙ h);
  resolve-set_field = λ w p k j v t {t'} {b} e d h.
      subst (λ u. memory_resolve (p ++ j ∷ []) u ≡ memory_resolve (p ++ j ∷ []) t)
        (written_as w (p ++ k ∷ []) v t e)
        (ap (resolved (p ++ j ∷ [])) (lookup-written_child p k j v t d));
  policy-set_field = λ w p k j v t {t'} {b} e d h.
      subst (λ u. memory_policy (p ++ j ∷ []) u ≡ memory_policy (p ++ j ∷ []) t)
        (written_as w (p ++ k ∷ []) v t e) (ap policy_of (lookup-written_child p k j v t d));
  get-set = λ w p v t c u {t'} e h.
      subst (λ x. memory_get c x ≡ some u) (written_as w p v t e) (get_written c p v t ∙ h);
  get-create = λ v t {c} {t'} e. get_created v t e;
  get-create_kept = λ v t d u {c} {t'} e h.
      subst (λ x. memory_get d x ≡ some u) (created_as v t e).1 (get_kept d u v t h);
  resolve-create = λ v t p {c} {t'} e.
      subst (λ x. memory_resolve p x ≡ memory_resolve p t) (created_as v t e).1 refl;
  token-create = λ v t p {c} {t'} e.
      subst (λ x. memory_token p x ≡ memory_token p t) (created_as v t e).1 refl;
  policy-create = λ v t p {c} {t'} e.
      subst (λ x. memory_policy p x ≡ memory_policy p t) (created_as v t e).1 refl;
}
