-- ===== src/Tokens/Ledger/Refinement.antt =====
-- The tree of a ledger as a representation of an account, and what recording a transaction does to
-- it: the part that the operations share.
pub mod Mint
pub mod Send
pub mod Receive
pub mod Establish
use tupelo.Prelude.{ℕ, some, List, [], ◌∷◌, ◌++◌, map, false, ◌≡◌, ◌≢◌, refl, sym, ◌∙◌, subst}
use tupelo.GoString.{Bytes, bytes, bytes_eq, bytes_eq_iff}
use tupelo.External.CidLib.{Cid}
use tupelo.External.Dag.{Dag, Write, link, Value, number, sequence, inline, as_link}
use tupelo.Tokens.{
  token_mint_label, token_send_label, token_receive_label, monetary_policy_label,
  token_balance_label,
}
use tupelo.Tokens.Path.{TreePath}
use tupelo.Tokens.Name.{TokenName, token_name_string}
use tupelo.Tokens.Ledger.{LedgerError, Result, token_path}
use tupelo.Tokens.Ledger.Recorded.{
  Nodes, Recorded, Keeps, Nodes-append, Nodes-kept, Recorded-set, Recorded-kept,
}
use tupelo.Tokens.Account.{Account}
use tupelo.Outcome.{panics, fails, returns}

abbrev pub path_of : TokenName → TreePath
path_of tn = bytes "_tupelo" ∷ bytes "tokens" ∷ token_name_string tn ∷ []

pub token_path_lem : (tn : TokenName) → token_path tn ≡ returns (path_of tn)
unfolding token_path tupelo.Tokens.Path.decode_path tupelo.GoString.Split.trim_byte
    tupelo.GoString.Split.split
token_path_lem tn = refl

pub labels_differ : (a b : Bytes) → bytes_eq a b ≡ false → a ≢ b
labels_differ a b h e = let t = (bytes_eq_iff a b).1 e in cc

module _ (dag : Dag) where
  open dag use {
    Tree, resolve, resolve_token, resolve_policy, set, create_node, get, encode_mint, encode_send,
    encode_receive,
  }

  -- The store takes every node, and every write to a field of a token that is there.
  pub record Writes : Type 0 where
    pub sets_field :
        (w : Write) (p : TreePath) (k : Bytes) (v : Value) (t : Tree) {b : ℕ}
        → resolve_token p t ≡ some b
        → (t' : Tree) × (set w (p ++ k ∷ []) v t ≡ some t')
    pub creates :
        (v : Value) (t : Tree) → (c : Cid) × (t' : Tree) × (create_node v t ≡ some (c, t'))

  -- A new node is created, linked in the list of a label, and counted in the balance.
  pub records :
      (w : Writes) (p : TreePath) (k : Bytes) (v : Value) (n b : ℕ) (cs : List Cid) (t : Tree)
      → resolve_token p t ≡ some b
      → k ≢ token_balance_label
      → (c : Cid) × (t1 : Tree) × (t2 : Tree) × (t3 : Tree) × (create_node v t ≡ some (c, t1))
        × (set as_link (p ++ k ∷ []) (sequence (map (λ d. link d) (cs ++ c ∷ []))) t1 ≡ some t2)
        × (set inline (p ++ token_balance_label ∷ []) (number n) t2 ≡ some t3)
  records w p k v n b cs t before label =
      let (c, t1, e1) = w.creates v t in
      let b1 = dag.token-create v t p e1 ∙ before in
      let xs = sequence (map (λ d. link d) (cs ++ c ∷ [])) in
      let (t2, e2) = w.sets_field as_link p k xs t1 b1 in
      let b2 = dag.token-set_field p k xs t1 e2 label b1 in
      let (t3, e3) = w.sets_field inline p token_balance_label (number n) t2 b2 in
      (c, t1, t2, t3, e1, e2, e3)

  -- Two trees whose token differs in the balance and in the list of label `k` alone.
  pub record Recording (p : TreePath) (k : Bytes) (t t' : Tree) (n : ℕ) (vs : List Value)
      : Type 0 where
    pub balanced : resolve_token p t' ≡ some n
    pub listed : Recorded dag (p ++ k ∷ []) t' vs
    pub keeps : Keeps dag t t'
    pub resolves :
        (j : Bytes)
        → k ≢ j
        → token_balance_label ≢ j
        → resolve (p ++ j ∷ []) t' ≡ resolve (p ++ j ∷ []) t
    pub policies :
        (j : Bytes)
        → k ≢ j
        → token_balance_label ≢ j
        → resolve_policy (p ++ j ∷ []) t' ≡ resolve_policy (p ++ j ∷ []) t

  module _ (p : TreePath) (k : Bytes) (v : Value) (n b : ℕ) (cs : List Cid) (vs : List Value)
      (c : Cid) (t t1 t2 t3 : Tree) (created : create_node v t ≡ some (c, t1))
      (linked : set as_link (p ++ k ∷ []) (sequence (map (λ d. link d) (cs ++ c ∷ []))) t1
        ≡ some t2)
      (balanced : set inline (p ++ token_balance_label ∷ []) (number n) t2 ≡ some t3)
      (before : resolve_token p t ≡ some b) (label : k ≢ token_balance_label) where
    token_created : resolve_token p t1 ≡ some b
    token_created = dag.token-create v t p created ∙ before

    token_linked : resolve_token p t2 ≡ some b
    token_linked =
        dag.token-set_field p k (sequence (map (λ d. link d) (cs ++ c ∷ []))) t1 linked label
          token_created

    kept_created : Keeps dag t t1
    kept_created d u = dag.get-create_kept v t d u created

    kept_balanced : Keeps dag t2 t3
    kept_balanced d u =
        dag.get-set inline (p ++ token_balance_label ∷ []) (number n) t2 d u balanced

    kept_linked : Keeps dag t1 t2
    kept_linked d u =
        dag.get-set as_link (p ++ k ∷ []) (sequence (map (λ e. link e) (cs ++ c ∷ []))) t1 d u
          linked

    resolves_recorded :
        (j : Bytes)
        → k ≢ j
        → token_balance_label ≢ j
        → resolve (p ++ j ∷ []) t3 ≡ resolve (p ++ j ∷ []) t
    resolves_recorded j kj bj =
        dag.resolve-set_field inline p token_balance_label j (number n) t2 balanced bj token_linked
        ∙ dag.resolve-set_field as_link p k j (sequence (map (λ d. link d) (cs ++ c ∷ []))) t1
            linked kj token_created
        ∙ dag.resolve-create v t (p ++ j ∷ []) created

    policies_recorded :
        (j : Bytes)
        → k ≢ j
        → token_balance_label ≢ j
        → resolve_policy (p ++ j ∷ []) t3 ≡ resolve_policy (p ++ j ∷ []) t
    policies_recorded j kj bj =
        dag.policy-set_field inline p token_balance_label j (number n) t2 balanced bj token_linked
        ∙ dag.policy-set_field as_link p k j (sequence (map (λ d. link d) (cs ++ c ∷ []))) t1 linked
            kj token_created
        ∙ dag.policy-create v t (p ++ j ∷ []) created

    -- The node created, linked and counted in the balance is recorded.
    pub recording : Nodes dag t cs vs → Recording p k t t3 n (vs ++ v ∷ [])
    recording nodes =
        let nodes1 =
          Nodes-append dag t1 cs vs c v (Nodes-kept dag t t1 cs vs kept_created nodes)
            (dag.get-create v t created) in
        record {
          balanced = dag.token-set_balance p n t2 balanced token_linked;
          listed =
              Recorded-kept dag (p ++ k ∷ []) t2 t3 (vs ++ v ∷ [])
                (dag.resolve-set_field inline p token_balance_label k (number n) t2 balanced
                  (λ e. label (sym e)) token_linked)
                kept_balanced
                (Recorded-set dag (p ++ k ∷ []) t1 t2 (cs ++ c ∷ []) (vs ++ v ∷ []) linked nodes1);
          keeps = λ d u g. kept_balanced d u (kept_linked d u (kept_created d u g));
          resolves = resolves_recorded;
          policies = policies_recorded;
        }

  module _ (p : TreePath) (k : Bytes) (t t' : Tree) (n : ℕ) (vs : List Value)
      (s : Recording p k t t' n vs) where
    -- The list of another label, and the policy, are held as before.
    pub other_held :
        (j : Bytes) (us : List Value)
        → bytes_eq k j ≡ false
        → bytes_eq token_balance_label j ≡ false
        → Recorded dag (p ++ j ∷ []) t us
        → Recorded dag (p ++ j ∷ []) t' us
    other_held j us e b r =
        Recorded-kept dag (p ++ j ∷ []) t t' us
          (s.resolves j (labels_differ k j e) (labels_differ token_balance_label j b)) s.keeps r

    pub policy_kept :
        bytes_eq k monetary_policy_label ≡ false
        → resolve_policy (p ++ monetary_policy_label ∷ []) t'
          ≡ resolve_policy (p ++ monetary_policy_label ∷ []) t
    policy_kept e =
        s.policies monetary_policy_label (labels_differ k monetary_policy_label e)
          (labels_differ token_balance_label monetary_policy_label refl)

  module _ (tn : TokenName) where
    -- The tree holds the account: its balance, its policy, and the transactions in their order.
    pub record Represents (t : Tree) (a : Account) : Type 0 where
      pub balance_held : resolve_token (path_of tn) t ≡ some a.balance
      pub policy_held : resolve_policy (path_of tn ++ monetary_policy_label ∷ []) t ≡ a.policy
      pub mints_held :
          Recorded dag (path_of tn ++ token_mint_label ∷ []) t (map encode_mint a.mints)
      pub sends_held :
          Recorded dag (path_of tn ++ token_send_label ∷ []) t (map encode_send a.sends)
      pub receives_held :
          Recorded dag (path_of tn ++ token_receive_label ∷ []) t (map encode_receive a.receives)

    -- A result of the ledger and one of the account agree: the same error, or a tree that holds the
    -- account.
    abbrev pub Agree : Result Tree → Result Account → Type 0
    Agree panics r = ⊥
    Agree (fails e) (fails e') = e ≡ e'
    Agree (fails e) panics = ⊥
    Agree (fails e) (returns a) = ⊥
    Agree (returns t) (returns a) = Represents t a
    Agree (returns t) panics = ⊥
    Agree (returns t) (fails e) = ⊥

    pub Agree-fails :
        (x : Result Tree) (y : Result Account) (e : LedgerError)
        → x ≡ fails e
        → y ≡ fails e
        → Agree x y
    Agree-fails x y e h h' = rw (h, h')

    pub Agree-returns :
        (x : Result Tree) (y : Result Account) (t : Tree) (a : Account)
        → x ≡ returns t
        → y ≡ returns a
        → Represents t a
        → Agree x y
    Agree-returns x y t a h h' r =
        subst (λ z. Agree z y) (sym h) (subst (λ z. Agree (returns t) z) (sym h') r)
