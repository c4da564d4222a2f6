-- ===== src/Tokens/Transactions/Sent.antt =====
-- Where the token and the send that a received token's DAG gives stand in that DAG
-- (sdk/consensus/transactions.go, GetTokenNameFromReceive and GetSendTokenFromReceive).
use tupelo.Prelude.{
  ℕ, suc, some, List, [], ◌∷◌, ◌++◌, In, ◌≡◌, ◌⊎◌, refl, ap, ◌∙◌, inl, inr, Bool-cases,
  Option-cases, if◌then◌else◌,
}
use tupelo.Prelude.Eq.{◌==◌}
use tupelo.GoString.{Bytes, bytes, bytes_eq_inst}
use tupelo.GoString.Rune.{rune_string}
use tupelo.GoMap.{GoMap, insert}
use tupelo.External.CidLib.{Cid}
use tupelo.External.Dag.{Dag, Item, link, other, Value, nil, number, simple, sequence, mapping}
use tupelo.Tokens.{TokenSend, tree_path_for_tokens, token_send_label}
use tupelo.Tokens.Path.{TreePath, decode_path}
use tupelo.Tokens.Name.{TokenName, token_name_string, token_name_from_string}
use tupelo.Tokens.Canonical.{as_map, has_remaining}
use tupelo.Outcome.{Outcome, fails, returns, ◌>>=◌, or_fail, returned_first, some_returned}
use tupelo.Tokens.Transactions.Sending.{
  TransactionError, failed, Ranges, as_list, sends_map, find_first_linked_node, resolve_whole,
  token_name_of, token_send_of,
}

abbrev pub tokens_at : TreePath
tokens_at = bytes "tree" ∷ bytes "_tupelo" ∷ bytes "tokens" ∷ []

tokens_path : decode_path tree_path_for_tokens ≡ some (bytes "_tupelo" ∷ bytes "tokens" ∷ [])
unfolding decode_path tupelo.GoString.Split.trim_byte tupelo.GoString.Split.split
tokens_path = refl

In-insert :
    (a k : Bytes) (b x : Item) (m : GoMap Bytes Item)
    → In (k, x) (insert a b m)
    → In (k, x) m ⊎ (b ≡ x)
unfolding insert
In-insert a k b x [] (inl e) = inr (ap (λ (y : Bytes × Item). y.1) e)
In-insert a k b x [] (inr i) = elim i [ ]
In-insert a k b x ((j, w) ∷ m) i = elim (Bool-cases (j == a)) [
  | inl t ↦ elim (rw t at i) [
    | inl e ↦ inr (ap (λ (y : Bytes × Item). y.1) e)
    | inr later ↦ inl (inr later)
  ]
  | inr f ↦ elim (rw f at i) [
    | inl e ↦ inl (inl e)
    | inr later ↦ elim (In-insert a k b x m later) [ inl old ↦ inl (inr old) | inr e ↦ inr e ]
  ]
]

-- Every entry of the map of sends is a send of the list.
In-sends_map :
    (i : ℕ) (k : Bytes) (x : Item) (m : GoMap Bytes Item) (xs : List Item)
    → In (k, x) (sends_map i m xs)
    → In (k, x) m ⊎ In x xs
unfolding sends_map
In-sends_map i k x m [] h = inl h
In-sends_map i k x m (y ∷ ys) h =
    elim (In-sends_map (suc i) k x (insert (rune_string i) y m) ys h) [
      | inl at ↦ elim (In-insert (rune_string i) k y x m at) [
        | inl old ↦ inl old
        | inr e ↦ inr (inl e)
      ]
      | inr later ↦ inr (inr later)
    ]

as_map-mapping : (v : Value) {m : GoMap Bytes Item} → as_map v ≡ some m → v ≡ mapping m
as_map-mapping nil e = absurd (cc)
as_map-mapping (number n) e = absurd (cc)
as_map-mapping (simple b) e = absurd (cc)
as_map-mapping (sequence xs) e = absurd (cc)
as_map-mapping (mapping m) e = cc

as_list-sequence : (v : Value) {xs : List Item} → as_list v ≡ some xs → v ≡ sequence xs
as_list-sequence nil e = absurd (cc)
as_list-sequence (number n) e = absurd (cc)
as_list-sequence (simple b) e = absurd (cc)
as_list-sequence (sequence xs) e = cc
as_list-sequence (mapping m) e = absurd (cc)

module _ (dag : Dag) where
  open dag use {Tree, resolve, get, decode_send}

  -- The name of the token is a key of the tokens of the chain tree, under which a node stands.
  pub record IsToken (from : Tree) (token_name : TokenName) : Type 0 where
    pub tokens : GoMap Bytes Item
    pub are_there : resolve tokens_at from ≡ some (mapping tokens, [])
    pub key : Bytes
    pub cid : Cid
    pub node : Value
    pub is_entry : In (key, link cid) tokens
    pub is_node : get cid from ≡ some node
    pub is_name : token_name_from_string key ≡ token_name

  -- The send is a node that the token's list of sends links to.
  pub record IsSend (from : Tree) (token_name : TokenName) (token_send : TokenSend) : Type 0 where
    pub sends : List Item
    pub are_there :
        resolve (tokens_at ++ token_name_string token_name ∷ token_send_label ∷ []) from
        ≡ some (sequence sends, [])
    pub cid : Cid
    pub node : Value
    pub is_linked : In (link cid) sends
    pub is_node : get cid from ≡ some node
    pub is_decoded : decode_send node ≡ some token_send

  found_entry :
      (from : Tree) (es : GoMap Bytes Item) (k : Bytes) (v : Value)
      → find_first_linked_node dag from es ≡ returns (k, v)
      → (c : Cid) × In (k, link c) es × (get c from ≡ some v)
  unfolding find_first_linked_node
  found_entry from [] k v e = absurd (cc)
  found_entry from ((j, other b) ∷ es) k v e =
      let (c, i, g) = found_entry from es k v e in (c, inr i, g)
  found_entry from ((j, link c) ∷ es) k v e = elim (Option-cases (get c from)) [
    | inl gone ↦
        let (d, i, g) = found_entry from es k v (rw (gone, find_first_linked_node) at e) in
        (d, inr i, g)
    | inr (node, here) ↦
        let f : ◌≡◌ {A = Outcome TransactionError (Bytes × Value)} (returns (j, node))
            (returns (k, v)) =
          rw (here, find_first_linked_node) at e in
        let p : j ≡ k = cc in
        let q : node ≡ v = cc in (c, inl (ap (λ x. (x, link c)) p), here ∙ ap (λ x. some x) q)
  ]

  nothing_remains :
      (v w : Value) (rest : TreePath)
      → ◌≡◌ {A = Outcome TransactionError Value}
          (if◌then◌else◌ (has_remaining rest) (fails failed) (returns v))
          (returns w)
      → (v ≡ w) × (rest ≡ [])
  nothing_remains v w [] e = (cc, refl)
  nothing_remains v w (x ∷ rest) e = absurd (cc)

  resolved_whole :
      (path : TreePath) (from : Tree) (v : Value)
      → resolve_whole dag path from ≡ returns v
      → resolve path from ≡ some (v, [])
  unfolding resolve_whole
  resolved_whole path from v e =
      let ((w, rest), h, k) =
        returned_first (or_fail failed (resolve path from))
          (λ (x : Value × TreePath). if◌then◌else◌ (has_remaining x.1) (fails failed) (returns x.0))
          e in
      let s = some_returned failed (resolve path from) h in
      let (p, q) = nothing_remains w v rest k in
      s ∙ ap (λ x. some (x, rest)) p ∙ ap (λ x. some (v, x)) q

  pub token_name_of-IsToken :
      (ranges : Ranges) (from : Tree) (token_name : TokenName)
      → token_name_of dag ranges from ≡ returns token_name
      → IsToken from token_name
  unfolding token_name_of
  token_name_of-IsToken ranges from token_name h =
      let named : Bytes × Value → Outcome TransactionError TokenName =
        λ x. returns (token_name_from_string x.0) in
      let searched : GoMap Bytes Item → Outcome TransactionError TokenName =
        λ tokens. find_first_linked_node dag from (ranges.order tokens) >>= named in
      let (v, e1, h1) =
        returned_first (resolve_whole dag tokens_at from)
          (λ v. or_fail failed (as_map v) >>= searched) (rw tokens_path at h) in
      let (tokens, e2, h2) = returned_first (or_fail failed (as_map v)) searched h1 in
      let ((key, node), e3, h3) =
        returned_first (find_first_linked_node dag from (ranges.order tokens)) named h2 in
      let (c, i, g) = found_entry from (ranges.order tokens) key node e3 in
      record {
        tokens = tokens;
        are_there =
            resolved_whole tokens_at from v e1
            ∙ ap (λ x. some (x, [])) (as_map-mapping v (some_returned failed (as_map v) e2));
        key = key;
        cid = c;
        node = node;
        is_entry = (ranges.In-order tokens (key, link c)).0 i;
        is_node = g;
        is_name = cc h3;
      }

  pub token_send_of-IsSend :
      (ranges : Ranges) (from : Tree) (token_name : TokenName) (token_send : TokenSend)
      → token_send_of dag ranges from token_name ≡ returns token_send
      → IsSend from token_name token_send
  unfolding token_send_of
  token_send_of-IsSend ranges from token_name token_send h =
      let at = tokens_at ++ token_name_string token_name ∷ token_send_label ∷ [] in
      let decoded : Bytes × Value → Outcome TransactionError TokenSend =
        λ x. or_fail failed (decode_send x.1) in
      let searched : List Item → Outcome TransactionError TokenSend = λ sends.
        find_first_linked_node dag from (ranges.order (sends_map 0 [] sends)) >>= decoded in
      let (v, e1, h1) =
        returned_first (resolve_whole dag at from) (λ v. or_fail failed (as_list v) >>= searched)
          (rw tokens_path at h) in
      let (sends, e2, h2) = returned_first (or_fail failed (as_list v)) searched h1 in
      let entries = sends_map 0 [] sends in
      let ((key, node), e3, h3) =
        returned_first (find_first_linked_node dag from (ranges.order entries)) decoded h2 in
      let (c, i, g) = found_entry from (ranges.order entries) key node e3 in
      let listed =
        In-sends_map 0 key (link c) [] sends ((ranges.In-order entries (key, link c)).0 i) in
      record {
        sends = sends;
        are_there =
            resolved_whole at from v e1
            ∙ ap (λ x. some (x, [])) (as_list-sequence v (some_returned failed (as_list v) e2));
        cid = c;
        node = node;
        is_linked = elim listed [ inl none_there ↦ elim none_there [ ] | inr there ↦ there ];
        is_node = g;
        is_decoded = some_returned failed (decode_send node) h3;
      }
