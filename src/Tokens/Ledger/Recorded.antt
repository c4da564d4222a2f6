-- ===== src/Tokens/Ledger/Recorded.antt =====
-- The lists of transactions that a token's tree holds, and how a recorded one is added to its list.
use tupelo.Prelude.{
  ℕ, ◌+◌, ◌%◌, some, List, [], ◌∷◌, ◌++◌, map, ◌≡◌, refl, ◌∙◌, Bool-cases, inl, inr,
}
use tupelo.GoString.{Bytes, bytes_eq}
use tupelo.External.CidLib.{Cid}
use tupelo.External.Dag.{Dag, link, Value, nil, sequence, as_link}
use tupelo.Tokens.{TokenMint, TokenReceive}
use tupelo.Tokens.Path.{TreePath}
use tupelo.Tokens.Ledger.{
  word, cids_of_items, cids_of_value, transaction_cids_for_path, sum_from, has_received,
}
use tupelo.Tokens.Account.{minted_from, is_received}
use tupelo.Outcome.{returns}

pub cids_of_items-links : (cs : List Cid) → cids_of_items (map (λ c. link c) cs) ≡ returns cs
unfolding cids_of_items
cids_of_items-links [] = refl
cids_of_items-links (c ∷ cs) = rw (cids_of_items-links cs)

module _ (dag : Dag) where
  open dag use {Tree, resolve, resolve_token, set, create_node, get, encode_mint, encode_receive}

  -- The identifiers name these nodes, in this order.
  abbrev pub Nodes : Tree → List Cid → List Value → Type 0
  Nodes t [] [] = Unit
  Nodes t [] (v ∷ vs) = ⊥
  Nodes t (c ∷ cs) [] = ⊥
  Nodes t (c ∷ cs) (v ∷ vs) = (get c t ≡ some v) × Nodes t cs vs

  -- The list at the path names these nodes.
  abbrev pub Recorded : TreePath → Tree → List Value → Type 0
  Recorded path t vs =
      (cs : List Cid) × (transaction_cids_for_path dag path t ≡ returns cs) × Nodes t cs vs

  abbrev pub Keeps : Tree → Tree → Type 0
  Keeps t t' = (c : Cid) (v : Value) → get c t ≡ some v → get c t' ≡ some v

  pub Nodes-kept :
      (t t' : Tree) (cs : List Cid) (vs : List Value) → Keeps t t' → Nodes t cs vs → Nodes t' cs vs
  Nodes-kept t t' [] [] k h = tt
  Nodes-kept t t' [] (v ∷ vs) k h = h
  Nodes-kept t t' (c ∷ cs) [] k h = h
  Nodes-kept t t' (c ∷ cs) (v ∷ vs) k (h, hs) = (k c v h, Nodes-kept t t' cs vs k hs)

  pub Nodes-append :
      (t : Tree) (cs : List Cid) (vs : List Value) (c : Cid) (v : Value)
      → Nodes t cs vs
      → get c t ≡ some v
      → Nodes t (cs ++ c ∷ []) (vs ++ v ∷ [])
  Nodes-append t [] [] c v h e = (e, tt)
  Nodes-append t [] (u ∷ vs) c v h e = elim h [ ]
  Nodes-append t (d ∷ cs) [] c v h e = elim h [ ]
  Nodes-append t (d ∷ cs) (u ∷ vs) c v (h, hs) e = (h, Nodes-append t cs vs c v hs e)

  pub cids-resolved :
      (path : TreePath) (t t' : Tree)
      → resolve path t' ≡ resolve path t
      → transaction_cids_for_path dag path t' ≡ transaction_cids_for_path dag path t
  unfolding transaction_cids_for_path
  cids-resolved path t t' e = rw e

  -- A list stays where its path resolves as before.
  pub Recorded-kept :
      (path : TreePath) (t t' : Tree) (vs : List Value)
      → resolve path t' ≡ resolve path t
      → Keeps t t'
      → Recorded path t vs
      → Recorded path t' vs
  Recorded-kept path t t' vs e k (cs, h, n) =
      (cs, cids-resolved path t t' e ∙ h, Nodes-kept t t' cs vs k n)

  pub Recorded-nil :
      (path rest : TreePath) (t : Tree) → resolve path t ≡ some (nil, rest) → Recorded path t []
  unfolding transaction_cids_for_path cids_of_value
  Recorded-nil path rest t e = ([], rw e, tt)

  pub Recorded-set :
      (path : TreePath) (t t' : Tree) (cs : List Cid) (vs : List Value)
      → set as_link path (sequence (map (λ c. link c) cs)) t ≡ some t'
      → Nodes t cs vs
      → Recorded path t' vs
  unfolding transaction_cids_for_path cids_of_value
  Recorded-set path t t' cs vs e n =
      let r = dag.resolve-set_sequence path (map (λ c. link c) cs) t e in
      (
        cs,
        rw (r, cids_of_items-links cs),
        Nodes-kept t t' cs vs
            (λ c v. dag.get-set as_link path (sequence (map (λ c. link c) cs)) t c v e) n,
      )

  pub sum_from-mints :
      (t : Tree) (sum : ℕ) (cs : List Cid) (ms : List TokenMint)
      → Nodes t cs (map encode_mint ms)
      → sum_from dag t sum cs ≡ returns (minted_from sum ms)
  unfolding sum_from
  sum_from-mints t sum [] [] h = refl
  sum_from-mints t sum [] (m ∷ ms) h = elim h [ ]
  sum_from-mints t sum (c ∷ cs) [] h = elim h [ ]
  sum_from-mints t sum (c ∷ cs) (m ∷ ms) (h, hs) =
      rw (h, dag.decode_receive-encode_mint m, sum_from-mints t ((sum + m.amount) % word) cs ms hs)

  pub has_received-receives :
      (t : Tree) (id : Bytes) (cs : List Cid) (rs : List TokenReceive)
      → Nodes t cs (map encode_receive rs)
      → has_received dag t id cs ≡ returns (is_received id rs)
  unfolding has_received
  has_received-receives t id [] [] h = refl
  has_received-receives t id [] (r ∷ rs) h = elim h [ ]
  has_received-receives t id (c ∷ cs) [] h = elim h [ ]
  has_received-receives t id (c ∷ cs) (r ∷ rs) (h, hs) =
      let i = has_received-receives t id cs rs hs in
      elim (Bool-cases (bytes_eq r.send_token_transaction_id id)) [
        | inl e ↦ rw (h, dag.decode_receive-encode_receive r, e)
        | inr e ↦ rw (h, dag.decode_receive-encode_receive r, e, i)
      ]
