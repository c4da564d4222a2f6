-- ===== src/Tokens/Transactions/Tip.antt =====
-- The place of the tip among the leaves of a received token.
use tupelo.Prelude.{
  Option, none, some, List, [], ◌∷◌, ◌++◌, Any, Bool, true, false, if◌then◌else◌, ◌≡◌, ◌↔◌, refl,
  subst, ap, sym, ◌∙◌, Bool-cases, inl, inr,
}
use tupelo.GoString.{Bytes, bytes_eq, bytes_eq_iff, bytes_eq_inst}
use tupelo.External.CidLib.{CidLib, Cid}
use tupelo.External.Dag.{Dag}
use tupelo.External.Dag.Sender.{DagNode, Sender}
use tupelo.Tokens.Transactions.Sending.{
  TransactionError, failed, ReceiveTokenPayload, sender_nodes, sender_dag,
}
use tupelo.Outcome.{Outcome, returns, ◌>>=◌, or_fail, returned_first, some_returned}

module _ (dag : Dag) (lib : CidLib) (sender : Sender dag) where
  open dag use {Tree}
  open lib use {cast}
  open sender use {decode_node, new_dag_with_nodes, tip}

  -- The leaf is the node of this identifier.
  abbrev pub IsNodeOf : Cid → Bytes → Type 0
  IsNodeOf c l = (n : DagNode) × (decode_node l ≡ some n) × (n.cid ≡ c)

  abbrev HeadIs : Cid → List DagNode → Type 0
  HeadIs c [] = ⊥
  HeadIs c (n ∷ ns) = n.cid ≡ c

  abbrev place : Cid → List DagNode → DagNode → Bool → List DagNode
  place c nodes n first = if first then n ∷ nodes else nodes ++ n ∷ []

  with_node :
      Cid → List DagNode → List Bytes → Option DagNode → Outcome TransactionError (List DagNode)
  with_node c nodes leaves o =
      or_fail failed o
      >>= (λ n. sender_nodes dag lib sender c (place c nodes n (bytes_eq n.cid c)) leaves)

  sender_nodes-step :
      (c : Cid) (nodes ns : List DagNode) (l : Bytes) (leaves : List Bytes) (o : Option DagNode)
      → decode_node l ≡ o
      → sender_nodes dag lib sender c nodes (l ∷ leaves) ≡ returns ns
      → (n : DagNode) × (decode_node l ≡ some n)
        × (sender_nodes dag lib sender c (place c nodes n (bytes_eq n.cid c)) leaves ≡ returns ns)
  unfolding sender_nodes with_node
  sender_nodes-step c nodes ns l leaves none d h = absurd (cc)
  sender_nodes-step c nodes ns l leaves (some n) d h =
      (n, d, ap (with_node c nodes leaves) (sym d) ∙ h)

  HeadIs-place :
      (c : Cid) (nodes : List DagNode) (n : DagNode) (b : Bool)
      → bytes_eq n.cid c ≡ b
      → HeadIs c nodes
      → HeadIs c (place c nodes n b)
  HeadIs-place c nodes n true e h = (bytes_eq_iff n.cid c).0 e
  HeadIs-place c [] n false e h = elim h [ ]
  HeadIs-place c (m ∷ nodes) n false e h = h

  head_stays :
      (c : Cid) (nodes ns : List DagNode) (leaves : List Bytes)
      → HeadIs c nodes
      → sender_nodes dag lib sender c nodes leaves ≡ returns ns
      → HeadIs c ns
  unfolding sender_nodes
  head_stays c nodes ns [] i h = let e : nodes ≡ ns = cc in subst (HeadIs c) e i
  head_stays c nodes ns (l ∷ leaves) i h =
      let (n, d, h') = sender_nodes-step c nodes ns l leaves (decode_node l) refl h in
      head_stays c (place c nodes n (bytes_eq n.cid c)) ns leaves
        (HeadIs-place c nodes n (bytes_eq n.cid c) refl i) h'

  head_found :
      (c : Cid) (nodes ns : List DagNode) (leaves : List Bytes)
      → Any (IsNodeOf c) leaves
      → sender_nodes dag lib sender c nodes leaves ≡ returns ns
      → HeadIs c ns
  unfolding sender_nodes
  head_found c nodes ns [] a h = elim a [ ]
  head_found c nodes ns (l ∷ leaves) (inl (m, d, e)) h =
      let (n, d', h') = sender_nodes-step c nodes ns l leaves (decode_node l) refl h in
      let f : n.cid ≡ c = cc in
      let t = (bytes_eq_iff n.cid c).1 f in head_stays c (n ∷ nodes) ns leaves f (rw t at h')
  head_found c nodes ns (l ∷ leaves) (inr a) h =
      let (n, d, h') = sender_nodes-step c nodes ns l leaves (decode_node l) refl h in
      head_found c (place c nodes n (bytes_eq n.cid c)) ns leaves a h'

  no_head :
      (c : Cid) (nodes : List DagNode) (n : DagNode)
      → ¬ HeadIs c nodes
      → bytes_eq n.cid c ≡ false
      → ¬ HeadIs c (nodes ++ n ∷ [])
  no_head c [] n i e h = let t = (bytes_eq_iff n.cid c).1 h in absurd (cc)
  no_head c (m ∷ nodes) n i e h = i h

  found_by_head :
      (c : Cid) (nodes ns : List DagNode) (leaves : List Bytes)
      → ¬ HeadIs c nodes
      → sender_nodes dag lib sender c nodes leaves ≡ returns ns
      → HeadIs c ns
      → Any (IsNodeOf c) leaves
  unfolding sender_nodes
  found_by_head c nodes ns [] i h j = let e : ns ≡ nodes = cc in elim (i (subst (HeadIs c) e j)) [ ]
  found_by_head c nodes ns (l ∷ leaves) i h j =
      let (n, d, h') = sender_nodes-step c nodes ns l leaves (decode_node l) refl h in
      elim (Bool-cases (bytes_eq n.cid c)) [
        | inl t ↦ inl (n, d, (bytes_eq_iff n.cid c).0 t)
        | inr t ↦
            inr (found_by_head c (nodes ++ n ∷ []) ns leaves (no_head c nodes n i t) (rw t at h') j)
      ]

  tip_of_head :
      (c : Cid) (ns : List DagNode) (t : Tree)
      → new_dag_with_nodes ns ≡ some t
      → HeadIs c ns
      → tip t ≡ c
  tip_of_head c [] t e h = elim h [ ]
  tip_of_head c (n ∷ ns) t e h = sender.tip-new n ns e ∙ h

  not_empty :
      (c : Cid) (m : DagNode) (nodes ns : List DagNode) (leaves : List Bytes)
      → sender_nodes dag lib sender c (m ∷ nodes) leaves ≡ returns ns
      → (n : DagNode) × (rest : List DagNode) × (ns ≡ n ∷ rest)
  unfolding sender_nodes
  not_empty c m nodes ns [] h = (m, nodes, cc)
  not_empty c m nodes ns (l ∷ leaves) h =
      let (n, d, h') = sender_nodes-step c (m ∷ nodes) ns l leaves (decode_node l) refl h in
      elim (Bool-cases (bytes_eq n.cid c)) [
        | inl t ↦ not_empty c n (m ∷ nodes) ns leaves (rw t at h')
        | inr t ↦ not_empty c m (nodes ++ n ∷ []) ns leaves (rw t at h')
      ]

  some_node :
      (c : Cid) (l : Bytes) (leaves : List Bytes) (ns : List DagNode)
      → sender_nodes dag lib sender c [] (l ∷ leaves) ≡ returns ns
      → (n : DagNode) × (rest : List DagNode) × (ns ≡ n ∷ rest)
  some_node c l leaves ns h =
      let (n, d, h') = sender_nodes-step c [] ns l leaves (decode_node l) refl h in
      elim (Bool-cases (bytes_eq n.cid c)) [
        | inl t ↦ not_empty c n [] ns leaves (rw t at h')
        | inr t ↦ not_empty c n [] ns leaves (rw t at h')
      ]

  head_of_tip :
      (c : Cid) (n : DagNode) (rest ns : List DagNode) (t : Tree)
      → ns ≡ n ∷ rest
      → new_dag_with_nodes ns ≡ some t
      → tip t ≡ c
      → HeadIs c ns
  head_of_tip c n rest ns t e d h =
      subst (HeadIs c) (sym e) (sym (sender.tip-new n rest (ap new_dag_with_nodes (sym e) ∙ d)) ∙ h)

  sender_dag-nodes :
      (payload : ReceiveTokenPayload) (c : Cid) (t : Tree)
      → cast payload.tip ≡ some c
      → sender_dag dag lib sender payload ≡ returns t
      → (ns : List DagNode) × (sender_nodes dag lib sender c [] payload.leaves ≡ returns ns)
        × (new_dag_with_nodes ns ≡ some t)
  unfolding sender_dag
  sender_dag-nodes payload c t e h =
      let (d, h1, h2) =
        returned_first (or_fail failed (cast payload.tip))
          (λ d.
            sender_nodes dag lib sender d [] payload.leaves
            >>= (λ ns. or_fail failed (new_dag_with_nodes ns)))
          h in
      let s = some_returned failed (cast payload.tip) h1 in
      let f : d ≡ c = cc in
      let (ns, h3, h4) =
        returned_first (sender_nodes dag lib sender d [] payload.leaves)
          (λ ns. or_fail failed (new_dag_with_nodes ns)) h2 in
      (
        ns,
        subst (λ x. sender_nodes dag lib sender x [] payload.leaves ≡ returns ns) f h3,
        some_returned failed (new_dag_with_nodes ns) h4,
      )

  -- For a payload whose tip is the identifier `c` and which has a leaf, the DAG that is made of the
  -- leaves has the tip `c` exactly when one of the leaves is the node of `c`, wherever it stands
  -- among them.
  pub sender_dag-tip :
      (payload : ReceiveTokenPayload) (c : Cid) (t : Tree) (l : Bytes) (leaves : List Bytes)
      → cast payload.tip ≡ some c
      → payload.leaves ≡ l ∷ leaves
      → sender_dag dag lib sender payload ≡ returns t
      → (tip t ≡ c) ↔ Any (IsNodeOf c) payload.leaves
  sender_dag-tip payload c t l leaves e p h =
      let (ns, s, m) = sender_dag-nodes payload c t e h in
      let s' = subst (λ x. sender_nodes dag lib sender c [] x ≡ returns ns) p s in
      let (n, rest, f) = some_node c l leaves ns s' in
      (
        λ i. found_by_head c [] ns payload.leaves (λ z. z) s (head_of_tip c n rest ns t f m i),
        λ a. tip_of_head c ns t m (head_found c [] ns payload.leaves a s),
      )
