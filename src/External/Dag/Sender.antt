-- ===== src/External/Dag/Sender.antt =====
-- A DAG that is made of the nodes which came with a transaction: safewrap's Decode and
-- dag.NewDagWithNodes over a store in memory.
use tupelo.Prelude.{Option, some, List, ◌∷◌, ◌≡◌}
use tupelo.GoString.{Bytes}
use tupelo.External.CidLib.{Cid}
use tupelo.External.Dag.{Dag, Value}

-- A decoded CBOR node with its identifier
pub record DagNode : Type 0 where
  pub cid : Cid
  pub content : Value

module _ (dag : Dag) where
  open dag use {Tree}

  pub record Sender : Type 0 where
    -- none is an error.
    pub decode_node : Bytes → Option DagNode
    pub new_dag_with_nodes : List DagNode → Option Tree
    -- The field Tip
    pub tip : Tree → Cid
    -- The first node is the root.
    pub tip-new :
        (n : DagNode) (ns : List DagNode) {t : Tree}
        → new_dag_with_nodes (n ∷ ns) ≡ some t
        → tip t ≡ n.cid
