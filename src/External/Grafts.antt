-- ===== src/External/Grafts.antt =====
-- github.com/quorumcontrol/chaintree/graftabledag: chain trees whose paths lead into other chain
-- trees.
use tupelo.Prelude.{Option, List, [], ◌∷◌, ◌++◌, Bool, true, ◌≡◌}
use tupelo.Tokens.Path.{TreePath}
use tupelo.GoString.{Bytes}

-- What stands among the authentications of a tree: a DAG that was grafted, a string, a list of
-- such, or a value of another type.
pub data Inner (T : Type 0) : Type 0 where
  inner_dag : T → Inner T
  inner_text : Bytes → Inner T
  inner_unknown : Inner T

pub data Auth (T : Type 0) : Type 0 where
  auth_dag : T → Auth T
  auth_text : Bytes → Auth T
  auth_list : List (Inner T) → Auth T
  auth_unknown : Auth T

-- What the path of the authentications resolves to.
pub data Auths (T : Type 0) : Type 0 where
  auths_list : List (Auth T) → Auths T
  auths_dag : T → Auths T
  auths_nil : Auths T
  auths_unknown : Auths T

pub record Grafts : Type 1 where
  pub Tree : Type 0
  pub Graftable : Type 0
  -- graftabledag.New: none is an error.
  pub graft : Tree → Option Graftable
  -- The origin's Resolve of `id`: none is an error, or a value that is no string.
  pub origin_did : Graftable → Option Bytes
  -- GlobalResolve
  pub global_resolve : TreePath → Graftable → Option (Auths Tree)
  -- PathsContainPrefix: whether a path or its beginning was seen. A path that was seen is found,
  -- and a longer list finds what a shorter one finds.
  pub contains_prefix : List TreePath → TreePath → Bool
  pub contains-last :
      (seen : List TreePath) (p : TreePath) → contains_prefix (seen ++ p ∷ []) p ≡ true
  pub contains-kept :
      (seen : List TreePath) (p q : TreePath)
      → contains_prefix seen p ≡ true
      → contains_prefix (seen ++ q ∷ []) p ≡ true
