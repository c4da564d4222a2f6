-- ===== src/External/Hamt.antt =====
-- github.com/ipfs/go-hamt-ipld: a persistent map from strings to identifiers.
use tupelo.Prelude.{Option, none, some, ◌≡◌, ◌≢◌, ap, []}
use tupelo.GoString.{Bytes, bytes_eq_inst}
use tupelo.GoMap.{GoMap, lookup, insert}
use tupelo.GoMap.Laws.{lookup-insert_self, lookup-insert_ne, lookup-empty}
use tupelo.External.CidLib.{Cid}

-- What `Find` returns: an identifier, ErrNotFound, or another error.
pub data HamtFind : Type 0 where
  found : Cid → HamtFind
  not_found : HamtFind
  failed : HamtFind

pub record Hamt : Type 1 where
  pub Node : Type 0
  -- hamt.NewNode
  pub new_node : Node
  pub find : Bytes → Node → HamtFind
  -- `Set` and `Flush`: none is an error.
  pub set : Bytes → Cid → Node → Option Node
  pub flush : Node → Option Node
  pub find-new_node : (k : Bytes) → find k new_node ≡ not_found
  pub find-set_self :
      (k : Bytes) (c : Cid) (n : Node) {n' : Node} → set k c n ≡ some n' → find k n' ≡ found c
  pub find-set_ne :
      (k j : Bytes) (c : Cid) (n : Node) {n' : Node}
      → set k c n ≡ some n'
      → k ≢ j
      → find j n' ≡ find j n
  pub find-flush : (k : Bytes) (n : Node) {n' : Node} → flush n ≡ some n' → find k n' ≡ find k n

abbrev pub of_option : Option Cid → HamtFind
of_option none = not_found
of_option (some c) = found c

pub plain_set_self :
    (k : Bytes) (c : Cid) (n : GoMap Bytes Cid) {n' : GoMap Bytes Cid}
    → some (insert k c n) ≡ some n'
    → of_option (lookup k n') ≡ found c
plain_set_self k c n e = cc (lookup-insert_self k c n)

pub plain_set_ne :
    (k j : Bytes) (c : Cid) (n : GoMap Bytes Cid) {n' : GoMap Bytes Cid}
    → some (insert k c n) ≡ some n'
    → k ≢ j
    → of_option (lookup j n') ≡ of_option (lookup j n)
plain_set_ne k j c n e d = cc (lookup-insert_ne k j c n d)

pub plain_flush :
    (k : Bytes) (n : GoMap Bytes Cid) {n' : GoMap Bytes Cid}
    → some n ≡ some n'
    → of_option (lookup k n') ≡ of_option (lookup k n)
plain_flush k n e = cc

-- A map in memory: an instance in which the code runs.
abbrev pub map_hamt : Hamt
map_hamt = record {
  Node = GoMap Bytes Cid;
  new_node = [];
  find = λ k n. of_option (lookup k n);
  set = λ k c n. some (insert k c n);
  flush = λ n. some n;
  find-new_node = λ k. ap of_option (lookup-empty k);
  find-set_self = plain_set_self;
  find-set_ne = plain_set_ne;
  find-flush = plain_flush;
}
