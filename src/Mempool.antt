-- ===== src/Mempool.antt =====
-- signer/gossip/mempool.go: the valid requests that wait for a round, and the sets of those that
-- conflict. The lock, the logs and the traces are left out: each method is one step.
pub mod Keys
pub mod Invariant
pub mod Add
pub mod Resolution
use tupelo.Prelude.{
  ℕ, Option, none, some, List, [], ◌∷◌, ◌++◌, Bool, true, ◌&&◌, ◌||◌, length, if◌then◌else◌,
}
use tupelo.GoString.{Bytes, bytes_eq, bytes_eq_inst, bytes_lt, format_uint}
use tupelo.GoMap.{GoMap, lookup, insert, delete, contains, values}
use tupelo.External.CidLib.{CidLib, Cid, undef}
use tupelo.Request.{AddBlockRequest, AddBlockWrapper}

pub record ConflictSet : Type 0 where
  pub ids : List Cid
  pub preferred : Cid

pub record Mempool : Type 0 where
  pub abrs : GoMap Cid AddBlockWrapper
  pub conflict_sets : GoMap Bytes ConflictSet

-- newMempool
abbrev pub new_mempool : Mempool
new_mempool = record { abrs = []; conflict_sets = [] }

-- &conflictSet{}
abbrev pub empty_set : ConflictSet
empty_set = record { ids = []; preferred = undef }

-- toConflictSetID
unfoldable pub to_conflict_set_id : AddBlockRequest → Bytes
to_conflict_set_id abr = abr.object_id ++ format_uint abr.height

abbrev pub key_of : AddBlockWrapper → Bytes
key_of w = to_conflict_set_id w.add_block_request

-- mempool.Get
unfoldable pub get : Cid → Mempool → Option AddBlockWrapper
get id m = lookup id m.abrs

-- delete(m.abrs, id) for each of the ids
unfoldable pub delete_all : List Cid → GoMap Cid AddBlockWrapper → GoMap Cid AddBlockWrapper
delete_all [] abrs = abrs
delete_all (id ∷ ids) abrs = delete_all ids (delete id abrs)

drop_set : Bytes → Cid → Option ConflictSet → Mempool → Mempool
unfolding delete_all
drop_set key id none m = record m { abrs = delete id m.abrs }
drop_set key id (some cs) m = record {
  abrs = delete_all cs.ids (delete id m.abrs);
  conflict_sets = delete key m.conflict_sets;
}

drop_existing : Cid → Option AddBlockWrapper → Mempool → Mempool
unfolding drop_set
drop_existing id none m = m
drop_existing id (some w) m = drop_set (key_of w) id (lookup (key_of w) m.conflict_sets) m

-- mempool.deleteIDAndConflictSetInLock, and DeleteIDAndConflictSet, which takes the lock first
unfoldable pub delete_id_and_conflict_set : Cid → Mempool → Mempool
unfolding drop_existing
delete_id_and_conflict_set id m = drop_existing id (lookup id m.abrs) m

-- mempool.BulkDelete
unfoldable pub bulk_delete : List Cid → Mempool → Mempool
bulk_delete [] m = m
bulk_delete (id ∷ ids) m = bulk_delete ids (delete_id_and_conflict_set id m)

-- mempool.Contains
unfoldable pub contains_all : List Cid → Mempool → Bool
contains_all [] m = true
contains_all (id ∷ ids) m = contains id m.abrs && contains_all ids m

unfoldable pub preferred_of : List ConflictSet → List Cid
preferred_of [] = []
preferred_of (cs ∷ rest) = cs.preferred ∷ preferred_of rest

-- mempool.Preferred; its order is that of `range`, which Go leaves open.
unfoldable pub preferred : Mempool → List Cid
unfolding preferred_of
preferred m = preferred_of (values m.conflict_sets)

-- mempool.Length
unfoldable pub mempool_length : Mempool → ℕ
mempool_length m = length m.abrs

-- The set that Add extends: the one that is there, or a new one.
abbrev pub set_or_empty : Option ConflictSet → ConflictSet
set_or_empty none = empty_set
set_or_empty (some cs) = cs

module _ (lib : CidLib) where
  open lib use {to_string}

  -- conflictSet.Add
  unfoldable pub add_id : Cid → ConflictSet → ConflictSet
  add_id id cs = record {
    ids = cs.ids ++ id ∷ [];
    preferred =
        if bytes_eq cs.preferred undef || bytes_lt (to_string id) (to_string cs.preferred)
        then id
        else cs.preferred;
  }

  -- mempool.Add
  unfoldable pub add : AddBlockWrapper → Mempool → Mempool
  unfolding add_id
  add w m = record {
    abrs = insert w.cid w m.abrs;
    conflict_sets =
        insert (key_of w) (add_id w.cid (set_or_empty (lookup (key_of w) m.conflict_sets)))
          m.conflict_sets;
  }
