-- ===== src/Owners.antt =====
-- GraftedOwnership of sdk/gossip/types/graftedownership.go: the owners of a chain tree, which may
-- be those of other chain trees. The recursion is on fuel, whose end is the error `out_of_fuel`.
pub mod Termination
use tupelo.Prelude.{ℕ, zero, suc, List, [], ◌∷◌, ◌++◌, if◌then◌else◌}
use tupelo.GoString.{Bytes, bytes}
use tupelo.GoString.Split.{split, has_prefix}
use tupelo.External.Grafts.{
  Grafts, Inner, inner_dag, inner_text, inner_unknown, Auth, auth_dag, auth_text, auth_list,
  auth_unknown, Auths, auths_list, auths_dag, auths_nil, auths_unknown,
}
use tupelo.Tokens.{tree_path_for_authentications}
use tupelo.Tokens.Path.{TreePath}
use tupelo.Tokens.Name.{did_to_addr}
use tupelo.Outcome.{Outcome, fails, returns, ◌>>=◌, or_fail}

pub data OwnerError : Type 0 where
  out_of_fuel : OwnerError
  not_graftable : OwnerError
  no_did : OwnerError
  loop_detected : OwnerError
  unresolved : OwnerError
  unknown_type : OwnerError

abbrev pub Addrs : Type 0
Addrs = Outcome OwnerError (List Bytes)

-- strings.Split("tree/"+TreePathForAuthentications, "/")
abbrev pub next_path : TreePath
next_path = split 47 (bytes "tree/" ++ tree_path_for_authentications)

module _ {T : Type 0} (handle : T → Addrs) where
  -- The loop over a list inside the authentications
  unfoldable pub owners_of_list : List (Inner T) → Addrs
  owners_of_list [] = returns []
  owners_of_list (inner_unknown ∷ auth) = fails unknown_type
  owners_of_list (inner_text addr ∷ auth) = do owners ← owners_of_list auth; returns (addr ∷ owners)
  owners_of_list (inner_dag addr ∷ auth) = do
    new_owners ← handle addr
    owners ← owners_of_list auth
    returns (new_owners ++ owners)

  -- One authentication; the DID of a chain tree that does not exist is left out.
  unfoldable pub owners_of_auth : Auth T → Addrs
  unfolding owners_of_list
  owners_of_auth (auth_dag auth) = handle auth
  owners_of_auth (auth_text auth) =
      if has_prefix auth (bytes "did:tupelo:") then returns [] else returns (auth ∷ [])
  owners_of_auth (auth_list auth) = owners_of_list auth
  owners_of_auth auth_unknown = fails unknown_type

  unfoldable pub owners_of_auths : List (Auth T) → Addrs
  unfolding owners_of_auth
  owners_of_auths [] = returns []
  owners_of_auths (auth ∷ auths) = do
    new_owners ← owners_of_auth auth
    owners ← owners_of_auths auths
    returns (new_owners ++ owners)

  -- The cases of resolveOwnersRecursively, for the tree with this DID
  unfoldable pub owners_in : Bytes → Auths T → Addrs
  unfolding owners_of_auths
  owners_in did (auths_list auths) = owners_of_auths auths
  owners_in did (auths_dag auths) = handle auths
  owners_in did auths_nil = returns (did_to_addr did ∷ [])
  owners_in did auths_unknown = fails unknown_type

module _ (gr : Grafts) where
  open gr use {Tree, Graftable, graft, origin_did, global_resolve, contains_prefix}

  -- GraftedOwnership.handleDag, which resolves by `resolve`
  unfoldable pub handle_dag : (List TreePath → Graftable → Addrs) → List TreePath → Tree → Addrs
  handle_dag resolve seen d = do
    next_g_dag ← or_fail not_graftable (graft d)
    resolve seen next_g_dag

  -- One level of resolveOwnersRecursively
  unfoldable pub resolve_level :
      (List TreePath → Graftable → Addrs) → List TreePath → Graftable → Addrs
  unfolding handle_dag owners_in
  resolve_level resolve seen grafted_dag = do
    did ← or_fail no_did (origin_did grafted_dag)
    if contains_prefix seen (did ∷ next_path) then fails loop_detected else do
      uncast_auths ← or_fail unresolved (global_resolve next_path grafted_dag)
      owners_in (handle_dag resolve (seen ++ (did ∷ next_path) ∷ [])) did uncast_auths

  -- resolveOwnersRecursively
  unfoldable pub resolve_owners_recursively : ℕ → List TreePath → Graftable → Addrs
  unfolding resolve_level
  resolve_owners_recursively zero seen grafted_dag = fails out_of_fuel
  resolve_owners_recursively (suc fuel) seen grafted_dag =
      resolve_level (resolve_owners_recursively fuel) seen grafted_dag

  -- ResolveOwners
  abbrev pub resolve_owners : ℕ → Graftable → Addrs
  resolve_owners fuel grafted_dag = resolve_owners_recursively fuel [] grafted_dag
