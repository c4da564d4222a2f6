-- ===== src/Tokens/Canonical.antt =====
-- CanonicalTokenName of sdk/consensus/transactions.go.
use tupelo.Prelude.{Option, none, some, [], ◌∷◌, Bool, true, false, not, ◌&&◌, if◌then◌else◌}
use tupelo.GoString.{Bytes, bytes, bytes_eq}
use tupelo.GoString.Split.{has_prefix}
use tupelo.GoMap.{GoMap}
use tupelo.External.Dag.{Dag, Item, Value, nil, number, simple, sequence, mapping}
use tupelo.Tokens.{tree_path_for_tokens}
use tupelo.Tokens.Path.{TreePath, decode_path}
use tupelo.Tokens.Name.{TokenName, token_name_from_string}
use tupelo.Outcome.{Outcome, fails, returns, ◌>>=◌, or_fail}

pub data NameError : Type 0 where
  invalid_did : NameError
  malformed_path : NameError
  unresolved : NameError
  no_token_map : NameError
  ambiguous : NameError

-- `tokensObj.(map[string]interface{})`
abbrev pub as_map : Value → Option (GoMap Bytes Item)
as_map (mapping m) = some m
as_map nil = none
as_map (number n) = none
as_map (simple b) = none
as_map (sequence xs) = none

-- The loop over the tokens: the one whose local name is `name`; a second one is an error.
unfoldable pub match_token :
    Bytes → Option TokenName → GoMap Bytes Item → Outcome NameError (Option TokenName)
match_token name matched [] = returns matched
match_token name matched ((token, item) ∷ tokens) =
    let tn = token_name_from_string token in
    let found = match_token name (some tn) tokens in
    let passed = match_token name matched tokens in
    if bytes_eq tn.local_name name
    then elim matched [ none ↦ found | some other ↦ fails ambiguous ]
    else passed

-- len(remaining) > 0
abbrev pub has_remaining : TreePath → Bool
has_remaining [] = false
has_remaining (p ∷ ps) = true

abbrev pub or_default : Bytes → Bytes → Option TokenName → TokenName
or_default did name none = record { chain_tree_did = did; local_name = name }
or_default did name (some tn) = tn

module _ (dag : Dag) where
  open dag use {Tree, resolve}

  -- CanonicalTokenName
  unfoldable pub canonical_token_name : Tree → Bytes → Bytes → Bool → Outcome NameError TokenName
  unfolding match_token
  canonical_token_name tree default_did token_name require_default =
      let tn = token_name_from_string token_name in
      if has_prefix token_name (bytes "did:tupelo:")
      then if require_default && not (bytes_eq tn.chain_tree_did default_did)
        then fails invalid_did
        else returns tn
      else do
        tokens_path ← or_fail malformed_path (decode_path tree_path_for_tokens)
        (tokens_obj, remaining) ← or_fail unresolved (resolve tokens_path tree)
        if has_remaining remaining then returns (or_default default_did token_name none) else do
          tokens ← or_fail no_token_map (as_map tokens_obj)
          matched ← match_token token_name none tokens
          returns (or_default default_did token_name matched)
