-- ===== src/Tokens/Name.antt =====
-- TokenName of sdk/consensus/transactions.go, and the two conversions between an address and its
-- DID of sdk/consensus/consensus.go.
use tupelo.Prelude.{ℕ, List, [], ◌∷◌, ◌++◌, Bool, not, ◌&&◌, ◌≡◌, ap, ◌∙◌, sym}
use tupelo.GoString.{Bytes, bytes}
use tupelo.GoString.Split.{
  split, join, Lacks, all_but_last, last_piece, split-append_last, all_but_last-append,
  last_piece-append, join-split, join-last, split-two,
}
use tupelo.Tokens.Path.{is_blank}

-- ":"
abbrev pub colon : ℕ
colon = 58

pub record TokenName : Type 0 where
  pub chain_tree_did : Bytes
  pub local_name : Bytes

-- TokenName.String
unfoldable pub token_name_string : TokenName → Bytes
token_name_string tn = join colon (tn.chain_tree_did ∷ tn.local_name ∷ [])

-- TokenName.IsCanonical
abbrev pub is_canonical : TokenName → Bool
is_canonical tn = not (is_blank tn.chain_tree_did) && not (is_blank tn.local_name)

unfoldable pub from_components : List Bytes → TokenName
from_components components = record {
  chain_tree_did = join colon (all_but_last components);
  local_name = last_piece components;
}

-- TokenNameFromString
unfoldable pub token_name_from_string : Bytes → TokenName
unfolding from_components
token_name_from_string name = from_components (split colon name)

-- AddrToDid
abbrev pub addr_to_did : Bytes → Bytes
addr_to_did addr = bytes "did:tupelo:" ++ addr

-- DidToAddr
unfoldable pub did_to_addr : Bytes → Bytes
did_to_addr did = last_piece (split colon did)

from_components-append :
    (ps : List Bytes) (p : Bytes)
    → from_components (ps ++ p ∷ []) ≡ record { chain_tree_did = join colon ps; local_name = p }
unfolding from_components
from_components-append ps p i = record {
  chain_tree_did = join colon (all_but_last-append ps p i);
  local_name = last_piece-append ps p i;
}

-- A token name whose local part holds no colon comes back from its text.
pub token_name_from_string-string :
    (tn : TokenName)
    → Lacks colon tn.local_name
    → token_name_from_string (token_name_string tn) ≡ tn
unfolding token_name_from_string token_name_string join
token_name_from_string-string tn h =
    let d = tn.chain_tree_did in
    let n = tn.local_name in
    ap from_components (split-append_last colon d n h)
    ∙ from_components-append (split colon d) n
    ∙ ap (λ b. record { chain_tree_did = b; local_name = n }) (join-split colon d)

-- A text with a colon comes back from the token name that is read from it, whatever stands before
-- and behind the colon.
pub string-token_name_from_string :
    (a b : Bytes) → token_name_string (token_name_from_string (a ++ colon ∷ b)) ≡ a ++ colon ∷ b
unfolding token_name_from_string token_name_string join from_components
string-token_name_from_string a b =
    let (p, q, ps, e) = split-two colon a b in
    ap (λ r. token_name_string (from_components r)) e
    ∙ join-last colon p q ps
    ∙ ap (join colon) (sym e)
    ∙ join-split colon (a ++ colon ∷ b)

-- An address without a colon comes back from its DID.
pub did_to_addr-addr_to_did :
    (addr : Bytes) → Lacks colon addr → did_to_addr (addr_to_did addr) ≡ addr
unfolding did_to_addr
did_to_addr-addr_to_did addr h = rw (
  split-append_last colon (bytes "did:tupelo") addr h,
  last_piece-append (split colon (bytes "did:tupelo")) addr,
)
