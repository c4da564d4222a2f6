-- ===== src/SignatureMaps.antt =====
-- SignatureMap of sdk/consensus/consensus.go: signatures by the name of their signer.
pub mod Lookups
use tupelo.Prelude.{Option, none, some, List, [], ◌∷◌, if◌then◌else◌}
use tupelo.GoString.{Bytes, bytes_eq_inst}
use tupelo.GoMap.{GoMap, lookup, insert, contains}
use tupelo.Signatures.{Signature}

abbrev pub SignatureMap : Type 0
SignatureMap = GoMap Bytes Signature

-- The entries of a map set in another, one after the other.
unfoldable pub set_all : SignatureMap → SignatureMap → SignatureMap
set_all [] new_sm = new_sm
set_all ((k, v) ∷ sm) new_sm = set_all sm (insert k v new_sm)

-- SignatureMap.Merge
abbrev pub merge : SignatureMap → SignatureMap → SignatureMap
merge sm other = set_all other (set_all sm [])

unfoldable pub subtract_from : SignatureMap → SignatureMap → SignatureMap → SignatureMap
subtract_from [] other new_sm = new_sm
subtract_from ((k, v) ∷ sm) other new_sm =
    subtract_from sm other (if contains k other then new_sm else insert k v new_sm)

-- SignatureMap.Subtract
abbrev pub subtract : SignatureMap → SignatureMap → SignatureMap
subtract sm other = subtract_from sm other []

set_found : Bytes → Option Signature → SignatureMap → SignatureMap
set_found key none new_sm = new_sm
set_found key (some v) new_sm = insert key v new_sm

unfoldable pub only_from : List Bytes → SignatureMap → SignatureMap → SignatureMap
unfolding set_found
only_from [] sm new_sm = new_sm
only_from (key ∷ keys) sm new_sm = only_from keys sm (set_found key (lookup key sm) new_sm)

-- SignatureMap.Only
abbrev pub only : List Bytes → SignatureMap → SignatureMap
only keys sm = only_from keys sm []
