-- ===== src/External/CidLib.antt =====
-- github.com/ipfs/go-cid: an identifier is the string of its bytes, and `cid.Undef` is empty.
use tupelo.Prelude.{Option, some, ◌≡◌, []}
use tupelo.GoString.{Bytes}

abbrev pub Cid : Type 0
Cid = Bytes

-- cid.Undef
abbrev pub undef : Cid
undef = []

pub record CidLib : Type 0 where
  -- cid.Cast: none is its error.
  pub cast : Bytes → Option Cid
  -- c.String(): the multibase text, which decodes to the identifier.
  pub to_string : Cid → Bytes
  pub to_string_injective : (a b : Cid) → to_string a ≡ to_string b → a ≡ b
  -- c.Bytes() is the string that a successful Cast keeps.
  pub cast_bytes : (b : Bytes) {c : Cid} → cast b ≡ some c → c ≡ b

pub cast_some : (b : Bytes) {c : Cid} → some b ≡ some c → c ≡ b
cast_some b h = cc

-- An instance that accepts every byte string and prints it as it is.
abbrev pub plain : CidLib
plain = record {
  cast = λ b. some b;
  to_string = λ c. c;
  to_string_injective = λ a b h. h;
  cast_bytes = cast_some;
}
