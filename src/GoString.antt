-- ===== src/GoString.antt =====
-- Go's strings and byte slices, as the sequence of their bytes: `==`, `<`, `+`, and
-- `strconv.FormatUint(n, 10)`.
pub mod Order
pub mod Decimal
pub mod Split
pub mod Rune
use Prim.Native.Char.{code}
use Prim.Native.String.{String}
use tupelo.Prelude.{
  ℕ, zero, suc, ◌+◌, ◌/◌, ◌%◌, List, [], ◌∷◌, ◌++◌, Bool, true, false, ◌&&◌, ◌||◌, ltb, eqb, ◌↔◌,
  ◌≡◌, arith, if◌then◌else◌,
}
use tupelo.Prelude.Eq.{Eq}

abbrev pub Bytes : Type 0
Bytes = List ℕ

-- A string literal of the source.
abbrev pub bytes : String → Bytes
bytes String.[] = []
bytes (String.◌∷◌ c s) = code c ∷ bytes s

-- `==` on strings, bytes.Equal
abbrev pub bytes_eq : Bytes → Bytes → Bool
bytes_eq [] [] = true
bytes_eq [] (y ∷ ys) = false
bytes_eq (x ∷ xs) [] = false
bytes_eq (x ∷ xs) (y ∷ ys) = eqb x y && bytes_eq xs ys

pub bytes_eq_iff : (a b : Bytes) → (bytes_eq a b ≡ true) ↔ (a ≡ b)
bytes_eq_iff [] [] = ground arith
bytes_eq_iff [] (y ∷ ys) = ground arith
bytes_eq_iff (x ∷ xs) [] = ground arith
bytes_eq_iff (x ∷ xs) (y ∷ ys) = ground (arith, bytes_eq_iff xs ys)

instance abbrev pub bytes_eq_inst : Eq Bytes
bytes_eq_inst = record { equal = bytes_eq; equal_iff = bytes_eq_iff }

-- `<` on strings: bytewise, a proper prefix first
unfoldable pub bytes_lt : Bytes → Bytes → Bool
bytes_lt [] [] = false
bytes_lt [] (y ∷ ys) = true
bytes_lt (x ∷ xs) [] = false
bytes_lt (x ∷ xs) (y ∷ ys) = ltb x y || (eqb x y && bytes_lt xs ys)

-- The decimal digits of `n`, the last one first computed; `fuel` bounds their number.
unfoldable pub decimal : ℕ → ℕ → Bytes
decimal zero n = []
decimal (suc fuel) n =
    let rest = decimal fuel (n / 10) in (if ltb n 10 then [] else rest) ++ (48 + n % 10) ∷ []

-- strconv.FormatUint(n, 10): a uint64 has at most twenty digits.
unfoldable pub format_uint : ℕ → Bytes
unfolding decimal
format_uint n = decimal 20 n
