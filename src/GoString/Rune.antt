-- ===== src/GoString/Rune.antt =====
-- `string(i)` of an integer: the UTF-8 encoding of that code point, and of U+FFFD where the integer
-- is none.
use tupelo.Prelude.{ℕ, ◌+◌, ◌/◌, ◌%◌, [], ◌∷◌, Bool, ◌&&◌, ◌||◌, if◌then◌else◌, ltb, leb}
use tupelo.GoString.{Bytes}

-- Neither a surrogate nor above U+10FFFF.
abbrev pub is_code_point : ℕ → Bool
is_code_point i = ltb i 55296 || (leb 57344 i && ltb i 1114112)

unfoldable pub rune_string : ℕ → Bytes
rune_string i =
    if ltb i 128
    then i ∷ []
    else if ltb i 2048
    then (192 + i / 64) ∷ (128 + i % 64) ∷ []
    else if is_code_point i
    then (if ltb i 65536
        then (224 + i / 4096) ∷ (128 + i / 64 % 64) ∷ (128 + i % 64) ∷ []
        else (240 + i / 262144) ∷ (128 + i / 4096 % 64) ∷ (128 + i / 64 % 64) ∷ (128 + i % 64) ∷ [])
    else 239 ∷ 191 ∷ 189 ∷ []
