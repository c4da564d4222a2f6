-- ===== src/Tokens/Path.antt =====
-- DecodePath of sdk/consensus/transactions.go: the path of a tree from its text.
use tupelo.Prelude.{
  ℕ, List, [], ◌∷◌, All, Bool, true, false, Option, none, some, if◌then◌else◌, ◌≡◌, refl,
}
use tupelo.GoString.{Bytes}
use tupelo.GoString.Split.{split, join, trim_byte, Lacks, split-join}

abbrev pub TreePath : Type 0
TreePath = List Bytes

-- "/"
abbrev slash : ℕ
slash = 47

abbrev pub is_blank : Bytes → Bool
is_blank [] = true
is_blank (x ∷ xs) = false

abbrev pub has_blank : List Bytes → Bool
has_blank [] = false
has_blank (p ∷ ps) = if is_blank p then true else has_blank ps

-- none is the error about a repeated separator.
unfoldable pub decode_path : Bytes → Option TreePath
decode_path path =
    let trimmed = trim_byte slash path in
    let pieces = split slash trimmed in
    if is_blank trimmed then some [] else if has_blank pieces then none else some pieces

-- A component as the code takes it: one byte at least, and no slash.
abbrev pub IsComponent : Bytes → Type 0
IsComponent p = (is_blank p ≡ false) × Lacks slash p

has_blank-components : (ps : TreePath) → All IsComponent ps → has_blank ps ≡ false
has_blank-components [] h = refl
has_blank-components (p ∷ ps) (h, hs) = rw (h.0, has_blank-components ps hs)

Lacks-components : (ps : TreePath) → All IsComponent ps → All (Lacks slash) ps
Lacks-components [] h = tt
Lacks-components (p ∷ ps) (h, hs) = (h.1, Lacks-components ps hs)

trim-join :
    (p : Bytes) (ps : TreePath)
    → IsComponent p
    → trim_byte slash (join slash (p ∷ ps)) ≡ join slash (p ∷ ps)
unfolding trim_byte join
trim-join [] ps h = absurd (cc)
trim-join (x ∷ p) [] (h, (n, ns)) = rw n
trim-join (x ∷ p) (q ∷ ps) (h, (n, ns)) = rw n

join-blank : (p : Bytes) (ps : TreePath) → IsComponent p → is_blank (join slash (p ∷ ps)) ≡ false
unfolding join
join-blank [] ps h = absurd (cc)
join-blank (x ∷ p) [] h = refl
join-blank (x ∷ p) (q ∷ ps) h = refl

-- A path of one component or more, each with a byte at least and without a slash, comes back from
-- its components joined by slashes.
pub decode_path-join :
    (p : Bytes) (ps : TreePath)
    → All IsComponent (p ∷ ps)
    → decode_path (join slash (p ∷ ps)) ≡ some (p ∷ ps)
unfolding decode_path
decode_path-join p ps (h, hs) = rw (
  trim-join p ps h,
  join-blank p ps h,
  split-join slash p ps (h.1, Lacks-components ps hs),
  h.0,
  has_blank-components ps hs,
)
