-- ===== src/GoString/Split.antt =====
-- strings.Split and strings.Join with a separator of one byte, strings.TrimPrefix with a prefix of
-- one byte and strings.HasPrefix.
use tupelo.Prelude.{
  ℕ, List, [], ◌∷◌, ◌++◌, All, Bool, true, false, ◌&&◌, if◌then◌else◌, eqb, ◌≡◌, refl, ap, ◌∙◌,
  append_assoc, Bool-cases, inl, inr, arith, eqb_refl,
}
use tupelo.GoString.{Bytes}

-- The byte `c` put before the first piece.
unfoldable pub extend_first : ℕ → List Bytes → List Bytes
extend_first c [] = (c ∷ []) ∷ []
extend_first c (p ∷ ps) = (c ∷ p) ∷ ps

unfoldable pub split : ℕ → Bytes → List Bytes
unfolding extend_first
split c [] = [] ∷ []
split c (x ∷ xs) = let rest = split c xs in if eqb x c then [] ∷ rest else extend_first x rest

unfoldable pub join : ℕ → List Bytes → Bytes
join c [] = []
join c (p ∷ []) = p
join c (p ∷ q ∷ ps) = p ++ c ∷ join c (q ∷ ps)

unfoldable pub trim_byte : ℕ → Bytes → Bytes
trim_byte c [] = []
trim_byte c (x ∷ xs) = if eqb x c then xs else x ∷ xs

unfoldable pub has_prefix : Bytes → Bytes → Bool
has_prefix xs [] = true
has_prefix [] (p ∷ ps) = false
has_prefix (x ∷ xs) (p ∷ ps) = eqb x p && has_prefix xs ps

-- The byte does not occur.
abbrev pub Lacks : ℕ → Bytes → Type 0
Lacks c = All (λ x. eqb x c ≡ false)

-- The pieces but the last, and the last: what Go writes `s[:len(s)-1]` and `s[len(s)-1]`.
unfoldable pub all_but_last : List Bytes → List Bytes
all_but_last [] = []
all_but_last (p ∷ []) = []
all_but_last (p ∷ q ∷ ps) = p ∷ all_but_last (q ∷ ps)

unfoldable pub last_piece : List Bytes → Bytes
last_piece [] = []
last_piece (p ∷ []) = p
last_piece (p ∷ q ∷ ps) = last_piece (q ∷ ps)

join-extend : (c x : ℕ) (ps : List Bytes) → join c (extend_first x ps) ≡ x ∷ join c ps
unfolding join extend_first
join-extend c x [] = refl
join-extend c x (p ∷ []) = refl
join-extend c x (p ∷ q ∷ ps) = refl

pub split-nonempty : (c : ℕ) (s : Bytes) → (p : Bytes) × (ps : List Bytes) × (split c s ≡ p ∷ ps)
unfolding split extend_first
split-nonempty c [] = ([], [], refl)
split-nonempty c (x ∷ xs) =
    let (p, ps, e) = split-nonempty c xs in
    elim (Bool-cases (eqb x c)) [ inl h ↦ ([], split c xs, rw h) | inr h ↦ (x ∷ p, ps, rw (h, e)) ]

join-empty : (c : ℕ) (s : Bytes) → join c ([] ∷ split c s) ≡ c ∷ join c (split c s)
unfolding join
join-empty c s = let (p, ps, e) = split-nonempty c s in rw e

-- Joining the pieces of a string gives the string.
pub join-split : (c : ℕ) (s : Bytes) → join c (split c s) ≡ s
unfolding split join extend_first
join-split c [] = refl
join-split c (x ∷ xs) = elim (Bool-cases (eqb x c)) [
  | inl h ↦ let i = join-split c xs in let e : x ≡ c = ground arith in rw (h, join-empty c xs, i, e)
  | inr h ↦ rw (h, join-extend c x (split c xs), join-split c xs)
]

-- A piece without the separator is split off whole.
pub split-piece : (c : ℕ) (p : Bytes) → Lacks c p → split c p ≡ p ∷ []
unfolding split extend_first
split-piece c [] h = refl
split-piece c (x ∷ xs) (h, hs) = rw (h, split-piece c xs hs)

pub split-append : (c : ℕ) (p s : Bytes) → Lacks c p → split c (p ++ c ∷ s) ≡ p ∷ split c s
unfolding split extend_first
split-append c [] s h = rw (eqb_refl c)
split-append c (x ∷ xs) s (h, hs) = rw (h, split-append c xs s hs)

-- Splitting what was joined of one or more pieces without the separator gives the pieces.
pub split-join :
    (c : ℕ) (p : Bytes) (ps : List Bytes)
    → All (Lacks c) (p ∷ ps)
    → split c (join c (p ∷ ps)) ≡ p ∷ ps
unfolding join
split-join c p [] (h, hs) = split-piece c p h
split-join c p (q ∷ ps) (h, hs) =
    split-append c p (join c (q ∷ ps)) h ∙ ap (λ r. p ∷ r) (split-join c q ps hs)

pub split-append_last :
    (c : ℕ) (a b : Bytes) → Lacks c b → split c (a ++ c ∷ b) ≡ split c a ++ b ∷ []
unfolding split extend_first
split-append_last c [] b h = rw (eqb_refl c, split-piece c b h)
split-append_last c (x ∷ xs) b h =
    let i = split-append_last c xs b h in
    let (p, ps, e) = split-nonempty c xs in
    elim (Bool-cases (eqb x c)) [ inl t ↦ rw (t, i) | inr t ↦ rw (t, i, e) ]

pub all_but_last-append : (ps : List Bytes) (p : Bytes) → all_but_last (ps ++ p ∷ []) ≡ ps
unfolding all_but_last
all_but_last-append [] p = refl
all_but_last-append (q ∷ []) p = refl
all_but_last-append (q ∷ r ∷ ps) p = ap (λ l. q ∷ l) (all_but_last-append (r ∷ ps) p)

pub last_piece-append : (ps : List Bytes) (p : Bytes) → last_piece (ps ++ p ∷ []) ≡ p
unfolding last_piece
last_piece-append [] p = refl
last_piece-append (q ∷ []) p = refl
last_piece-append (q ∷ r ∷ ps) p = last_piece-append (r ∷ ps) p

-- With two pieces or more, the last one stands behind a separator.
pub join-last :
    (c : ℕ) (p q : Bytes) (ps : List Bytes)
    → join c (all_but_last (p ∷ q ∷ ps)) ++ c ∷ last_piece (p ∷ q ∷ ps) ≡ join c (p ∷ q ∷ ps)
unfolding join all_but_last last_piece
join-last c p q [] = refl
join-last c p q (r ∷ ps) =
    append_assoc p (c ∷ join c (all_but_last (q ∷ r ∷ ps))) (c ∷ last_piece (q ∷ r ∷ ps))
    ∙ ap (λ l. p ++ c ∷ l) (join-last c q r ps)

-- A string with a separator has two pieces or more.
pub split-two :
    (c : ℕ) (a b : Bytes) → (p q : Bytes) × (ps : List Bytes) × (split c (a ++ c ∷ b) ≡ p ∷ q ∷ ps)
unfolding split extend_first
split-two c [] b = let (p, ps, e) = split-nonempty c b in ([], p, ps, rw (eqb_refl c, e))
split-two c (x ∷ xs) b =
    let (p, q, ps, e) = split-two c xs b in
    elim (Bool-cases (eqb x c)) [
      | inl t ↦ ([], p, q ∷ ps, rw (t, e))
      | inr t ↦ (x ∷ p, q, ps, rw (t, e))
    ]
