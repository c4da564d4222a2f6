-- ===== src/GoString/Decimal.antt =====
-- FormatUint loses nothing: equal texts come from equal numbers.
use tupelo.Prelude.{
  ◌%◌, false, ℕ, zero, suc, ◌+◌, ◌-◌, ◌*◌, ◌/◌, ◌^◌, ◌<◌, [], ◌∷◌, ◌++◌, ◌≡◌, refl, sym, ap, ◌∙◌,
  arith, length, ltb, Bool-cases, inl, inr,
}
use mathlib.Core.Path.{ap₂}
use native.Mathlib.Nat.{pow-suc}
use tupelo.GoString.{Bytes, decimal, format_uint}

-- The number that a text of digits denotes.
value : ℕ → Bytes → ℕ
value acc [] = acc
value acc (c ∷ s) = value (acc * 10 + (c - 48)) s

value-append : (acc : ℕ) (s t : Bytes) → value acc (s ++ t) ≡ value (value acc s) t
unfolding value
value-append acc [] t = refl
value-append acc (c ∷ s) t = value-append (acc * 10 + (c - 48)) s t

value-decimal : (fuel n : ℕ) → n < 10 ^ fuel → value 0 (decimal fuel n) ≡ n
unfolding decimal value
value-decimal zero n h = omega arith
value-decimal (suc fuel) n h = elim (Bool-cases (ltb n 10)) [
  | inl small ↦ rw small (ground arith)
  | inr big ↦
      rw (big, value-append)
        (rw
          (value-decimal fuel (n / 10)
            (let e : 10 ^ suc fuel ≡ 10 ^ fuel * 10 = pow-suc 10 fuel in omega arith))
          (omega arith))
]

decimal-digit : (fuel d : ℕ) → d < 10 → decimal (suc fuel) d ≡ (48 + d) ∷ []
unfolding decimal
decimal-digit fuel d h = ground arith

decimal-more :
    (fuel n : ℕ)
    → ltb n 10 ≡ false
    → decimal (suc fuel) n ≡ decimal fuel (n / 10) ++ (48 + n % 10) ∷ []
unfolding decimal
decimal-more fuel n h = rw h

-- Two uint64 with one text are one number.
pub format_uint-injective :
    (m n : ℕ) → m < 2 ^ 64 → n < 2 ^ 64 → format_uint m ≡ format_uint n → m ≡ n
unfolding format_uint
format_uint-injective m n hm hn e =
    sym (value-decimal 20 m (omega arith)) ∙ ap (value 0) e ∙ value-decimal 20 n (omega arith)

-- Texts that are split at one place are equal part by part.
pub append-injective : (a b s t : Bytes) → length a ≡ length b → a ++ s ≡ b ++ t → (a ≡ b) × (s ≡ t)
append-injective [] [] s t l e = (refl, e)
append-injective [] (y ∷ b) s t l e = absurd (omega arith)
append-injective (x ∷ a) [] s t l e = absurd (omega arith)
append-injective (x ∷ a) (y ∷ b) s t l e =
    let ih : (a ≡ b) × (s ≡ t) = append-injective a b s t (omega arith) (cc) in (cc, ih.1)

pub format_uint-digit : (d : ℕ) → d < 10 → format_uint d ≡ (48 + d) ∷ []
unfolding format_uint
format_uint-digit d h = decimal-digit 19 d h

pub format_uint-two_digits :
    (d e : ℕ) → 0 < d → d < 10 → e < 10 → format_uint (10 * d + e) ≡ (48 + d) ∷ (48 + e) ∷ []
unfolding format_uint
format_uint-two_digits d e p q r =
    let tens : (10 * d + e) / 10 ≡ d = omega arith in
    let ones : (10 * d + e) % 10 ≡ e = omega arith in
    decimal-more 19 (10 * d + e) (ground arith)
    ∙ ap₂ (λ (s : Bytes) (c : ℕ). s ++ (48 + c) ∷ []) (ap (decimal 19) tens ∙ decimal-digit 18 d q)
        ones
