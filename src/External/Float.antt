-- ===== src/External/Float.antt =====
-- Go's float64 (IEEE-754 binary64), abstract: the arithmetic that the code calls, and of the laws
-- only those of `<`, which hold with NaN too.
use tupelo.Prelude.{ℕ, ◌+◌, ◌-◌, ◌*◌, ◌/◌, Bool, true, false, ◌≡◌, arith, ltb, eqb}

pub record Float64 : Type 1 where
  pub F : Type 0
  -- float64(n)
  pub of_int : ℕ → F
  pub add : F → F → F
  pub sub : F → F → F
  pub mul : F → F → F
  pub div : F → F → F
  pub lt : F → F → Bool
  pub feq : F → F → Bool
  -- The constant 0.666.
  pub two_thirds : F
  pub lt_irrefl : (a : F) → lt a a ≡ false
  pub lt_trans : (a b c : F) → lt a b ≡ true → lt b c ≡ true → lt a c ≡ true

pub ltb_irrefl : (a : ℕ) → ltb a a ≡ false
ltb_irrefl a = ground arith

pub ltb_trans : (a b c : ℕ) → ltb a b ≡ true → ltb b c ≡ true → ltb a c ≡ true
ltb_trans a b c p q = ground arith

-- Thousandths: an instance in which the code runs.
abbrev pub milli : Float64
milli = record {
  F = ℕ;
  of_int = λ n. n * 1000;
  add = λ a b. a + b;
  sub = λ a b. a - b;
  mul = λ a b. a * b / 1000;
  div = λ a b. a * 1000 / b;
  lt = ltb;
  feq = eqb;
  two_thirds = 666;
  lt_irrefl = ltb_irrefl;
  lt_trans = ltb_trans;
}
