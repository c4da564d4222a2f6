-- ===== src/GoString/Order.antt =====
-- `<` on strings is a strict total order.
use tupelo.Prelude.{[], ◌∷◌, true, false, ◌≡◌, ◌⊎◌, inl, inr, refl, arith}
use tupelo.GoString.{Bytes, bytes_lt}

pub bytes_lt_irrefl : (a : Bytes) → bytes_lt a a ≡ false
unfolding bytes_lt
bytes_lt_irrefl [] = refl
bytes_lt_irrefl (x ∷ xs) = ground (arith, bytes_lt_irrefl xs)

pub bytes_lt_trans :
    (a b c : Bytes) → bytes_lt a b ≡ true → bytes_lt b c ≡ true → bytes_lt a c ≡ true
unfolding bytes_lt
bytes_lt_trans [] [] c p q = ground arith
bytes_lt_trans [] (y ∷ ys) [] p q = ground arith
bytes_lt_trans [] (y ∷ ys) (z ∷ zs) p q = refl
bytes_lt_trans (x ∷ xs) [] c p q = ground arith
bytes_lt_trans (x ∷ xs) (y ∷ ys) [] p q = ground arith
bytes_lt_trans (x ∷ xs) (y ∷ ys) (z ∷ zs) p q = ground (arith, bytes_lt_trans xs ys zs)

pub bytes_lt_total : (a b : Bytes) → (bytes_lt a b ≡ true) ⊎ ((a ≡ b) ⊎ (bytes_lt b a ≡ true))
unfolding bytes_lt
bytes_lt_total [] [] = inr (inl refl)
bytes_lt_total [] (y ∷ ys) = inl refl
bytes_lt_total (x ∷ xs) [] = inr (inr refl)
bytes_lt_total (x ∷ xs) (y ∷ ys) = grind (arith, bytes_lt_total xs ys)

-- A string that is not below another leaves nothing above the first that is below the second.
pub bytes_lt_cotrans :
    (a b c : Bytes) → bytes_lt a b ≡ false → bytes_lt c b ≡ true → bytes_lt a c ≡ false
bytes_lt_cotrans a b c p q = ground (arith, bytes_lt_trans a c b)
