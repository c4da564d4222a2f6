-- ===== src/Mempool/Keys.antt =====
-- toConflictSetID (mempool.go): which requests share a key.
use tupelo.Prelude.{ℕ, ◌+◌, ◌*◌, ◌<◌, ◌^◌, ◌∷◌, [], ◌++◌, ◌≡◌, length, append_assoc, ap, sym, ◌∙◌}
use mathlib.Core.Path.{ap₂}
use tupelo.GoString.{Bytes, format_uint}
use tupelo.GoString.Decimal.{
  append-injective, format_uint-injective, format_uint-digit, format_uint-two_digits,
}
use tupelo.Request.{AddBlockRequest}
use tupelo.Mempool.{to_conflict_set_id}

-- Requests with object IDs of one length (all DIDs have one) and uint64 heights share a key only
-- if object and height are the same.
pub to_conflict_set_id-injective :
    (a b : AddBlockRequest)
    → length a.object_id ≡ length b.object_id
    → a.height < 2 ^ 64
    → b.height < 2 ^ 64
    → to_conflict_set_id a ≡ to_conflict_set_id b
    → (a.object_id ≡ b.object_id) × (a.height ≡ b.height)
unfolding to_conflict_set_id
to_conflict_set_id-injective a b l ha hb e =
    let (o, h) =
      append-injective a.object_id b.object_id (format_uint a.height) (format_uint b.height) l e in
    (o, format_uint-injective a.height b.height ha hb h)

-- Without the separator the object ID and the height run together: an object whose ID ends in the
-- digit `d` has at height `h` the key of the shorter ID at height 10 * d + h.
pub to_conflict_set_id_collides :
    (a b : AddBlockRequest) (o : Bytes) (d : ℕ)
    → 0 < d
    → d < 10
    → a.height < 10
    → a.object_id ≡ o ++ (48 + d) ∷ []
    → b.object_id ≡ o
    → b.height ≡ 10 * d + a.height
    → to_conflict_set_id a ≡ to_conflict_set_id b
unfolding to_conflict_set_id
to_conflict_set_id_collides a b o d p q r e f g =
    ap (λ (s : Bytes). s ++ format_uint a.height) e
    ∙ append_assoc o ((48 + d) ∷ []) (format_uint a.height)
    ∙ ap (λ (s : Bytes). o ++ (48 + d) ∷ s) (format_uint-digit a.height r)
    ∙ ap (λ (s : Bytes). o ++ s) (sym (format_uint-two_digits d a.height p q r))
    ∙ ap₂ (λ (s : Bytes) (n : ℕ). s ++ format_uint n) (sym f) (sym g)
