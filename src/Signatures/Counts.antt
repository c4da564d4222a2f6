-- ===== src/Signatures/Counts.antt =====
-- The counts of the signers in an aggregate of signatures.
use tupelo.Prelude.{
  ℕ, zero, suc, ◌+◌, ◌-◌, ◌≤◌, List, [], ◌∷◌, All, ◌||◌, ◌≡◌, refl, not, if◌then◌else◌, length, ltb,
  eqb, arith, subst,
}
use tupelo.External.Crypto.{Crypto}
use tupelo.Signatures.{
  Signature, Signed, max_uint32, signer_count, add_counts, zeros, aggregate_from, is_bls,
  aggregate_bls_signatures, bls_signature, would_overflow, wrong_type, lengths_differ, sum_failed,
}
use tupelo.Outcome.{returns, fails, ◌>>=◌, or_fail, returned_first, returned_else}

-- As many counts, none smaller, all within 32 bits.
abbrev pub Covers : List ℕ → List ℕ → Type 0
Covers [] [] = Unit
Covers [] (s ∷ ss) = ⊥
Covers (b ∷ bs) [] = ⊥
Covers (b ∷ bs) (s ∷ ss) = (s ≤ b) × (b ≤ max_uint32) × Covers bs ss

Covers-trans : (a b c : List ℕ) → Covers a b → Covers b c → Covers a c
Covers-trans [] [] [] h k = tt
Covers-trans [] [] (z ∷ c) h k = elim k [ ]
Covers-trans [] (y ∷ b) c h k = elim h [ ]
Covers-trans (x ∷ a) [] c h k = elim h [ ]
Covers-trans (x ∷ a) (y ∷ b) [] h k = elim k [ ]
Covers-trans (x ∷ a) (y ∷ b) (z ∷ c) (h, m, hs) (k, n, ks) =
    (omega arith, m, Covers-trans a b c hs ks)

Covers-self : (a b : List ℕ) → Covers a b → Covers a a
Covers-self [] b h = tt
Covers-self (x ∷ a) [] h = elim h [ ]
Covers-self (x ∷ a) (y ∷ b) (h, m, hs) = (omega arith, m, Covers-self a b hs)

Covers-zeros : (n : ℕ) → Covers (zeros n) (zeros n)
Covers-zeros zero = tt
Covers-zeros (suc n) = (omega arith, omega arith, Covers-zeros n)

Covers-length : (a b : List ℕ) → Covers a b → length a ≡ length b
Covers-length [] [] h = refl
Covers-length [] (y ∷ b) h = elim h [ ]
Covers-length (x ∷ a) [] h = elim h [ ]
Covers-length (x ∷ a) (y ∷ b) (h, m, hs) = let i = Covers-length a b hs in omega arith

length-zeros : (n : ℕ) → length (zeros n) ≡ n
length-zeros zero = refl
length-zeros (suc n) = let i = length-zeros n in omega arith

-- Who has signed in the smaller one has signed in the larger.
signer_count-Covers : (a b : List ℕ) → Covers a b → signer_count b ≤ signer_count a
unfolding signer_count
signer_count-Covers [] [] h = omega arith
signer_count-Covers [] (y ∷ b) h = elim h [ ]
signer_count-Covers (x ∷ a) [] h = elim h [ ]
signer_count-Covers (x ∷ a) (y ∷ b) (h, m, hs) = let i = signer_count-Covers a b hs in ground arith

-- Where the addition returns, it covers both.
add_counts-Covers :
    (a b c : List ℕ)
    → Covers a a
    → length b ≡ length a
    → add_counts a b ≡ returns c
    → Covers c a × Covers c b
unfolding add_counts
add_counts-Covers [] [] c h l e =
    let f : [] ≡ c = cc in subst (λ x. Covers x [] × Covers x []) f (tt, tt)
add_counts-Covers [] (y ∷ b) c h l e = absurd (omega arith)
add_counts-Covers (x ∷ a) [] c h l e = absurd (omega arith)
add_counts-Covers (x ∷ a) (y ∷ b) c (h, m, hs) l e =
    let (t, e') =
      returned_else (ltb (max_uint32 - x) y || ltb (max_uint32 - y) x) would_overflow
        (add_counts a b >>= (λ rest. returns ((x + y) ∷ rest))) e in
    let (rest, e1, e2) = returned_first (add_counts a b) (λ rest. returns ((x + y) ∷ rest)) e' in
    let (p, q) = add_counts-Covers a b rest hs (omega arith) e1 in
    let f : (x + y) ∷ rest ≡ c = cc in
    let o : x + y ≤ max_uint32 = ground arith in
    subst (λ z. Covers z (x ∷ a) × Covers z (y ∷ b)) f ((omega arith, o, p), (omega arith, o, q))

module _ (cr : Crypto) where
  aggregate_from-Covers :
      (n : ℕ) (totals signers : List ℕ) (sigs : List Signature) (bits : List (List ℕ))
      (keys : List cr.VerKey)
      → Covers totals totals
      → length totals ≡ n
      → aggregate_from cr n totals sigs ≡ returns (signers, bits, keys)
      → Covers signers totals × All (λ sig. Covers signers sig.signers) sigs
  unfolding aggregate_from
  aggregate_from-Covers n totals signers [] bits keys h l e =
      let f : totals ≡ signers = cc in subst (λ x. Covers x totals × Unit) f (h, tt)
  aggregate_from-Covers n totals signers (sig ∷ sigs) bits keys h l e =
      let Triple : Type 0 = List ℕ × List (List ℕ) × List cr.VerKey in
      let joined : Triple → Signed Triple = λ (s, b, k).
        returns (s, sig.signature ∷ b, cr.bytes_to_key sig.ownership.key.public_key ∷ k) in
      let next : List ℕ → Signed Triple = λ t. aggregate_from cr n t sigs >>= joined in
      let added = add_counts totals sig.signers >>= next in
      let (t1, e1) =
        returned_else (not (is_bls sig.ownership.key.key_type)) wrong_type
          (if◌then◌else◌ (not (eqb (length sig.signers) n)) (fails lengths_differ) added) e in
      let (t2, e2) = returned_else (not (eqb (length sig.signers) n)) lengths_differ added e1 in
      let m : length sig.signers ≡ length totals = ground arith in
      let (totals', e3, e4) = returned_first (add_counts totals sig.signers) next e2 in
      let (ct, cs) = add_counts-Covers totals sig.signers totals' h m e3 in
      let k = Covers-length totals' totals ct in
      let ((s', b', k'), e5, e6) = returned_first (aggregate_from cr n totals' sigs) joined e4 in
      let f : s' ≡ signers = cc in
      let (i, is) =
        aggregate_from-Covers n totals' s' sigs b' k' (Covers-self totals' totals ct) (omega arith)
          e5 in
      subst (λ x. Covers x totals × (Covers x sig.signers × All (λ g. Covers x g.signers) sigs)) f
        (Covers-trans s' totals' totals i ct, (Covers-trans s' totals' sig.signers i cs, is))

  aggregate_bls_signatures-Covers :
      (sigs : List Signature) (s : Signature)
      → aggregate_bls_signatures cr sigs ≡ returns s
      → All (λ sig. Covers s.signers sig.signers) sigs
  unfolding aggregate_bls_signatures
  aggregate_bls_signatures-Covers [] s e = absurd (cc)
  aggregate_bls_signatures-Covers (first ∷ sigs) s e =
      let n = length first.signers in
      let summed : List ℕ × List (List ℕ) × List cr.VerKey → Signed Signature =
        λ (signers, bits, keys). or_fail sum_failed (cr.sum_signatures bits) >>= (λ sig.
          or_fail sum_failed (cr.sum_keys keys)
          >>= (λ key. returns (bls_signature signers sig (cr.key_bytes key)))) in
      let ((signers, bits, keys), e1, e2) =
        returned_first (aggregate_from cr n (zeros n) (first ∷ sigs)) summed e in
      let (sig, e3, e4) =
        returned_first (or_fail sum_failed (cr.sum_signatures bits))
          (λ sig.
            or_fail sum_failed (cr.sum_keys keys)
            >>= (λ key. returns (bls_signature signers sig (cr.key_bytes key))))
          e2 in
      let (key, e5, e6) =
        returned_first (or_fail sum_failed (cr.sum_keys keys))
          (λ key. returns (bls_signature signers sig (cr.key_bytes key))) e4 in
      let r : bls_signature signers sig (cr.key_bytes key) ≡ s = cc in
      let (c, all) =
        aggregate_from-Covers n (zeros n) signers (first ∷ sigs) bits keys (Covers-zeros n)
          (length-zeros n) e1 in
      subst (λ x. All (λ g. Covers x.signers g.signers) (first ∷ sigs)) r all

counted :
    (b : List ℕ) (sigs : List Signature)
    → All (λ sig. Covers b sig.signers) sigs
    → All (λ sig. Covers b sig.signers × (signer_count sig.signers ≤ signer_count b)) sigs
counted b [] h = tt
counted b (sig ∷ sigs) (h, hs) = ((h, signer_count-Covers b sig.signers h), counted b sigs hs)

-- Where AggregateBLSSignatures returns, each count of the aggregate is below 2^32 and no less than
-- that of each of the signatures at its place, all have as many counts, and the aggregate has no
-- fewer signers than each of the signatures.
pub aggregate_bls_signatures-signer_count :
    (cr : Crypto) (sigs : List Signature) (s : Signature)
    → aggregate_bls_signatures cr sigs ≡ returns s
    → All
        (λ sig. Covers s.signers sig.signers × (signer_count sig.signers ≤ signer_count s.signers))
        sigs
aggregate_bls_signatures-signer_count cr sigs s e =
    counted s.signers sigs (aggregate_bls_signatures-Covers cr sigs s e)
