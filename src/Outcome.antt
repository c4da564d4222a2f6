-- ===== src/Outcome.antt =====
-- The results of code that fails or panics: a panic, an error, or a value.
use tupelo.Prelude.{Option, none, some, Bool, true, false, if◌then◌else◌, ◌≡◌, refl}

pub data Outcome {ℓ κ} (E : Type ℓ) (A : Type κ) : Type (ℓ ⊔ κ) where
  panics : Outcome E A
  fails : E → Outcome E A
  returns : A → Outcome E A

infixl 5 ◌>>=◌
abbrev pub ◌>>=◌ {ℓ κ} :
    {E : Type 0} {A : Type ℓ} {B : Type κ} → Outcome E A → (A → Outcome E B) → Outcome E B
panics >>= f = panics
fails e >>= f = fails e
returns a >>= f = f a

-- `if err != nil { return …, e }`
abbrev pub or_fail {ℓ} : {E : Type 0} {A : Type ℓ} → E → Option A → Outcome E A
or_fail e none = fails e
or_fail e (some a) = returns a

-- An error of another kind in place of the one that came.
abbrev pub with_error {ℓ} : {E F : Type 0} {A : Type ℓ} → (E → F) → Outcome E A → Outcome F A
with_error f panics = panics
with_error f (fails e) = fails (f e)
with_error f (returns a) = returns a

-- A chain that returns has returned at its first step.
pub returned_first {ℓ κ} :
    {E : Type 0} {A : Type ℓ} {B : Type κ} (x : Outcome E A) (f : A → Outcome E B) {b : B}
    → (x >>= f) ≡ returns b
    → (a : A) × (x ≡ returns a) × (f a ≡ returns b)
returned_first panics f h = absurd (cc)
returned_first (fails e) f h = absurd (cc)
returned_first (returns a) f h = (a, refl, h)

pub some_returned {ℓ} :
    {E : Type 0} {A : Type ℓ} (e : E) (o : Option A) {a : A} → or_fail e o ≡ returns a → o ≡ some a
some_returned e none h = absurd (cc)
some_returned e (some a) h = cc

pub returned_anyway {ℓ} :
    {E F : Type 0} {A : Type ℓ} (f : E → F) (x : Outcome E A) {a : A}
    → with_error f x ≡ returns a
    → x ≡ returns a
returned_anyway f panics h = absurd (cc)
returned_anyway f (fails e) h = absurd (cc)
returned_anyway f (returns a) h = cc

-- A branch that fails was not taken by what returned.
pub returned_then {ℓ} :
    {E : Type 0} {A : Type ℓ} (c : Bool) (x : Outcome E A) (e : E) {a : A}
    → if◌then◌else◌ c x (fails e) ≡ returns a
    → (c ≡ true) × (x ≡ returns a)
returned_then true x e h = (refl, h)
returned_then false x e h = absurd (cc)

pub returned_else {ℓ} :
    {E : Type 0} {A : Type ℓ} (c : Bool) (e : E) (x : Outcome E A) {a : A}
    → if◌then◌else◌ c (fails e) x ≡ returns a
    → (c ≡ false) × (x ≡ returns a)
returned_else true e x h = absurd (cc)
returned_else false e x h = (refl, h)

-- A test that returns true has taken the branch that does not return false.
pub accepted_then :
    {E : Type 0} (c : Bool) (x : Outcome E Bool)
    → if◌then◌else◌ c x (returns false) ≡ returns true
    → (c ≡ true) × (x ≡ returns true)
accepted_then true x h = (refl, h)
accepted_then false x h = absurd (cc)
