-- ===== src/Prelude/Raising.antt =====
-- Calls that may raise: a value or the exception.
use mathlib.Core.Path.{◌≡◌, refl}
use mathlib.Core.Logic.{◌⊎◌, inl, inr}
use mathlib.Core.Bool.{Bool, true, false}

pub data Outcome {ℓ} (E A : Type ℓ) : Type ℓ where
  ok : A → Outcome E A
  raised : E → Outcome E A

-- An exception skips what follows.
infixl 5 ◌>>=◌
abbrev pub ◌>>=◌ {ℓ} : {E A B : Type ℓ} → Outcome E A → (A → Outcome E B) → Outcome E B
raised exception >>= next = raised exception
ok value >>= next = next value

infixl 5 ◌>>◌
abbrev pub ◌>>◌ {ℓ} : {E A B : Type ℓ} → Outcome E A → Outcome E B → Outcome E B
raised exception >> next = raised exception
ok _ >> next = next

-- The value, or a default where the call raised.
abbrev pub value_of {ℓ} : {E A : Type ℓ} → Outcome E A → A → A
value_of (ok a) d = a
value_of (raised e) d = d

-- `if bad: raise e`
abbrev pub raise_if : {E : Type 0} → Bool → E → Outcome E (Unit {0})
raise_if true e = raised e
raise_if false e = ok tt

pub Outcome-cases {ℓ} :
    {E A : Type ℓ} (m : Outcome E A) → ((a : A) × (m ≡ ok a)) ⊎ ((e : E) × (m ≡ raised e))
Outcome-cases (ok a) = inl (a, refl)
Outcome-cases (raised e) = inr (e, refl)

-- Inversion of a bind that did not raise.
pub >>=-eq-ok {ℓ} :
    {E A B : Type ℓ} (m : Outcome E A) (f : A → Outcome E B) {b : B}
    → (m >>= f) ≡ ok b
    → (a : A) × (m ≡ ok a) × (f a ≡ ok b)
>>=-eq-ok (raised e) f h = cc
>>=-eq-ok (ok a) f h = (a, refl, h)

pub raise_if-eq-ok : {E : Type 0} (b : Bool) (e : E) → raise_if b e ≡ ok tt → b ≡ false
raise_if-eq-ok true e h = cc
raise_if-eq-ok false e h = refl
