-- ===== src/Common/Results.antt =====
-- A result type for code that raises: the exception that left the function, or what it returned.
use mathlib.Core.Path.{◌≡◌, refl}

pub data Result {ℓ} (E : Type 0) (A : Type ℓ) : Type ℓ where
  err : E → Result E A
  ok : A → Result E A

module _ {ℓ κ} {E : Type 0} {A : Type ℓ} {B : Type κ} where
  -- What stands after a call runs only where the call returned.
  infixl 5 ◌>>=◌
  abbrev pub ◌>>=◌ : Result E A → (A → Result E B) → Result E B
  err raised >>= next = err raised
  ok value >>= next = next value

  pub >>=-eq-ok :
      (call : Result E A) (next : A → Result E B) {b : B}
      → (call >>= next) ≡ ok b
      → (value : A) × (call ≡ ok value) × (next value ≡ ok b)
  >>=-eq-ok (err raised) next returned = cc
  >>=-eq-ok (ok value) next returned = (value, refl, returned)

module _ {ℓ} {E : Type 0} {A : Type ℓ} where
  pub of_ok : {a b : A} → ◌≡◌ {A = Result E A} (ok a) (ok b) → a ≡ b
  of_ok h = cc
