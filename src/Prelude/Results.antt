-- ===== src/Prelude/Results.antt =====
-- What a Go function returns that may fail: an error, or its value.
use mathlib.Core.Path.{◌≡◌, refl}
use mathlib.Core.Logic.{◌⊎◌, inl, inr}
use mathlib.Core.Bool.{Bool, true, false}

pub data Fallible {ℓ} (E : Type 0) (A : Type ℓ) : Type ℓ where
  err : E → Fallible E A
  ok : A → Fallible E A

module _ {E : Type 0} where
  pub Result-cases {ℓ} :
      {A : Type ℓ} (r : Fallible E A) → ((e : E) × (r ≡ err e)) ⊎ ((a : A) × (r ≡ ok a))
  Result-cases (ok a) = inr (a, refl)
  Result-cases (err e) = inl (e, refl)

  -- `if b { return e }`
  abbrev pub fail_if : Bool → E → Fallible E (Unit {0})
  fail_if false e = ok tt
  fail_if true e = err e

  infixl 5 ◌>>=◌ ◌>>◌
  abbrev pub ◌>>=◌ {ℓ κ} :
      {A : Type ℓ} {B : Type κ} → Fallible E A → (A → Fallible E B) → Fallible E B
  err e >>= next = err e
  ok a >>= next = next a

  abbrev pub ◌>>◌ {ℓ} : {B : Type ℓ} → Fallible E (Unit {0}) → Fallible E B → Fallible E B
  checked >> next = checked >>= λ passed. next
