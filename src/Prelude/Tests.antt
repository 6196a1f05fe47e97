-- ===== src/Prelude/Tests.antt =====
-- Boolean tests on the native numbers, the conditional, and case splits that keep their equation.
use Prim.Native.Nat.{ℕ, compare, Ordering}
use mathlib.Core.Path.{◌≡◌, refl, sym}
use mathlib.Core.Logic.{◌⊎◌, inl, inr}
use mathlib.Core.Bool.{Bool, true, false, false≢true}
use mathlib.Core.Option.{Option, none, some}

abbrev pub ltb : ℕ → ℕ → Bool
ltb a b = elim (compare a b) [ Ordering.lt ↦ true | _ ↦ false ]

abbrev pub leb : ℕ → ℕ → Bool
leb a b = elim (compare a b) [ Ordering.gt ↦ false | _ ↦ true ]

infix 50 ◌==◌
abbrev pub ◌==◌ : ℕ → ℕ → Bool
a == b = elim (compare a b) [ Ordering.eq ↦ true | _ ↦ false ]

infix 1 if◌then◌else◌
abbrev pub if◌then◌else◌ {ℓ} : {A : Type ℓ} → Bool → A → A → A
if true then x else y = x
if false then x else y = y

-- The answer of a decision.
abbrev pub holds {ℓ} : {P : Type ℓ} → Dec P → Bool
holds (yes p) = true
holds (no p) = false

pub Bool-cases : (b : Bool) → (b ≡ true) ⊎ (b ≡ false)
Bool-cases true = inl refl
Bool-cases false = inr refl

pub Option-cases {ℓ} : {A : Type ℓ} (o : Option A) → (o ≡ none) ⊎ ((a : A) × (o ≡ some a))
Option-cases none = inl refl
Option-cases (some a) = inr (a, refl)

pub holds_yes {ℓ} : {P : Type ℓ} (d : Dec P) → holds d ≡ true → P
holds_yes (yes p) e = p
holds_yes (no p) e = absurd (false≢true e)

pub holds_no {ℓ} : {P : Type ℓ} (d : Dec P) → holds d ≡ false → ¬ P
holds_no (yes p) e = absurd (false≢true (sym e))
holds_no (no p) e = p

pub holds-true {ℓ} : {P : Type ℓ} (d : Dec P) → P → holds d ≡ true
holds-true (yes p) h = refl
holds-true (no p) h = absurd (p h)

pub holds-false {ℓ} : {P : Type ℓ} (d : Dec P) → ¬ P → holds d ≡ false
holds-false (yes p) h = absurd (h p)
holds-false (no p) h = refl
