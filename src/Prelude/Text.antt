-- ===== src/Prelude/Text.antt =====
-- Go strings: lists of bytes, with a decidable equality that computes.
use Prim.Native.Nat.{ℕ}
use Prim.Native.Char.{code}
use Prim.Native.String.{String}
use mathlib.Core.Path.{◌≡◌, refl, ap₂}
use mathlib.Core.List.{List, [], ◌∷◌}
use mathlib.Core.Bool.{false}
use native.Mathlib.Omega.{arith}
use personal_vpn.Prelude.Tests.{holds}
use native.Mathlib.Decide.{ℕ_discrete}

abbrev pub Str : Type 0
Str = List ℕ

-- The bytes of an ASCII literal.
abbrev pub text : String → Str
text String.[] = []
text (String.◌∷◌ c s) = code c ∷ text s

Str-cons : (a b : ℕ) (s t : Str) → Dec (a ≡ b) → Dec (s ≡ t) → Dec (◌≡◌ {A = Str} (a ∷ s) (b ∷ t))
Str-cons a b s t (yes p) (yes q) = yes (ap₂ ◌∷◌ p q)
Str-cons a b s t (yes p) (no q) = no (λ e. q (cc))
Str-cons a b s t (no p) d = no (λ e. p (cc))

unfoldable pub Str-discrete : Discrete Str
unfolding Str-cons ℕ_discrete
Str-discrete [] [] = yes refl
Str-discrete [] (b ∷ t) = no (λ e. cc)
Str-discrete (a ∷ s) [] = no (λ e. cc)
Str-discrete (a ∷ s) (b ∷ t) = Str-cons a b s t (ℕ_discrete a b) (Str-discrete s t)

-- Two texts that a test tells apart.
pub ne_by_test : (s t : Str) → holds (Str-discrete s t) ≡ false → ¬ (s ≡ t)
ne_by_test s t h p = ground arith
