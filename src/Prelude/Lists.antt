-- ===== src/Prelude/Lists.antt =====
-- Lists measured by native numbers, and predicates on their elements.
use Prim.Native.Nat.{ℕ, zero, suc, ◌+◌}
use mathlib.Core.Path.{◌≡◌, refl, sym, ap, subst}
use mathlib.Core.Logic.{◌⊎◌, inl, inr}
use mathlib.Core.List.{List, [], ◌∷◌, ◌++◌, map}
use native.Mathlib.Omega.{arith}

module _ {ℓ} {A : Type ℓ} where
  abbrev pub length : List A → ℕ
  length [] = 0
  length (x ∷ xs) = suc (length xs)

  abbrev pub take : ℕ → List A → List A
  take zero xs = []
  take (suc n) [] = []
  take (suc n) (x ∷ xs) = x ∷ take n xs

  abbrev pub drop : ℕ → List A → List A
  drop zero xs = xs
  drop (suc n) [] = []
  drop (suc n) (x ∷ xs) = drop n xs

  abbrev pub All {κ} : (A → Type κ) → List A → Type κ
  All P [] = Unit
  All P (x ∷ xs) = P x × All P xs

  pub All-map {κ ι} :
      {P : A → Type κ} {Q : A → Type ι} (xs : List A) → ((x : A) → P x → Q x) → All P xs → All Q xs
  All-map [] f h = tt
  All-map (x ∷ xs) f (here, h) = (f x here, All-map xs f h)

  abbrev pub replicate : ℕ → A → List A
  replicate zero a = []
  replicate (suc n) a = a ∷ replicate n a

  pub All-every {κ} : {P : A → Type κ} (xs : List A) → ((x : A) → P x) → All P xs
  All-every [] f = tt
  All-every (x ∷ xs) f = (f x, All-every xs f)

  pub All-append {κ} : (P : A → Type κ) (xs ys : List A) → All P xs → All P ys → All P (xs ++ ys)
  All-append P [] ys h k = k
  All-append P (x ∷ xs) ys (here, h) k = (here, All-append P xs ys h k)

  pub length-append : (xs ys : List A) → length (xs ++ ys) ≡ length xs + length ys
  length-append [] ys = omega arith
  length-append (x ∷ xs) ys = omega (arith, length-append xs ys)

module _ {A : Type 0} where
  abbrev pub Has : A → List A → Type 0
  Has x [] = ⊥
  Has x (y ∷ ys) = (x ≡ y) ⊎ Has x ys

  pub Has-append_left : (x : A) (xs ys : List A) → Has x xs → Has x (xs ++ ys)
  Has-append_left x [] ys here = absurd here
  Has-append_left x (y ∷ xs) ys (inl same) = inl same
  Has-append_left x (y ∷ xs) ys (inr later) = inr (Has-append_left x xs ys later)

  pub Has-append_right : (x : A) (xs ys : List A) → Has x ys → Has x (xs ++ ys)
  Has-append_right x [] ys here = here
  Has-append_right x (y ∷ xs) ys here = inr (Has-append_right x xs ys here)

  pub append-Has : (x : A) (xs ys : List A) → Has x (xs ++ ys) → Has x xs ⊎ Has x ys
  append-Has x [] ys here = inr here
  append-Has x (y ∷ xs) ys (inl same) = inl (inl same)
  append-Has x (y ∷ xs) ys (inr later) = elim (append-Has x xs ys later) [
    | inl left ↦ inl (inr left)
    | inr right ↦ inr right
  ]

  pub All-Has {κ} : (P : A → Type κ) (x : A) (xs : List A) → All P xs → Has x xs → P x
  All-Has P x [] h here = absurd here
  All-Has P x (y ∷ xs) (first, h) (inl same) = subst P (sym same) first
  All-Has P x (y ∷ xs) (first, h) (inr later) = All-Has P x xs h later

  pub Has-All : (xs : List A) → All (λ x. Has x xs) xs
  Has-All [] = tt
  Has-All (x ∷ xs) = (inl refl, All-map xs (λ y later. inr later) (Has-All xs))

module _ {A B : Type 0} where
  pub Has-map : (f : A → B) (x : A) (xs : List A) → Has x xs → Has (f x) (map f xs)
  Has-map f x [] here = here
  Has-map f x (y ∷ xs) (inl same) = inl (ap f same)
  Has-map f x (y ∷ xs) (inr later) = inr (Has-map f x xs later)

  pub map-Has :
      (f : A → B) (y : B) (xs : List A) → Has y (map f xs) → (x : A) × Has x xs × (y ≡ f x)
  map-Has f y [] here = absurd here
  map-Has f y (x ∷ xs) (inl same) = (x, inl refl, same)
  map-Has f y (x ∷ xs) (inr later) =
      let (z, there, same) = map-Has f y xs later in (z, inr there, same)
