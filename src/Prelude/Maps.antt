-- ===== src/Prelude/Maps.antt =====
-- Go maps as association lists with distinct keys.
use mathlib.Core.Path.{◌≡◌, refl, subst}
use mathlib.Core.Bool.{Bool, true, false, ◌||◌}
use personal_vpn.Prelude.Lists.{All}
use personal_vpn.Prelude.Tests.{holds, if◌then◌else◌, Bool-cases}
use mathlib.Core.Logic.{ite, inl, inr, if_pos, if_neg}
use mathlib.Core.List.{List, [], ◌∷◌}
use mathlib.Core.Option.{Option, none, some}
use native.Mathlib.Omega.{arith}

abbrev pub Map {ℓ} : Type ℓ → Type ℓ → Type ℓ
Map K V = List (K × V)

module _ {ℓ} {K V : Type ℓ} (dec : Discrete K) where
  unfoldable pub get : K → Map K V → Option V
  get k [] = none
  get k ((j, v) ∷ m) = ite (dec k j) (some v) (get k m)

  unfoldable pub delete : K → Map K V → Map K V
  delete k [] = []
  delete k ((j, v) ∷ m) = ite (dec k j) (delete k m) ((j, v) ∷ delete k m)

  unfoldable pub put : K → V → Map K V → Map K V
  put k v m = (k, v) ∷ delete k m

  pub get-delete : (k j : K) (m : Map K V) → get j (delete k m) ≡ ite (dec k j) none (get j m)
  unfolding get delete
  get-delete k j [] = ground arith
  get-delete k j ((i, v) ∷ m) = ground (arith, get-delete k j m)

  pub get-put :
      (k j : K) (v : V) (m : Map K V) → get j (put k v m) ≡ ite (dec k j) (some v) (get j m)
  unfolding get put
  get-put k j v m = ground (arith, get-delete k j m)

-- Go sets, `map[K]struct{}`.
module _ {ℓ} {K : Type ℓ} (dec : Discrete K) where
  unfoldable pub member : K → List K → Bool
  member k [] = false
  member k (j ∷ s) = holds (dec k j) || member k s

  unfoldable pub insert : K → List K → List K
  insert k s = if member k s then s else k ∷ s

  pub member-insert :
      (k j : K) (s : List K) → member j (insert k s) ≡ ite (dec k j) true (member j s)
  unfolding member insert
  member-insert k j s = elim (dec k j) [
    | yes p ↦ rw (if_pos _ p) (
        subst (λ x. member x (insert k s) ≡ true) p
          (elim (Bool-cases (member k s)) [
            | inl old ↦ rw (old, insert) old
            | inr new ↦ rw (new, insert) (ground arith)
          ]))
    | no p ↦ rw (if_neg _ p) (ground arith)
  ]

  -- `for k := range s { delete(m, k) }`
  unfoldable pub delete_all : {V : Type ℓ} → List K → Map K V → Map K V
  delete_all [] m = m
  delete_all (k ∷ s) m = delete_all s (delete dec k m)

  pub get-delete_all :
      {V : Type ℓ} (s : List K) (j : K) (m : Map K V)
      → get dec j (delete_all s m) ≡ (if member j s then none else get dec j m)
  unfolding delete_all member
  get-delete_all [] j m = refl
  get-delete_all (k ∷ s) j m =
      ground (arith, get-delete_all s j (delete dec k m), get-delete dec k j m)

-- Each key stands in the list once, as in a Go map.
module _ {ℓ} {K V : Type ℓ} (dec : Discrete K) where
  abbrev pub IsMap : Map K V → Type ℓ
  IsMap [] = Unit
  IsMap ((k, v) ∷ m) = (get dec k m ≡ none) × IsMap m

  pub delete-IsMap : (k : K) (m : Map K V) → IsMap m → IsMap (delete dec k m)
  unfolding delete
  delete-IsMap k [] h = tt
  delete-IsMap k ((j, v) ∷ m) (fresh, h) = ground (arith, delete-IsMap k m h, get-delete dec k j m)

  pub put-IsMap : (k : K) (v : V) (m : Map K V) → IsMap m → IsMap (put dec k v m)
  unfolding put
  put-IsMap k v m h = (rw (get-delete dec k k m) (ground arith), delete-IsMap k m h)

  entries_grow :
      (k : K) (v : V) (m l : Map K V)
      → get dec k m ≡ none
      → All (λ e. get dec (e.0) m ≡ some (e.1)) l
      → All (λ e. get dec (e.0) ((k, v) ∷ m) ≡ some (e.1)) l
  unfolding get
  entries_grow k v m [] fresh h = tt
  entries_grow k v m ((j, w) ∷ l) fresh (e, h) = (ground arith, entries_grow k v m l fresh h)

  -- Every entry of the list is what its key is mapped to.
  pub IsMap-entries : (m : Map K V) → IsMap m → All (λ e. get dec (e.0) m ≡ some (e.1)) m
  IsMap-entries [] h = tt
  IsMap-entries ((k, v) ∷ m) (fresh, h) =
      (unfold get in ground arith, entries_grow k v m m fresh (IsMap-entries m h))
