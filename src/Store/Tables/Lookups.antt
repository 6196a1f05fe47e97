-- ===== src/Store/Tables/Lookups.antt =====
-- What an update, a lookup and an existence test say of the rows.
use personal_vpn.Prelude.{
  ◌≡◌, refl, subst, inl, inr, Bool, true, false, List, [], ◌∷◌, some, if◌then◌else◌, arith,
  Bool-cases, All, Has,
}
use personal_vpn.Store.Tables.{update_where, find_where, exists_where}

module _ {R : Type 0} where
  pub update_where-All :
      (P : R → Type 0) (p : R → Bool) (f : R → R) (rows : List R)
      → ((r : R) → p r ≡ true → P (f r))
      → ((r : R) → p r ≡ false → P r)
      → All P (update_where p f rows)
  unfolding update_where
  update_where-All P p f [] changed kept = tt
  update_where-All P p f (r ∷ rows) changed kept = (
    elim (Bool-cases (p r)) [
      | inl picked ↦ rw picked (changed r picked)
      | inr passed ↦ rw passed (kept r passed)
    ],
    update_where-All P p f rows changed kept,
  )

  pub update_where-Has :
      (p : R → Bool) (f : R → R) (r : R) (rows : List R)
      → Has r rows
      → p r ≡ true
      → Has (f r) (update_where p f rows)
  unfolding update_where
  update_where-Has p f r [] here picked = absurd here
  update_where-Has p f r (q ∷ rows) (inl same) picked =
      inl (subst (λ x. f r ≡ (if p x then f x else x)) same (rw picked refl))
  update_where-Has p f r (q ∷ rows) (inr later) picked =
      inr (update_where-Has p f r rows later picked)

  pub find_where-picked :
      (p : R → Bool) (rows : List R) (r : R) → find_where p rows ≡ some r → p r ≡ true
  unfolding find_where
  find_where-picked p [] r e = absurd (ground arith)
  find_where-picked p (q ∷ rows) r e = elim (Bool-cases (p q)) [
    | inl picked ↦ ground arith
    | inr passed ↦ find_where-picked p rows r (ground arith)
  ]

  pub exists_where-Has :
      (p : R → Bool) (r : R) (rows : List R) → Has r rows → p r ≡ true → exists_where p rows ≡ true
  unfolding exists_where
  exists_where-Has p r [] here picked = absurd here
  exists_where-Has p r (q ∷ rows) (inl same) picked =
      let it = subst (λ x. p x ≡ true) same picked in rw (exists_where, it) refl
  exists_where-Has p r (q ∷ rows) (inr later) picked =
      let rest = exists_where-Has p r rows later picked in ground arith

  pub exists_where-All :
      (p : R → Bool) (rows : List R) → exists_where p rows ≡ false → All (λ q. p q ≡ false) rows
  unfolding exists_where
  exists_where-All p [] e = tt
  exists_where-All p (r ∷ rows) e = elim (Bool-cases (p r)) [
    | inl yes_it ↦ absurd (ground arith)
    | inr no_it ↦ (no_it, exists_where-All p rows (ground arith))
  ]

  pub All-exists_where :
      (p : R → Bool) (rows : List R) → All (λ q. p q ≡ false) rows → exists_where p rows ≡ false
  unfolding exists_where
  All-exists_where p [] h = refl
  All-exists_where p (r ∷ rows) (first, h) = let rest = All-exists_where p rows h in ground arith

  pub update_where-each :
      (P : R → Type 0) (p : R → Bool) (f : R → R) (rows : List R)
      → All (λ r. P (if p r then f r else r)) rows
      → All P (update_where p f rows)
  unfolding update_where
  update_where-each P p f [] h = tt
  update_where-each P p f (r ∷ rows) (first, h) = (first, update_where-each P p f rows h)

  pub update_where-Has_kept :
      (p : R → Bool) (f : R → R) (r : R) (rows : List R)
      → Has r rows
      → p r ≡ false
      → Has r (update_where p f rows)
  unfolding update_where
  update_where-Has_kept p f r [] here passed = absurd here
  update_where-Has_kept p f r (q ∷ rows) (inl same) passed =
      inl (subst (λ x. r ≡ (if p x then f x else x)) same (rw passed refl))
  update_where-Has_kept p f r (q ∷ rows) (inr later) passed =
      inr (update_where-Has_kept p f r rows later passed)
