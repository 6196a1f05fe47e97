-- ===== src/Store/Publishing/Generations.antt =====
-- The generation of the next snapshot is that of no other one of the gateway.
use personal_vpn.Prelude.{
  ◌≡◌, refl, sym, subst, inl, inr, true, false, List, [], ◌∷◌, Option, none, some, arith, Str, ℤ,
  pos, negsuc, zero, suc, leb_ℤ, eqb_ℤ, Bool-cases, Option-cases, All, All-map,
}
use personal_vpn.Store.Failures.{Fault}
use personal_vpn.Store.Tables.{SnapshotRow, Database, Server, str_eq}
use personal_vpn.Store.Publishing.{
  max_ℤ, next_ℤ, max_generation, or_zero, next_gateway_snapshot_generation,
}

next_ℤ-greater : (a b : ℤ) → leb_ℤ a b ≡ true → eqb_ℤ a (next_ℤ b) ≡ false
next_ℤ-greater a (pos n) e = ground arith
next_ℤ-greater a (negsuc zero) e = ground arith
next_ℤ-greater a (negsuc (suc n)) e = ground arith

abbrev Below : ℤ → Option ℤ → Type 0
Below a none = ⊥
Below a (some m) = leb_ℤ a m ≡ true

abbrev or_max : ℤ → Option ℤ → Option ℤ
or_max a none = some a
or_max a (some m) = some (max_ℤ a m)

Below-here : (a : ℤ) (o : Option ℤ) → Below a (or_max a o)
Below-here a none = ground arith
Below-here a (some m) = elim (Bool-cases (leb_ℤ a m)) [
  | inl low ↦ ground arith
  | inr high ↦ ground arith
]

Below-later : (a b : ℤ) (o : Option ℤ) → Below b o → Below b (or_max a o)
Below-later a b none low = absurd low
Below-later a b (some m) low = elim (Bool-cases (leb_ℤ a m)) [
  | inl lower ↦ ground arith
  | inr higher ↦ ground arith
]

Below-or_zero : (a : ℤ) (o : Option ℤ) → Below a o → leb_ℤ a (or_zero o) ≡ true
Below-or_zero a none low = absurd low
Below-or_zero a (some m) low = low

max_generation-Below :
    (g : Str) (rows : List SnapshotRow)
    → All (λ r. str_eq r.gateway_id g ≡ true → Below r.generation (max_generation g rows)) rows
unfolding max_generation
max_generation-Below g [] = tt
max_generation-Below g (r ∷ rows) = elim (Bool-cases (str_eq r.gateway_id g)) [
  | inl its ↦
      let more : max_generation g (r ∷ rows) ≡ or_max r.generation (max_generation g rows) =
        unfolded its in
      subst (λ o. All (λ q. str_eq q.gateway_id g ≡ true → Below q.generation o) (r ∷ rows))
        (sym more)
        (
          (λ it. Below-here r.generation (max_generation g rows)),
          All-map rows
              (λ q low it. Below-later r.generation q.generation (max_generation g rows) (low it))
              (max_generation-Below g rows),
        )
  | inr other ↦
      let same : max_generation g (r ∷ rows) ≡ max_generation g rows =
        rw (max_generation, other) refl in
      subst (λ o. All (λ q. str_eq q.gateway_id g ≡ true → Below q.generation o) (r ∷ rows))
        (sym same) ((λ it. absurd (ground arith)), max_generation-Below g rows)
]
  where
    unfolded :
        str_eq r.gateway_id g ≡ true
        → max_generation g (r ∷ rows) ≡ or_max r.generation (max_generation g rows)
    unfolded its = elim (Option-cases (max_generation g rows)) [
      | inl e ↦ ground arith
      | inr (m, e) ↦ ground arith
    ]

-- The next number of a gateway is that of none of its rows.
pub max_generation-next :
    (g : Str) (rows : List SnapshotRow)
    → All
        (λ r.
          str_eq r.gateway_id g ≡ true
          → eqb_ℤ r.generation (next_ℤ (or_zero (max_generation g rows))) ≡ false)
        rows
max_generation-next g rows =
    All-map rows
      (λ r low its.
        next_ℤ-greater r.generation (or_zero (max_generation g rows))
          (Below-or_zero r.generation (max_generation g rows) (low its)))
      (max_generation-Below g rows)

-- The generation that is returned for the next snapshot of a gateway is that of none of its
-- snapshots in the table.
pub next_generation-IsUnused :
    (s : Server) (db : Database) (gateway_id : Str) (fault : Option Fault) (generation : ℤ)
    → next_gateway_snapshot_generation s db gateway_id fault ≡ (generation, none)
    → (g : Str) × (s.uuid gateway_id ≡ some g)
      × All (λ r. str_eq r.gateway_id g ≡ true → eqb_ℤ r.generation generation ≡ false) db.snapshots
unfolding next_gateway_snapshot_generation
next_generation-IsUnused s db gateway_id fault generation e =
    elim (Option-cases (s.uuid gateway_id)) [
      | inl bad ↦ absurd (ground arith)
      | inr (g, good) ↦ (
        g,
        good,
        subst
            (λ n.
              All (λ r. str_eq r.gateway_id g ≡ true → eqb_ℤ r.generation n ≡ false) db.snapshots)
            (ground arith) (max_generation-next g db.snapshots),
      )
    ]
