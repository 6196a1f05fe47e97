-- ===== src/Store/Machine/Claims.antt =====
-- The choice of `ClaimNextSnapshot`: the row that it sends, and no other one.
use personal_vpn.Prelude.{
  ℕ, ◌≡◌, refl, sym, subst, ◌⊎◌, inl, inr, Bool, true, false, List, [], ◌∷◌, Option, none, some,
  holds_yes, Str, Str-discrete, ok, leb_ℤ, arith, Bool-cases, Option-cases, All, All-map, All-every,
}
use personal_vpn.Store.Tables.{SnapshotRow}
use personal_vpn.Store.Outbox.{
  SnapshotDelivery, is_claimable, earliest, earlier, has_id, send, claim_row,
}
use personal_vpn.Store.Machine.{sent, Stays, Sound, IsKeyed, IsOrderly, Apart, update_where-Sound}

-- The statement of the server on one of two rows.
earlier-All :
    (P : SnapshotRow → Type 0) (a : SnapshotRow) (rest : Option SnapshotRow) (r : SnapshotRow)
    → P a
    → ((q : SnapshotRow) → rest ≡ some q → P q)
    → earlier a rest ≡ r
    → P r
earlier-All P a none r here later e = subst P e here
earlier-All P a (some q) r here later e = elim (Bool-cases (leb_ℤ a.generation q.generation)) [
  | inl yes_it ↦ subst P (ground arith) here
  | inr no_it ↦ subst P (ground arith) (later q refl)
]

-- What all rows have, the chosen one has, and it is one that may be chosen.
pub earliest-All :
    (P : SnapshotRow → Type 0) (p : SnapshotRow → Bool) (rows : List SnapshotRow) (r : SnapshotRow)
    → All P rows
    → earliest p rows ≡ some r
    → P r × (p r ≡ true)
unfolding earliest
earliest-All P p [] r h e = absurd (ground arith)
earliest-All P p (a ∷ rows) r (here, h) e = elim (Bool-cases (p a)) [
  | inl picked ↦
      earlier-All (λ q. P q × (p q ≡ true)) a (earliest p rows) r (here, picked)
        (λ q later. earliest-All P p rows q h later) (ground arith)
  | inr passed ↦ earliest-All P p rows r h (ground arith)
]

-- Under distinct identifiers, the chosen row is the only one with its identifier.
earliest-same :
    (p : SnapshotRow → Bool) (rows : List SnapshotRow) (r : SnapshotRow)
    → IsKeyed rows
    → earliest p rows ≡ some r
    → All (λ q. q.id ≡ r.id → r ≡ q) rows
unfolding earliest
earliest-same p [] r keyed e = tt
earliest-same p (a ∷ rows) r (fresh, keyed) e = elim (Bool-cases (p a)) [
  | inl picked ↦
      earlier-All (λ q. (a.id ≡ q.id → q ≡ a) × All (λ x. x.id ≡ q.id → q ≡ x) rows) a
        (earliest p rows) r
        ((λ same. refl), All-map rows (λ x other same. absurd (other.0 same)) fresh)
        (λ q later. rest q later (earliest-same p rows q keyed later)) (ground arith)
  | inr passed ↦ rest r (ground arith) (earliest-same p rows r keyed (ground arith))
]
  where
    rest :
        (q : SnapshotRow)
        → earliest p rows ≡ some q
        → All (λ x. x.id ≡ q.id → q ≡ x) rows
        → (a.id ≡ q.id → q ≡ a) × All (λ x. x.id ≡ q.id → q ≡ x) rows
    rest q later others =
        ((λ same. absurd ((earliest-All (Apart a) p rows q fresh later).0.0 (sym same))), others)

pub claim_row-Sound :
    (gateway_id : Str) (now : ℕ) (locked : List Str) (rows new : List SnapshotRow)
    (d : SnapshotDelivery)
    → IsKeyed rows
    → All IsOrderly rows
    → claim_row gateway_id now locked rows ≡ ok (new, d)
    → Sound rows new
unfolding claim_row is_claimable
claim_row-Sound gateway_id now locked rows new d keyed orderly e =
    elim (Option-cases (earliest (is_claimable gateway_id now locked) rows)) [
      | inl nothing ↦ absurd (ground arith)
      | inr (r, chosen) ↦
          let picked =
            (earliest-All (λ x. Unit) (is_claimable gateway_id now locked) rows r
              (All-every rows (λ x. tt)) chosen).1 in
          subst (Sound rows) (ground arith) (
            update_where-Sound (has_id r.id) (send now) rows
              (All-map rows
                (λ q same yes_it.
                  subst (λ x. Stays x (send now x))
                    (same (holds_yes (Str-discrete q.id r.id) yes_it))
                    (inr (
                      (refl, refl, refl, refl, refl),
                      sent (ground arith) refl refl (ground arith),
                    )))
                (earliest-same (is_claimable gateway_id now locked) rows r keyed chosen))
              keyed orderly)
    ]

-- The least generation of those that may be chosen, and one where there is one.
pub earliest-least :
    (p : SnapshotRow → Bool) (rows : List SnapshotRow)
    → (earliest p rows ≡ none × All (λ q. p q ≡ false) rows)
      ⊎ ((r : SnapshotRow) × (earliest p rows ≡ some r)
          × All (λ q. p q ≡ true → leb_ℤ r.generation q.generation ≡ true) rows)
unfolding earliest
earliest-least p [] = inl (refl, tt)
earliest-least p (a ∷ rows) = elim (Bool-cases (p a)) [
  | inl picked ↦ elim (earliest-least p rows) [
    | inl (nothing, others) ↦ inr (
      a,
      ground arith,
      ((λ it. ground arith), All-map rows (λ q no_it yes_it. absurd (ground arith)) others),
    )
    | inr (r, chosen, least) ↦ elim (Bool-cases (leb_ℤ a.generation r.generation)) [
      | inl lower ↦ inr (
        a,
        ground arith,
        ((λ it. ground arith), All-map rows (λ q low it. let rest = low it in ground arith) least),
      )
      | inr higher ↦ inr (r, ground arith, ((λ it. ground arith), least))
    ]
  ]
  | inr passed ↦ elim (earliest-least p rows) [
    | inl (nothing, others) ↦ inl (ground arith, (passed, others))
    | inr (r, chosen, least) ↦ inr (r, ground arith, ((λ it. absurd (ground arith)), least))
  ]
]
