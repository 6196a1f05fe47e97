-- ===== src/Store/Available.antt =====
-- The address that is found is the first free one.
use personal_vpn.Prelude.{
  ℕ, zero, suc, ◌+◌, ◌≡◌, ◌≤◌, ◌<◌, ◌↔◌, ◌⊎◌, inl, inr, refl, Bool, true, false, ◌&&◌, not, List,
  some, ltb, arith, subst, Bool-cases, ok, err, member, ℕ_discrete,
}
use personal_vpn.Store.Addresses.{
  Error, capacity_exhausted, Pool, masked, is_valid, contains, search, max_attempts,
  first_available_address,
}

-- An address of a host: in the pool, and not the last one of a pool of IPv4.
abbrev pub is_host : Pool → ℕ → Bool
is_host p a = contains p a && not (p.is_4 && not (contains p (a + 1)))

-- The first host from `low` on that is not used.
pub record IsFirst (p : Pool) (used : List ℕ) (low a : ℕ) : Type 0 where
  pub above : low ≤ a
  pub host : is_host p a ≡ true
  pub free : member ℕ_discrete a used ≡ false
  pub least : (b : ℕ) → low ≤ b → b < a → member ℕ_discrete b used ≡ true

-- No host of the addresses from `low` on, as many as there are attempts, is free.
abbrev pub IsExhausted : Pool → List ℕ → ℕ → ℕ → Type 0
IsExhausted p used attempts low =
    (b : ℕ) → low ≤ b → b < low + attempts → is_host p b ≡ true → member ℕ_discrete b used ≡ true

-- From an address of the pool on, the hosts have no gap.
host-interval :
    (p : Pool) (a b : ℕ) → masked p ≤ a → a ≤ b → is_host p b ≡ true → is_host p a ≡ true
unfolding contains is_valid
host-interval p a b low le h = ground arith

abbrev Found : Pool → List ℕ → ℕ → ℕ → Type 0
Found p used attempts low =
    ((a : ℕ) × (search p used attempts low ≡ ok a) × IsFirst p used low a × (a < low + attempts))
    ⊎ ((search p used attempts low ≡ err capacity_exhausted) × IsExhausted p used attempts low)

search-Found :
    (p : Pool) (used : List ℕ) (attempts low : ℕ) → masked p ≤ low → Found p used attempts low
unfolding search contains
search-Found p used zero low start = inr (refl, λ b le lt h. absurd (omega arith))
search-Found p used (suc attempts) low start = elim (Bool-cases (is_host p low)) [
  | inr none_left ↦ inr (
    ground arith,
    λ b le lt h. let here = host-interval p low b start le h in absurd (ground arith),
  )
  | inl host ↦ elim (Bool-cases (member ℕ_discrete low used)) [
    | inr free ↦ inl (
      low,
      ground arith,
      record {
        above = omega arith;
        host = host;
        free = free;
        least = λ b le lt. absurd (omega arith);
      },
      omega arith,
    )
    | inl taken ↦ elim (search-Found p used attempts (low + 1) (omega arith)) [
      | inl (a, e, first, bound) ↦
          let above = first.above in
          inl (
            a,
            ground arith,
            record {
              above = omega arith;
              host = first.host;
              free = first.free;
              least = λ b le lt. elim (ℕ_discrete b low) [
                | yes same ↦ ground arith
                | no other ↦ first.least b (omega arith) lt
              ];
            },
            omega arith,
          )
      | inr (e, full) ↦ inr (
        ground arith,
        λ b le lt h. elim (ℕ_discrete b low) [
          | yes same ↦ ground arith
          | no other ↦ full b (omega arith) (omega arith) h
        ],
      )
    ]
  ]
]

search_iff :
    (p : Pool) (used : List ℕ) (attempts low a : ℕ)
    → masked p ≤ low
    → (search p used attempts low ≡ ok a) ↔ (IsFirst p used low a × (a < low + attempts))
search_iff p used attempts low a start = elim (search-Found p used attempts low start) [
  | inr (e, full) ↦ (
    (λ f. absurd (ground arith)),
    λ (first, bound).
        let free = first.free in
        let taken = full a first.above bound first.host in absurd (ground arith),
  )
  | inl (b, e, first, bound) ↦ (
    (λ f.
        let same : b ≡ a = ground arith in
        subst (λ x. IsFirst p used low x × (x < low + attempts)) same (first, bound)),
    λ (other, limit).
        let free = first.free in
        let free' = other.free in
        let same : b ≡ a = elim (ℕ_discrete b a) [
          | yes q ↦ q
          | no q ↦ elim (Bool-cases (ltb b a)) [
            | inl lt ↦ let taken = other.least b first.above (ground arith) in absurd (ground arith)
            | inr ge ↦ let taken = first.least a other.above (ground arith) in absurd (ground arith)
          ]
        ] in
        ground arith,
  )
]

-- The allocator returns an address exactly when it is the first of the pool that is not used, from
-- the third address of the masked pool on, not the last one of a pool of IPv4, and among the 65535
-- addresses that are tried.
pub first_available_address_iff :
    (p : Pool) (used : List ℕ) (a : ℕ)
    → (first_available_address (some p) used ≡ ok a)
      ↔ (IsFirst p used (masked p + 2) a × (a < masked p + 2 + max_attempts))
unfolding first_available_address
first_available_address_iff p used a =
    let two : masked p + 2 ≡ masked p + 1 + 1 = omega arith in
    subst
      (λ l.
        (search p used max_attempts l ≡ ok a)
        ↔ (IsFirst p used (masked p + 2) a × (a < masked p + 2 + max_attempts)))
      two (search_iff p used max_attempts (masked p + 2) a (omega arith))

search-IsExhausted :
    (p : Pool) (used : List ℕ) (attempts low : ℕ) (e : Error)
    → masked p ≤ low
    → search p used attempts low ≡ err e
    → (e ≡ capacity_exhausted) × IsExhausted p used attempts low
search-IsExhausted p used attempts low e start h = elim (search-Found p used attempts low start) [
  | inl (b, f, first, bound) ↦ absurd (ground arith)
  | inr (f, full) ↦ (ground arith, full)
]

-- If the allocator returns an error for a pool, the error is that the capacity is exhausted, and
-- every host among the 65535 addresses that are tried is used.
pub first_available_address-err :
    (p : Pool) (used : List ℕ) (e : Error)
    → first_available_address (some p) used ≡ err e
    → (e ≡ capacity_exhausted) × IsExhausted p used max_attempts (masked p + 2)
unfolding first_available_address
first_available_address-err p used e h =
    let two : masked p + 1 + 1 ≡ masked p + 2 = omega arith in
    search-IsExhausted p used max_attempts (masked p + 2) e (omega arith)
      (subst (λ l. search p used max_attempts l ≡ err e) two h)
