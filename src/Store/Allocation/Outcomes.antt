-- ===== src/Store/Allocation/Outcomes.antt =====
-- What a transaction of CreateTunnelConfiguration commits.
use personal_vpn.Prelude.{
  ℕ, ◌≡◌, refl, sym, ap, subst, ◌∙◌, ◌⊎◌, inl, inr, false, [], ◌∷◌, ◌++◌, Option, none, some, Str,
  text, Fallible, ok, err, arith, Bool-cases, Option-cases, Result-cases,
}
use personal_vpn.Control.{TunnelConfiguration}
use personal_vpn.Store.Failures.{Failure, Error, map_database_error, wrapped, Fault}
use personal_vpn.Store.Tables.{
  AssignmentRow, LeaseRow, GatewayRow, RegionRow, Database, exists_where,
}
use personal_vpn.Store.Allocation.{
  Externals, Draws, call, or_no_rows, Existing, choose_gateway, active_addresses, available,
  is_same_lease, insert_lease, insert_assignment, insert_key,
}
use personal_vpn.Store.Allocation.Creation.{
  Query, key_row, lease_row, assignment_row, of_choice, kept_configuration, new_configuration,
  record_answer, reuse, settle, place,
}

ok_value : {A : Type 0} → A → Fallible Error A → A
ok_value a (err e) = a
ok_value a (ok b) = b

pub ok-injective :
    {A : Type 0} (a b : A) (r s : Fallible Error A) → r ≡ s → r ≡ ok a → s ≡ ok b → a ≡ b
unfolding ok_value
ok-injective a b r s e ra sb = ap (ok_value a) (sym ra ∙ (e ∙ sb))

pub call-ok :
    {A : Type 0} (fault : Option Fault) (of_failure : Failure → Error) (answer : Fallible Failure A)
    (a : A)
    → call fault of_failure answer ≡ ok a
    → answer ≡ ok a
call-ok (some f) of_failure answer a e = absurd (ground arith)
call-ok none of_failure (err f) a e = absurd (ground arith)
call-ok none of_failure (ok b) a e = ap ok (ok-injective b a (ok b) (ok a) e refl refl)

insert_lease-leases :
    (l : LeaseRow) (db db' : Database)
    → insert_lease l db ≡ ok db'
    → (exists_where (is_same_lease l) db.leases ≡ false)
      × (db' ≡ record db { leases = db.leases ++ l ∷ [] })
unfolding insert_lease
insert_lease-leases l db db' e = elim (Bool-cases (exists_where (is_same_lease l) db.leases)) [
  | inl taken ↦ absurd (ground arith)
  | inr unused ↦ (unused, ground arith)
]

-- A table that a step leaves as it is.
record Kept (db db' : Database) : Type 0 where
  pub devices : db'.devices ≡ db.devices
  pub leases : db'.leases ≡ db.leases
  pub keys : db'.idempotency_keys ≡ db.idempotency_keys

insert_assignment-Kept :
    (a : AssignmentRow) (db db' : Database) → insert_assignment a db ≡ ok db' → Kept db db'
unfolding insert_assignment
insert_assignment-Kept a db db' e = record {
  devices = ground arith;
  leases = ground arith;
  keys = ground arith;
}

module _ (x : Externals) (q : Query) (t : Draws) where
  -- The answer is stored, and nothing else is changed.
  pub record Answered (db db' : Database) (configuration : TunnelConfiguration) : Type 0 where
    pub status : ℕ
    pub body : Str
    pub stored : Str
    pub encoded : x.marshal configuration ≡ some body
    pub object : x.server_of.json_object body ≡ some stored
    pub devices : db'.devices ≡ db.devices
    pub keys : db'.idempotency_keys ≡ db.idempotency_keys ++ key_row x q status stored t.clock ∷ []

  record_answer-Answered :
      (db db' : Database) (status : ℕ) (label : Str) (c : TunnelConfiguration)
      → record_answer x db q t status label c ≡ ok db'
      → Answered db db' c × (db'.leases ≡ db.leases)
  unfolding record_answer insert_key
  record_answer-Answered db db' status label c e = elim (Option-cases (x.marshal c)) [
    | inl failed ↦ absurd (ground arith)
    | inr (body, encoded) ↦ elim (Option-cases (t.faults 11)) [
      | inr (f, fault) ↦ absurd (ground arith)
      | inl fine ↦ elim (Option-cases (x.server_of.json_object body)) [
        | inl bad ↦ absurd (ground arith)
        | inr (stored, object) ↦ (
          record {
            status = status;
            body = body;
            stored = stored;
            encoded = encoded;
            object = object;
            devices = ground arith;
            keys = ground arith;
          },
          ground arith,
        )
      ]
    ]
  ]

  -- The leases stay, or get one that clashes with none.
  abbrev pub Leased : Database → Database → Type 0
  Leased db db' =
      (db'.leases ≡ db.leases)
      ⊎ ((l : LeaseRow) × (exists_where (is_same_lease l) db.leases ≡ false)
          × (db'.leases ≡ db.leases ++ l ∷ []))

  pub reuse-Answered :
      (db db' : Database) (r : RegionRow) (e : Existing) (c : TunnelConfiguration)
      → reuse x db q t r e ≡ ok (db', c)
      → Answered db db' c × (db'.leases ≡ db.leases)
  unfolding reuse
  reuse-Answered db db' r e c h =
      elim (Result-cases (
        record_answer x db q t 200 (text "encode reused tunnel configuration")
          (kept_configuration x e r))) [
            | inl (f, failed) ↦ absurd (ground arith)
            | inr (d, answered) ↦
                let pair : Database × TunnelConfiguration = (d, kept_configuration x e r) in
                let last : Database × TunnelConfiguration = (db', c) in
                let same : pair ≡ last =
                  ok-injective pair last (reuse x db q t r e) (reuse x db q t r e) refl
                    (ground arith) h in
                subst (λ z. Answered db z.0 z.1 × (z.0.leases ≡ db.leases)) same
                  (record_answer-Answered db d 200 (text "encode reused tunnel configuration")
                    (kept_configuration x e r) answered)
          ]

  settled :
      (db leased assigned answered : Database) (g : GatewayRow) (ipv4 ipv6 : ℕ)
      (c : TunnelConfiguration)
      → insert_lease (lease_row q t ipv4 ipv6) db ≡ ok leased
      → insert_assignment (assignment_row q t g) leased ≡ ok assigned
      → record_answer x assigned q t 201 (text "encode idempotent response") c ≡ ok answered
      → Answered db answered c × Leased db answered
  settled db leased assigned answered g ipv4 ipv6 c e0 e1 e2 =
      let (unused, added) = insert_lease-leases (lease_row q t ipv4 ipv6) db leased e0 in
      let kept = insert_assignment-Kept (assignment_row q t g) leased assigned e1 in
      let (a, leases) =
        record_answer-Answered assigned answered 201 (text "encode idempotent response") c e2 in
      (
        record {
          status = a.status;
          body = a.body;
          stored = a.stored;
          encoded = a.encoded;
          object = a.object;
          devices = a.devices ∙ (kept.devices ∙ ap (λ z. z.devices) added);
          keys =
              a.keys
              ∙ ap (λ z. z ++ key_row x q a.status a.stored t.clock ∷ [])
                  (kept.keys ∙ ap (λ z. z.idempotency_keys) added);
        },
        inr (lease_row q t ipv4 ipv6, unused, leases ∙ (kept.leases ∙ ap (λ z. z.leases) added)),
      )

  settle-Answered :
      (db db' : Database) (r : RegionRow) (g : GatewayRow) (ipv4 ipv6 : ℕ) (c : TunnelConfiguration)
      → settle x db q t r g ipv4 ipv6 ≡ ok (db', c)
      → Answered db db' c × Leased db db'
  unfolding settle
  settle-Answered db db' r g ipv4 ipv6 c h =
      elim (Result-cases
        (call (t.faults 9) map_database_error (insert_lease (lease_row q t ipv4 ipv6) db))) [
          | inl (f, e) ↦ absurd (ground arith)
          | inr (leased, e0) ↦
              elim (Result-cases (
                call (t.faults 10) map_database_error
                  (insert_assignment (assignment_row q t g) leased))) [
                    | inl (f, e) ↦ absurd (ground arith)
                    | inr (assigned, e1) ↦
                        elim (Result-cases (
                          record_answer x assigned q t 201 (text "encode idempotent response")
                            (new_configuration x t g ipv4 ipv6 r))) [
                              | inl (f, e) ↦ absurd (ground arith)
                              | inr (answered, e2) ↦
                                  let pair : Database × TunnelConfiguration =
                                    (answered, new_configuration x t g ipv4 ipv6 r) in
                                  let last : Database × TunnelConfiguration = (db', c) in
                                  let same : pair ≡ last =
                                    ok-injective pair last (settle x db q t r g ipv4 ipv6)
                                      (settle x db q t r g ipv4 ipv6) refl (ground arith) h in
                                  subst (λ z. Answered db z.0 z.1 × Leased db z.0) same
                                    (settled db leased assigned answered g ipv4 ipv6
                                      (new_configuration x t g ipv4 ipv6 r)
                                      (call-ok (t.faults 9) map_database_error
                                        (insert_lease (lease_row q t ipv4 ipv6) db) leased e0)
                                      (call-ok (t.faults 10) map_database_error
                                        (insert_assignment (assignment_row q t g) leased) assigned
                                        e1)
                                      e2)
                            ]
                  ]
        ]

  pub place-Answered :
      (db db' : Database) (r : RegionRow) (c : TunnelConfiguration)
      → place x db q t r ≡ ok (db', c)
      → Answered db db' c × Leased db db'
  unfolding place
  place-Answered db db' r c h =
      elim (Result-cases (
        call (t.faults 6) of_choice
          (or_no_rows (choose_gateway db q.region_id t.locked db.gateways)))) [
            | inl (f, e) ↦ absurd (ground arith)
            | inr (g, e0) ↦
                elim (Result-cases (
                  call (t.faults 7) (wrapped (text "list active addresses"))
                    (ok (active_addresses db q.region_id)))) [
                      | inl (f, e) ↦ absurd (ground arith)
                      | inr (used, e1) ↦
                          elim (Result-cases (
                            call (t.faults 8) (wrapped (text "iterate active addresses"))
                              (ok used))) [
                                | inl (f, e) ↦ absurd (ground arith)
                                | inr (whole, e2) ↦
                                    elim (Result-cases
                                      (available (x.pool_of r.ipv4_pool) whole.0)) [
                                        | inl (f, e) ↦ absurd (ground arith)
                                        | inr (ipv4, e3) ↦
                                            elim (Result-cases
                                              (available (x.pool_of r.ipv6_pool) whole.1)) [
                                                | inl (f, e) ↦ absurd (ground arith)
                                                | inr (ipv6, e4) ↦
                                                    settle-Answered db db' r g ipv4 ipv6 c
                                                      (ground arith)
                                              ]
                                      ]
                              ]
                    ]
          ]
