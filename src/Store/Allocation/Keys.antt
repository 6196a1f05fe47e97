-- ===== src/Store/Allocation/Keys.antt =====
-- How a transaction on a key ends, and the key row that it leaves.
use personal_vpn.Prelude.{
  ℕ, ◌≡◌, ◌≢◌, refl, subst, ap, ◌∙◌, ◌⊎◌, inl, inr, Bool, true, false, List, [], ◌∷◌, ◌++◌, Option,
  none, some, Str-discrete, holds-true, holds-false, text, ok, err, arith, Bool-cases, Option-cases,
  Result-cases,
}
use personal_vpn.Control.{TunnelConfiguration}
use personal_vpn.Store.Failures.{conflict, map_database_error, wrapped}
use personal_vpn.Store.Tables.{DeviceRow, IdempotencyRow, Database, str_eq, find_where}
use personal_vpn.Store.Outbox.{commit}
use personal_vpn.Store.Allocation.{
  Externals, Draws, call, or_no_rows, is_active_state, owned_device, has_key, is_open_region,
  existing,
}
use personal_vpn.Store.Allocation.Creation.{
  Query, Outcome, key_row, replay, reuse, place, allocate, transaction, run_transaction,
}
use personal_vpn.Store.Allocation.Outcomes.{Answered, Leased, place-Answered, reuse-Answered}

module _ (x : Externals) (q : Query) where
  -- What a new key commits.
  pub record Allocated (t : Draws) (db : Database) (o : Outcome) : Type 0 where
    pub created : o.created ≡ true
    pub answered : Answered x q t db o.database o.configuration
    pub leased : Leased x q t db o.database

  allocate-Allocated :
      (t : Draws) (db : Database) (o : Outcome) → allocate x db q t ≡ ok o → Allocated t db o
  unfolding allocate
  allocate-Allocated t db o h =
      elim (Result-cases (call (t.faults 3) (wrapped (text "lock region allocation")) (ok tt))) [
        | inl (f, e) ↦ absurd (ground arith)
        | inr (u, e0) ↦
            elim (Result-cases (
              call (t.faults 4) map_database_error
                (or_no_rows (find_where (is_open_region q.region_id) db.regions)))) [
                  | inl (f, e) ↦ absurd (ground arith)
                  | inr (region, e1) ↦ elim (Option-cases (t.faults 5)) [
                    | inr (f, e) ↦ absurd (ground arith)
                    | inl e2 ↦ elim (Option-cases (existing db q.device db.assignments)) [
                      | inl nothing ↦ elim (Result-cases (place x db q t region)) [
                        | inl (f, e) ↦ absurd (ground arith)
                        | inr ((db', c), e3) ↦
                            let (a, l) = place-Answered x q t db db' region c e3 in
                            transfer t db db' c o a l (ground arith) (ground arith) (ground arith)
                      ]
                      | inr (present, some_one) ↦
                          elim (Result-cases (reuse x db q t region present)) [
                            | inl (f, e) ↦ absurd (ground arith)
                            | inr ((db', c), e3) ↦
                                let (a, l) = reuse-Answered x q t db db' region present c e3 in
                                transfer t db db' c o a (inl l) (ground arith) (ground arith)
                                  (ground arith)
                          ]
                    ]
                  ]
                ]
      ]
    where
      transfer :
          (t : Draws) (db db' : Database) (c : TunnelConfiguration) (o : Outcome)
          → Answered x q t db db' c
          → Leased x q t db db'
          → o.created ≡ true
          → db' ≡ o.database
          → c ≡ o.configuration
          → Allocated t db o
      transfer t db db' c o a l made same same_too = record {
        created = made;
        answered =
            subst (λ z. Answered x q t db o.database z) same_too
              (subst (λ z. Answered x q t db z c) same a);
        leased = subst (Leased x q t db) same l;
      }

  -- The key that the query looks up.
  abbrev pub lookup : Database → Option IdempotencyRow
  lookup db = find_where (has_key q.owner q.operation (x.sha256 q.key)) db.idempotency_keys

  -- How a transaction that commits has ended: with a device that is active, and an answer that is
  -- repeated or new.
  pub record Committed (t : Draws) (db : Database) (o : Outcome) : Type 0 where
    pub device : DeviceRow
    pub its_device : find_where (owned_device q.device q.owner) db.devices ≡ some device
    pub active : is_active_state device.state ≡ true
    pub way : ((o.created ≡ false) × (o.database ≡ db)) ⊎ ((lookup db ≡ none) × Allocated t db o)

  pub transaction-Committed :
      (t : Draws) (db : Database) (o : Outcome) → transaction x db q t ≡ ok o → Committed t db o
  unfolding transaction
  transaction-Committed t db o h = elim (Option-cases (t.faults 1)) [
    | inr (f, e) ↦ absurd (ground arith)
    | inl e0 ↦ elim (Option-cases (find_where (owned_device q.device q.owner) db.devices)) [
      | inl e ↦ absurd (ground arith)
      | inr (d, e1) ↦ elim (Bool-cases (is_active_state d.state)) [
        | inr e ↦ absurd (ground arith)
        | inl active ↦ elim (Option-cases (t.faults 2)) [
          | inr (f, e) ↦ absurd (ground arith)
          | inl e2 ↦ elim (Option-cases (lookup db)) [
            | inl unknown ↦ record {
              device = d;
              its_device = e1;
              active = active;
              way = inr (unknown, allocate-Allocated t db o (ground arith));
            }
            | inr (r, known) ↦ elim (Result-cases (replay x q r)) [
              | inl (f, e) ↦ absurd (ground arith)
              | inr (c, e3) ↦ record {
                device = d;
                its_device = e1;
                active = active;
                way = inl (ground arith, ground arith);
              }
            ]
          ]
        ]
      ]
    ]
  ]

  find_where-last :
      (p : IdempotencyRow → Bool) (rows : List IdempotencyRow) (r : IdempotencyRow)
      → find_where p rows ≡ none
      → p r ≡ true
      → find_where p (rows ++ r ∷ []) ≡ some r
  unfolding find_where
  find_where-last p [] r unknown it = ground arith
  find_where-last p (a ∷ rows) r unknown it = elim (Bool-cases (p a)) [
    | inl e ↦ absurd (ground arith)
    | inr e ↦ let rest = find_where-last p rows r (ground arith) it in ground arith
  ]

  -- The key row that an allocation leaves is the one that is looked up.
  pub Allocated-lookup :
      (t : Draws) (db : Database) (o : Outcome)
      → lookup db ≡ none
      → (a : Allocated t db o)
      → lookup o.database ≡ some (key_row x q a.answered.status a.answered.stored t.clock)
  Allocated-lookup t db o unknown a =
      let r : IdempotencyRow = key_row x q a.answered.status a.answered.stored t.clock in
      let p : IdempotencyRow → Bool = has_key q.owner q.operation (x.sha256 q.key) in
      let owner : str_eq q.owner q.owner ≡ true = holds-true (Str-discrete q.owner q.owner) refl in
      let operation : str_eq q.operation q.operation ≡ true =
        holds-true (Str-discrete q.operation q.operation) refl in
      let key : str_eq (x.sha256 q.key) (x.sha256 q.key) ≡ true =
        holds-true (Str-discrete (x.sha256 q.key) (x.sha256 q.key)) refl in
      ap (find_where p) a.answered.keys
      ∙ find_where-last p db.idempotency_keys r unknown (ground arith)

  -- A transaction on a known key of the same request.
  pub transaction-replay :
      (t : Draws) (db : Database) (d : DeviceRow) (r : IdempotencyRow) (c : TunnelConfiguration)
      → ((n : ℕ) → t.faults n ≡ none)
      → find_where (owned_device q.device q.owner) db.devices ≡ some d
      → is_active_state d.state ≡ true
      → lookup db ≡ some r
      → r.request_hash ≡ x.sha256 q.region_id
      → x.unmarshal r.response_body ≡ some c
      → run_transaction x db q t ≡ (db, ok (c, false))
  unfolding transaction run_transaction replay commit
  transaction-replay t db d r c calm device active known same read =
      let f1 = calm 1 in
      let f2 = calm 2 in
      let f12 = calm 12 in
      let hash : str_eq r.request_hash (x.sha256 q.region_id) ≡ true =
        holds-true (Str-discrete r.request_hash (x.sha256 q.region_id)) same in
      ground arith

  -- What a call that creates has committed.
  pub run_transaction-created :
      (t : Draws) (db db' : Database) (c : TunnelConfiguration)
      → run_transaction x db q t ≡ (db', ok (c, true))
      → (o : Outcome) × (transaction x db q t ≡ ok o)
        × (o.database ≡ db')
        × (o.configuration ≡ c)
        × (o.created ≡ true)
  unfolding run_transaction commit
  run_transaction-created t db db' c h = elim (Result-cases (transaction x db q t)) [
    | inl (f, e) ↦ absurd (ground arith)
    | inr (o, e) ↦ elim (Option-cases (t.faults 12)) [
      | inr (f, e2) ↦ absurd (ground arith)
      | inl e2 ↦ (o, e, ground arith, ground arith, ground arith)
    ]
  ]

  pub transaction-conflict :
      (t : Draws) (db : Database) (d : DeviceRow) (r : IdempotencyRow)
      → ((n : ℕ) → t.faults n ≡ none)
      → find_where (owned_device q.device q.owner) db.devices ≡ some d
      → is_active_state d.state ≡ true
      → lookup db ≡ some r
      → r.request_hash ≢ x.sha256 q.region_id
      → run_transaction x db q t ≡ (db, err conflict)
  unfolding transaction run_transaction replay
  transaction-conflict t db d r calm device active known differs =
      let f1 = calm 1 in
      let f2 = calm 2 in
      let hash : str_eq r.request_hash (x.sha256 q.region_id) ≡ false =
        holds-false (Str-discrete r.request_hash (x.sha256 q.region_id)) differs in
      ground arith
