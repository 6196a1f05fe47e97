-- ===== src/Store/Deliveries.antt =====
-- The operations on the outbox of services/api/internal/postgres/store.go: EnqueueSnapshot,
-- ClaimNextSnapshot, ClaimSnapshot, AckSnapshot and RetrySnapshot.
use personal_vpn.Prelude.{
  ℕ, ◌==◌, ◌||◌, not, List, Option, none, some, if◌then◌else◌, Str, map, text, length, take,
  Fallible, ok, err, ℤ, pos, leb_ℤ,
}
use personal_vpn.Agent.Worker.{Delivery}
use personal_vpn.Control.{blank}
use personal_vpn.Store.Failures.{Error, invalid_input, wrapped, map_database_error, Fault, Faults}
use personal_vpn.Store.Tables.{Database, Server}
use personal_vpn.Store.Outbox.{
  SnapshotDelivery, commit, execute, insert_statement, claim_statement, ack_statement,
  retry_statement, exactly_one,
}

abbrev pub gateway_ids : Database → List Str
gateway_ids db = map (λ g. g.id) db.gateways

abbrev pub max_reason : ℕ
max_reason = 512

abbrev pub delivery_of : SnapshotDelivery → Delivery
delivery_of d = record {
  id = d.id;
  generation = d.generation;
  payload = d.payload;
  signature = d.signature;
}

module _ (s : Server) where
  -- `id` is what gen_random_uuid() draws.
  unfoldable pub enqueue_snapshot :
      Database → Str → ℤ → Str → Str → Str → ℕ → Option Fault → Database × Fallible Error (Unit {0})
  enqueue_snapshot db gateway_id generation payload signature id now fault =
      if blank gateway_id
        || leb_ℤ generation (pos 0)
        || length payload == 0
        || not (length signature == 64)
      then (db, err invalid_input)
      else execute fault
          (insert_statement s (gateway_ids db) id gateway_id generation payload signature now) db

  -- The transaction: begin, select, update and commit.
  unfoldable pub claim_transaction :
      Database → Str → ℕ → List Str → Faults → Database × Fallible Error SnapshotDelivery
  claim_transaction db gateway_id now locked faults = elim (faults 0) [
    | some f ↦ (db, err (wrapped (text "begin snapshot claim") f.failure))
    | none ↦ elim (faults 1) [
      | some f ↦ (db, err (map_database_error f.failure))
      | none ↦ elim (claim_statement s gateway_id now locked db.snapshots) [
        | err f ↦ (db, err (map_database_error f))
        | ok (rows, delivery) ↦ elim (faults 2) [
          | some f ↦ (db, err (map_database_error f.failure))
          | none ↦
              commit (text "commit snapshot claim") (faults 3) db (record db { snapshots = rows })
                delivery
        ]
      ]
    ]
  ]

  unfoldable pub claim_next_snapshot :
      Database → Str → ℕ → List Str → Faults → Database × Fallible Error SnapshotDelivery
  claim_next_snapshot db gateway_id now locked faults =
      if blank gateway_id
      then (db, err invalid_input)
      else claim_transaction db gateway_id now locked faults

  unfoldable pub claim_snapshot :
      Database → Str → ℕ → List Str → Faults → Database × Fallible Error Delivery
  claim_snapshot db gateway_id now locked faults =
      let (db', result) = claim_next_snapshot db gateway_id now locked faults in
      (db', elim result [ err e ↦ err e | ok d ↦ ok (delivery_of d) ])

  unfoldable pub ack_snapshot :
      Database → Str → Str → ℤ → ℕ → Option Fault → Database × Fallible Error (Unit {0})
  ack_snapshot db gateway_id snapshot_id generation now fault =
      if blank gateway_id || blank snapshot_id || leb_ℤ generation (pos 0)
      then (db, err invalid_input)
      else let (db', result) =
          execute fault (ack_statement s gateway_id snapshot_id generation now) db in
        (db', exactly_one result)

  -- A `retry_at` of 0 is the zero time.
  unfoldable pub retry_snapshot :
      Database → Str → Str → ℕ → Str → Option Fault → Database × Fallible Error (Unit {0})
  retry_snapshot db gateway_id snapshot_id retry_at reason fault =
      if blank gateway_id || blank snapshot_id || retry_at == 0
      then (db, err invalid_input)
      else let (db', result) =
          execute fault (retry_statement s gateway_id snapshot_id retry_at (take max_reason reason))
            db in
        (db', exactly_one result)
