-- ===== src/Store/Machine/Calls.antt =====
-- Every call on the outbox follows the life of a snapshot, and so does every history of them.
use personal_vpn.Prelude.{
  ℕ, ◌≡◌, inl, inr, ◌==◌, ◌||◌, not, List, Option, Str, length, take, text, ok, ℤ, pos, leb_ℤ,
  Bool-cases, Option-cases, Result-cases, All,
}
use personal_vpn.Control.{blank}
use personal_vpn.Store.Failures.{Fault, Faults}
use personal_vpn.Store.Tables.{SnapshotRow, Database, Server}
use personal_vpn.Store.Outbox.{
  SnapshotDelivery, insert_statement, claim_statement, ack_statement, retry_statement,
}
use personal_vpn.Store.Deliveries.{
  gateway_ids, max_reason, enqueue_snapshot, claim_transaction, claim_next_snapshot, ack_snapshot,
  retry_snapshot,
}
use personal_vpn.Store.Machine.{Sound, IsKeyed, IsOrderly}
use personal_vpn.Store.Machine.Statements.{
  same-Sound, execute-keeps, commit-keeps, insert_statement-Sound, claim_statement-Sound,
  ack_statement-Sound, retry_statement-Sound,
}

module _ (s : Server) where
  pub enqueue_snapshot-Sound :
      (db : Database) (gateway_id : Str) (generation : ℤ) (payload signature id : Str) (now : ℕ)
      (fault : Option Fault)
      → IsKeyed db.snapshots
      → All IsOrderly db.snapshots
      → Sound db.snapshots
          (enqueue_snapshot s db gateway_id generation payload signature id now fault).0.snapshots
  unfolding enqueue_snapshot
  enqueue_snapshot-Sound db gateway_id generation payload signature id now fault keyed orderly =
      let same = same-Sound db.snapshots keyed orderly in
      elim (Bool-cases (
        blank gateway_id
        || leb_ℤ generation (pos 0)
        || length payload == 0
        || not (length signature == 64))) [
          | inl bad ↦ rw (enqueue_snapshot, bad) same
          | inr good ↦
              rw (enqueue_snapshot, good)
                (execute-keeps (Sound db.snapshots) fault
                  (insert_statement s (gateway_ids db) id gateway_id generation payload signature
                    now)
                  db same
                  (λ rows a e.
                    insert_statement-Sound s (gateway_ids db) id gateway_id generation payload
                      signature now db.snapshots rows a keyed orderly e))
        ]

  -- The table after a transaction is the old one, or what its statement makes of it.
  claim_transaction-keeps :
      (P : List SnapshotRow → Type 0) (db : Database) (gateway_id : Str) (now : ℕ)
      (locked : List Str) (faults : Faults)
      → P db.snapshots
      → ((rows : List SnapshotRow) (d : SnapshotDelivery)
          → claim_statement s gateway_id now locked db.snapshots ≡ ok (rows, d)
          → P rows)
      → P (claim_transaction s db gateway_id now locked faults).0.snapshots
  unfolding claim_transaction
  claim_transaction-keeps P db gateway_id now locked faults here there =
      elim (Option-cases (faults 0)) [
        | inr (f, e) ↦ rw (claim_transaction, e) here
        | inl begun ↦ elim (Option-cases (faults 1)) [
          | inr (f, e) ↦ rw (claim_transaction, begun, e) here
          | inl selected ↦
              elim (Result-cases (claim_statement s gateway_id now locked db.snapshots)) [
                | inl (f, e) ↦ rw (claim_transaction, begun, selected, e) here
                | inr ((rows, d), e) ↦ elim (Option-cases (faults 2)) [
                  | inr (f, e2) ↦ rw (claim_transaction, begun, selected, e, e2) here
                  | inl updated ↦
                      rw (claim_transaction, begun, selected, e, updated)
                        (commit-keeps (λ x. P x.snapshots) (text "commit snapshot claim") (faults 3)
                          db (record db { snapshots = rows }) d here (there rows d e))
                ]
              ]
        ]
      ]

  pub claim_next_snapshot-keeps :
      (P : List SnapshotRow → Type 0) (db : Database) (gateway_id : Str) (now : ℕ)
      (locked : List Str) (faults : Faults)
      → P db.snapshots
      → ((rows : List SnapshotRow) (d : SnapshotDelivery)
          → claim_statement s gateway_id now locked db.snapshots ≡ ok (rows, d)
          → P rows)
      → P (claim_next_snapshot s db gateway_id now locked faults).0.snapshots
  unfolding claim_next_snapshot
  claim_next_snapshot-keeps P db gateway_id now locked faults here there =
      elim (Bool-cases (blank gateway_id)) [
        | inl bad ↦ rw (claim_next_snapshot, bad) here
        | inr good ↦
            rw (claim_next_snapshot, good)
              (claim_transaction-keeps P db gateway_id now locked faults here there)
      ]

  pub claim_next_snapshot-Sound :
      (db : Database) (gateway_id : Str) (now : ℕ) (locked : List Str) (faults : Faults)
      → IsKeyed db.snapshots
      → All IsOrderly db.snapshots
      → Sound db.snapshots (claim_next_snapshot s db gateway_id now locked faults).0.snapshots
  claim_next_snapshot-Sound db gateway_id now locked faults keyed orderly =
      claim_next_snapshot-keeps (Sound db.snapshots) db gateway_id now locked faults
        (same-Sound db.snapshots keyed orderly)
        (λ rows d e.
          claim_statement-Sound s gateway_id now locked db.snapshots rows d keyed orderly e)

  pub ack_snapshot-Sound :
      (db : Database) (gateway_id snapshot_id : Str) (generation : ℤ) (now : ℕ)
      (fault : Option Fault)
      → IsKeyed db.snapshots
      → All IsOrderly db.snapshots
      → Sound db.snapshots
          (ack_snapshot s db gateway_id snapshot_id generation now fault).0.snapshots
  unfolding ack_snapshot
  ack_snapshot-Sound db gateway_id snapshot_id generation now fault keyed orderly =
      let same = same-Sound db.snapshots keyed orderly in
      elim (Bool-cases (blank gateway_id || blank snapshot_id || leb_ℤ generation (pos 0))) [
        | inl bad ↦ rw (ack_snapshot, bad) same
        | inr good ↦
            rw (ack_snapshot, good)
              (execute-keeps (Sound db.snapshots) fault
                (ack_statement s gateway_id snapshot_id generation now) db same
                (λ rows n e.
                  ack_statement-Sound s gateway_id snapshot_id generation now db.snapshots rows n
                    keyed orderly e))
      ]

  pub retry_snapshot-Sound :
      (db : Database) (gateway_id snapshot_id : Str) (retry_at : ℕ) (reason : Str)
      (fault : Option Fault)
      → IsKeyed db.snapshots
      → All IsOrderly db.snapshots
      → Sound db.snapshots
          (retry_snapshot s db gateway_id snapshot_id retry_at reason fault).0.snapshots
  unfolding retry_snapshot
  retry_snapshot-Sound db gateway_id snapshot_id retry_at reason fault keyed orderly =
      let same = same-Sound db.snapshots keyed orderly in
      elim (Bool-cases (blank gateway_id || blank snapshot_id || retry_at == 0)) [
        | inl bad ↦ rw (retry_snapshot, bad) same
        | inr good ↦
            rw (retry_snapshot, good)
              (execute-keeps (Sound db.snapshots) fault
                (retry_statement s gateway_id snapshot_id retry_at (take max_reason reason)) db same
                (λ rows n e.
                  retry_statement-Sound s gateway_id snapshot_id retry_at (take max_reason reason)
                    db.snapshots rows n keyed orderly e))
      ]
