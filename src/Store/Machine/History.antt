-- ===== src/Store/Machine/History.antt =====
-- Histories of calls on the outbox.
use personal_vpn.Prelude.{
  ℕ, ◌≡◌, ◌≢◌, sym, ap, subst, ◌∙◌, inl, inr, List, [], ◌∷◌, Option, some, Str, ok, ℤ, arith,
  Option-cases, Result-cases, All, All-map, Has,
}
use personal_vpn.Store.Failures.{Fault, Faults}
use personal_vpn.Store.Tables.{SnapshotRow, acked, Database, Server}
use personal_vpn.Store.Outbox.{
  SnapshotDelivery, delivered, is_claimable, earliest, claim_row, claim_statement, commit,
}
use personal_vpn.Store.Deliveries.{
  enqueue_snapshot, claim_next_snapshot, claim_transaction, ack_snapshot, retry_snapshot,
}
use personal_vpn.Store.Machine.{
  Stays, Follows, sent, acknowledged, put_back, Sound, IsKeyed, IsOrderly, Apart,
}
use personal_vpn.Store.Machine.Claims.{earliest-All}
use personal_vpn.Store.Machine.Calls.{
  enqueue_snapshot-Sound, claim_next_snapshot-Sound, ack_snapshot-Sound, retry_snapshot-Sound,
}

-- A call with what the server and the connection do in it.
pub data OutboxCall : Type 0 where
  enqueue : Str → ℤ → Str → Str → Str → ℕ → Option Fault → OutboxCall
  claim : Str → ℕ → List Str → Faults → OutboxCall
  ack : Str → Str → ℤ → ℕ → Option Fault → OutboxCall
  put_off : Str → Str → ℕ → Str → Option Fault → OutboxCall

-- An acknowledged row stays as it is.
Stays-acked : (r q : SnapshotRow) → r.state ≡ acked → Stays r q → r ≡ q
Stays-acked r q done (inl same) = same
Stays-acked r q done (inr (_, sent waiting state attempts below)) = absurd (ground arith)
Stays-acked r q done (inr (_, acknowledged was state attempts)) = absurd (ground arith)
Stays-acked r q done (inr (_, put_back was state attempts)) = absurd (ground arith)

Follows-acked :
    (r : SnapshotRow) (old new : List SnapshotRow)
    → r.state ≡ acked
    → Follows old new
    → Has r old
    → Has r new
Follows-acked r [] new done follows here = absurd here
Follows-acked r (q ∷ old) [] done follows here = absurd follows
Follows-acked r (q ∷ old) (x ∷ new) done (stays, follows) (inl same) =
    inl (same ∙ Stays-acked q x (subst (λ y. y.state ≡ acked) same done) stays)
Follows-acked r (q ∷ old) (x ∷ new) done (stays, follows) (inr later) =
    inr (Follows-acked r old new done follows later)

pub keyed-Apart :
    (q r : SnapshotRow) (rows : List SnapshotRow) → All (Apart q) rows → Has r rows → Apart q r
keyed-Apart q r [] apart there = absurd there
keyed-Apart q r (x ∷ rows) (first, apart) (inl same) = subst (Apart q) (sym same) first
keyed-Apart q r (x ∷ rows) (first, apart) (inr there) = keyed-Apart q r rows apart there

pub keyed-same :
    (r : SnapshotRow) (rows : List SnapshotRow)
    → IsKeyed rows
    → Has r rows
    → All (λ q. q.id ≡ r.id → q ≡ r) rows
keyed-same r [] keyed here = tt
keyed-same r (q ∷ rows) (fresh, keyed) (inl same) = (
  (λ it. sym same),
  All-map rows (λ x other it. absurd (other.0 (it ∙ ap (λ y. y.id) same))) fresh,
)
keyed-same r (q ∷ rows) (fresh, keyed) (inr later) =
    ((λ it. absurd ((keyed-Apart q r rows fresh later).0 (sym it))), keyed-same r rows keyed later)

module _ (s : Server) where
  abbrev pub perform : OutboxCall → Database → Database
  perform (enqueue gateway_id generation payload signature id now fault) db =
      (enqueue_snapshot s db gateway_id generation payload signature id now fault).0
  perform (claim gateway_id now locked faults) db =
      (claim_next_snapshot s db gateway_id now locked faults).0
  perform (ack gateway_id snapshot_id generation now fault) db =
      (ack_snapshot s db gateway_id snapshot_id generation now fault).0
  perform (put_off gateway_id snapshot_id retry_at reason fault) db =
      (retry_snapshot s db gateway_id snapshot_id retry_at reason fault).0

  abbrev pub run_calls : List OutboxCall → Database → Database
  run_calls [] db = db
  run_calls (c ∷ calls) db = run_calls calls (perform c db)

  -- Each call on the outbox, with whatever faults, locked rows and lost answers, follows the life
  -- of a snapshot row by row: a queued or failed row may be sent, with one more attempt below a
  -- hundred, one in flight may be acknowledged or put back, and new rows are queued; from distinct
  -- keys and rows sent at most a hundred times, that are queued exactly when never sent, it leaves
  -- the same.
  pub perform-Sound :
      (c : OutboxCall) (db : Database)
      → IsKeyed db.snapshots
      → All IsOrderly db.snapshots
      → Sound db.snapshots (perform c db).snapshots
  perform-Sound (enqueue gateway_id generation payload signature id now fault) db keyed orderly =
      enqueue_snapshot-Sound s db gateway_id generation payload signature id now fault keyed orderly
  perform-Sound (claim gateway_id now locked faults) db keyed orderly =
      claim_next_snapshot-Sound s db gateway_id now locked faults keyed orderly
  perform-Sound (ack gateway_id snapshot_id generation now fault) db keyed orderly =
      ack_snapshot-Sound s db gateway_id snapshot_id generation now fault keyed orderly
  perform-Sound (put_off gateway_id snapshot_id retry_at reason fault) db keyed orderly =
      retry_snapshot-Sound s db gateway_id snapshot_id retry_at reason fault keyed orderly

  run_calls-keeps :
      (calls : List OutboxCall) (r : SnapshotRow) (db : Database)
      → IsKeyed db.snapshots
      → All IsOrderly db.snapshots
      → Has r db.snapshots
      → r.state ≡ acked
      → IsKeyed (run_calls calls db).snapshots
        × All IsOrderly (run_calls calls db).snapshots
        × Has r (run_calls calls db).snapshots
  run_calls-keeps [] r db keyed orderly here done = (keyed, orderly, here)
  run_calls-keeps (c ∷ calls) r db keyed orderly here done =
      let sound = perform-Sound c db keyed orderly in
      run_calls-keeps calls r (perform c db) sound.keyed sound.orderly
        (Follows-acked r db.snapshots (perform c db).snapshots done sound.follows here) done

  -- What a claim that succeeds has chosen.
  abbrev pub Chosen : Database → Str → ℕ → List Str → SnapshotDelivery → Type 0
  Chosen db gateway_id now locked d =
      (g : Str) × (s.uuid gateway_id ≡ some g)
      × ((q : SnapshotRow) × (earliest (is_claimable g now locked) db.snapshots ≡ some q)
          × (d ≡ delivered q))

  claim_statement-Chosen :
      (db : Database) (gateway_id : Str) (now : ℕ) (locked : List Str) (rows : List SnapshotRow)
      (d : SnapshotDelivery)
      → claim_statement s gateway_id now locked db.snapshots ≡ ok (rows, d)
      → Chosen db gateway_id now locked d
  unfolding claim_row
  claim_statement-Chosen db gateway_id now locked rows d e =
      elim (Option-cases (s.uuid gateway_id)) [
        | inl bad ↦ absurd (ground arith)
        | inr (g, good) ↦ elim (Option-cases (earliest (is_claimable g now locked) db.snapshots)) [
          | inl nothing ↦ absurd (ground arith)
          | inr (q, chosen) ↦ (g, good, (q, chosen, ground arith))
        ]
      ]

  pub claim_next_snapshot-Chosen :
      (db : Database) (gateway_id : Str) (now : ℕ) (locked : List Str) (faults : Faults)
      (d : SnapshotDelivery)
      → (claim_next_snapshot s db gateway_id now locked faults).1 ≡ ok d
      → Chosen db gateway_id now locked d
  unfolding claim_next_snapshot claim_transaction commit
  claim_next_snapshot-Chosen db gateway_id now locked faults d e =
      elim (Result-cases (claim_statement s gateway_id now locked db.snapshots)) [
        | inl (f, e2) ↦ absurd (ground arith)
        | inr ((rows, x), e2) ↦
            claim_statement-Chosen db gateway_id now locked rows d (ground arith)
      ]

  -- From distinct keys and orderly rows, a row that is acknowledged stays in the table as it is
  -- through every history of calls on the outbox, and no later claim delivers the snapshot with
  -- its identifier.
  pub acked_undelivered :
      (calls : List OutboxCall) (r : SnapshotRow) (db : Database) (gateway_id : Str) (now : ℕ)
      (locked : List Str) (faults : Faults) (d : SnapshotDelivery)
      → IsKeyed db.snapshots
      → All IsOrderly db.snapshots
      → Has r db.snapshots
      → r.state ≡ acked
      → (claim_next_snapshot s (run_calls calls db) gateway_id now locked faults).1 ≡ ok d
      → Has r (run_calls calls db).snapshots × (d.id ≢ r.id)
  unfolding is_claimable
  acked_undelivered calls r db gateway_id now locked faults d keyed orderly here done e =
      let (keyed', _, there) = run_calls-keeps calls r db keyed orderly here done in
      let (g, _, (q, chosen, is_q)) =
        claim_next_snapshot-Chosen (run_calls calls db) gateway_id now locked faults d e in
      let (unique, picked) =
        earliest-All (λ x. x.id ≡ r.id → x ≡ r) (is_claimable g now locked)
          (run_calls calls db).snapshots q
          (keyed-same r (run_calls calls db).snapshots keyed' there) chosen in
      (
        there,
        λ same. let equal = unique (sym (ap (λ x. x.id) is_q) ∙ same) in absurd (ground arith),
      )
