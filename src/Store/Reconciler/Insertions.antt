-- ===== src/Store/Reconciler/Insertions.antt =====
-- How the insertion of a snapshot ends.
use personal_vpn.Prelude.{
  ℕ, ◌≡◌, refl, ap, inl, inr, Bool, true, ◌||◌, ◌==◌, not, List, [], ◌∷◌, ◌++◌, Option, none, some,
  arith, Str, length, Fallible, ok, err, ℤ, pos, leb_ℤ, Bool-cases, Option-cases, Result-cases,
}
use personal_vpn.Control.{blank}
use personal_vpn.Store.Failures.{Error, Fault, invalid_input, map_database_error}
use personal_vpn.Store.Tables.{SnapshotRow, queued, Database, Server, exists_where}
use personal_vpn.Store.Outbox.{execute, insert_statement, insert_row, new_row}
use personal_vpn.Store.Deliveries.{enqueue_snapshot, gateway_ids}

-- Rows are only added to the outbox, and no other table changes.
abbrev pub Grows : Database → Database → Type 0
Grows old new = (more : List SnapshotRow) × (new ≡ record old { snapshots = old.snapshots ++ more })

pub append_nil : (l : List SnapshotRow) → l ++ [] ≡ l
append_nil [] = refl
append_nil (r ∷ l) = ap (λ z. r ∷ z) (append_nil l)

pub append_assoc : (a b c : List SnapshotRow) → (a ++ b) ++ c ≡ a ++ (b ++ c)
append_assoc [] b c = refl
append_assoc (r ∷ a) b c = ap (λ z. r ∷ z) (append_assoc a b c)

pub exists_where-append :
    (p : SnapshotRow → Bool) (old more : List SnapshotRow)
    → exists_where p old ≡ true
    → exists_where p (old ++ more) ≡ true
unfolding exists_where
exists_where-append p [] more e = absurd (ground arith)
exists_where-append p (r ∷ old) more e = elim (Bool-cases (p r)) [
  | inl it ↦ ground arith
  | inr other ↦ let rest = exists_where-append p old more (ground arith) in ground arith
]

pub exists_where-last :
    (p : SnapshotRow → Bool) (old : List SnapshotRow) (r : SnapshotRow)
    → p r ≡ true
    → exists_where p (old ++ r ∷ []) ≡ true
unfolding exists_where
exists_where-last p [] r it = ground arith
exists_where-last p (q ∷ old) r it = let rest = exists_where-last p old r it in ground arith

module _ (s : Server) where
  -- How the insertion of a snapshot ends.
  pub data Ends (db : Database) (gateway_id : Str) (result : Database × Fallible Error (Unit {0}))
      : Type 0 where
    unchanged : (e : Error) → result ≡ (db, err e) → Ends db gateway_id result
    added :
        (g : Str) (r : SnapshotRow)
        → s.uuid gateway_id ≡ some g
        → r.gateway_id ≡ g
        → r.state ≡ queued
        → result.0 ≡ record db { snapshots = db.snapshots ++ r ∷ [] }
        → Ends db gateway_id result

  abbrev Added : List SnapshotRow → List SnapshotRow → Str → Type 0
  Added old new gateway_id =
      (g : Str) × (r : SnapshotRow) × (s.uuid gateway_id ≡ some g)
      × (r.gateway_id ≡ g)
      × (r.state ≡ queued)
      × (new ≡ old ++ r ∷ [])

  insert_statement-Added :
      (known : List Str) (id gateway_id : Str) (generation : ℤ) (payload signature : Str) (now : ℕ)
      (rows new : List SnapshotRow) (done : Unit {0})
      → insert_statement s known id gateway_id generation payload signature now rows
        ≡ ok (new, done)
      → Added rows new gateway_id
  unfolding insert_row
  insert_statement-Added known id gateway_id generation payload signature now rows new done e =
      elim (Option-cases (s.uuid gateway_id)) [
        | inl bad ↦ absurd (ground arith)
        | inr (g, good) ↦ elim (Option-cases (s.json_object payload)) [
          | inl bad ↦ absurd (ground arith)
          | inr (body, object) ↦
              (g, new_row id g generation body signature now, good, refl, refl, ground arith)
        ]
      ]

  executed :
      (fault : Option Fault) (id gateway_id : Str) (generation : ℤ) (payload signature : Str)
      (now : ℕ) (db : Database)
      → Ends db gateway_id (
          execute fault
            (insert_statement s (gateway_ids db) id gateway_id generation payload signature now)
            db)
  unfolding execute
  executed none id gateway_id generation payload signature now db =
      elim (Result-cases (
        insert_statement s (gateway_ids db) id gateway_id generation payload signature now
          db.snapshots)) [
            | inl (f, e) ↦ unchanged (map_database_error f) (rw (execute, e) refl)
            | inr ((new, done), e) ↦
                let (g, r, good, its, fresh, same) =
                  insert_statement-Added (gateway_ids db) id gateway_id generation payload signature
                    now db.snapshots new done e in
                added g r good its fresh
                  (rw (execute, e) (ap (λ z. record db { snapshots = z }) same))
          ]
  executed (some f) id gateway_id generation payload signature now db =
      elim (Result-cases (
        insert_statement s (gateway_ids db) id gateway_id generation payload signature now
          db.snapshots)) [
            | inl (x, e) ↦ unchanged (map_database_error f.failure) (rw (execute, e) refl)
            | inr ((new, done), e) ↦
                let (g, r, good, its, fresh, same) =
                  insert_statement-Added (gateway_ids db) id gateway_id generation payload signature
                    now db.snapshots new done e in
                elim (Bool-cases f.effective) [
                  | inl kept ↦
                      added g r good its fresh
                        (rw (execute, e, kept) (ap (λ z. record db { snapshots = z }) same))
                  | inr lost ↦ unchanged (map_database_error f.failure) (rw (execute, e, lost) refl)
                ]
          ]

  pub enqueue_snapshot-Ends :
      (db : Database) (gateway_id : Str) (generation : ℤ) (payload signature id : Str) (now : ℕ)
      (fault : Option Fault)
      → Ends db gateway_id
          (enqueue_snapshot s db gateway_id generation payload signature id now fault)
  unfolding enqueue_snapshot
  enqueue_snapshot-Ends db gateway_id generation payload signature id now fault =
      elim (Bool-cases (
        blank gateway_id
        || leb_ℤ generation (pos 0)
        || length payload == 0
        || not (length signature == 64))) [
          | inl bad ↦ unchanged invalid_input (rw (enqueue_snapshot, bad) refl)
          | inr good ↦
              rw (enqueue_snapshot, good)
                (executed fault id gateway_id generation payload signature now db)
        ]
