-- ===== src/Store/Machine/Statements.antt =====
-- That the statements on the outbox follow the life of a snapshot.
use personal_vpn.Prelude.{
  ℕ, ◌≡◌, refl, sym, subst, inl, inr, Bool, true, false, ◌&&◌, List, [], ◌∷◌, ◌++◌, Option, none,
  some, holds_no, Str, Str-discrete, ok, ℤ, eqb_ℤ, arith, Bool-cases, Option-cases, Result-cases,
  All, All-every, All-append, All-map,
}
use personal_vpn.Store.Failures.{Fault}
use personal_vpn.Store.Tables.{
  SnapshotState, queued, in_flight, acked, failed, SnapshotRow, Database, Server, exists_where,
  str_eq,
}
use personal_vpn.Store.Tables.Lookups.{exists_where-All}
use personal_vpn.Store.Outbox.{
  Statement, is_delivery, acknowledge, postpone, execute, commit, SnapshotDelivery, new_row,
  is_same_snapshot, is_in_flight, insert_row, change_rows, insert_statement, claim_statement,
  ack_statement, retry_statement,
}
use personal_vpn.Store.Deliveries.{gateway_ids}
use personal_vpn.Store.Machine.{
  Apart, acknowledged, put_back, Stays, Follows-refl, Follows-append, Sound, IsKeyed, IsOrderly,
  update_where-Sound,
}
use personal_vpn.Store.Machine.Claims.{claim_row-Sound}

pub same-Sound : (rows : List SnapshotRow) → IsKeyed rows → All IsOrderly rows → Sound rows rows
same-Sound rows keyed orderly = record {
  follows = Follows-refl rows;
  keyed = keyed;
  orderly = orderly;
}

is_same_snapshot-Apart : (r q : SnapshotRow) → is_same_snapshot r q ≡ false → Apart q r
is_same_snapshot-Apart r q e = (
  (λ same. elim (Bool-cases (str_eq q.id r.id)) [
    | inl yes_it ↦ absurd (ground arith)
    | inr no_it ↦ holds_no (Str-discrete q.id r.id) no_it (sym same)
  ]),
  (λ same equal. elim (Bool-cases (str_eq q.gateway_id r.gateway_id)) [
    | inl yes_it ↦ ground arith
    | inr no_it ↦ holds_no (Str-discrete q.gateway_id r.gateway_id) no_it (sym same)
  ]),
)

IsKeyed-append :
    (rows : List SnapshotRow) (r : SnapshotRow)
    → IsKeyed rows
    → All (λ q. Apart q r) rows
    → IsKeyed (rows ++ r ∷ [])
IsKeyed-append [] r keyed apart = (tt, tt)
IsKeyed-append (q ∷ rows) r (fresh, keyed) (here, apart) =
    (All-append (Apart q) rows (r ∷ []) fresh (here, tt), IsKeyed-append rows r keyed apart)

insert_row-Sound :
    (gateway_ids : List Str) (id gateway_id : Str) (generation : ℤ) (payload signature : Str)
    (now : ℕ) (rows new : List SnapshotRow)
    → IsKeyed rows
    → All IsOrderly rows
    → insert_row gateway_ids (new_row id gateway_id generation payload signature now) rows
      ≡ ok (new, tt)
    → Sound rows new
unfolding insert_row
insert_row-Sound gateway_ids id gateway_id generation payload signature now rows new keyed orderly
      e =
    let r : SnapshotRow = new_row id gateway_id generation payload signature now in
    elim (Bool-cases (exists_where (is_same_snapshot r) rows)) [
      | inl taken ↦ absurd (ground arith)
      | inr unused ↦ subst (Sound rows) (ground arith) (record {
        follows = Follows-append rows (r ∷ []) ((refl, refl), tt);
        keyed = IsKeyed-append rows r keyed (
            All-map rows (λ q. is_same_snapshot-Apart r q)
              (exists_where-All (is_same_snapshot r) rows unused));
        orderly = All-append IsOrderly rows (r ∷ []) orderly ((ground arith, refl), tt);
      })
    ]

-- Whatever holds of the table and of what the statement makes of it holds afterwards.
pub execute-keeps :
    {A : Type 0} (P : List SnapshotRow → Type 0) (fault : Option Fault) (statement : Statement A)
    (db : Database)
    → P db.snapshots
    → ((rows : List SnapshotRow) (a : A) → statement db.snapshots ≡ ok (rows, a) → P rows)
    → P (execute fault statement db).0.snapshots
unfolding execute
execute-keeps P none statement db here there = elim (Result-cases (statement db.snapshots)) [
  | inl (f, e) ↦ rw (execute, e) here
  | inr ((rows, a), e) ↦ rw (execute, e) (there rows a e)
]
execute-keeps P (some fault) statement db here there =
    elim (Result-cases (statement db.snapshots)) [
      | inl (f, e) ↦ rw (execute, e) here
      | inr ((rows, a), e) ↦ elim (Bool-cases fault.effective) [
        | inl done ↦ rw (execute, e, done) (there rows a e)
        | inr undone ↦ rw (execute, e, undone) here
      ]
    ]

pub commit-keeps :
    {A : Type 0} (P : Database → Type 0) (label : Str) (fault : Option Fault) (old new : Database)
    (a : A)
    → P old
    → P new
    → P (commit label fault old new a).0
unfolding commit
commit-keeps P label none old new a before after = after
commit-keeps P label (some fault) old new a before after = elim (Bool-cases fault.effective) [
  | inl done ↦ rw (commit, done) after
  | inr undone ↦ rw (commit, undone) before
]

change_rows-Sound :
    (p : SnapshotRow → Bool) (f : SnapshotRow → SnapshotRow) (rows new : List SnapshotRow) (n : ℕ)
    → ((r : SnapshotRow) → p r ≡ true → Stays r (f r))
    → IsKeyed rows
    → All IsOrderly rows
    → change_rows p f rows ≡ ok (new, n)
    → Sound rows new
unfolding change_rows
change_rows-Sound p f rows new n moves keyed orderly e =
    subst (Sound rows) (ground arith)
      (update_where-Sound p f rows (All-every rows moves) keyed orderly)

is_in_flight_eq : (t : SnapshotState) → is_in_flight t ≡ true → t ≡ in_flight
is_in_flight_eq in_flight e = refl
is_in_flight_eq queued e = absurd (ground arith)
is_in_flight_eq acked e = absurd (ground arith)
is_in_flight_eq failed e = absurd (ground arith)

module _ (s : Server) where
  pub insert_statement-Sound :
      (gateway_ids : List Str) (id gateway_id : Str) (generation : ℤ) (payload signature : Str)
      (now : ℕ) (rows new : List SnapshotRow) (done : Unit {0})
      → IsKeyed rows
      → All IsOrderly rows
      → insert_statement s gateway_ids id gateway_id generation payload signature now rows
        ≡ ok (new, done)
      → Sound rows new
  insert_statement-Sound gateway_ids id gateway_id generation payload signature now rows new done
        keyed orderly e =
      elim (Option-cases (s.uuid gateway_id)) [
        | inl bad ↦ absurd (ground arith)
        | inr (g, good) ↦ elim (Option-cases (s.json_object payload)) [
          | inl bad ↦ absurd (ground arith)
          | inr (body, object) ↦
              insert_row-Sound gateway_ids id g generation body signature now rows new keyed orderly
                (ground arith)
        ]
      ]

  pub claim_statement-Sound :
      (gateway_id : Str) (now : ℕ) (locked : List Str) (rows new : List SnapshotRow)
      (d : SnapshotDelivery)
      → IsKeyed rows
      → All IsOrderly rows
      → claim_statement s gateway_id now locked rows ≡ ok (new, d)
      → Sound rows new
  claim_statement-Sound gateway_id now locked rows new d keyed orderly e =
      elim (Option-cases (s.uuid gateway_id)) [
        | inl bad ↦ absurd (ground arith)
        | inr (g, good) ↦ claim_row-Sound g now locked rows new d keyed orderly (ground arith)
      ]

  pub ack_statement-Sound :
      (gateway_id snapshot_id : Str) (generation : ℤ) (now : ℕ) (rows new : List SnapshotRow)
      (n : ℕ)
      → IsKeyed rows
      → All IsOrderly rows
      → ack_statement s gateway_id snapshot_id generation now rows ≡ ok (new, n)
      → Sound rows new
  ack_statement-Sound gateway_id snapshot_id generation now rows new n keyed orderly e =
      elim (Option-cases (s.uuid snapshot_id)) [
        | inl bad ↦ absurd (ground arith)
        | inr (id, named) ↦ elim (Option-cases (s.uuid gateway_id)) [
          | inl bad ↦ absurd (ground arith)
          | inr (g, good) ↦
              change_rows-Sound (λ r. is_delivery id g r && eqb_ℤ r.generation generation)
                (acknowledge now) rows new n
                (λ r it. inr (
                  (refl, refl, refl, refl, refl),
                  acknowledged (is_in_flight_eq r.state (ground arith)) refl refl,
                ))
                keyed orderly (ground arith)
        ]
      ]

  pub retry_statement-Sound :
      (gateway_id snapshot_id : Str) (retry_at : ℕ) (reason : Str) (rows new : List SnapshotRow)
      (n : ℕ)
      → IsKeyed rows
      → All IsOrderly rows
      → retry_statement s gateway_id snapshot_id retry_at reason rows ≡ ok (new, n)
      → Sound rows new
  retry_statement-Sound gateway_id snapshot_id retry_at reason rows new n keyed orderly e =
      elim (Option-cases (s.uuid snapshot_id)) [
        | inl bad ↦ absurd (ground arith)
        | inr (id, named) ↦ elim (Option-cases (s.uuid gateway_id)) [
          | inl bad ↦ absurd (ground arith)
          | inr (g, good) ↦ elim (Bool-cases (s.is_text reason)) [
            | inr bad ↦ absurd (ground arith)
            | inl readable ↦
                change_rows-Sound (is_delivery id g) (postpone retry_at reason) rows new n
                  (λ r it. inr (
                    (refl, refl, refl, refl, refl),
                    put_back (is_in_flight_eq r.state (ground arith)) refl refl,
                  ))
                  keyed orderly (ground arith)
          ]
        ]
      ]
