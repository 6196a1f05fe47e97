-- ===== src/Store/Outbox.antt =====
-- The outbox of services/api/internal/postgres/store.go: the table gateway_snapshots. Each call is
-- one statement or one transaction; `locked` are the rows that other transactions hold, which SKIP
-- LOCKED passes over.
use personal_vpn.Prelude.{
  ℕ, ◌+◌, ◌==◌, Bool, true, false, ◌&&◌, ◌||◌, not, List, [], ◌∷◌, ◌++◌, Option, none, some,
  if◌then◌else◌, ltb, leb, Str, Str-discrete, Fallible, ok, err, ℤ, leb_ℤ, eqb_ℤ, member,
}
use personal_vpn.Store.Failures.{
  Failure, no_rows, server, Error, not_found, wrapped, unique_violation, foreign_key_violation,
  invalid_text, character_not_in_repertoire, map_database_error, Fault,
}
use personal_vpn.Store.Tables.{
  SnapshotState, queued, in_flight, acked, failed, SnapshotRow, Database, Server, str_eq,
  update_where, exists_where, count_where,
}

pub record SnapshotDelivery : Type 0 where
  pub id : Str
  pub gateway_id : Str
  pub generation : ℤ
  pub payload : Str
  pub signature : Str
  pub attempts : ℕ

-- One statement on the table: its new rows and a result, or the server's code.
abbrev pub Statement : Type 0 → Type 0
Statement A = List SnapshotRow → Fallible Failure (List SnapshotRow × A)

-- A statement that commits by itself.
unfoldable pub execute :
    {A : Type 0} → Option Fault → Statement A → Database → Database × Fallible Error A
execute none statement db = elim (statement db.snapshots) [
  | err f ↦ (db, err (map_database_error f))
  | ok (rows, a) ↦ (record db { snapshots = rows }, ok a)
]
execute (some fault) statement db = elim (statement db.snapshots) [
  | err f ↦ (db, err (map_database_error fault.failure))
  | ok (rows, a) ↦ (
    if fault.effective then record db { snapshots = rows } else db,
    err (map_database_error fault.failure),
  )
]

-- The end of a transaction: `old` is the database before it, and `new` what it has made of it.
unfoldable pub commit :
    {A : Type 0} → Str → Option Fault → Database → Database → A → Database × Fallible Error A
commit label none old new a = (new, ok a)
commit label (some fault) old new a =
    (if fault.effective then new else old, err (wrapped label fault.failure))

abbrev pub new_row : Str → Str → ℤ → Str → Str → ℕ → SnapshotRow
new_row id gateway_id generation payload signature now = record {
  id = id;
  gateway_id = gateway_id;
  generation = generation;
  payload = payload;
  signature = signature;
  state = queued;
  attempts = 0;
  available_at = now;
  sent_at = none;
  acked_at = none;
  last_error = none;
}

abbrev pub is_same_snapshot : SnapshotRow → SnapshotRow → Bool
is_same_snapshot r q =
    str_eq q.id r.id || str_eq q.gateway_id r.gateway_id && eqb_ℤ q.generation r.generation

-- The row with the keys that it must not share, and the gateway that it must refer to.
unfoldable pub insert_row : List Str → SnapshotRow → Statement (Unit {0})
insert_row gateway_ids r rows =
    if exists_where (is_same_snapshot r) rows
    then err (server unique_violation)
    else if not (member Str-discrete r.gateway_id gateway_ids)
    then err (server foreign_key_violation)
    else ok (rows ++ r ∷ [], tt)

-- `SELECT ... WHERE gateway_id = g AND state IN ('queued', 'failed') AND ...`.
abbrev pub is_waiting : SnapshotState → Bool
is_waiting queued = true
is_waiting failed = true
is_waiting _ = false

abbrev pub is_in_flight : SnapshotState → Bool
is_in_flight in_flight = true
is_in_flight _ = false

abbrev pub max_attempts : ℕ
max_attempts = 100

unfoldable pub is_claimable : Str → ℕ → List Str → SnapshotRow → Bool
is_claimable gateway_id now locked r =
    str_eq r.gateway_id gateway_id
    && is_waiting r.state
    && leb r.available_at now
    && ltb r.attempts max_attempts
    && not (member Str-discrete r.id locked)

-- `ORDER BY generation LIMIT 1`.
abbrev pub earlier : SnapshotRow → Option SnapshotRow → SnapshotRow
earlier r none = r
earlier r (some q) = if leb_ℤ r.generation q.generation then r else q

unfoldable pub earliest : (SnapshotRow → Bool) → List SnapshotRow → Option SnapshotRow
earliest p [] = none
earliest p (r ∷ rows) = let rest = earliest p rows in if p r then some (earlier r rest) else rest

abbrev pub has_id : Str → SnapshotRow → Bool
has_id id r = str_eq r.id id

-- `SET state = 'in_flight', attempts = attempts + 1, sent_at = now()`.
abbrev pub send : ℕ → SnapshotRow → SnapshotRow
send now r = record r { state = in_flight; attempts = r.attempts + 1; sent_at = some now }

abbrev pub delivered : SnapshotRow → SnapshotDelivery
delivered r = record {
  id = r.id;
  gateway_id = r.gateway_id;
  generation = r.generation;
  payload = r.payload;
  signature = r.signature;
  attempts = r.attempts + 1;
}

-- The two statements of `ClaimNextSnapshot`.
unfoldable pub claim_row : Str → ℕ → List Str → Statement SnapshotDelivery
claim_row gateway_id now locked rows = elim (earliest (is_claimable gateway_id now locked) rows) [
  | none ↦ err no_rows
  | some r ↦ ok (update_where (has_id r.id) (send now) rows, delivered r)
]

abbrev pub is_delivery : Str → Str → SnapshotRow → Bool
is_delivery id gateway_id r = has_id id r && str_eq r.gateway_id gateway_id && is_in_flight r.state

abbrev pub acknowledge : ℕ → SnapshotRow → SnapshotRow
acknowledge now r = record r { state = acked; acked_at = some now }

abbrev pub postpone : ℕ → Str → SnapshotRow → SnapshotRow
postpone retry_at reason r = record r {
  state = failed;
  available_at = retry_at;
  last_error = some reason;
}

-- An UPDATE with the number of its rows.
unfoldable pub change_rows : (SnapshotRow → Bool) → (SnapshotRow → SnapshotRow) → Statement ℕ
change_rows p f rows = ok (update_where p f rows, count_where p rows)

-- `RowsAffected() != 1`.
abbrev pub exactly_one : Fallible Error ℕ → Fallible Error (Unit {0})
exactly_one (err e) = err e
exactly_one (ok n) = if n == 1 then ok tt else err not_found

module _ (s : Server) where
  -- A uuid parameter that is none is the server's code 22P02.
  abbrev with_uuid : {A : Type 0} → Str → (Str → Statement A) → Statement A
  with_uuid value statement rows = elim (s.uuid value) [
    | none ↦ err (server invalid_text)
    | some id ↦ statement id rows
  ]

  abbrev pub insert_statement : List Str → Str → Str → ℤ → Str → Str → ℕ → Statement (Unit {0})
  insert_statement gateway_ids id gateway_id generation payload signature now =
      with_uuid gateway_id λ g rows. elim (s.json_object payload) [
        | none ↦ err (server invalid_text)
        | some body ↦ insert_row gateway_ids (new_row id g generation body signature now) rows
      ]

  abbrev pub claim_statement : Str → ℕ → List Str → Statement SnapshotDelivery
  claim_statement gateway_id now locked = with_uuid gateway_id λ g. claim_row g now locked

  abbrev pub ack_statement : Str → Str → ℤ → ℕ → Statement ℕ
  ack_statement gateway_id snapshot_id generation now = with_uuid snapshot_id λ id.
      with_uuid gateway_id λ g.
        change_rows (λ r. is_delivery id g r && eqb_ℤ r.generation generation) (acknowledge now)

  -- The truncation of the reason may have cut a character.
  abbrev pub retry_statement : Str → Str → ℕ → Str → Statement ℕ
  retry_statement gateway_id snapshot_id retry_at reason = with_uuid snapshot_id λ id.
      with_uuid gateway_id λ g rows.
        if s.is_text reason
        then change_rows (is_delivery id g) (postpone retry_at reason) rows
        else err (server character_not_in_repertoire)
