-- ===== src/Store/Machine.antt =====
-- The life of a snapshot in the outbox, and that every call of the store follows it.
pub mod Claims
pub mod Statements
pub mod Calls
pub mod History
pub mod Draining
pub mod InFlight
use personal_vpn.Prelude.{
  ◌+◌, ◌≡◌, ◌≢◌, ◌≤◌, ◌<◌, refl, sym, ap, subst, ◌∙◌, ◌⊎◌, inl, inr, Bool, true, false, List, [],
  ◌∷◌, ◌++◌, ◌==◌, if◌then◌else◌, arith, Bool-cases, All,
}
use personal_vpn.Store.Tables.{
  SnapshotState, queued, in_flight, acked, failed, SnapshotRow, update_where,
}
use personal_vpn.Store.Outbox.{is_waiting, max_attempts}

-- What names a snapshot and what is delivered.
abbrev pub IsSameContent : SnapshotRow → SnapshotRow → Type 0
IsSameContent r q =
    (q.id ≡ r.id)
    × (q.gateway_id ≡ r.gateway_id)
    × (q.generation ≡ r.generation)
    × (q.payload ≡ r.payload)
    × (q.signature ≡ r.signature)

-- The steps of the machine: sent, acknowledged and put back.
pub data Moves (r q : SnapshotRow) : Type 0 where
  sent :
      is_waiting r.state ≡ true
      → q.state ≡ in_flight
      → q.attempts ≡ r.attempts + 1
      → r.attempts < max_attempts
      → Moves r q
  acknowledged : r.state ≡ in_flight → q.state ≡ acked → q.attempts ≡ r.attempts → Moves r q
  put_back : r.state ≡ in_flight → q.state ≡ failed → q.attempts ≡ r.attempts → Moves r q

abbrev pub Stays : SnapshotRow → SnapshotRow → Type 0
Stays r q = (r ≡ q) ⊎ (IsSameContent r q × Moves r q)

-- Row by row, and perhaps new ones at the end, which are queued and have not been sent.
abbrev pub Follows : List SnapshotRow → List SnapshotRow → Type 0
Follows [] new = All (λ q. (q.state ≡ queued) × (q.attempts ≡ 0)) new
Follows (r ∷ rows) [] = ⊥
Follows (r ∷ rows) (q ∷ new) = Stays r q × Follows rows new

-- The unique keys of the table.
abbrev pub Apart : SnapshotRow → SnapshotRow → Type 0
Apart r q = (q.id ≢ r.id) × (q.gateway_id ≡ r.gateway_id → q.generation ≢ r.generation)

abbrev pub IsKeyed : List SnapshotRow → Type 0
IsKeyed [] = Unit
IsKeyed (r ∷ rows) = All (Apart r) rows × IsKeyed rows

abbrev pub is_queued : SnapshotState → Bool
is_queued queued = true
is_queued _ = false

-- A row has been sent at most a hundred times, and never exactly when it is queued.
abbrev pub IsOrderly : SnapshotRow → Type 0
IsOrderly r = (r.attempts ≤ max_attempts) × (is_queued r.state ≡ (r.attempts == 0))

pub record Sound (old new : List SnapshotRow) : Type 0 where
  pub follows : Follows old new
  pub keyed : IsKeyed new
  pub orderly : All IsOrderly new

Stays-IsSameContent : (r q : SnapshotRow) → Stays r q → IsSameContent r q
Stays-IsSameContent r q (inl same) = subst (IsSameContent r) same (refl, refl, refl, refl, refl)
Stays-IsSameContent r q (inr (content, step)) = content

Stays-Apart : (r r' q q' : SnapshotRow) → Stays r r' → Stays q q' → Apart r q → Apart r' q'
Stays-Apart r r' q q' left right apart =
    let (id, gateway, generation, _, _) = Stays-IsSameContent r r' left in
    let (id', gateway', generation', _, _) = Stays-IsSameContent q q' right in
    (
      (λ same. apart.0 (sym id' ∙ (same ∙ id))),
      λ same. λ equal.
          apart.1 (sym gateway' ∙ (same ∙ gateway)) (sym generation' ∙ (equal ∙ generation)),
    )

Stays-IsOrderly : (r q : SnapshotRow) → Stays r q → IsOrderly r → IsOrderly q
Stays-IsOrderly r q (inl same) orderly = subst IsOrderly same orderly
Stays-IsOrderly r q (inr (_, sent waiting state attempts below)) (bound, fresh) =
    (ground arith, ground arith)
Stays-IsOrderly r q (inr (_, acknowledged was state attempts)) (bound, fresh) =
    (ground arith, ground arith)
Stays-IsOrderly r q (inr (_, put_back was state attempts)) (bound, fresh) =
    (ground arith, ground arith)

pub Follows-refl : (rows : List SnapshotRow) → Follows rows rows
Follows-refl [] = tt
Follows-refl (r ∷ rows) = (inl refl, Follows-refl rows)

pub Follows-append :
    (rows new : List SnapshotRow)
    → All (λ q. (q.state ≡ queued) × (q.attempts ≡ 0)) new
    → Follows rows (rows ++ new)
Follows-append [] new h = h
Follows-append (r ∷ rows) new h = (inl refl, Follows-append rows new h)

-- The rows that are changed move, and the others stay.
update_where-Stays :
    (p : SnapshotRow → Bool) (f : SnapshotRow → SnapshotRow) (r : SnapshotRow)
    → (p r ≡ true → Stays r (f r))
    → Stays r (if p r then f r else r)
update_where-Stays p f r h = elim (Bool-cases (p r)) [
  | inl picked ↦ (rw picked (h picked))
  | inr passed ↦ (rw passed (inl refl))
]

update_where-Apart :
    (p : SnapshotRow → Bool) (f : SnapshotRow → SnapshotRow) (r r' : SnapshotRow)
    (rows : List SnapshotRow)
    → Stays r r'
    → All (λ q. p q ≡ true → Stays q (f q)) rows
    → All (Apart r) rows
    → All (Apart r') (update_where p f rows)
unfolding update_where
update_where-Apart p f r r' [] stays h apart = tt
update_where-Apart p f r r' (q ∷ rows) stays (here, h) (first, apart) = (
  Stays-Apart r r' q (if p q then f q else q) stays (update_where-Stays p f q here) first,
  update_where-Apart p f r r' rows stays h apart,
)

-- An update whose rows all move is sound.
pub update_where-Sound :
    (p : SnapshotRow → Bool) (f : SnapshotRow → SnapshotRow) (rows : List SnapshotRow)
    → All (λ r. p r ≡ true → Stays r (f r)) rows
    → IsKeyed rows
    → All IsOrderly rows
    → Sound rows (update_where p f rows)
unfolding update_where
update_where-Sound p f [] h keyed orderly = record { follows = tt; keyed = tt; orderly = tt }
update_where-Sound p f (r ∷ rows) (here, h) (apart, keyed) (first, orderly) =
    let stays = update_where-Stays p f r here in
    let rest = update_where-Sound p f rows h keyed orderly in
    record {
      follows = (stays, rest.follows);
      keyed = (update_where-Apart p f r (if p r then f r else r) rows stays h apart, rest.keyed);
      orderly = (Stays-IsOrderly r (if p r then f r else r) stays first, rest.orderly);
    }
