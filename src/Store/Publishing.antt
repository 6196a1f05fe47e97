-- ===== src/Store/Publishing.antt =====
-- The publication of snapshots in services/api/internal/postgres/store.go: GatewaysNeedingSnapshot,
-- NextGatewaySnapshotGeneration and EnqueueCurrentGatewaySnapshot. `clock` is the time of the
-- caller in nanoseconds and `now` the server's; a time of the server is only compared with others.
pub mod Peers
pub mod Generations
use personal_vpn.Prelude.{
  ℕ, ◌+◌, ◌*◌, ◌^◌, ◌==◌, Bool, true, false, ◌&&◌, ◌||◌, not, List, [], ◌∷◌, ◌++◌, Option, none,
  some, if◌then◌else◌, map, ltb, leb, Str, Str-discrete, holds, text, length, Fallible, ok, err, ℤ,
  pos, negsuc, leb_ℤ, zero, suc,
}
use personal_vpn.Agent.Snapshot.{Peer, Snapshot, Signing, sign, str_lt}
use personal_vpn.Store.Failures.{
  Failure, server, Error, invalid_input, failed, wrapped, unwrapped, signing, invalid_text,
  map_database_error, Fault, Faults,
}
use personal_vpn.Store.Tables.{
  GatewayState, ready, AssignmentRow, DeviceRow, LeaseRow, GatewayRow, SnapshotState, queued,
  in_flight, SnapshotRow, Database, Server, str_eq, is_live, select_where, find_where, exists_where,
}
use personal_vpn.Store.Deliveries.{enqueue_snapshot}

-- A query, and the error of its rows, which the two functions below wrap or not.
abbrev pub read_rows :
    {A : Type 0} → (Failure → Error) → Option Fault → Option Fault → A → Fallible Error A
read_rows of_rows (some f) _ a = err (map_database_error f.failure)
read_rows of_rows none (some f) a = err (of_rows f.failure)
read_rows of_rows none none a = ok a

abbrev pub is_ready : GatewayState → Bool
is_ready ready = true
is_ready _ = false

-- IN ('queued', 'in_flight').
abbrev pub is_outstanding : SnapshotState → Bool
is_outstanding queued = true
is_outstanding in_flight = true
is_outstanding _ = false

abbrev pub is_ahead : Str → AssignmentRow → Bool
is_ahead gateway_id a =
    str_eq a.gateway_id gateway_id
    && is_live a.state
    && not (leb_ℤ a.desired_generation a.observed_generation)

abbrev pub is_outstanding_for : Str → SnapshotRow → Bool
is_outstanding_for gateway_id r = str_eq r.gateway_id gateway_id && is_outstanding r.state

unfoldable pub needs_snapshot : Database → GatewayRow → Bool
needs_snapshot db g =
    is_ready g.state
    && exists_where (is_ahead g.id) db.assignments
    && not (exists_where (is_outstanding_for g.id) db.snapshots)

-- ORDER BY a text.
module _ {ℓ} {A : Type ℓ} (key : A → Str) where
  unfoldable pub insert_by : A → List A → List A
  insert_by a [] = a ∷ []
  insert_by a (b ∷ l) = if str_lt (key b) (key a) then b ∷ insert_by a l else a ∷ b ∷ l

  unfoldable pub order_by : List A → List A
  order_by [] = []
  order_by (a ∷ l) = insert_by a (order_by l)

unfoldable pub gateways_needing_snapshot : Database → Faults → Fallible Error (List Str)
gateways_needing_snapshot db faults =
    read_rows (wrapped (text "list gateways needing snapshot")) (faults 0) (faults 1)
      (order_by (λ id. id) (map (λ g. g.id) (select_where (needs_snapshot db) db.gateways)))

abbrev pub max_ℤ : ℤ → ℤ → ℤ
max_ℤ a b = if leb_ℤ a b then b else a

abbrev pub next_ℤ : ℤ → ℤ
next_ℤ (pos n) = pos (n + 1)
next_ℤ (negsuc zero) = pos 0
next_ℤ (negsuc (suc n)) = negsuc n

-- COALESCE(MAX(generation), 0) of the rows of the gateway.
unfoldable pub max_generation : Str → List SnapshotRow → Option ℤ
max_generation gateway_id [] = none
max_generation gateway_id (r ∷ rows) =
    let rest = max_generation gateway_id rows in
    if str_eq r.gateway_id gateway_id
    then some (elim rest [ none ↦ r.generation | some m ↦ max_ℤ r.generation m ])
    else rest

abbrev pub or_zero : Option ℤ → ℤ
or_zero none = pos 0
or_zero (some m) = m

abbrev pub out_of_range : Str
out_of_range = text "22003"

-- The sum is a bigint.
abbrev pub bigint : ℤ → Fallible Failure ℤ
bigint g = if leb_ℤ (pos (2 ^ 63)) g then err (server out_of_range) else ok g

module _ (s : Server) where
  unfoldable pub next_gateway_snapshot_generation : Database → Str → Option Fault → ℤ × Option Error
  next_gateway_snapshot_generation db gateway_id fault =
      if str_eq gateway_id [] then (pos 0, some invalid_input) else elim fault [
        | some f ↦ (pos 0, some (map_database_error f.failure))
        | none ↦ elim (s.uuid gateway_id) [
          | none ↦ (pos 0, some (map_database_error (server invalid_text)))
          | some g ↦ elim (bigint (next_ℤ (or_zero (max_generation g db.snapshots)))) [
            | err f ↦ (pos 0, some (map_database_error f))
            | ok generation ↦ (generation, none)
          ]
        ]
      ]

abbrev pub has_device : AssignmentRow → DeviceRow → Bool
has_device a d = str_eq d.id a.device_id

abbrev pub has_lease : AssignmentRow → LeaseRow → Bool
has_lease a l = str_eq l.id a.lease_id

-- `host(l.ipv4)` and `host(l.ipv6)`.
pub record Hosts : Type 0 where
  pub host_ipv4 : ℕ → Str
  pub host_ipv6 : ℕ → Str

abbrev pub ten_minutes : ℕ
ten_minutes = 10 * 60 * 1000000000

module _ (h : Hosts) where
  unfoldable pub peer_of : DeviceRow → LeaseRow → Peer
  peer_of d l = record {
    public_key = d.public_key;
    ipv4 = h.host_ipv4 l.ipv4 ++ text "/32";
    ipv6 = h.host_ipv6 l.ipv6 ++ text "/128";
  }

  -- The join of an assignment with its device and its lease.
  unfoldable pub join_row : Database → AssignmentRow → List (Str × Peer)
  join_row db a = elim (find_where (has_device a) db.devices) [
    | none ↦ []
    | some d ↦ elim (find_where (has_lease a) db.leases) [
      | none ↦ []
      | some l ↦ (d.id, peer_of d l) ∷ []
    ]
  ]

  unfoldable pub join_rows : Database → Str → List AssignmentRow → List (Str × Peer)
  join_rows db gateway_id [] = []
  join_rows db gateway_id (a ∷ assignments) =
      let rest = join_rows db gateway_id assignments in
      if str_eq a.gateway_id gateway_id && is_live a.state then join_row db a ++ rest else rest

  unfoldable pub current_peers : Database → Str → List Peer
  current_peers db gateway_id =
      map (λ row. row.1) (order_by (λ row. row.0) (join_rows db gateway_id db.assignments))

  abbrev pub current_snapshot : Database → Str → Str → ℤ → ℕ → Snapshot
  current_snapshot db g gateway_id generation clock = record {
    gateway_id = gateway_id;
    generation = generation;
    expires_at = clock + ten_minutes;
    peers = current_peers db g;
    signature = [];
  }

  module _ (s : Server) (x : Signing) where
    -- What is put in the outbox: the payload and its signature.
    unfoldable pub signed_payload : Snapshot → Str → Fallible Error (Str × Str)
    signed_payload snapshot signing_key = elim (sign x snapshot signing_key) [
      | err e ↦ err (signing e)
      | ok signed ↦ elim (x.marshal (record signed { signature = [] })) [
        | none ↦ err (failed (text "encode snapshot"))
        | some payload ↦ ok (payload, signed.signature)
      ]
    ]

    -- `id` is the identifier that the server draws for the row.
    unfoldable pub enqueue_current_gateway_snapshot :
        Database → Str → ℤ → Str → ℕ → Str → ℕ → Faults → Database × Fallible Error (Unit {0})
    enqueue_current_gateway_snapshot db gateway_id generation signing_key clock id now faults =
        if str_eq gateway_id [] || leb_ℤ generation (pos 0) || not (length signing_key == 64)
        then (db, err invalid_input)
        else elim (faults 0) [
          | some f ↦ (db, err (map_database_error f.failure))
          | none ↦ elim (s.uuid gateway_id) [
            | none ↦ (db, err (map_database_error (server invalid_text)))
            | some g ↦ elim (faults 1) [
              | some f ↦ (db, err (unwrapped f.failure))
              | none ↦
                  elim (signed_payload (current_snapshot db g gateway_id generation clock)
                    signing_key) [
                      | err e ↦ (db, err e)
                      | ok (payload, signature) ↦
                          enqueue_snapshot s db gateway_id generation payload signature id now
                            (faults 2)
                    ]
            ]
          ]
        ]
