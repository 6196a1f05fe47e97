-- ===== src/Store/Allocation.antt =====
-- CreateTunnelConfiguration of services/api/internal/postgres/store.go: one serializable transaction,
-- whose calls are numbered for their faults. Go's times are in nanoseconds, and a time that is
-- stored loses what is below a microsecond.
pub mod Creation
pub mod Outcomes
pub mod Keys
pub mod Replays
pub mod Leases
use personal_vpn.Prelude.{
  ℕ, ◌+◌, ◌-◌, ◌*◌, ◌%◌, ◌==◌, Bool, true, false, ◌&&◌, ◌||◌, not, List, [], ◌∷◌, ◌++◌, Option,
  none, some, if◌then◌else◌, map, ltb, leb, Str, Str-discrete, holds, text, length, Fallible, ok,
  err, fail_if, ◌>>=◌, ◌>>◌, member, pos,
}
use personal_vpn.Encoding.Fmt.{decimal}
use personal_vpn.Control.{DeviceState, TunnelConfiguration, blank}
use personal_vpn.Agent.Snapshot.{str_lt}
use personal_vpn.Store.Addresses.{Pool, parse_pool, first_available_address}
use personal_vpn.Store.Addresses
use personal_vpn.Store.Failures.{
  Failure, no_rows, server, Error, invalid_input, not_found, conflict, capacity_exhausted,
  device_not_active, device_already_allocated, wrapped, failed, unique_violation, invalid_text,
  check_violation, map_database_error, Fault, Faults,
}
use personal_vpn.Store.Tables.{
  AssignmentState, pending, AssignmentRow, DeviceRow, LeaseRow, GatewayRow, RegionRow,
  IdempotencyRow, Database, Server, str_eq, is_live, select_where, find_where, exists_where,
  count_where,
}
use personal_vpn.Store.Outbox.{commit}
use personal_vpn.Store.Publishing.{Hosts, is_ready, has_lease}
use personal_vpn.Store.Confirmation.{is_unreleased}

-- What the store rests on: SHA-256, encoding/json, netip and the server.
pub record Externals : Type 0 where
  pub server_of : Server
  pub hosts : Hosts
  pub sha256 : Str → Str
  pub marshal : TunnelConfiguration → Option Str
  pub unmarshal : Str → Option TunnelConfiguration
  pub pool_of : Str → Option Pool
  pub ipv4_text : ℕ → Str
  pub ipv6_text : ℕ → Str

-- What one call draws and meets.
pub record Draws : Type 0 where
  pub clock : ℕ
  pub now : ℕ
  pub lease_id : Str
  pub assignment_id : Str
  pub locked : List Str
  pub faults : Faults

-- A call of the database: its fault, or what the server answers.
abbrev pub call :
    {A : Type 0} → Option Fault → (Failure → Error) → Fallible Failure A → Fallible Error A
call (some fault) of_failure answer = err (of_failure fault.failure)
call none of_failure (err f) = err (of_failure f)
call none of_failure (ok a) = ok a

abbrev pub day : ℕ
day = 24 * 60 * 60 * 1000000000

abbrev pub stored_time : ℕ → ℕ
stored_time t = t - t % 1000

abbrev pub or_no_rows : {A : Type 0} → Option A → Fallible Failure A
or_no_rows none = err no_rows
or_no_rows (some a) = ok a

abbrev pub is_active_state : DeviceState → Bool
is_active_state DeviceState.active = true
is_active_state _ = false

unfoldable pub has_colon : Str → Bool
has_colon [] = false
has_colon (c ∷ host) = c == b':' || has_colon host

-- net.JoinHostPort.
abbrev pub join_host_port : Str → Str → Str
join_host_port host port =
    if has_colon host then text "[" ++ (host ++ (text "]:" ++ port)) else host ++ (text ":" ++ port)

unfoldable pub operation_of : Str → Str
operation_of device_id = text "create_tunnel_configuration:" ++ device_id

abbrev pub owned_device : Str → Str → DeviceRow → Bool
owned_device device owner d = str_eq d.id device && str_eq d.user_id owner

abbrev pub has_key : Str → Str → Str → IdempotencyRow → Bool
has_key user_id operation key_hash r =
    str_eq r.user_id user_id && str_eq r.operation operation && str_eq r.key_hash key_hash

abbrev pub is_open_region : Str → RegionRow → Bool
is_open_region region_id r = str_eq r.id region_id && r.available

-- A row of the join of the live assignments with leases and gateways.
pub record Existing : Type 0 where
  pub assignment : AssignmentRow
  pub lease : LeaseRow
  pub gateway : GatewayRow

abbrev pub has_gateway : AssignmentRow → GatewayRow → Bool
has_gateway a g = str_eq g.id a.gateway_id

unfoldable pub existing_row : Database → Str → AssignmentRow → Option Existing
existing_row db device_id a =
    if not (str_eq a.device_id device_id && is_live a.state)
    then none
    else elim (find_where (has_lease a) db.leases) [
      | none ↦ none
      | some l ↦
          if not (is_unreleased l) then none else elim (find_where (has_gateway a) db.gateways) [
            | none ↦ none
            | some g ↦ some (record { assignment = a; lease = l; gateway = g })
          ]
    ]

abbrev later : Existing → Option Existing → Existing
later r none = r
later r (some q) = if leb q.assignment.created_at r.assignment.created_at then r else q

-- ORDER BY created_at DESC LIMIT 1.
unfoldable pub existing : Database → Str → List AssignmentRow → Option Existing
existing db device_id [] = none
existing db device_id (a ∷ assignments) =
    let rest = existing db device_id assignments in
    elim (existing_row db device_id a) [ none ↦ rest | some r ↦ some (later r rest) ]

abbrev pub load : Database → GatewayRow → ℕ
load db g = count_where (λ a. str_eq a.gateway_id g.id && is_live a.state) db.assignments

unfoldable pub has_room : Database → Str → List Str → GatewayRow → Bool
has_room db region_id locked g =
    str_eq g.region_id region_id
    && is_ready g.state
    && ltb (load db g) g.capacity_peers
    && not (member Str-discrete g.id locked)

-- ORDER BY the number of peers, then the identifier.
unfoldable pub lighter : Database → GatewayRow → GatewayRow → Bool
lighter db a b = ltb (load db a) (load db b) || load db a == load db b && str_lt a.id b.id

abbrev lightest : Database → GatewayRow → Option GatewayRow → GatewayRow
lightest db g none = g
lightest db g (some b) = if lighter db b g then b else g

unfoldable pub choose_gateway : Database → Str → List Str → List GatewayRow → Option GatewayRow
choose_gateway db region_id locked [] = none
choose_gateway db region_id locked (g ∷ gateways) =
    let rest = choose_gateway db region_id locked gateways in
    if has_room db region_id locked g then some (lightest db g rest) else rest

abbrev pub is_taken : Str → LeaseRow → Bool
is_taken region_id l = str_eq l.region_id region_id && is_unreleased l

-- `activeAddresses`: the addresses of the leases of the region that are not released.
unfoldable pub active_addresses : Database → Str → List ℕ × List ℕ
active_addresses db region_id =
    let leases = select_where (is_taken region_id) db.leases in
    (map (λ l. l.ipv4) leases, map (λ l. l.ipv6) leases)

abbrev pub of_address : Addresses.Error → Error
of_address parse_pool = failed (text "parse address pool")
of_address Addresses.capacity_exhausted = capacity_exhausted

abbrev pub available : Option Pool → List ℕ → Fallible Error ℕ
available pool used = elim (first_available_address pool used) [
  | err e ↦ err (of_address e)
  | ok a ↦ ok a
]

-- The three unique indexes of the leases that are not released, and the primary key.
abbrev pub is_same_lease : LeaseRow → LeaseRow → Bool
is_same_lease l q =
    str_eq q.id l.id
    || is_unreleased q
      && (str_eq q.device_id l.device_id
          || str_eq q.region_id l.region_id && (q.ipv4 == l.ipv4 || q.ipv6 == l.ipv6))

abbrev pub is_same_assignment : AssignmentRow → AssignmentRow → Bool
is_same_assignment a q = str_eq q.id a.id || is_live q.state && str_eq q.device_id a.device_id

unfoldable pub insert_lease : LeaseRow → Database → Fallible Failure Database
insert_lease l db =
    if exists_where (is_same_lease l) db.leases
    then err (server unique_violation)
    else ok (record db { leases = db.leases ++ l ∷ [] })

unfoldable pub insert_assignment : AssignmentRow → Database → Fallible Failure Database
insert_assignment a db =
    if not (ltb a.created_at a.expires_at)
    then err (server check_violation)
    else if exists_where (is_same_assignment a) db.assignments
    then err (server unique_violation)
    else ok (record db { assignments = db.assignments ++ a ∷ [] })

unfoldable pub insert_key : IdempotencyRow → ℕ → Database → Fallible Failure Database
insert_key r now db =
    if not (ltb now r.expires_at)
    then err (server check_violation)
    else if exists_where (has_key r.user_id r.operation r.key_hash) db.idempotency_keys
    then err (server unique_violation)
    else ok (record db { idempotency_keys = db.idempotency_keys ++ r ∷ [] })
