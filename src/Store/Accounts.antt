-- ===== src/Store/Accounts.antt =====
-- The accounts, devices and regions of services/api/internal/postgres/store.go: ListRegions,
-- CreateUser, FindUserPasswordHash, RegisterDevice, ListDevices, RequestRevocation, and the check of
-- the connection, requireTLSForRemoteHost.
pub mod Effects
use personal_vpn.Prelude.{
  ℕ, ◌+◌, ◌==◌, Bool, true, false, ◌&&◌, ◌||◌, not, List, [], ◌∷◌, ◌++◌, Option, none, some,
  if◌then◌else◌, map, ltb, Str, Str-discrete, holds, text, Fallible, ok, err, zero, suc,
}
use personal_vpn.Encoding.Space.{trim_space, lower_ascii}
use personal_vpn.Control.{
  DeviceState, active, revocation_pending, Device, Region, RegisterDeviceRequest,
  validate_register_device,
}
use personal_vpn.Control
use personal_vpn.Agent.Snapshot.{str_lt}
use personal_vpn.Store.Failures
use personal_vpn.Store.Failures.{
  Failure, no_rows, server, Error, invalid_input, wrapped, failed, unique_violation,
  foreign_key_violation, check_violation, invalid_text, map_database_error, Fault, Faults,
}
use personal_vpn.Store.Tables.{
  UserRow, DeviceRow, RegionRow, Database, Server, str_eq, select_where, find_where, exists_where,
  update_where, count_where,
}
use personal_vpn.Store.Publishing.{read_rows, order_by}

-- What is scanned of a region; the rest of the struct is zero.
abbrev pub region_of : RegionRow → Region
region_of r = record {
  id = r.id;
  display_name = r.display_name;
  available = r.available;
  endpoint = [];
  server_public_key = [];
  dns_v4 = [];
  dns_v6 = [];
}

abbrev pub device_of : DeviceRow → Device
device_of d = record {
  id = d.id;
  name = d.name;
  platform = d.platform;
  public_key = d.public_key;
  state = d.state;
  created_at = d.created_at;
  owner_id = [];
}

-- ORDER BY, with the order as a test.
module _ {A : Type 0} (before : A → A → Bool) where
  unfoldable pub insert_sorted : A → List A → List A
  insert_sorted a [] = a ∷ []
  insert_sorted a (b ∷ l) = if before b a then b ∷ insert_sorted a l else a ∷ b ∷ l

  unfoldable pub sort_rows : List A → List A
  sort_rows [] = []
  sort_rows (a ∷ l) = insert_sorted a (sort_rows l)

-- `collate` is the order of texts in the database.
unfoldable pub list_regions : (Str → Str → Bool) → Database → Faults → Fallible Error (List Region)
list_regions collate db faults =
    read_rows (wrapped (text "list regions")) (faults 0) (faults 1)
      (map region_of (sort_rows (λ a b. collate a.id b.id) db.regions))

abbrev pub has_email : Str → UserRow → Bool
has_email email u = str_eq u.email_normalized email

abbrev pub new_user : Str → Str → Str → UserRow
new_user id email password_hash = record {
  id = id;
  email_normalized = email;
  password_hash = password_hash;
  disabled_at = none;
}

-- `is_normalized` is the constraint users_email_normalized: what the database makes of the case, the
-- spaces and the length of the text.
unfoldable pub insert_user : (Str → Bool) → UserRow → Database → Fallible Failure Database
insert_user is_normalized u db =
    if not (is_normalized u.email_normalized)
    then err (server check_violation)
    else if exists_where (λ v. str_eq v.id u.id || has_email u.email_normalized v) db.users
    then err (server unique_violation)
    else ok (record db { users = db.users ++ u ∷ [] })

-- A statement that commits by itself and returns a value of the row that it has written.
unfoldable pub write_row :
    {A : Type 0}
    → Option Fault
    → Fallible Failure (Database × A)
    → Database
    → Database × Fallible Error A
write_row none (err f) db = (db, err (map_database_error f))
write_row none (ok (new, a)) db = (new, ok a)
write_row (some fault) (err f) db = (db, err (map_database_error fault.failure))
write_row (some fault) (ok (new, a)) db =
    (if fault.effective then new else db, err (map_database_error fault.failure))

abbrev pub with_value :
    {A : Type 0} → A → Fallible Failure Database → Fallible Failure (Database × A)
with_value a (err f) = err f
with_value a (ok db) = ok (db, a)

-- `id` is what gen_random_uuid() draws.
unfoldable pub create_user :
    (Str → Bool) → Database → Str → Str → Str → Option Fault → Database × Fallible Error Str
create_user is_normalized db email password_hash id fault =
    write_row fault (with_value id (insert_user is_normalized (new_user id email password_hash) db))
      db

-- The identifier, the hash of the password, and whether the account is disabled.
unfoldable pub find_user_password_hash :
    Database → Str → Option Fault → Fallible Error (Str × Str × Bool)
find_user_password_hash db email (some f) = err (map_database_error f.failure)
find_user_password_hash db email none = elim (find_where (has_email email) db.users) [
  | none ↦ err (map_database_error no_rows)
  | some u ↦ ok (u.id, u.password_hash, is_set u.disabled_at)
]
  where
    is_set : Option ℕ → Bool
    is_set none = false
    is_set (some t) = true

-- The errors of package control that validation returns.
abbrev pub of_control : Control.Error → Error
of_control Control.invalid_input = invalid_input
of_control Control.not_found = Failures.not_found
of_control Control.conflict = Failures.conflict
of_control Control.duplicate_region = failed (text "region already exists")
of_control Control.capacity_exhausted = Failures.capacity_exhausted
of_control Control.device_not_active = Failures.device_not_active
of_control (Control.random what) = failed what

abbrev pub new_device_row : Str → Str → RegisterDeviceRequest → ℕ → DeviceRow
new_device_row id user_id request now = record {
  id = id;
  user_id = user_id;
  name = trim_space request.name;
  platform = request.platform;
  public_key = request.public_key;
  state = active;
  created_at = now;
  revoked_at = none;
}

unfoldable pub insert_device : DeviceRow → Database → Fallible Failure Database
insert_device d db =
    if exists_where (λ e. str_eq e.id d.id || str_eq e.public_key d.public_key) db.devices
    then err (server unique_violation)
    else if not (exists_where (λ u. str_eq u.id d.user_id) db.users)
    then err (server foreign_key_violation)
    else ok (record db { devices = db.devices ++ d ∷ [] })

abbrev pub is_owned : Str → DeviceRow → Bool
is_owned user d = str_eq d.user_id user

abbrev pub device_before : DeviceRow → DeviceRow → Bool
device_before a b =
    ltb a.created_at b.created_at || a.created_at == b.created_at && str_lt a.id b.id

abbrev pub is_device : Str → Str → DeviceRow → Bool
is_device device user d = str_eq d.id device && str_eq d.user_id user

-- CASE WHEN state = 'revoked' THEN state ELSE 'revocation_pending' END.
abbrev pub revoking : DeviceState → DeviceState
revoking DeviceState.revoked = DeviceState.revoked
revoking _ = revocation_pending

abbrev pub request_row : DeviceRow → DeviceRow
request_row d = record d { state = revoking d.state }

module _ (s : Server) where
  abbrev known : {A : Type 0} → Str → (Str → Fallible Failure A) → Fallible Failure A
  known value next = elim (s.uuid value) [ none ↦ err (server invalid_text) | some id ↦ next id ]

  unfoldable pub register_device :
      Database
      → Str
      → RegisterDeviceRequest
      → Str
      → ℕ
      → Option Fault
      → Database × Fallible Error Device
  register_device db owner_id request id now fault =
      elim (validate_register_device owner_id request) [
        | err e ↦ (db, err (of_control e))
        | ok checked ↦
            write_row fault
              (known owner_id λ user.
                let d : DeviceRow = new_device_row id user request now in
                with_value (device_of d) (insert_device d db))
              db
      ]

  unfoldable pub list_devices : Database → Str → Faults → Fallible Error (List Device)
  list_devices db owner_id faults = elim (known owner_id λ user. ok user) [
    | err f ↦ read_rows (wrapped (text "list devices")) (some (fault_of f)) none []
    | ok user ↦
        read_rows (wrapped (text "list devices")) (faults 0) (faults 1)
          (map device_of (sort_rows device_before (select_where (is_owned user) db.devices)))
  ]
    where
      fault_of : Failure → Fault
      fault_of f = record { failure = f; effective = false }

  unfoldable pub request_revocation :
      Database → Str → Str → Option Fault → Database × Fallible Error (Unit {0})
  request_revocation db owner_id device_id fault =
      write_row fault
        (known device_id λ device. known owner_id λ user.
          if exists_where (is_device device user) db.devices
          then ok (
            record db { devices = update_where (is_device device user) request_row db.devices },
            tt,
          )
          else err no_rows)
        db

abbrev fold_byte : ℕ → ℕ
fold_byte c = if ltb 64 c && ltb c 91 then c + 32 else c

-- strings.EqualFold with a text of ASCII letters: the long s, U+017F, folds to an s.
unfoldable pub fold_ascii : Str → Str
fold_ascii [] = []
fold_ascii (a ∷ []) = fold_byte a ∷ []
fold_ascii (a ∷ b ∷ host) =
    let short = fold_ascii host in
    let rest = fold_ascii (b ∷ host) in
    if a == 0xC5 && b == 0xBF then b's' ∷ short else fold_byte a ∷ rest

-- What pgx has parsed of the address of the database; `is_loopback` is net.ParseIP followed by
-- IsLoopback.
pub record Connection : Type 0 where
  pub host : Str
  pub has_tls : Bool

-- An error is some text.
unfoldable pub require_tls_for_remote_host : (Str → Bool) → Connection → Option Str
require_tls_for_remote_host is_loopback c =
    if str_eq c.host [] || str_eq (fold_ascii c.host) (text "localhost")
    then none
    else if is_loopback c.host
    then none
    else if not c.has_tls
    then some (text "remote PostgreSQL connections require TLS")
    else none
