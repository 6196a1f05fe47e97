-- ===== src/Control.antt =====
-- services/api/internal/control/service.go. Each call runs under the mutex of the service, so a
-- history is a sequence of calls; the clock and the draws of crypto/rand are arguments of a call.
pub mod Tunnel
pub mod Steps
pub mod Registry
pub mod Owners
pub mod Replay
pub mod Hosts
pub mod Start
pub mod Registration
mod Tests
use personal_vpn.Prelude.{
  ℕ, zero, suc, ◌+◌, ◌*◌, ◌%◌, ◌^◌, ◌≡◌, Bool, true, false, ◌&&◌, ◌||◌, not, List, [], ◌∷◌, ◌++◌,
  Option, none, some, map, Fallible, ok, err, fail_if, ◌>>=◌, ◌>>◌, ltb, leb, ◌==◌, if◌then◌else◌,
  holds, Str, Str-discrete, text, length, take, drop, Map, get, put,
}
use personal_vpn.Encoding.Fmt.{decimal, hex, hex_bytes}
use personal_vpn.Encoding.Space.{trim_space}
use personal_vpn.Keys.{valid_public_key}

-- `random` is an error of crypto/rand, with what was to be generated.
pub data Error : Type 0 where
  invalid_input not_found conflict duplicate_region capacity_exhausted device_not_active : Error
  random : Str → Error

pub data DeviceState : Type 0 where
  active revocation_pending revoked : DeviceState

pub record Device : Type 0 where
  pub id : Str
  pub name : Str
  pub platform : Str
  pub public_key : Str
  pub state : DeviceState
  pub created_at : ℕ
  pub owner_id : Str

pub record Region : Type 0 where
  pub id : Str
  pub display_name : Str
  pub available : Bool
  pub endpoint : Str
  pub server_public_key : Str
  pub dns_v4 : Str
  pub dns_v6 : Str

pub record RegisterDeviceRequest : Type 0 where
  pub name : Str
  pub platform : Str
  pub public_key : Str

pub record TunnelConfiguration : Type 0 where
  pub assignment_id : Str
  pub endpoint : Str
  pub server_public_key : Str
  pub addresses : List Str
  pub dns_servers : List Str
  pub allowed_ips : List Str
  pub persistent_keepalive_seconds : ℕ
  pub expires_at : ℕ

pub record IdempotencyRecord : Type 0 where
  pub region_id : Str
  pub configuration : TunnelConfiguration

pub record Service : Type 0 where
  pub devices : Map Str Device
  pub public_keys : Map Str Str
  pub regions : Map Str Region
  pub idempotency : Map Str IdempotencyRecord
  pub region_next_host : Map Str ℕ

abbrev pub blank : Str → Bool
blank s = holds (Str-discrete (trim_space s) [])

unfoldable pub valid_platform : Str → Bool
valid_platform p =
    holds (Str-discrete p (text "windows"))
    || holds (Str-discrete p (text "android"))
    || holds (Str-discrete p (text "ios"))
    || holds (Str-discrete p (text "android_tv"))

unfoldable pub validate_region : Region → Fallible Error (Unit {0})
validate_region r = do
  fail_if (blank r.id || ltb 32 (length r.id) || blank r.display_name) invalid_input
  fail_if (blank r.endpoint || not (valid_public_key r.server_public_key)) invalid_input
  fail_if (blank r.dns_v4 || blank r.dns_v6) invalid_input

unfoldable pub validate_register_device : Str → RegisterDeviceRequest → Fallible Error (Unit {0})
validate_register_device owner_id request = do
  fail_if (blank owner_id || blank request.name || ltb 80 (length request.name)) invalid_input
  fail_if (not (valid_platform request.platform) || not (valid_public_key request.public_key))
      invalid_input

-- `value[6] = (value[6] & 0x0f) | 0x40` and `value[8] = (value[8] & 0x3f) | 0x80`.
abbrev at : ℕ → (ℕ → ℕ) → Str → Str
at n f [] = []
at zero f (b ∷ s) = f b ∷ s
at (suc n) f (b ∷ s) = b ∷ at n f s

abbrev set_bits : Str → Str
set_bits value = at 8 (λ b. b % 0x40 + 0x80) (at 6 (λ b. b % 0x10 + 0x40) value)

-- The text of an identifier, of sixteen bytes.
unfoldable pub uuid_text : Str → Str
uuid_text value =
    let v = set_bits value in
    hex_bytes (take 4 v)
    ++ b'-' ∷ hex_bytes (take 2 (drop 4 v))
    ++ b'-' ∷ hex_bytes (take 2 (drop 6 v))
    ++ b'-' ∷ hex_bytes (take 2 (drop 8 v))
    ++ b'-' ∷ hex_bytes (take 6 (drop 10 v))

abbrev pub random_uuid : Str → Option Str → Fallible Error Str
random_uuid what none = err (random what)
random_uuid what (some value) = ok (uuid_text value)

abbrev pub empty_service : Service
empty_service = record {
  devices = [];
  public_keys = [];
  regions = [];
  idempotency = [];
  region_next_host = [];
}

-- The loop of `NewService`.
unfoldable pub add_regions : Service → List Region → Fallible Error Service
add_regions s [] = ok s
add_regions s (region ∷ regions) =
    let rest =
      add_regions
        (record s {
          regions = put Str-discrete region.id region s.regions;
          region_next_host = put Str-discrete region.id 2 s.region_next_host;
        })
        regions in
    do
      validate_region region
      elim (get Str-discrete region.id s.regions) [
        | some other ↦ err duplicate_region
        | none ↦ rest
      ]

unfoldable pub new_service : List Region → Fallible Error Service
new_service regions = add_regions empty_service regions

abbrev values {ℓ} : {V : Type ℓ} → List (Str × V) → List V
values [] = []
values ((k, v) ∷ m) = v ∷ values m

-- The regions in the order of the map.
unfoldable pub list_regions : Service → List Region
list_regions s = values s.regions

unfoldable pub owned : Str → Map Str Device → List Device
owned owner_id [] = []
owned owner_id ((id, device) ∷ m) =
    let rest = owned owner_id m in
    if holds (Str-discrete device.owner_id owner_id) then device ∷ rest else rest

-- The devices of an owner in the order of the map.
unfoldable pub list_devices : Service → Str → List Device
list_devices s owner_id = owned owner_id s.devices

abbrev pub new_device : Str → RegisterDeviceRequest → ℕ → Str → Device
new_device owner_id request now id = record {
  id = id;
  name = trim_space request.name;
  platform = request.platform;
  public_key = request.public_key;
  state = active;
  created_at = now;
  owner_id = owner_id;
}

unfoldable pub insert_device : Service → Device → Service
insert_device s device = record s {
  devices = put Str-discrete device.id device s.devices;
  public_keys = put Str-discrete device.public_key device.id s.public_keys;
}

-- Under the lock: the public key is new, and the identifier is drawn.
unfoldable pub register_checked :
    Service → Str → RegisterDeviceRequest → Option Str → ℕ → Service × Fallible Error Device
register_checked s owner_id request draw now =
    elim (get Str-discrete request.public_key s.public_keys) [
      | some other ↦ (s, err conflict)
      | none ↦ elim draw [
        | none ↦ (s, err (random (text "device")))
        | some value ↦
            let device = new_device owner_id request now (uuid_text value) in
            (insert_device s device, ok device)
      ]
    ]

unfoldable pub register_device :
    Service → Str → RegisterDeviceRequest → Option Str → ℕ → Service × Fallible Error Device
register_device s owner_id request draw now = elim (validate_register_device owner_id request) [
  | err e ↦ (s, err e)
  | ok _ ↦ register_checked s owner_id request draw now
]

abbrev pub is_revoked : DeviceState → Bool
is_revoked revoked = true
is_revoked _ = false

abbrev pub is_active : DeviceState → Bool
is_active active = true
is_active _ = false

unfoldable pub request_revocation : Service → Str → Str → Service × Fallible Error (Unit {0})
request_revocation s owner_id device_id = elim (get Str-discrete device_id s.devices) [
  | none ↦ (s, err not_found)
  | some device ↦
      if not (holds (Str-discrete device.owner_id owner_id))
      then (s, err not_found)
      else if is_revoked device.state
      then (s, ok tt)
      else (
        record s {
          devices =
              put Str-discrete device_id (record device { state = revocation_pending }) s.devices;
        },
        ok tt,
      )
]
