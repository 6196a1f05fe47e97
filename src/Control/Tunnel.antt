-- ===== src/Control/Tunnel.antt =====
-- services/api/internal/control/service.go, `CreateTunnelConfiguration`. A configuration is a value
-- here, so `cloneConfiguration` is the identity.
use personal_vpn.Prelude.{
  ℕ, ◌+◌, ◌*◌, ◌%◌, ◌^◌, Bool, true, false, ◌||◌, not, List, [], ◌∷◌, ◌++◌, Option, none, some,
  Fallible, ok, err, ltb, if◌then◌else◌, holds, Str, Str-discrete, text, length, get, put,
}
use personal_vpn.Encoding.Fmt.{decimal, hex}
use personal_vpn.Control.{
  Error, invalid_input, not_found, conflict, capacity_exhausted, device_not_active, random, Region,
  TunnelConfiguration, Service, uuid_text, is_active,
}

abbrev pub day : ℕ
day = 24 * 60 * 60 * 1_000_000_000

-- The three texts with a zero byte between them.
unfoldable pub record_key : Str → Str → Str → Str
record_key owner_id device_id idempotency_key = owner_id ++ 0 ∷ (device_id ++ 0 ∷ idempotency_key)

unfoldable pub addresses_of : ℕ → List Str
addresses_of host =
    (text "10.70.0." ++ decimal host ++ text "/32")
    ∷ (text "fd70::" ++ hex host ++ text "/128")
    ∷ []

unfoldable pub configure : Region → Str → ℕ → ℕ → TunnelConfiguration
configure region assignment_id host now = record {
  assignment_id = assignment_id;
  endpoint = region.endpoint;
  server_public_key = region.server_public_key;
  addresses = addresses_of host;
  dns_servers = region.dns_v4 ∷ region.dns_v6 ∷ [];
  allowed_ips = text "0.0.0.0/0" ∷ text "::/0" ∷ [];
  persistent_keepalive_seconds = 25;
  expires_at = now + day;
}

-- A missing key of a map of uint16 gives 0.
unfoldable pub next_host : Service → Str → ℕ
next_host s region_id = elim (get Str-discrete region_id s.region_next_host) [
  | none ↦ 0
  | some host ↦ host
]

-- `regionNextHost[regionID]++` of a uint16, and the record.
unfoldable pub record_configuration : Service → Str → Str → TunnelConfiguration → Service
record_configuration s key region_id configuration = record s {
  region_next_host =
      put Str-discrete region_id ((next_host s region_id + 1) % 2 ^ 16) s.region_next_host;
  idempotency =
      put Str-discrete key (record { region_id = region_id; configuration = configuration })
        s.idempotency;
}

abbrev pub Created : Type 0
Created = Service × Fallible Error (TunnelConfiguration × Bool)

unfoldable pub allocate : Service → Region → Str → Str → Option Str → ℕ → Created
allocate s region region_id key draw now =
    let host = next_host s region_id in
    if ltb 254 host then (s, err capacity_exhausted) else elim draw [
      | none ↦ (s, err (random (text "assignment")))
      | some value ↦
          let configuration = configure region (uuid_text value) host now in
          (record_configuration s key region_id configuration, ok (configuration, true))
    ]

-- The records of earlier calls.
unfoldable pub replay_or_allocate : Service → Region → Str → Str → Option Str → ℕ → Created
replay_or_allocate s region region_id key draw now = elim (get Str-discrete key s.idempotency) [
  | some old ↦
      if not (holds (Str-discrete old.region_id region_id))
      then (s, err conflict)
      else (s, ok (old.configuration, false))
  | none ↦ allocate s region region_id key draw now
]

-- The checks of the device and of the region.
unfoldable pub lookup_target : Service → Str → Str → Str → Fallible Error Region
lookup_target s owner_id device_id region_id = elim (get Str-discrete device_id s.devices) [
  | none ↦ err not_found
  | some device ↦
      if not (holds (Str-discrete device.owner_id owner_id))
      then err not_found
      else if not (is_active device.state)
      then err device_not_active
      else elim (get Str-discrete region_id s.regions) [
        | none ↦ err not_found
        | some region ↦ if not region.available then err not_found else ok region
      ]
]

unfoldable pub create_tunnel_configuration :
    Service → Str → Str → Str → Str → Option Str → ℕ → Created
create_tunnel_configuration s owner_id device_id region_id idempotency_key draw now =
    if ltb (length idempotency_key) 16 || ltb 128 (length idempotency_key)
    then (s, err invalid_input)
    else elim (lookup_target s owner_id device_id region_id) [
      | err e ↦ (s, err e)
      | ok region ↦
          replay_or_allocate s region region_id (record_key owner_id device_id idempotency_key) draw
            now
    ]
