-- ===== src/Control/Steps.antt =====
-- Histories of calls on the service, and what each call does to the state.
use personal_vpn.Prelude.{
  ℕ, ◌≡◌, ◌⊎◌, inl, inr, true, false, Option, none, some, arith, ok, Result-cases, Option-cases,
  Bool-cases, ltb, Str, Str-discrete, get, put, length, ◌||◌,
}
use personal_vpn.Control.{
  Device, Region, RegisterDeviceRequest, Service, register_device, register_checked, insert_device,
  new_device, request_revocation, uuid_text, validate_register_device, revocation_pending,
  is_revoked,
}
use personal_vpn.Control.Tunnel.{
  record_key, configure, next_host, record_configuration, Created, allocate, replay_or_allocate,
  lookup_target, create_tunnel_configuration,
}

-- What registering can do to the service: nothing, or a new device under a new key.
pub record IsRegistered (s t : Service) (owner_id : Str) (request : RegisterDeviceRequest)
    (draw : Option Str) (now : ℕ) : Type 0 where
  pub value : Str
  pub drawn : draw ≡ some value
  pub unused : get Str-discrete request.public_key s.public_keys ≡ none
  pub after : t ≡ insert_device s (new_device owner_id request now (uuid_text value))

pub register_device-cases :
    (s : Service) (owner_id : Str) (request : RegisterDeviceRequest) (draw : Option Str) (now : ℕ)
    → ((register_device s owner_id request draw now).0 ≡ s)
      ⊎ IsRegistered s (register_device s owner_id request draw now).0 owner_id request draw now
unfolding register_device register_checked
register_device-cases s owner_id request draw now =
    elim (Result-cases (validate_register_device owner_id request)) [
      | inl (e, bad) ↦ inl (ground arith)
      | inr (tt, good) ↦ elim (Option-cases (get Str-discrete request.public_key s.public_keys)) [
        | inr (other, taken) ↦ inl (ground arith)
        | inl unused ↦ elim (Option-cases draw) [
          | inl undrawn ↦ inl (ground arith)
          | inr (value, drawn) ↦
              inr (record { value = value; drawn = drawn; unused = unused; after = ground arith })
        ]
      ]
    ]

pub record IsPending (s t : Service) (owner_id device_id : Str) : Type 0 where
  pub device : Device
  pub found : get Str-discrete device_id s.devices ≡ some device
  pub owned : device.owner_id ≡ owner_id
  pub after : t ≡ record s {
    devices = put Str-discrete device_id (record device { state = revocation_pending }) s.devices;
  }

pub request_revocation-cases :
    (s : Service) (owner_id device_id : Str)
    → ((request_revocation s owner_id device_id).0 ≡ s)
      ⊎ IsPending s (request_revocation s owner_id device_id).0 owner_id device_id
unfolding request_revocation
request_revocation-cases s owner_id device_id =
    elim (Option-cases (get Str-discrete device_id s.devices)) [
      | inl missing ↦ inl (ground arith)
      | inr (device, found) ↦ elim (Str-discrete device.owner_id owner_id) [
        | no other ↦ inl (ground arith)
        | yes owned ↦ elim (Bool-cases (is_revoked device.state)) [
          | inl done ↦ inl (ground arith)
          | inr pending ↦
              inr (record { device = device; found = found; owned = owned; after = ground arith })
        ]
      ]
    ]

-- A configuration that was made: its region, the draw, and the key that had no record.
pub record IsAllocated (s : Service) (owner_id device_id region_id idempotency_key : Str)
    (draw : Option Str) (now : ℕ) (o : Created) : Type 0 where
  pub region : Region
  pub target : lookup_target s owner_id device_id region_id ≡ ok region
  pub value : Str
  pub drawn : draw ≡ some value
  pub unused : get Str-discrete (record_key owner_id device_id idempotency_key) s.idempotency ≡ none
  pub fits : ltb 254 (next_host s region_id) ≡ false
  pub result : o ≡ (
    record_configuration s
        (record_key owner_id device_id idempotency_key)
        region_id
        (configure region (uuid_text value) (next_host s region_id) now),
    ok (configure region (uuid_text value) (next_host s region_id) now, true),
  )

pub create-cases :
    (s : Service) (owner_id device_id region_id idempotency_key : Str) (draw : Option Str) (now : ℕ)
    → ((create_tunnel_configuration s owner_id device_id region_id idempotency_key draw now).0 ≡ s)
      ⊎ IsAllocated s owner_id device_id region_id idempotency_key draw now
          (create_tunnel_configuration s owner_id device_id region_id idempotency_key draw now)
unfolding create_tunnel_configuration replay_or_allocate allocate
create-cases s owner_id device_id region_id idempotency_key draw now =
    elim (Bool-cases (ltb (length idempotency_key) 16 || ltb 128 (length idempotency_key))) [
      | inl bad ↦ inl (ground arith)
      | inr good ↦ elim (Result-cases (lookup_target s owner_id device_id region_id)) [
        | inl (e, missing) ↦ inl (ground arith)
        | inr (region, found) ↦
            elim (Option-cases
              (get Str-discrete (record_key owner_id device_id idempotency_key) s.idempotency)) [
                | inr (old, seen) ↦ inl (ground arith)
                | inl unused ↦ elim (Bool-cases (ltb 254 (next_host s region_id))) [
                  | inl full ↦ inl (ground arith)
                  | inr fits ↦ elim (Option-cases draw) [
                    | inl undrawn ↦ inl (ground arith)
                    | inr (value, drawn) ↦ inr (record {
                      region = region;
                      target = found;
                      value = value;
                      drawn = drawn;
                      unused = unused;
                      fits = fits;
                      result = ground arith;
                    })
                  ]
                ]
              ]
      ]
    ]

-- A call that changes state, with its clock and its draw.
pub data Call : Type 0 where
  registers : Str → RegisterDeviceRequest → Option Str → ℕ → Call
  revokes : Str → Str → Call
  creates : Str → Str → Str → Str → Option Str → ℕ → Call

abbrev pub call : Service → Call → Service
call s (registers owner_id request draw now) = (register_device s owner_id request draw now).0
call s (revokes owner_id device_id) = (request_revocation s owner_id device_id).0
call s (creates owner_id device_id region_id idempotency_key draw now) =
    (create_tunnel_configuration s owner_id device_id region_id idempotency_key draw now).0

-- The identifier that is drawn for a device belongs to no other device.
abbrev pub IsFresh : Service → Call → Type 0
IsFresh s (registers owner_id request (some value) now) =
    get Str-discrete (uuid_text value) s.devices ≡ none
IsFresh s _ = Unit

pub data Reach (s : Service) : Service → Type 0 where
  here : Reach s s
  next : {t : Service} → (c : Call) → Reach s t → IsFresh t c → Reach s (call t c)
