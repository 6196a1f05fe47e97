-- ===== src/HttpApi/Devices.antt =====
-- services/api/internal/httpapi/devices.go and regions.go: the handlers of devices, configurations
-- and regions. The interfaces DeviceService and RegionService are one record of operations, on the
-- state that the sessions share with them.
use personal_vpn.Prelude.{
  Bool, ◌||◌, List, [], ◌∷◌, Option, none, some, Fallible, ok, err, ltb, if◌then◌else◌, Str, text,
  length,
}
use personal_vpn.Encoding.Space.{trim_space}
use personal_vpn.Control.{Device, Region, RegisterDeviceRequest, TunnelConfiguration}
use personal_vpn.HttpApi.{
  Request, Write, problem, json, bare, Response, Decoded, decode_json, bearer_token,
}

-- The errors that the handlers tell apart with `errors.Is`, and the others.
pub data ServiceError : Type 0 where
  not_found device_not_active device_already_allocated capacity_exhausted : ServiceError
  conflict invalid_input other : ServiceError

pub record DeviceService (S : Type 0) : Type 0 where
  pub authenticate_access : S → Str → Option Str
  pub list_devices : S → Str → Fallible ServiceError (List Device)
  pub register_device : S → Str → RegisterDeviceRequest → S × Fallible ServiceError Device
  pub request_revocation : S → Str → Str → S × Fallible ServiceError (Unit {0})
  pub create_tunnel_configuration :
      S → Str → Str → Str → Str → S × Fallible ServiceError (TunnelConfiguration × Bool)
  pub list_regions : S → Fallible ServiceError (List Region)

pub data Value : Type 0 where
  devices : List Device → Value
  device : Device → Value
  configuration : TunnelConfiguration → Value
  regions : List Region → Value

abbrev pub register_problem : ServiceError → Write Value
register_problem conflict = problem 409 (text "device key already registered")
register_problem invalid_input = problem 400 (text "invalid device")
register_problem _ = problem 500 (text "could not register device")

abbrev pub revoke_problem : ServiceError → Write Value
revoke_problem not_found = problem 404 (text "device not found")
revoke_problem _ = problem 500 (text "could not revoke device")

abbrev pub configuration_problem : ServiceError → Write Value
configuration_problem not_found = problem 404 (text "device or region not found")
configuration_problem device_not_active = problem 409 (text "device is not active")
configuration_problem device_already_allocated =
    problem 409 (text "device already has an active tunnel in another region")
configuration_problem capacity_exhausted = problem 503 (text "region capacity is unavailable")
configuration_problem conflict = problem 409 (text "idempotency key was reused with different data")
configuration_problem invalid_input = problem 400 (text "invalid tunnel request")
configuration_problem other = problem 500 (text "could not create tunnel configuration")

module _ {S : Type 0} (service : DeviceService S) where
  unfoldable pub authenticated_user : S → Request → Response Value × Option Str
  authenticated_user s r = elim (bearer_token r.authorization) [
    | none ↦ (problem 401 (text "missing bearer token") ∷ [], none)
    | some token ↦ elim (service.authenticate_access s token) [
      | none ↦ (problem 401 (text "invalid access token") ∷ [], none)
      | some user ↦ ([], some user)
    ]
  ]

  -- The handlers after `authenticatedUser`, for the owner that it gives.
  unfoldable pub list_for : S → Str → S × Response Value
  list_for s owner_id = elim (service.list_devices s owner_id) [
    | err e ↦ (s, problem 500 (text "could not list devices") ∷ [])
    | ok l ↦ (s, json 200 (devices l) ∷ [])
  ]

  unfoldable pub register_for :
      (Str → Decoded RegisterDeviceRequest) → S → Request → Str → S × Response Value
  register_for parse s r owner_id =
      let (written, decoded) = decode_json parse r in
      elim decoded [
        | none ↦ (s, written)
        | some request ↦
            let (t, result) = service.register_device s owner_id request in
            elim result [
              | err e ↦ (t, register_problem e ∷ [])
              | ok d ↦ (t, json 201 (device d) ∷ [])
            ]
      ]

  unfoldable pub revoke_for : S → Request → Str → S × Response Value
  revoke_for s r owner_id =
      let (t, result) = service.request_revocation s owner_id r.device_id in
      elim result [ err e ↦ (t, revoke_problem e ∷ []) | ok _ ↦ (t, bare 204 ∷ []) ]

  unfoldable pub configuration_for : (Str → Decoded Str) → S → Request → Str → S × Response Value
  configuration_for parse s r owner_id =
      let key = trim_space r.idempotency_key in
      let (written, decoded) = decode_json parse r in
      if ltb (length key) 16 || ltb 128 (length key)
      then (s, problem 400 (text "valid Idempotency-Key header is required") ∷ [])
      else elim decoded [
        | none ↦ (s, written)
        | some region_id ↦
            let (t, result) =
              service.create_tunnel_configuration s owner_id r.device_id region_id key in
            elim result [
              | err e ↦ (t, configuration_problem e ∷ [])
              | ok (c, created) ↦ (t, json (if created then 201 else 200) (configuration c) ∷ [])
            ]
      ]

  abbrev authenticated : (S → Request → Str → S × Response Value) → S → Request → S × Response Value
  authenticated handler s r =
      let (written, user) = authenticated_user s r in
      elim user [ none ↦ (s, written) | some owner_id ↦ handler s r owner_id ]

  unfoldable pub list : S → Request → S × Response Value
  list s r = authenticated (λ s r. list_for s) s r

  unfoldable pub register : (Str → Decoded RegisterDeviceRequest) → S → Request → S × Response Value
  register parse s r = authenticated (register_for parse) s r

  unfoldable pub revoke : S → Request → S × Response Value
  revoke s r = authenticated revoke_for s r

  unfoldable pub configure : (Str → Decoded Str) → S → Request → S × Response Value
  configure parse s r = authenticated (configuration_for parse) s r

  -- `RegionHandler.List`.
  unfoldable pub list_regions : S → Request → S × Response Value
  list_regions s r = elim (bearer_token r.authorization) [
    | none ↦ (s, problem 401 (text "authentication required") ∷ [])
    | some token ↦ elim (service.authenticate_access s token) [
      | none ↦ (s, problem 401 (text "authentication required") ∷ [])
      | some user ↦ elim (service.list_regions s) [
        | err e ↦ (s, problem 503 (text "regions unavailable") ∷ [])
        | ok l ↦ (s, json 200 (regions l) ∷ [])
      ]
    ]
  ]
