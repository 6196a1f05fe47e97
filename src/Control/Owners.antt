-- ===== src/Control/Owners.antt =====
-- What one owner's calls leave to the others, and what a revocation leaves of a device.
use personal_vpn.Prelude.{
  ℕ, ◌≡◌, ◌≢◌, refl, sym, ap, ◌∙◌, subst, inl, inr, false, [], ◌∷◌, Option, some, arith, Str,
  Str-discrete, Map, IsMap, get, put, delete, get-put, length, ok, err, Option-cases, Bool-cases,
  ◌≤◌,
}
use personal_vpn.Control.{
  Device, Service, new_device, insert_device, revocation_pending, owned, list_devices, uuid_text,
  device_not_active, request_revocation, is_active, is_revoked,
}
use personal_vpn.Control.Tunnel.{record_configuration, create_tunnel_configuration, lookup_target}
use personal_vpn.Control.Steps.{
  register_device-cases, request_revocation-cases, create-cases, Call, registers, revokes, creates,
  call, IsFresh, Reach, here, next,
}

abbrev pub caller : Call → Str
caller (registers owner_id request draw now) = owner_id
caller (revokes owner_id device_id) = owner_id
caller (creates owner_id device_id region_id idempotency_key draw now) = owner_id

-- The devices of another owner are not moved.
owned-delete :
    (o k : Str) (m : Map Str Device)
    → ((d : Device) → get Str-discrete k m ≡ some d → d.owner_id ≢ o)
    → IsMap Str-discrete m
    → owned o (delete Str-discrete k m) ≡ owned o m
unfolding owned delete get
owned-delete o k [] other h = refl
owned-delete o k ((j, d) ∷ m) other (fresh, h) = elim (Str-discrete k j) [
  | yes p ↦
      let away = other d (ground arith) in
      let rest = owned-delete o k m (λ e at. absurd (ground arith)) h in ground arith
  | no p ↦ let rest = owned-delete o k m (λ e at. other e (ground arith)) h in ground arith
]

owned-put :
    (o k : Str) (d : Device) (m : Map Str Device)
    → d.owner_id ≢ o
    → ((e : Device) → get Str-discrete k m ≡ some e → e.owner_id ≢ o)
    → IsMap Str-discrete m
    → owned o (put Str-discrete k d m) ≡ owned o m
unfolding owned put
owned-put o k d m other old h = let rest = owned-delete o k m old h in ground arith

-- A call by one owner, whose new identifier belongs to no device, leaves the list of the devices
-- of every other owner as it was.
pub list_devices-call :
    (s : Service) (c : Call) (o : Str)
    → IsMap Str-discrete s.devices
    → IsFresh s c
    → caller c ≢ o
    → list_devices (call s c) o ≡ list_devices s o
unfolding list_devices insert_device record_configuration
list_devices-call s (registers owner_id request draw now) o h fresh other =
    elim (register_device-cases s owner_id request draw now) [
      | inl same ↦ ap (λ t. owned o t.devices) same
      | inr r ↦
          let unseen = subst (λ d. IsFresh s (registers owner_id request d now)) r.drawn fresh in
          ap (λ t. owned o t.devices) r.after
          ∙ owned-put o (uuid_text r.value) (new_device owner_id request now (uuid_text r.value))
              s.devices other (λ e at. absurd (ground arith)) h
    ]
list_devices-call s (revokes owner_id device_id) o h fresh other =
    elim (request_revocation-cases s owner_id device_id) [
      | inl same ↦ ap (λ t. owned o t.devices) same
      | inr p ↦
          let found = p.found in
          let mine = p.owned in
          ap (λ t. owned o t.devices) p.after
          ∙ owned-put o device_id (record p.device { state = revocation_pending }) s.devices
              (ground arith) (λ e at. ground arith) h
    ]
list_devices-call s (creates owner_id device_id region_id idempotency_key draw now) o h fresh
      other =
    elim (create-cases s owner_id device_id region_id idempotency_key draw now) [
      | inl same ↦ ap (λ t. owned o t.devices) same
      | inr a ↦ ap (λ t. owned o (t.0).devices) a.result
    ]

-- A device of the owner that is no longer active.
record IsRetired (s : Service) (owner_id device_id : Str) : Type 0 where
  device : Device
  found : get Str-discrete device_id s.devices ≡ some device
  owned : device.owner_id ≡ owner_id
  inactive : is_active device.state ≡ false

request_revocation-IsRetired :
    (s : Service) (owner_id device_id : Str)
    → (request_revocation s owner_id device_id).1 ≡ ok tt
    → IsRetired (request_revocation s owner_id device_id).0 owner_id device_id
unfolding request_revocation
request_revocation-IsRetired s owner_id device_id e =
    elim (Option-cases (get Str-discrete device_id s.devices)) [
      | inl missing ↦ absurd (ground arith)
      | inr (d, found) ↦ elim (Str-discrete d.owner_id owner_id) [
        | no other ↦ absurd (ground arith)
        | yes mine ↦
            let after =
              get-put Str-discrete device_id device_id (record d { state = revocation_pending })
                s.devices in
            elim (Bool-cases (is_revoked d.state)) [
              | inl done ↦
                  let same : (request_revocation s owner_id device_id).0 ≡ s = ground arith in
                  subst (λ t. IsRetired t owner_id device_id) (sym same)
                    (record { device = d; found = found; owned = mine; inactive = ground arith })
              | inr pending ↦
                  let same : (request_revocation s owner_id device_id).0 ≡ record s {
                    devices =
                        put Str-discrete device_id (record d { state = revocation_pending })
                          s.devices;
                  } =
                    ground arith in
                  subst (λ t. IsRetired t owner_id device_id) (sym same)
                    (record {
                      device = record d { state = revocation_pending };
                      found = ground arith;
                      owned = mine;
                      inactive = refl;
                    })
            ]
      ]
    ]

call-IsRetired :
    (s : Service) (c : Call) (owner_id device_id : Str)
    → IsFresh s c
    → IsRetired s owner_id device_id
    → IsRetired (call s c) owner_id device_id
unfolding insert_device record_configuration
call-IsRetired s (registers o request draw now) owner_id device_id fresh h =
    elim (register_device-cases s o request draw now) [
      | inl same ↦ subst (λ t. IsRetired t owner_id device_id) (sym same) h
      | inr r ↦
          let unseen = subst (λ d. IsFresh s (registers o request d now)) r.drawn fresh in
          let found = h.found in
          let after =
            get-put Str-discrete (uuid_text r.value) device_id
              (new_device o request now (uuid_text r.value)) s.devices in
          subst (λ t. IsRetired t owner_id device_id) (sym r.after)
            (record {
              device = h.device;
              found = ground arith;
              owned = h.owned;
              inactive = h.inactive;
            })
    ]
call-IsRetired s (revokes o id) owner_id device_id fresh h =
    elim (request_revocation-cases s o id) [
      | inl same ↦ subst (λ t. IsRetired t owner_id device_id) (sym same) h
      | inr p ↦
          let after =
            get-put Str-discrete id device_id (record p.device { state = revocation_pending })
              s.devices in
          let found = h.found in
          let old = p.found in
          let mine = h.owned in
          subst (λ t. IsRetired t owner_id device_id) (sym p.after)
            (elim (Str-discrete id device_id) [
              | yes same ↦ record {
                device = record p.device { state = revocation_pending };
                found = ground arith;
                owned = ground arith;
                inactive = refl;
              }
              | no other ↦ record {
                device = h.device;
                found = ground arith;
                owned = h.owned;
                inactive = h.inactive;
              }
            ])
    ]
call-IsRetired s (creates o id region_id idempotency_key draw now) owner_id device_id fresh h =
    elim (create-cases s o id region_id idempotency_key draw now) [
      | inl same ↦ subst (λ t. IsRetired t owner_id device_id) (sym same) h
      | inr a ↦
          subst (λ t. IsRetired (t.0) owner_id device_id) (sym a.result)
            (record { device = h.device; found = h.found; owned = h.owned; inactive = h.inactive })
    ]

Reach-IsRetired :
    {s t : Service} (owner_id device_id : Str)
    → Reach s t
    → IsRetired s owner_id device_id
    → IsRetired t owner_id device_id
Reach-IsRetired owner_id device_id here h = h
Reach-IsRetired owner_id device_id (next {t} c r fresh) h =
    call-IsRetired t c owner_id device_id fresh (Reach-IsRetired owner_id device_id r h)

-- After a revocation that was accepted, and any history of calls whose new identifiers belong to
-- no device, a call for a configuration of the device with a key of 16 to 128 bytes changes
-- nothing and returns that the device is not active.
pub revoked_for_good :
    (s t : Service) (owner_id device_id region_id idempotency_key : Str) (draw : Option Str)
    (now : ℕ)
    → (request_revocation s owner_id device_id).1 ≡ ok tt
    → Reach (request_revocation s owner_id device_id).0 t
    → 16 ≤ length idempotency_key
    → length idempotency_key ≤ 128
    → create_tunnel_configuration t owner_id device_id region_id idempotency_key draw now
      ≡ (t, err device_not_active)
unfolding create_tunnel_configuration lookup_target
revoked_for_good s t owner_id device_id region_id idempotency_key draw now e r low high =
    let h =
      Reach-IsRetired owner_id device_id r (request_revocation-IsRetired s owner_id device_id e) in
    let found = h.found in let owned = h.owned in let inactive = h.inactive in ground arith
