-- ===== src/Control/Registry.antt =====
-- The devices and their public keys.
use personal_vpn.Prelude.{
  ◌≡◌, sym, ap, ◌∙◌, subst, inl, inr, none, some, arith, Str, Str-discrete, get, put, get-put,
}
use personal_vpn.Control.{Device, Service, new_device, insert_device, revocation_pending, uuid_text}
use personal_vpn.Control.Tunnel.{record_configuration}
use personal_vpn.Control.Steps.{
  register_device-cases, request_revocation-cases, create-cases, Call, registers, revokes, creates,
  call, IsFresh, Reach, here, next,
}

-- The two maps say the same: a key is the key of the device it is mapped to, and a device stands
-- under its identifier, with its key mapped to it.
pub record IsRegistry (s : Service) : Type 0 where
  pub by_key :
      (key id : Str)
      → get Str-discrete key s.public_keys ≡ some id
      → (d : Device) × (get Str-discrete id s.devices ≡ some d) × (d.public_key ≡ key)
  pub by_id :
      (id : Str) (d : Device)
      → get Str-discrete id s.devices ≡ some d
      → (d.id ≡ id) × (get Str-discrete d.public_key s.public_keys ≡ some id)

insert_device-IsRegistry :
    (s : Service) (d : Device)
    → get Str-discrete d.id s.devices ≡ none
    → get Str-discrete d.public_key s.public_keys ≡ none
    → IsRegistry s
    → IsRegistry (insert_device s d)
unfolding insert_device
insert_device-IsRegistry s d fresh unused h = record {
  by_key = λ key id e. elim (Str-discrete key d.public_key) [
    | yes same ↦
        let own = get-put Str-discrete d.id d.id d s.devices in
        let keys = get-put Str-discrete d.public_key key d.id s.public_keys in
        (d, ground arith, sym same)
    | no other ↦
        let keys = get-put Str-discrete d.public_key key d.id s.public_keys in
        let (e', found, same) = h.by_key key id (ground arith) in
        let after = get-put Str-discrete d.id id d s.devices in (e', ground arith, same)
  ];
  by_id = λ id e at. elim (Str-discrete id d.id) [
    | yes same ↦
        let after = get-put Str-discrete d.id id d s.devices in
        let keys = get-put Str-discrete d.public_key e.public_key d.id s.public_keys in
        (ground arith, ground arith)
    | no other ↦
        let after = get-put Str-discrete d.id id d s.devices in
        let (named, mapped) = h.by_id id e (ground arith) in
        let keys = get-put Str-discrete d.public_key e.public_key d.id s.public_keys in
        (named, ground arith)
  ];
}

pending-IsRegistry :
    (s : Service) (device_id : Str) (d : Device)
    → get Str-discrete device_id s.devices ≡ some d
    → IsRegistry s
    → IsRegistry (record s {
      devices = put Str-discrete device_id (record d { state = revocation_pending }) s.devices;
    })
pending-IsRegistry s device_id d found h = record {
  by_key = λ key id e.
      let (d', at, same) = h.by_key key id e in
      elim (Str-discrete id device_id) [
        | yes p ↦
            let after =
              get-put Str-discrete device_id id (record d { state = revocation_pending })
                s.devices in
            let one : some d ≡ some d' =
              sym found ∙ (ap (λ i. get Str-discrete i s.devices) (sym p) ∙ at) in
            (record d { state = revocation_pending }, ground arith, ground arith)
        | no other ↦
            let after =
              get-put Str-discrete device_id id (record d { state = revocation_pending })
                s.devices in
            (d', ground arith, same)
      ];
  by_id = λ id e at.
      let after =
        get-put Str-discrete device_id id (record d { state = revocation_pending }) s.devices in
      elim (Str-discrete id device_id) [
        | yes p ↦ let old = h.by_id device_id d found in ground arith
        | no other ↦ let old = h.by_id id e (ground arith) in old
      ];
}

call-IsRegistry : (s : Service) (c : Call) → IsFresh s c → IsRegistry s → IsRegistry (call s c)
unfolding record_configuration
call-IsRegistry s (registers owner_id request draw now) fresh h =
    elim (register_device-cases s owner_id request draw now) [
      | inl same ↦ subst IsRegistry (sym same) h
      | inr r ↦ subst IsRegistry (sym r.after) (
          insert_device-IsRegistry s (new_device owner_id request now (uuid_text r.value))
            (subst (λ d. IsFresh s (registers owner_id request d now)) r.drawn fresh) r.unused h)
    ]
call-IsRegistry s (revokes owner_id device_id) fresh h =
    elim (request_revocation-cases s owner_id device_id) [
      | inl same ↦ subst IsRegistry (sym same) h
      | inr p ↦ subst IsRegistry (sym p.after) (pending-IsRegistry s device_id p.device p.found h)
    ]
call-IsRegistry s (creates owner_id device_id region_id idempotency_key draw now) fresh h =
    elim (create-cases s owner_id device_id region_id idempotency_key draw now) [
      | inl same ↦ subst IsRegistry (sym same) h
      | inr a ↦
          subst (λ o. IsRegistry (o.0)) (sym a.result)
            (record { by_key = h.by_key; by_id = h.by_id })
    ]

-- Every history with fresh identifiers keeps the two maps consistent.
pub Reach-IsRegistry : {s t : Service} → Reach s t → IsRegistry s → IsRegistry t
Reach-IsRegistry here h = h
Reach-IsRegistry (next {t} c r fresh) h = call-IsRegistry t c fresh (Reach-IsRegistry r h)
