-- ===== src/Control/Registration.antt =====
-- Keys stay taken, and the regions that `NewService` accepts.
use personal_vpn.Prelude.{
  ℕ, ◌≡◌, ◌≢◌, ◌↔◌, refl, sym, ap, ◌∙◌, subst, inl, inr, List, [], ◌∷◌, Option, none, some, arith,
  All, Str, Str-discrete, Map, get, put, get-put, ok, err, Option-cases, Result-cases,
}
use personal_vpn.Control.{
  conflict, Device, Region, RegisterDeviceRequest, Service, insert_device, register_device,
  register_checked, validate_register_device, uuid_text, new_service, add_regions, validate_region,
  empty_service,
}
use personal_vpn.Control.Tunnel.{record_configuration}
use personal_vpn.Control.Steps.{
  register_device-cases, request_revocation-cases, create-cases, Call, registers, revokes, creates,
  call, Reach, here, next,
}

call-key :
    (s : Service) (c : Call) (key id : Str)
    → get Str-discrete key s.public_keys ≡ some id
    → get Str-discrete key (call s c).public_keys ≡ some id
unfolding insert_device record_configuration
call-key s (registers owner_id request draw now) key id e =
    elim (register_device-cases s owner_id request draw now) [
      | inl same ↦ ap (λ t. get Str-discrete key t.public_keys) same ∙ e
      | inr p ↦
          let unused = p.unused in
          let after =
            get-put Str-discrete request.public_key key (uuid_text p.value) s.public_keys in
          ap (λ t. get Str-discrete key t.public_keys) p.after ∙ ground arith
    ]
call-key s (revokes owner_id device_id) key id e =
    elim (request_revocation-cases s owner_id device_id) [
      | inl same ↦ ap (λ t. get Str-discrete key t.public_keys) same ∙ e
      | inr p ↦ ap (λ t. get Str-discrete key t.public_keys) p.after ∙ e
    ]
call-key s (creates owner_id device_id region_id idempotency_key draw now) key id e =
    elim (create-cases s owner_id device_id region_id idempotency_key draw now) [
      | inl same ↦ ap (λ t. get Str-discrete key t.public_keys) same ∙ e
      | inr a ↦ ap (λ o. get Str-discrete key (o.0).public_keys) a.result ∙ e
    ]

Reach-key :
    {s t : Service} (key id : Str)
    → Reach s t
    → get Str-discrete key s.public_keys ≡ some id
    → get Str-discrete key t.public_keys ≡ some id
Reach-key key id here e = e
Reach-key key id (next {t} c r fresh) e = call-key t c key id (Reach-key key id r e)

registered_key :
    (s : Service) (owner_id : Str) (request : RegisterDeviceRequest) (draw : Option Str) (now : ℕ)
    (d : Device)
    → (register_device s owner_id request draw now).1 ≡ ok d
    → get Str-discrete request.public_key
        (register_device s owner_id request draw now).0.public_keys
      ≡ some d.id
unfolding register_device register_checked insert_device
registered_key s owner_id request draw now d e =
    elim (Result-cases (validate_register_device owner_id request)) [
      | inl (x, bad) ↦ absurd (ground arith)
      | inr (tt, good) ↦ elim (Option-cases (get Str-discrete request.public_key s.public_keys)) [
        | inr (other, taken) ↦ absurd (ground arith)
        | inl unused ↦ elim (Option-cases draw) [
          | inl undrawn ↦ absurd (ground arith)
          | inr (value, drawn) ↦
              let after =
                get-put Str-discrete request.public_key request.public_key (uuid_text value)
                  s.public_keys in
              ground arith
        ]
      ]
    ]

-- After a device has been registered, and any history of calls whose new identifiers belong to no
-- device, a valid request with the same public key, by any owner, changes nothing and returns a
-- conflict.
pub register_device-conflict :
    (s t : Service) (owner_id owner_id' : Str) (request request' : RegisterDeviceRequest)
    (draw draw' : Option Str) (now now' : ℕ) (d : Device)
    → (register_device s owner_id request draw now).1 ≡ ok d
    → Reach (register_device s owner_id request draw now).0 t
    → validate_register_device owner_id' request' ≡ ok tt
    → request'.public_key ≡ request.public_key
    → register_device t owner_id' request' draw' now' ≡ (t, err conflict)
unfolding register_device register_checked
register_device-conflict s t owner_id owner_id' request request' draw draw' now now' d e r valid
      same =
    let taken =
      Reach-key request.public_key d.id r (registered_key s owner_id request draw now d e) in
    let taken' = subst (λ k. get Str-discrete k t.public_keys ≡ some d.id) (sym same) taken in
    ground arith

-- The regions are valid, none has an identifier of `m`, and no two have one.
abbrev pub IsAcceptable : Map Str Region → List Region → Type 0
IsAcceptable m [] = Unit
IsAcceptable m (r ∷ regions) =
    (validate_region r ≡ ok tt)
    × (get Str-discrete r.id m ≡ none)
    × All (λ q. q.id ≢ r.id) regions
    × IsAcceptable m regions

IsAcceptable-put :
    (m : Map Str Region) (r : Region) (regions : List Region)
    → All (λ q. q.id ≢ r.id) regions
    → IsAcceptable m regions
    → IsAcceptable (put Str-discrete r.id r m) regions
IsAcceptable-put m r [] h k = tt
IsAcceptable-put m r (q ∷ regions) (n, h) (v, fresh, apart, k) =
    let after = get-put Str-discrete r.id q.id r m in
    (v, ground arith, apart, IsAcceptable-put m r regions h k)

put-IsAcceptable :
    (m : Map Str Region) (r : Region) (regions : List Region)
    → IsAcceptable (put Str-discrete r.id r m) regions
    → All (λ q. q.id ≢ r.id) regions × IsAcceptable m regions
put-IsAcceptable m r [] k = (tt, tt)
put-IsAcceptable m r (q ∷ regions) (v, fresh, apart, k) =
    let after = get-put Str-discrete r.id q.id r m in
    let (n, h) = put-IsAcceptable m r regions k in ((ground arith, n), (v, ground arith, apart, h))

abbrev with_region : Service → Region → Service
with_region s r = record s {
  regions = put Str-discrete r.id r s.regions;
  region_next_host = put Str-discrete r.id 2 s.region_next_host;
}

accepted :
    (s t : Service) (regions : List Region)
    → add_regions s regions ≡ ok t
    → IsAcceptable s.regions regions
unfolding add_regions
accepted s t [] e = tt
accepted s t (r ∷ regions) e =
    let first : (validate_region r ≡ ok tt) × (get Str-discrete r.id s.regions ≡ none) =
      ground arith in
    let (apart, rest) =
      put-IsAcceptable s.regions r regions (accepted (with_region s r) t regions (ground arith)) in
    (first.0, first.1, apart, rest)

accepts :
    (s : Service) (regions : List Region)
    → IsAcceptable s.regions regions
    → (t : Service) × (add_regions s regions ≡ ok t)
unfolding add_regions
accepts s [] h = (s, refl)
accepts s (r ∷ regions) (v, fresh, apart, h) =
    let (t, e) = accepts (with_region s r) regions (IsAcceptable-put s.regions r regions apart h) in
    (t, ground arith)

-- A service is made from a list of regions exactly when every region is valid and no two have the
-- same identifier.
pub new_service_iff :
    (regions : List Region)
    → ((s : Service) × (new_service regions ≡ ok s)) ↔ IsAcceptable [] regions
unfolding new_service
new_service_iff regions =
    ((λ (s, e). accepted empty_service s regions e), λ h. accepts empty_service regions h)
