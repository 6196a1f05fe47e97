-- ===== src/Control/Replay.antt =====
-- Calls with an idempotency key that has been used.
use personal_vpn.Prelude.{
  ℕ, ◌≡◌, ◌≢◌, refl, ap, ◌∙◌, inl, inr, Bool, false, [], ◌∷◌, ◌++◌, Option, some, arith, ◌||◌, All,
  ◌≤◌, if◌then◌else◌, holds, Str, Str-discrete, get, get-put, ltb, length, ok, err, Option-cases,
  Bool-cases, Result-cases,
}
use personal_vpn.Control.{
  conflict, Region, TunnelConfiguration, IdempotencyRecord, Service, insert_device, uuid_text,
}
use personal_vpn.Control.Tunnel.{
  record_key, record_configuration, create_tunnel_configuration, lookup_target, replay_or_allocate,
  allocate, configure, next_host,
}
use personal_vpn.Control.Steps.{
  register_device-cases, request_revocation-cases, create-cases, Call, registers, revokes, creates,
  call, Reach, here, next,
}

-- No call changes a record of an earlier one.
call-keeps :
    (s : Service) (c : Call) (key : Str) (r : IdempotencyRecord)
    → get Str-discrete key s.idempotency ≡ some r
    → get Str-discrete key (call s c).idempotency ≡ some r
unfolding insert_device record_configuration
call-keeps s (registers owner_id request draw now) key r e =
    elim (register_device-cases s owner_id request draw now) [
      | inl same ↦ ap (λ t. get Str-discrete key t.idempotency) same ∙ e
      | inr p ↦ ap (λ t. get Str-discrete key t.idempotency) p.after ∙ e
    ]
call-keeps s (revokes owner_id device_id) key r e =
    elim (request_revocation-cases s owner_id device_id) [
      | inl same ↦ ap (λ t. get Str-discrete key t.idempotency) same ∙ e
      | inr p ↦ ap (λ t. get Str-discrete key t.idempotency) p.after ∙ e
    ]
call-keeps s (creates owner_id device_id region_id idempotency_key draw now) key r e =
    elim (create-cases s owner_id device_id region_id idempotency_key draw now) [
      | inl same ↦ ap (λ t. get Str-discrete key t.idempotency) same ∙ e
      | inr a ↦
          let new : IdempotencyRecord = record {
            region_id = region_id;
            configuration = configure a.region (uuid_text a.value) (next_host s region_id) now;
          } in
          let unused = a.unused in
          let after =
            get-put Str-discrete (record_key owner_id device_id idempotency_key) key new
              s.idempotency in
          ap (λ o. get Str-discrete key (o.0).idempotency) a.result ∙ ground arith
    ]

Reach-keeps :
    {s t : Service} (key : Str) (r : IdempotencyRecord)
    → Reach s t
    → get Str-discrete key s.idempotency ≡ some r
    → get Str-discrete key t.idempotency ≡ some r
Reach-keeps key r here e = e
Reach-keeps key r (next {t} c p fresh) e = call-keeps t c key r (Reach-keeps key r p e)

-- A call that returns a configuration leaves it in the records.
created_recorded :
    (s : Service) (owner_id device_id region_id idempotency_key : Str) (draw : Option Str) (now : ℕ)
    (c : TunnelConfiguration) (made : Bool)
    → (create_tunnel_configuration s owner_id device_id region_id idempotency_key draw now).1
      ≡ ok (c, made)
    → (16 ≤ length idempotency_key)
      × (length idempotency_key ≤ 128)
      × (get Str-discrete
            (record_key owner_id device_id idempotency_key)
            (create_tunnel_configuration s owner_id device_id region_id idempotency_key draw
              now).0.idempotency
          ≡ some (record { region_id = region_id; configuration = c }))
unfolding create_tunnel_configuration replay_or_allocate allocate record_configuration
created_recorded s owner_id device_id region_id idempotency_key draw now c made e =
    let key = record_key owner_id device_id idempotency_key in
    elim (Bool-cases (ltb (length idempotency_key) 16 || ltb 128 (length idempotency_key))) [
      | inl bad ↦ absurd (ground arith)
      | inr good ↦ elim (Result-cases (lookup_target s owner_id device_id region_id)) [
        | inl (x, missing) ↦ absurd (ground arith)
        | inr (region, found) ↦ elim (Option-cases (get Str-discrete key s.idempotency)) [
          | inr (old, seen) ↦ elim (Str-discrete old.region_id region_id) [
            | no other ↦ absurd (ground arith)
            | yes same ↦ (ground arith, ground arith, ground arith)
          ]
          | inl unused ↦ elim (Bool-cases (ltb 254 (next_host s region_id))) [
            | inl full ↦ absurd (ground arith)
            | inr fits ↦ elim (Option-cases draw) [
              | inl undrawn ↦ absurd (ground arith)
              | inr (value, drawn) ↦
                  let new : IdempotencyRecord = record {
                    region_id = region_id;
                    configuration = configure region (uuid_text value) (next_host s region_id) now;
                  } in
                  let after = get-put Str-discrete key key new s.idempotency in
                  (ground arith, ground arith, ground arith)
            ]
          ]
        ]
      ]
    ]

-- After a call that returned a configuration, and any history of calls, a call with the same
-- idempotency key, for a device and a region that are still accepted, changes nothing and returns
-- that configuration, not made anew; for another region it returns a conflict.
pub create-replays :
    (s t : Service) (owner_id device_id region_id other_id idempotency_key : Str)
    (draw draw' : Option Str) (now now' : ℕ) (c : TunnelConfiguration) (made : Bool)
    (region : Region)
    → (create_tunnel_configuration s owner_id device_id region_id idempotency_key draw now).1
      ≡ ok (c, made)
    → Reach
        (create_tunnel_configuration s owner_id device_id region_id idempotency_key draw now).0
        t
    → lookup_target t owner_id device_id other_id ≡ ok region
    → create_tunnel_configuration t owner_id device_id other_id idempotency_key draw' now'
      ≡ (t, if holds (Str-discrete region_id other_id) then ok (c, false) else err conflict)
unfolding create_tunnel_configuration replay_or_allocate
create-replays s t owner_id device_id region_id other_id idempotency_key draw draw' now now' c made
      region e r found =
    let (low, high, recorded) =
      created_recorded s owner_id device_id region_id idempotency_key draw now c made e in
    let kept =
      Reach-keeps (record_key owner_id device_id idempotency_key)
        (record { region_id = region_id; configuration = c }) r recorded in
    ground arith

-- No zero byte stands in the text.
abbrev pub IsPlain : Str → Type 0
IsPlain = All (λ b. b ≢ 0)

split_unique :
    (a a' : Str) (b b' : Str)
    → IsPlain a
    → IsPlain a'
    → a ++ 0 ∷ b ≡ a' ++ 0 ∷ b'
    → (a ≡ a') × (b ≡ b')
split_unique [] [] b b' h h' e = (refl, cc)
split_unique [] (x ∷ a') b b' h (n, h') e = absurd (n (cc))
split_unique (x ∷ a) [] b b' (n, h) h' e = absurd (n (cc))
split_unique (x ∷ a) (y ∷ a') b b' (n, h) (n', h') e =
    let (p, q) = split_unique a a' b b' h h' (cc) in (cc, q)

-- The keys under which two calls are recorded are the same only if the calls have the same owner,
-- device and idempotency key, where owners and devices hold no zero byte.
pub record_key-IsInjective :
    (owner_id owner_id' device_id device_id' key key' : Str)
    → IsPlain owner_id
    → IsPlain owner_id'
    → IsPlain device_id
    → IsPlain device_id'
    → record_key owner_id device_id key ≡ record_key owner_id' device_id' key'
    → (owner_id ≡ owner_id') × (device_id ≡ device_id') × (key ≡ key')
unfolding record_key
record_key-IsInjective owner_id owner_id' device_id device_id' key key' o o' d d' e =
    let (p, rest) =
      split_unique owner_id owner_id' (device_id ++ 0 ∷ key) (device_id' ++ 0 ∷ key') o o' e in
    let (q, r) = split_unique device_id device_id' key key' d d' rest in (p, q, r)
