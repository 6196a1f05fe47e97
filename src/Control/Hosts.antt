-- ===== src/Control/Hosts.antt =====
-- The hosts of the tunnels of a region.
use personal_vpn.Prelude.{
  ℕ, ◌+◌, ◌≡◌, ◌≢◌, ◌≤◌, ◌<◌, ◌%◌, ◌^◌, refl, sym, ap, ◌∙◌, subst, inl, inr, false, List, [], ◌∷◌,
  none, some, arith, ite, reverse, reverse-reverse, reverse-append, drop, text, if◌then◌else◌,
  holds, Str, Str-discrete, Map, get, put, delete, get-put, ltb, ok,
}
use personal_vpn.Encoding.Fmt.{decimal, read_decimal, read_decimal-decimal}
use personal_vpn.Control.{
  Region, TunnelConfiguration, IdempotencyRecord, Service, insert_device, uuid_text,
}
use personal_vpn.Control.Tunnel.{
  record_key, record_configuration, lookup_target, configure, next_host, addresses_of,
}
use personal_vpn.Control.Steps.{
  register_device-cases, request_revocation-cases, create-cases, Call, registers, revokes, creates,
  call, Reach, here, next,
}

-- The host that the first address names.
abbrev host_in : List Str → ℕ
host_in [] = 0
host_in (a ∷ l) = read_decimal (reverse (drop 3 (reverse (drop 8 a))))

host_in-addresses_of : (h : ℕ) → h < 100_000 → host_in (addresses_of h) ≡ h
unfolding addresses_of
host_in-addresses_of h small =
    rw (reverse-append (decimal h) (text "/32"), reverse-reverse (decimal h))
      (read_decimal-decimal h small)

-- The number of records of a region.
abbrev pub count : Str → Map Str IdempotencyRecord → ℕ
count r [] = 0
count r ((k, e) ∷ m) = (if holds (Str-discrete e.region_id r) then 1 else 0) + count r m

delete_absent :
    (k : Str) (m : Map Str IdempotencyRecord)
    → get Str-discrete k m ≡ none
    → delete Str-discrete k m ≡ m
unfolding get delete
delete_absent k [] e = refl
delete_absent k ((j, v) ∷ m) e = ground (arith, delete_absent k m)

-- A record has a host of its region that has been handed out.
pub record IsHosted (s : Service) (r : IdempotencyRecord) : Type 0 where
  pub host : ℕ
  pub addressed : r.configuration.addresses ≡ addresses_of host
  pub low : 2 ≤ host
  pub high : host < next_host s r.region_id

pub record IsAssigned (s : Service) : Type 0 where
  pub bounded : (r : Str) → next_host s r ≤ 255
  pub started :
      (r : Str) (region : Region) → get Str-discrete r s.regions ≡ some region → 2 ≤ next_host s r
  pub hosted :
      (key : Str) (r : IdempotencyRecord)
      → get Str-discrete key s.idempotency ≡ some r
      → IsHosted s r
  pub distinct :
      (key key' : Str) (r r' : IdempotencyRecord)
      → get Str-discrete key s.idempotency ≡ some r
      → get Str-discrete key' s.idempotency ≡ some r'
      → r.region_id ≡ r'.region_id
      → r.configuration.addresses ≡ r'.configuration.addresses
      → key ≡ key'
  pub counted :
      (r : Str) (region : Region)
      → get Str-discrete r s.regions ≡ some region
      → count r s.idempotency + 2 ≡ next_host s r

pub lookup_target-region :
    (s : Service) (owner_id device_id region_id : Str) (region : Region)
    → lookup_target s owner_id device_id region_id ≡ ok region
    → get Str-discrete region_id s.regions ≡ some region
unfolding lookup_target
lookup_target-region s owner_id device_id region_id region e = ground arith

next_host-record_configuration :
    (s : Service) (key region_id r : Str) (c : TunnelConfiguration)
    → next_host (record_configuration s key region_id c) r ≡ (
        if holds (Str-discrete region_id r)
        then (next_host s region_id + 1) % 2 ^ 16
        else next_host s r)
unfolding next_host record_configuration
next_host-record_configuration s key region_id r c =
    let after =
      get-put Str-discrete region_id r ((next_host s region_id + 1) % 2 ^ 16) s.region_next_host in
    ground arith

keep-IsHosted :
    (s t : Service) (r : IdempotencyRecord)
    → next_host s r.region_id ≤ next_host t r.region_id
    → IsHosted s r
    → IsHosted t r
keep-IsHosted s t r le h =
    let high = h.high in
    record { host = h.host; addressed = h.addressed; low = h.low; high = omega arith }

-- One more record, with the next host of its region.
module _ (s : Service) (key region_id value : Str) (region : Region) (now : ℕ)
    (unused : get Str-discrete key s.idempotency ≡ none)
    (known : get Str-discrete region_id s.regions ≡ some region)
    (fits : ltb 254 (next_host s region_id) ≡ false) (h : IsAssigned s) where
  abbrev configuration : TunnelConfiguration
  configuration = configure region value (next_host s region_id) now

  abbrev new : IdempotencyRecord
  new = record { region_id = region_id; configuration = configuration }

  abbrev after : Service
  after = record_configuration s key region_id configuration

  next_after :
      (r : Str)
      → next_host after r
        ≡ (if holds (Str-discrete region_id r) then next_host s region_id + 1 else next_host s r)
  next_after r =
      let step = next_host-record_configuration s key region_id r configuration in ground arith

  at_key :
      (k : Str)
      → get Str-discrete k after.idempotency
        ≡ ite (Str-discrete key k) (some new) (get Str-discrete k s.idempotency)
  unfolding record_configuration
  at_key k = get-put Str-discrete key k new s.idempotency

  grows : (r : Str) → next_host s r ≤ next_host after r
  grows r = let step = next_after r in ground arith

  new-IsHosted : IsHosted after new
  unfolding configure
  new-IsHosted = record {
    host = next_host s region_id;
    addressed = refl;
    low = h.started region_id region known;
    high = let step = next_after region_id in ground arith;
  }

  -- An old record of the region has another address.
  apart :
      (k : Str) (r : IdempotencyRecord)
      → get Str-discrete k s.idempotency ≡ some r
      → r.region_id ≡ region_id
      → r.configuration.addresses ≢ configuration.addresses
  unfolding configure
  apart k r at same e =
      let old = h.hosted k r at in
      let high = old.high in
      let below : old.host < next_host s region_id =
        subst (λ q. old.host < next_host s q) same high in
      let bound = h.bounded region_id in
      let one =
        sym (host_in-addresses_of old.host (omega arith))
        ∙ (ap host_in (sym old.addressed ∙ e)
            ∙ host_in-addresses_of (next_host s region_id) (omega arith)) in
      absurd (omega arith)

  after-IsAssigned : IsAssigned after
  unfolding record_configuration put
  after-IsAssigned = record {
    bounded = λ r. let old = h.bounded r in let step = next_after r in ground arith;
    started = λ r q e. let old = h.started r q e in let g = grows r in omega arith;
    hosted = λ k r e.
        let here = at_key k in
        elim (Str-discrete key k) [
          | yes same ↦ subst (IsHosted after) (ground arith) new-IsHosted
          | no other ↦ keep-IsHosted s after r (grows r.region_id) (h.hosted k r (ground arith))
        ];
    distinct = λ k k' r r' e e' same equal.
        let here = at_key k in
        let there = at_key k' in
        elim (Str-discrete key k) [
          | yes p ↦ elim (Str-discrete key k') [
            | yes q ↦ sym p ∙ q
            | no q ↦
                let is_new : new ≡ r = ground arith in
                absurd (
                  apart k' r' (ground arith) (sym same ∙ sym (ap (λ x. x.region_id) is_new))
                    (sym equal ∙ sym (ap (λ x. x.configuration.addresses) is_new)))
          ]
          | no p ↦ elim (Str-discrete key k') [
            | yes q ↦
                let is_new : new ≡ r' = ground arith in
                absurd (
                  apart k r (ground arith) (same ∙ sym (ap (λ x. x.region_id) is_new))
                    (equal ∙ sym (ap (λ x. x.configuration.addresses) is_new)))
            | no q ↦ h.distinct k k' r r' (ground arith) (ground arith) same equal
          ]
        ];
    counted = λ r q e.
        let old = h.counted r q e in
        let step = next_after r in
        let gone = delete_absent key s.idempotency unused in ground arith;
  }

call-IsAssigned : (s : Service) (c : Call) → IsAssigned s → IsAssigned (call s c)
unfolding insert_device next_host
call-IsAssigned s (registers owner_id request draw now) h =
    elim (register_device-cases s owner_id request draw now) [
      | inl same ↦ subst IsAssigned (sym same) h
      | inr p ↦ subst IsAssigned (sym p.after) (record {
        bounded = h.bounded;
        started = h.started;
        hosted = λ k r e.
            let o = h.hosted k r e in
            record { host = o.host; addressed = o.addressed; low = o.low; high = o.high };
        distinct = h.distinct;
        counted = h.counted;
      })
    ]
call-IsAssigned s (revokes owner_id device_id) h =
    elim (request_revocation-cases s owner_id device_id) [
      | inl same ↦ subst IsAssigned (sym same) h
      | inr p ↦ subst IsAssigned (sym p.after) (record {
        bounded = h.bounded;
        started = h.started;
        hosted = λ k r e.
            let o = h.hosted k r e in
            record { host = o.host; addressed = o.addressed; low = o.low; high = o.high };
        distinct = h.distinct;
        counted = h.counted;
      })
    ]
call-IsAssigned s (creates owner_id device_id region_id idempotency_key draw now) h =
    elim (create-cases s owner_id device_id region_id idempotency_key draw now) [
      | inl same ↦ subst IsAssigned (sym same) h
      | inr a ↦
          subst (λ o. IsAssigned (o.0)) (sym a.result)
            (after-IsAssigned s (record_key owner_id device_id idempotency_key) region_id
              (uuid_text a.value) a.region now a.unused
              (lookup_target-region s owner_id device_id region_id a.region a.target) a.fits h)
    ]

pub Reach-IsAssigned : {s t : Service} → Reach s t → IsAssigned s → IsAssigned t
Reach-IsAssigned here h = h
Reach-IsAssigned (next {t} c r fresh) h = call-IsAssigned t c (Reach-IsAssigned r h)
