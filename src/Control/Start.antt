-- ===== src/Control/Start.antt =====
-- What every history keeps, from `NewService` on, and what a first call with a key returns.
use personal_vpn.Prelude.{
  ℕ, ◌+◌, ◌≡◌, ◌≤◌, refl, subst, true, List, [], ◌∷◌, none, some, arith, if◌then◌else◌, ◌==◌, Str,
  Str-discrete, get, put, get-put, length, ok, err,
}
use personal_vpn.Control.{
  capacity_exhausted, Region, Service, uuid_text, new_service, add_regions, empty_service,
}
use personal_vpn.Control.Tunnel.{
  record_key, create_tunnel_configuration, lookup_target, replay_or_allocate, allocate, configure,
  next_host,
}
use personal_vpn.Control.Registry.{IsRegistry, Reach-IsRegistry}
use personal_vpn.Control.Hosts.{IsAssigned, count, Reach-IsAssigned, lookup_target-region}
use personal_vpn.Control.Steps.{Reach}

-- A service to which nothing has happened.
record IsUnused (s : Service) : Type 0 where
  no_devices : s.devices ≡ []
  no_keys : s.public_keys ≡ []
  no_records : s.idempotency ≡ []
  started :
      (r : Str) → next_host s r ≡ elim (get Str-discrete r s.regions) [ none ↦ 0 | some region ↦ 2 ]

add_regions-IsUnused :
    (s t : Service) (regions : List Region) → add_regions s regions ≡ ok t → IsUnused s → IsUnused t
unfolding add_regions next_host
add_regions-IsUnused s t [] e h = subst IsUnused (ground arith) h
add_regions-IsUnused s t (region ∷ regions) e h =
    let more : Service = record s {
      regions = put Str-discrete region.id region s.regions;
      region_next_host = put Str-discrete region.id 2 s.region_next_host;
    } in
    add_regions-IsUnused more t regions (ground arith) (record {
      no_devices = h.no_devices;
      no_keys = h.no_keys;
      no_records = h.no_records;
      started = λ r.
          let old = h.started r in
          let a = get-put Str-discrete region.id r region s.regions in
          let b = get-put Str-discrete region.id r 2 s.region_next_host in ground arith;
    })

new_service-IsUnused :
    (regions : List Region) (s : Service) → new_service regions ≡ ok s → IsUnused s
unfolding new_service next_host get
new_service-IsUnused regions s e =
    add_regions-IsUnused empty_service s regions e
      (record { no_devices = refl; no_keys = refl; no_records = refl; started = λ r. refl })

IsUnused-IsAssigned : (s : Service) → IsUnused s → IsAssigned s
unfolding get
IsUnused-IsAssigned s h =
    let none_yet = h.no_records in
    record {
      bounded = λ r. let n = h.started r in ground arith;
      started = λ r region e. let n = h.started r in ground arith;
      hosted = λ k r e. absurd (ground arith);
      distinct = λ k k' r r' e e' same equal. absurd (ground arith);
      counted = λ r region e. let n = h.started r in ground arith;
    }

-- From a new service on, every history of calls keeps the assignments of hosts: no next host
-- passes 255, every record has the addresses of a host of its region from 2 up to the next one,
-- two records of one region with the same addresses are one record, and a region's next host is 2
-- more than the number of its records.
pub new_service-IsAssigned :
    (regions : List Region) (s t : Service) → new_service regions ≡ ok s → Reach s t → IsAssigned t
new_service-IsAssigned regions s t e r =
    Reach-IsAssigned r (IsUnused-IsAssigned s (new_service-IsUnused regions s e))

IsUnused-IsRegistry : (s : Service) → IsUnused s → IsRegistry s
unfolding get
IsUnused-IsRegistry s h =
    let no_devices = h.no_devices in
    let no_keys = h.no_keys in
    record { by_key = λ key id e. absurd (ground arith); by_id = λ id d e. absurd (ground arith) }

-- From a new service on, every history of calls whose new identifiers belong to no device keeps
-- the maps of the keys and of the devices consistent: a key is mapped to a device with that key,
-- and a device stands under its own identifier, to which its key is mapped.
pub new_service-IsRegistry :
    (regions : List Region) (s t : Service) → new_service regions ≡ ok s → Reach s t → IsRegistry t
new_service-IsRegistry regions s t e r =
    Reach-IsRegistry r (IsUnused-IsRegistry s (new_service-IsUnused regions s e))

-- In any history of a new service, the first call with an idempotency key of 16 to 128 bytes, for
-- an accepted device and region and with a draw that succeeds, returns a configuration with the
-- host that is 2 more than the number of the region's records, unless these are 253: then the
-- region is exhausted.
pub create-first :
    (regions : List Region) (s t : Service)
    (owner_id device_id region_id idempotency_key value : Str) (now : ℕ) (region : Region)
    → new_service regions ≡ ok s
    → Reach s t
    → 16 ≤ length idempotency_key
    → length idempotency_key ≤ 128
    → lookup_target t owner_id device_id region_id ≡ ok region
    → get Str-discrete (record_key owner_id device_id idempotency_key) t.idempotency ≡ none
    → (create_tunnel_configuration t owner_id device_id region_id idempotency_key
        (some value)
        now).1
      ≡ (if count region_id t.idempotency == 253
          then err capacity_exhausted
          else ok
              (configure region (uuid_text value) (count region_id t.idempotency + 2) now, true))
unfolding create_tunnel_configuration replay_or_allocate allocate
create-first regions s t owner_id device_id region_id idempotency_key value now region e r low high
      target unused =
    let h = new_service-IsAssigned regions s t e r in
    let counted =
      h.counted region_id region
        (lookup_target-region t owner_id device_id region_id region target) in
    let bounded = h.bounded region_id in ground arith
