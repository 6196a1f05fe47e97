-- ===== src/Control/Tests.antt =====
-- The theorems at a service with one region.
use personal_vpn.Prelude.{
  ◌+◌, ◌≡◌, ◌≢◌, refl, true, false, [], ◌∷◌, none, some, arith, ok, err, if◌then◌else◌, holds, ◌==◌,
  Str, Str-discrete, text, replicate, get, put, delete, ne_by_test,
}
use personal_vpn.Encoding.Base64.{std, encode, decode}
use personal_vpn.Encoding.Fmt.{hex_bytes}
use personal_vpn.Encoding.Space.{trim_space, trim_by}
use personal_vpn.Keys.{valid_public_key}
use personal_vpn.Control.{
  Region, RegisterDeviceRequest, Service, TunnelConfiguration, conflict, capacity_exhausted,
  device_not_active, valid_platform, validate_region, validate_register_device, uuid_text,
  new_service, add_regions, new_device, insert_device, register_device, register_checked,
  request_revocation,
}
use personal_vpn.Control.Tunnel.{
  record_key, configure, next_host, record_configuration, allocate, replay_or_allocate,
  lookup_target, create_tunnel_configuration,
}
use personal_vpn.Control.Steps.{registers, creates, Reach, here, next}
use personal_vpn.Control.Owners.{revoked_for_good}
use personal_vpn.Control.Replay.{IsPlain, create-replays}
use personal_vpn.Control.Hosts.{IsAssigned, count}
use personal_vpn.Control.Start.{new_service-IsAssigned, create-first}

abbrev region : Region
region = record {
  id = text "eu";
  display_name = text "Europe";
  available = true;
  endpoint = text "vpn:51820";
  server_public_key = encode std (replicate 32 9);
  dns_v4 = text "1.1.1.1";
  dns_v6 = text "::1";
}

abbrev started : Service
started = record {
  devices = [];
  public_keys = [];
  regions = (text "eu", region) ∷ [];
  idempotency = [];
  region_next_host = (text "eu", 2) ∷ [];
}

starts : new_service (region ∷ []) ≡ ok started
unfolding new_service add_regions validate_region trim_space trim_by valid_public_key encode decode
    get put delete Str-discrete
starts = refl

abbrev alice : Str
alice = text "alice"

abbrev request : RegisterDeviceRequest
request = record {
  name = text " phone ";
  platform = text "ios";
  public_key = encode std (replicate 32 7);
}

abbrev device_id : Str
device_id = uuid_text (replicate 16 255)

names_device : device_id ≡ text "ffffffff-ffff-4fff-bfff-ffffffffffff"
unfolding uuid_text hex_bytes
names_device = refl

-- Alice has registered her phone.
abbrev registered : Service
registered = (register_device started alice request (some (replicate 16 255)) 100).0

registers_phone :
    (register_device started alice request (some (replicate 16 255)) 100).1
    ≡ ok (new_device alice request 100 device_id)
unfolding register_device register_checked validate_register_device insert_device valid_platform
    trim_space trim_by valid_public_key encode decode get put delete Str-discrete uuid_text
    hex_bytes
registers_phone = refl

registered-Reach : Reach started registered
unfolding get
registered-Reach = next (registers alice request (some (replicate 16 255)) 100) here refl

abbrev key : Str
key = replicate 16 b'k'

target : lookup_target registered alice device_id (text "eu") ≡ ok region
unfolding lookup_target register_device register_checked validate_register_device insert_device
    valid_platform trim_space trim_by valid_public_key encode decode get put delete Str-discrete
    uuid_text hex_bytes
target = refl

no_record : get Str-discrete (record_key alice device_id key) registered.idempotency ≡ none
unfolding register_device register_checked validate_register_device insert_device valid_platform
    trim_space trim_by valid_public_key encode decode get put delete Str-discrete uuid_text
    hex_bytes
no_record = refl

create-first_example :
    (create_tunnel_configuration registered alice device_id
      (text "eu")
      key
      (some (replicate 16 1))
      200).1
    ≡ (if count (text "eu") registered.idempotency == 253
        then err capacity_exhausted
        else ok (
          configure region
              (uuid_text (replicate 16 1))
              (count (text "eu") registered.idempotency + 2)
              200,
          true,
        ))
create-first_example =
    create-first (region ∷ []) started registered alice device_id (text "eu") key (replicate 16 1)
      200 region starts registered-Reach (ground arith) (ground arith) target no_record

-- And has made a configuration for it.
abbrev configured : Service
configured =
    (create_tunnel_configuration registered alice device_id (text "eu") key (some (replicate 16 1))
      200).0

configured-Reach : Reach started configured
configured-Reach =
    next (creates alice device_id (text "eu") key (some (replicate 16 1)) 200) registered-Reach tt

new_service-IsAssigned_example : IsAssigned configured
new_service-IsAssigned_example =
    new_service-IsAssigned (region ∷ []) started configured starts configured-Reach

abbrev configuration : TunnelConfiguration
configuration = configure region (uuid_text (replicate 16 1)) 2 200

creates_configuration :
    (create_tunnel_configuration registered alice device_id
      (text "eu")
      key
      (some (replicate 16 1))
      200).1
    ≡ ok (configuration, true)
unfolding create_tunnel_configuration replay_or_allocate allocate lookup_target next_host
    register_device register_checked validate_register_device insert_device valid_platform
    trim_space trim_by valid_public_key encode decode get put delete Str-discrete uuid_text
    hex_bytes
creates_configuration = refl

target_again : lookup_target configured alice device_id (text "eu") ≡ ok region
unfolding create_tunnel_configuration replay_or_allocate allocate lookup_target next_host
    record_configuration register_device register_checked validate_register_device insert_device
    valid_platform trim_space trim_by valid_public_key encode decode get put delete Str-discrete
    uuid_text hex_bytes record_key
target_again = refl

create-replays_example :
    create_tunnel_configuration configured alice device_id (text "eu") key none 300 ≡ (
      configured,
      if holds (Str-discrete (text "eu") (text "eu"))
          then ok (configuration, false)
          else err conflict,
    )
create-replays_example =
    create-replays registered configured alice device_id (text "eu") (text "eu") key
      (some (replicate 16 1)) none 200 300 configuration true region creates_configuration here
      target_again

alice-IsPlain : IsPlain alice
alice-IsPlain = (ground arith, (ground arith, (ground arith, (ground arith, (ground arith, tt)))))

d-IsPlain : IsPlain (text "d")
d-IsPlain = (ground arith, tt)

revokes_phone : (request_revocation registered alice device_id).1 ≡ ok tt
unfolding request_revocation register_device register_checked validate_register_device insert_device
    valid_platform trim_space trim_by valid_public_key encode decode get put delete Str-discrete
    uuid_text hex_bytes
revokes_phone = refl

revoked_for_good_example :
    create_tunnel_configuration
      (request_revocation registered alice device_id).0
      alice
      device_id
      (text "eu")
      key
      none
      300
    ≡ ((request_revocation registered alice device_id).0, err device_not_active)
revoked_for_good_example =
    revoked_for_good registered (request_revocation registered alice device_id).0 alice device_id
      (text "eu") key none 300 revokes_phone here (ground arith) (ground arith)

abbrev bob : Str
bob = text "bob"

other_owner : alice ≢ bob
unfolding Str-discrete
other_owner = ne_by_test _ _ refl

valid_again : validate_register_device bob request ≡ ok tt
unfolding validate_register_device valid_platform trim_space trim_by valid_public_key encode decode
    Str-discrete
valid_again = refl
