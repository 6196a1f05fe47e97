-- ===== src/Store/AllocationTests.antt =====
-- The theorems on allocation, where there are one device, one region and one gateway.
use personal_vpn.Prelude.{
  ◌+◌, ◌*◌, ◌≡◌, refl, true, false, [], ◌∷◌, Option, none, some, Str, Str-discrete, text, ok, err,
  replicate, member,
}
use personal_vpn.Encoding.Space.{trim_space}
use personal_vpn.Encoding.Fmt.{decimal}
use personal_vpn.Control.{TunnelConfiguration}
use personal_vpn.Store.Failures.{no_faults, device_not_active}
use personal_vpn.Store.Tables.{
  Database, find_where, exists_where, update_where, count_where, select_where,
}
use personal_vpn.Store.Outbox.{commit}
use personal_vpn.Store.Addresses.{first_available_address, search, is_valid, contains, masked}
use personal_vpn.Store.Allocation.{
  Externals, Draws, has_colon, operation_of, existing, choose_gateway, has_room, active_addresses,
  insert_lease, insert_assignment, insert_key,
}
use personal_vpn.Store.Allocation.Creation.{
  create_tunnel_configuration, run_transaction, transaction, allocate, place, settle, record_answer,
}
use personal_vpn.Store.Allocation.Replays.{create-replay}
use personal_vpn.Store.Allocation.Leases.{LeasesApart, create-LeasesApart}
use personal_vpn.Store.Accounts.{request_revocation, request_row, write_row}
use personal_vpn.Store.Accounts.Effects.{request_revocation-create}
use personal_vpn.Store.TestData.{hosts, postgres, device, gateway, region}

-- The only configuration that the example encodes.
abbrev decoded : TunnelConfiguration
decoded = record {
  assignment_id = text "b";
  endpoint = text "gw:51820";
  server_public_key = text "k";
  addresses = text "770/32" ∷ text "770/128" ∷ [];
  dns_servers = text "1" ∷ text "2" ∷ [];
  allowed_ips = text "0.0.0.0/0" ∷ text "::/0" ∷ [];
  persistent_keepalive_seconds = 25;
  expires_at = 5 + 24 * 60 * 60 * 1000000000;
}

abbrev externals : Externals
externals = record {
  server_of = postgres;
  hosts = hosts;
  sha256 = λ v. v;
  marshal = λ c. encoded c;
  unmarshal = λ body. some decoded;
  pool_of = λ v. some (record { is_4 = true; address = 1000; bits = 24 });
  ipv4_text = λ a. decimal a;
  ipv6_text = λ a. decimal a;
}
  where
    encoded : TunnelConfiguration → Option Str
    encoded c = some (text "{}")

abbrev draws : Draws
draws = record {
  clock = 5;
  now = 5;
  lease_id = text "l";
  assignment_id = text "b";
  locked = [];
  faults = no_faults;
}

abbrev fresh : Database
fresh = record {
  users = [];
  devices = device ∷ [];
  regions = region ∷ [];
  gateways = gateway ∷ [];
  leases = [];
  assignments = [];
  idempotency_keys = [];
  snapshots = [];
}

abbrev key : Str
key = replicate 16 65

create-LeasesApart_example :
    LeasesApart
      (create_tunnel_configuration externals fresh
        (text "u")
        (text "d")
        (text "eu")
        key
        draws).0.leases
create-LeasesApart_example =
    create-LeasesApart externals fresh (text "u") (text "d") (text "eu") key draws tt

revoked :
    (request_revocation postgres fresh (text "u") (text "d") none)
    ≡ (record fresh { devices = request_row device ∷ [] }, ok tt)
unfolding request_revocation write_row exists_where update_where Str-discrete
revoked = refl

request_revocation-create_example :
    create_tunnel_configuration externals
      (record fresh { devices = request_row device ∷ [] })
      (text "u")
      (text "d")
      (text "eu")
      key
      draws
    ≡ (record fresh { devices = request_row device ∷ [] }, err device_not_active)
unfolding Str-discrete trim_space
request_revocation-create_example =
    request_revocation-create externals fresh (record fresh { devices = request_row device ∷ [] })
      (text "u") (text "d") (text "eu") key draws none revoked refl (λ n. refl)

abbrev allocated : Database
allocated =
    (create_tunnel_configuration externals fresh (text "u") (text "d") (text "eu") key draws).0

created :
    create_tunnel_configuration externals fresh (text "u") (text "d") (text "eu") key draws
    ≡ (allocated, ok (decoded, true))
unfolding create_tunnel_configuration run_transaction transaction allocate place settle
    record_answer find_where exists_where select_where count_where operation_of existing
    choose_gateway has_room active_addresses insert_lease insert_assignment insert_key
    first_available_address search is_valid contains masked commit decimal has_colon Str-discrete
    trim_space member
created = refl

create-replay_example :
    create_tunnel_configuration externals allocated (text "u") (text "d") (text "eu") key draws
    ≡ (allocated, ok (decoded, false))
create-replay_example =
    create-replay externals fresh allocated (text "u") (text "d") (text "eu") key draws draws
      decoded (λ n. refl) (λ body stored encoded object. refl) created
