-- ===== src/Store/TestData.antt =====
-- One device, one region and one gateway.
use personal_vpn.Prelude.{true, [], ◌∷◌, none, some, text, pos, replicate}
use personal_vpn.Encoding.Fmt.{decimal}
use personal_vpn.Control.{DeviceState}
use personal_vpn.Agent.Snapshot.{Signing}
use personal_vpn.Store.Tables.{
  removal_pending, AssignmentRow, DeviceRow, RegionRow, LeaseRow, GatewayRow, ready, Database,
  Server,
}
use personal_vpn.Store.Publishing.{Hosts}

abbrev pub hosts : Hosts
hosts = record { host_ipv4 = λ a. decimal a; host_ipv6 = λ a. decimal a }

abbrev pub postgres : Server
postgres = record { uuid = λ v. some v; json_object = λ v. some v; is_text = λ v. true }

abbrev pub device : DeviceRow
device = record {
  id = text "d";
  user_id = text "u";
  name = text "phone";
  platform = text "android";
  public_key = text "k";
  state = DeviceState.active;
  created_at = 1;
  revoked_at = none;
}

abbrev pub lease : LeaseRow
lease = record {
  id = text "l";
  region_id = text "eu";
  device_id = text "d";
  ipv4 = 1002;
  ipv6 = 2002;
  released_at = none;
}

abbrev pub assignment : AssignmentRow
assignment = record {
  id = text "a";
  device_id = text "d";
  gateway_id = text "g";
  lease_id = text "l";
  state = removal_pending;
  desired_generation = pos 1;
  observed_generation = pos 0;
  expires_at = 100;
  created_at = 1;
}

abbrev pub gateway : GatewayRow
gateway = record {
  id = text "g";
  region_id = text "eu";
  endpoint_host = text "gw";
  endpoint_port = 51820;
  public_key = text "k";
  state = ready;
  capacity_peers = 10;
}

abbrev pub region : RegionRow
region = record {
  id = text "eu";
  display_name = text "Europe";
  ipv4_pool = text "4";
  ipv6_pool = text "6";
  dns_ipv4 = text "1";
  dns_ipv6 = text "2";
  available = true;
}

abbrev pub with_removal : Database
with_removal = record {
  users = [];
  devices = device ∷ [];
  regions = region ∷ [];
  gateways = gateway ∷ [];
  leases = lease ∷ [];
  assignments = assignment ∷ [];
  idempotency_keys = [];
  snapshots = [];
}

abbrev pub signing : Signing
signing = record {
  marshal = λ s. some (text "{}");
  ed25519_sign = λ key content. replicate 64 1;
  ed25519_verify = λ key content signature. true;
}
