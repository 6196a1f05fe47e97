-- ===== src/Store/Allocation/Creation.antt =====
-- The steps of CreateTunnelConfiguration and their order. The faults are numbered: 0 begin, 1 the
-- device, 2 the idempotency key, 3 the lock, 4 the region, 5 the present assignment, 6 the gateway,
-- 7 and 8 the addresses, 9 the lease, 10 the assignment, 11 the answer and 12 the commit.
use personal_vpn.Prelude.{
  ℕ, ◌+◌, Bool, true, false, ◌||◌, not, [], ◌∷◌, ◌++◌, Option, none, some, if◌then◌else◌, ltb, Str,
  text, length, Fallible, ok, err, fail_if, ◌>>=◌, ◌>>◌, pos,
}
use personal_vpn.Encoding.Fmt.{decimal}
use personal_vpn.Control.{TunnelConfiguration, blank}
use personal_vpn.Store.Failures.{
  Failure, no_rows, server, broken, Error, invalid_input, conflict, capacity_exhausted,
  device_not_active, device_already_allocated, wrapped, failed, invalid_text, map_database_error,
  Fault,
}
use personal_vpn.Store.Tables.{
  pending, AssignmentRow, LeaseRow, GatewayRow, RegionRow, IdempotencyRow, Database, str_eq,
  find_where,
}
use personal_vpn.Store.Outbox.{commit}
use personal_vpn.Store.Allocation.{
  Externals, Draws, call, day, stored_time, or_no_rows, is_active_state, join_host_port,
  operation_of, owned_device, has_key, is_open_region, Existing, existing, choose_gateway,
  active_addresses, available, insert_lease, insert_assignment, insert_key,
}

-- The arguments, with the canonical texts of the two uuids.
pub record Query : Type 0 where
  pub owner : Str
  pub device : Str
  pub operation : Str
  pub region_id : Str
  pub key : Str

abbrev pub configuration_of : Str → GatewayRow → Str → Str → RegionRow → ℕ → TunnelConfiguration
configuration_of assignment_id g ipv4 ipv6 r expires_at = record {
  assignment_id = assignment_id;
  endpoint = join_host_port g.endpoint_host (decimal g.endpoint_port);
  server_public_key = g.public_key;
  addresses = (ipv4 ++ text "/32") ∷ (ipv6 ++ text "/128") ∷ [];
  dns_servers = r.dns_ipv4 ∷ r.dns_ipv6 ∷ [];
  allowed_ips = text "0.0.0.0/0" ∷ text "::/0" ∷ [];
  persistent_keepalive_seconds = 25;
  expires_at = expires_at;
}

abbrev pub query_of : Str → Str → Str → Str → Str → Query
query_of owner device device_id region_id key = record {
  owner = owner;
  device = device;
  operation = operation_of device_id;
  region_id = region_id;
  key = key;
}

-- No gateway with room is the lack of capacity.
abbrev pub of_choice : Failure → Error
of_choice no_rows = capacity_exhausted
of_choice (server code) = map_database_error (server code)
of_choice (broken what) = map_database_error (broken what)

-- What the first query returns for a text that is no uuid.
abbrev pub invalid_uuid : Option Fault → Error
invalid_uuid (some f) = map_database_error f.failure
invalid_uuid none = map_database_error (server invalid_text)

abbrev pub lease_row : Query → Draws → ℕ → ℕ → LeaseRow
lease_row q t ipv4 ipv6 = record {
  id = t.lease_id;
  region_id = q.region_id;
  device_id = q.device;
  ipv4 = ipv4;
  ipv6 = ipv6;
  released_at = none;
}

abbrev pub assignment_row : Query → Draws → GatewayRow → AssignmentRow
assignment_row q t g = record {
  id = t.assignment_id;
  device_id = q.device;
  gateway_id = g.id;
  lease_id = t.lease_id;
  state = pending;
  desired_generation = pos 1;
  observed_generation = pos 0;
  expires_at = stored_time (t.clock + day);
  created_at = t.now;
}

-- What the transaction is to commit, with the text that an error of the commit is wrapped in.
pub record Outcome : Type 0 where
  pub label : Str
  pub database : Database
  pub configuration : TunnelConfiguration
  pub created : Bool

module _ (x : Externals) where
  abbrev pub key_row : Query → ℕ → Str → ℕ → IdempotencyRow
  key_row q status body clock = record {
    user_id = q.owner;
    operation = q.operation;
    key_hash = x.sha256 q.key;
    request_hash = x.sha256 q.region_id;
    status_code = status;
    response_body = body;
    expires_at = stored_time (clock + day);
  }

  -- The answer is stored under the key.
  unfoldable pub record_answer :
      Database → Query → Draws → ℕ → Str → TunnelConfiguration → Fallible Error Database
  record_answer db q t status label configuration = elim (x.marshal configuration) [
    | none ↦ err (failed label)
    | some body ↦ call (t.faults 11) map_database_error (elim (x.server_of.json_object body) [
      | none ↦ err (server invalid_text)
      | some stored ↦ insert_key (key_row q status stored t.clock) t.now db
    ])
  ]

  -- A key that is known: the same request is answered as before.
  unfoldable pub replay : Query → IdempotencyRow → Fallible Error TunnelConfiguration
  replay q r =
      if not (str_eq r.request_hash (x.sha256 q.region_id))
      then err conflict
      else elim (x.unmarshal r.response_body) [
        | none ↦ err (failed (text "decode idempotent response"))
        | some configuration ↦ ok configuration
      ]

  abbrev pub kept_configuration : Existing → RegionRow → TunnelConfiguration
  kept_configuration e region =
      configuration_of e.assignment.id e.gateway (x.hosts.host_ipv4 e.lease.ipv4)
        (x.hosts.host_ipv6 e.lease.ipv6) region e.assignment.expires_at

  -- A device with a live lease keeps it.
  unfoldable pub reuse :
      Database
      → Query
      → Draws
      → RegionRow
      → Existing
      → Fallible Error (Database × TunnelConfiguration)
  reuse db q t region e =
      if not (str_eq e.lease.region_id q.region_id) then err device_already_allocated else do
        let configuration = kept_configuration e region
        db' ← record_answer db q t 200 (text "encode reused tunnel configuration") configuration
        ok (db', configuration)

  abbrev pub new_configuration : Draws → GatewayRow → ℕ → ℕ → RegionRow → TunnelConfiguration
  new_configuration t gateway ipv4 ipv6 region =
      configuration_of t.assignment_id gateway (x.ipv4_text ipv4) (x.ipv6_text ipv6) region
        (t.clock + day)

  -- The three rows of an allocation.
  unfoldable pub settle :
      Database
      → Query
      → Draws
      → RegionRow
      → GatewayRow
      → ℕ
      → ℕ
      → Fallible Error (Database × TunnelConfiguration)
  settle db q t region gateway ipv4 ipv6 = do
    leased ← call (t.faults 9) map_database_error (insert_lease (lease_row q t ipv4 ipv6) db)
    assigned ←
        call (t.faults 10) map_database_error
          (insert_assignment (assignment_row q t gateway) leased)
    let configuration = new_configuration t gateway ipv4 ipv6 region
    answered ← record_answer assigned q t 201 (text "encode idempotent response") configuration
    ok (answered, configuration)

  -- A new lease and its assignment.
  unfoldable pub place :
      Database → Query → Draws → RegionRow → Fallible Error (Database × TunnelConfiguration)
  place db q t region = do
    gateway ←
        call (t.faults 6) of_choice
          (or_no_rows (choose_gateway db q.region_id t.locked db.gateways))
    used ←
        call (t.faults 7) (wrapped (text "list active addresses"))
          (ok (active_addresses db q.region_id))
    whole ← call (t.faults 8) (wrapped (text "iterate active addresses")) (ok used)
    ipv4 ← available (x.pool_of region.ipv4_pool) whole.0
    ipv6 ← available (x.pool_of region.ipv6_pool) whole.1
    settle db q t region gateway ipv4 ipv6

  -- Behind the lookup of the key.
  unfoldable pub allocate : Database → Query → Draws → Fallible Error Outcome
  allocate db q t = do
    locked ← call (t.faults 3) (wrapped (text "lock region allocation")) (ok tt)
    region ←
        call (t.faults 4) map_database_error
          (or_no_rows (find_where (is_open_region q.region_id) db.regions))
    present ← call (t.faults 5) map_database_error (ok (existing db q.device db.assignments))
    elim present [
      | some e ↦ do
        (db', configuration) ← reuse db q t region e
        ok (record {
          label = text "commit reused tunnel configuration";
          database = db';
          configuration = configuration;
          created = true;
        })
      | none ↦ do
        (db', configuration) ← place db q t region
        ok (record {
          label = text "commit tunnel allocation";
          database = db';
          configuration = configuration;
          created = true;
        })
    ]

  unfoldable pub transaction : Database → Query → Draws → Fallible Error Outcome
  transaction db q t = do
    device ←
        call (t.faults 1) map_database_error
          (or_no_rows (find_where (owned_device q.device q.owner) db.devices))
    fail_if (not (is_active_state device.state)) device_not_active
    known ←
        call (t.faults 2) map_database_error
          (ok (find_where (has_key q.owner q.operation (x.sha256 q.key)) db.idempotency_keys))
    elim known [
      | some r ↦ do
        configuration ← replay q r
        ok (record {
          label = text "commit idempotent replay";
          database = db;
          configuration = configuration;
          created = false;
        })
      | none ↦ allocate db q t
    ]

  unfoldable pub run_transaction :
      Database → Query → Draws → Database × Fallible Error (TunnelConfiguration × Bool)
  run_transaction db q t = elim (transaction db q t) [
    | err e ↦ (db, err e)
    | ok o ↦ commit o.label (t.faults 12) db o.database (o.configuration, o.created)
  ]

  unfoldable pub create_tunnel_configuration :
      Database
      → Str
      → Str
      → Str
      → Str
      → Draws
      → Database × Fallible Error (TunnelConfiguration × Bool)
  create_tunnel_configuration db owner_id device_id region_id key t =
      if blank owner_id
        || blank device_id
        || blank region_id
        || ltb (length key) 16
        || ltb 128 (length key)
      then (db, err invalid_input)
      else elim (t.faults 0) [
        | some f ↦ (db, err (wrapped (text "begin allocation transaction") f.failure))
        | none ↦ elim (x.server_of.uuid device_id) [
          | none ↦ (db, err (invalid_uuid (t.faults 1)))
          | some device ↦ elim (x.server_of.uuid owner_id) [
            | none ↦ (db, err (invalid_uuid (t.faults 1)))
            | some owner ↦ run_transaction db (query_of owner device device_id region_id key) t
          ]
        ]
      ]
