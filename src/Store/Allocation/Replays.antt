-- ===== src/Store/Allocation/Replays.antt =====
-- A call with a key that has been used.
use personal_vpn.Prelude.{
  ℕ, ◌≡◌, ◌≢◌, refl, sym, subst, ap, ◌∙◌, inl, inr, true, false, ◌||◌, none, some, Str, length, ltb,
  ok, err, arith, Option-cases,
}
use personal_vpn.Control.{TunnelConfiguration, blank}
use personal_vpn.Store.Failures.{conflict}
use personal_vpn.Store.Tables.{DeviceRow, IdempotencyRow, Database, find_where}
use personal_vpn.Store.Allocation.{Externals, Draws, is_active_state, owned_device}
use personal_vpn.Store.Allocation.Creation.{
  Query, query_of, key_row, run_transaction, create_tunnel_configuration,
}
use personal_vpn.Store.Allocation.Keys.{
  lookup, transaction-Committed, Allocated-lookup, transaction-replay, run_transaction-created,
  transaction-conflict,
}

module _ (x : Externals) where
  -- A call that succeeds has passed the checks.
  record Checked (db : Database) (owner_id device_id region_id key : Str) (t : Draws) : Type 0 where
    pub owner : Str
    pub device : Str
    pub named : (blank owner_id || blank device_id) ≡ false
    pub in_region : blank region_id ≡ false
    pub sized : (ltb (length key) 16 || ltb 128 (length key)) ≡ false
    pub its_owner : x.server_of.uuid owner_id ≡ some owner
    pub its_device : x.server_of.uuid device_id ≡ some device
    pub inner :
        create_tunnel_configuration x db owner_id device_id region_id key t
        ≡ run_transaction x db (query_of owner device device_id region_id key) t

  create-Checked :
      (db db' : Database) (owner_id device_id region_id key : Str) (t : Draws)
      (c : TunnelConfiguration)
      → create_tunnel_configuration x db owner_id device_id region_id key t ≡ (db', ok (c, true))
      → Checked db owner_id device_id region_id key t
  unfolding create_tunnel_configuration
  create-Checked db db' owner_id device_id region_id key t c h = elim (Option-cases (t.faults 0)) [
    | inr (f, e) ↦ absurd (ground arith)
    | inl begun ↦ elim (Option-cases (x.server_of.uuid device_id)) [
      | inl e ↦ absurd (ground arith)
      | inr (device, its_device) ↦ elim (Option-cases (x.server_of.uuid owner_id)) [
        | inl e ↦ absurd (ground arith)
        | inr (owner, its_owner) ↦ record {
          owner = owner;
          device = device;
          named = ground arith;
          in_region = ground arith;
          sized = ground arith;
          its_owner = its_owner;
          its_device = its_device;
          inner = ground arith;
        }
      ]
    ]
  ]

  -- The checks of another call with the same owner, device and key.
  create-again :
      (db : Database) (owner_id device_id region_id key owner device : Str) (t : Draws)
      → (blank owner_id || blank device_id) ≡ false
      → blank region_id ≡ false
      → (ltb (length key) 16 || ltb 128 (length key)) ≡ false
      → x.server_of.uuid owner_id ≡ some owner
      → x.server_of.uuid device_id ≡ some device
      → t.faults 0 ≡ none
      → create_tunnel_configuration x db owner_id device_id region_id key t
        ≡ run_transaction x db (query_of owner device device_id region_id key) t
  unfolding create_tunnel_configuration
  create-again db owner_id device_id region_id key owner device t named in_region sized its_owner
        its_device begun =
      ground arith

  -- What a call that creates leaves for the next one.
  record Left (db' : Database) (q : Query) (c : TunnelConfiguration) : Type 0 where
    pub device : DeviceRow
    pub its_device : find_where (owned_device q.device q.owner) db'.devices ≡ some device
    pub active : is_active_state device.state ≡ true
    pub row : IdempotencyRow
    pub known : lookup x q db' ≡ some row
    pub request : row.request_hash ≡ x.sha256 q.region_id
    pub body : Str
    pub encoded : x.marshal c ≡ some body
    pub object : x.server_of.json_object body ≡ some row.response_body

  created-Left :
      (q : Query) (t : Draws) (db db' : Database) (c : TunnelConfiguration)
      → run_transaction x db q t ≡ (db', ok (c, true))
      → Left db' q c
  created-Left q t db db' c h =
      let (o, done, database, configuration, created) = run_transaction-created x q t db db' c h in
      let end = transaction-Committed x q t db o done in
      elim end.way [
        | inl (not_created, _) ↦ absurd (ground arith)
        | inr (unknown, a) ↦
            subst (λ z. Left z q c) database
              (subst (λ z. Left o.database q z) configuration
                (record {
                  device = end.device;
                  its_device =
                      ap (find_where (owned_device q.device q.owner)) a.answered.devices
                      ∙ end.its_device;
                  active = end.active;
                  row = key_row x q a.answered.status a.answered.stored t.clock;
                  known = Allocated-lookup x q t db o unknown a;
                  request = refl;
                  body = a.answered.body;
                  encoded = a.answered.encoded;
                  object = a.answered.object;
                }))
      ]

  -- After a call that has created a configuration under a key, the same call, without faults,
  -- returns the same configuration as not created and changes nothing, where the configuration is
  -- read back from the JSON that the database keeps of it.
  pub create-replay :
      (db db' : Database) (owner_id device_id region_id key : Str) (t again : Draws)
      (c : TunnelConfiguration)
      → ((n : ℕ) → again.faults n ≡ none)
      → ((body stored : Str)
          → x.marshal c ≡ some body
          → x.server_of.json_object body ≡ some stored
          → x.unmarshal stored ≡ some c)
      → create_tunnel_configuration x db owner_id device_id region_id key t ≡ (db', ok (c, true))
      → create_tunnel_configuration x db' owner_id device_id region_id key again
        ≡ (db', ok (c, false))
  create-replay db db' owner_id device_id region_id key t again c calm reads_back h =
      let k = create-Checked db db' owner_id device_id region_id key t c h in
      let q : Query = query_of k.owner k.device device_id region_id key in
      let left = created-Left q t db db' c (sym k.inner ∙ h) in
      create-again db' owner_id device_id region_id key k.owner k.device again k.named k.in_region
        k.sized k.its_owner k.its_device (calm 0)
      ∙ transaction-replay x q again db' left.device left.row c calm left.its_device left.active
          left.known left.request
          (reads_back left.body left.row.response_body left.encoded left.object)

  -- After a call that has created a configuration under a key, a call with that key for a region of
  -- another hash fails with a conflict, without faults, and changes nothing.
  pub create-other_region :
      (db db' : Database) (owner_id device_id region_id other key : Str) (t again : Draws)
      (c : TunnelConfiguration)
      → ((n : ℕ) → again.faults n ≡ none)
      → blank other ≡ false
      → x.sha256 region_id ≢ x.sha256 other
      → create_tunnel_configuration x db owner_id device_id region_id key t ≡ (db', ok (c, true))
      → create_tunnel_configuration x db' owner_id device_id other key again ≡ (db', err conflict)
  create-other_region db db' owner_id device_id region_id other key t again c calm named differs h =
      let k = create-Checked db db' owner_id device_id region_id key t c h in
      let q : Query = query_of k.owner k.device device_id region_id key in
      let left = created-Left q t db db' c (sym k.inner ∙ h) in
      create-again db' owner_id device_id other key k.owner k.device again k.named named k.sized
        k.its_owner k.its_device (calm 0)
      ∙ transaction-conflict x (query_of k.owner k.device device_id other key) again db' left.device
          left.row calm left.its_device left.active left.known
          (λ same. differs (sym left.request ∙ same))
