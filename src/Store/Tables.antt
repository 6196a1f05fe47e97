-- ===== src/Store/Tables.antt =====
-- The tables of services/api/migrations/0001_initial.sql, as far as the store reads and writes them.
-- An identifier is the text of a uuid, an address of a lease is its number, and a time a number.
pub mod Lookups
use personal_vpn.Prelude.{
  ℕ, Bool, true, false, List, [], ◌∷◌, Option, none, some, ◌+◌, if◌then◌else◌, holds, Str,
  Str-discrete, ℤ,
}
use personal_vpn.Control.{DeviceState}

pub data GatewayState : Type 0 where
  provisioning ready draining offline : GatewayState

pub data AssignmentState : Type 0 where
  pending active removal_pending removed : AssignmentState

pub data SnapshotState : Type 0 where
  queued in_flight acked failed : SnapshotState

pub record UserRow : Type 0 where
  pub id : Str
  pub email_normalized : Str
  pub password_hash : Str
  pub disabled_at : Option ℕ

pub record DeviceRow : Type 0 where
  pub id : Str
  pub user_id : Str
  pub name : Str
  pub platform : Str
  pub public_key : Str
  pub state : DeviceState
  pub created_at : ℕ
  pub revoked_at : Option ℕ

pub record RegionRow : Type 0 where
  pub id : Str
  pub display_name : Str
  pub ipv4_pool : Str
  pub ipv6_pool : Str
  pub dns_ipv4 : Str
  pub dns_ipv6 : Str
  pub available : Bool

pub record GatewayRow : Type 0 where
  pub id : Str
  pub region_id : Str
  pub endpoint_host : Str
  pub endpoint_port : ℕ
  pub public_key : Str
  pub state : GatewayState
  pub capacity_peers : ℕ

pub record LeaseRow : Type 0 where
  pub id : Str
  pub region_id : Str
  pub device_id : Str
  pub ipv4 : ℕ
  pub ipv6 : ℕ
  pub released_at : Option ℕ

pub record AssignmentRow : Type 0 where
  pub id : Str
  pub device_id : Str
  pub gateway_id : Str
  pub lease_id : Str
  pub state : AssignmentState
  pub desired_generation : ℤ
  pub observed_generation : ℤ
  pub expires_at : ℕ
  pub created_at : ℕ

pub record IdempotencyRow : Type 0 where
  pub user_id : Str
  pub operation : Str
  pub key_hash : Str
  pub request_hash : Str
  pub status_code : ℕ
  pub response_body : Str
  pub expires_at : ℕ

pub record SnapshotRow : Type 0 where
  pub id : Str
  pub gateway_id : Str
  pub generation : ℤ
  pub payload : Str
  pub signature : Str
  pub state : SnapshotState
  pub attempts : ℕ
  pub available_at : ℕ
  pub sent_at : Option ℕ
  pub acked_at : Option ℕ
  pub last_error : Option Str

pub record Database : Type 0 where
  pub users : List UserRow
  pub devices : List DeviceRow
  pub regions : List RegionRow
  pub gateways : List GatewayRow
  pub leases : List LeaseRow
  pub assignments : List AssignmentRow
  pub idempotency_keys : List IdempotencyRow
  pub snapshots : List SnapshotRow

-- What the server computes of a text: the canonical text of a uuid, the text of a jsonb object, and
-- whether the bytes are a text at all, in UTF-8 and without a NUL.
pub record Server : Type 0 where
  pub uuid : Str → Option Str
  pub json_object : Str → Option Str
  pub is_text : Str → Bool

abbrev pub str_eq : Str → Str → Bool
str_eq a b = holds (Str-discrete a b)

-- IN ('pending', 'active', 'removal_pending').
abbrev pub is_live : AssignmentState → Bool
is_live removed = false
is_live _ = true

module _ {ℓ} {R : Type ℓ} where
  -- UPDATE: the rows that the condition picks are changed.
  unfoldable pub update_where : (R → Bool) → (R → R) → List R → List R
  update_where p f [] = []
  update_where p f (r ∷ rows) = (if p r then f r else r) ∷ update_where p f rows

  unfoldable pub select_where : (R → Bool) → List R → List R
  select_where p [] = []
  select_where p (r ∷ rows) = let rest = select_where p rows in if p r then r ∷ rest else rest

  -- EXISTS, and the row of a condition on a key.
  unfoldable pub exists_where : (R → Bool) → List R → Bool
  exists_where p [] = false
  exists_where p (r ∷ rows) = let rest = exists_where p rows in if p r then true else rest

  unfoldable pub find_where : (R → Bool) → List R → Option R
  find_where p [] = none
  find_where p (r ∷ rows) = let rest = find_where p rows in if p r then some r else rest

  -- The number of the rows.
  unfoldable pub count_where : (R → Bool) → List R → ℕ
  count_where p [] = 0
  count_where p (r ∷ rows) = (if p r then 1 else 0) + count_where p rows
