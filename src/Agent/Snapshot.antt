-- ===== src/Agent/Snapshot.antt =====
-- services/api/internal/agent/snapshot.go. A time is a number of nanoseconds from `time.Time{}`;
-- netip.ParsePrefix, ed25519 and encoding/json are parameters.
pub mod Operations
pub mod Changes
pub mod Converges
pub mod Validity
pub mod Signed
pub use personal_vpn.Prelude.{ok, err, Result-cases, fail_if, ◌>>=◌, ◌>>◌}
use personal_vpn.Prelude.{
  Fallible, ℕ, ◌≡◌, refl, ◌⊎◌, inl, inr, Bool, true, false, ◌&&◌, ◌||◌, not, List, [], ◌∷◌, ◌++◌,
  Option, none, some, ltb, leb, ◌==◌, if◌then◌else◌, holds, Str, Str-discrete, length, Map, get,
  put, delete, member, insert, ℤ, pos, leb_ℤ,
}
use personal_vpn.Keys.{valid_public_key}

abbrev pub max_peers_per_snapshot : ℕ
max_peers_per_snapshot = 100000

pub record Peer : Type 0 where
  pub public_key : Str
  pub ipv4 : Str
  pub ipv6 : Str

pub record Snapshot : Type 0 where
  pub gateway_id : Str
  pub generation : ℤ
  pub expires_at : ℕ
  pub peers : List Peer
  pub signature : Str

pub data OperationKind : Type 0 where
  add update remove : OperationKind

pub record Operation : Type 0 where
  pub kind : OperationKind
  pub peer : Peer

-- The errors of the package; `external` is one that a call outside it returns.
pub data Error : Type 0 where
  invalid_snapshot invalid_signature invalid_operation no_delivery : Error
  encode_snapshot decode_snapshot : Error
  apply_operation : OperationKind → Error
  apply_snapshot : Error → Error
  external : Str → Error

abbrev pub Result {ℓ} : Type ℓ → Type ℓ
Result A = Fallible Error A

-- `some (bits, length)`: the prefix length, and the length of the address in bits.
abbrev pub ParsePrefix : Type 0
ParsePrefix = Str → Option (ℕ × ℕ)

unfoldable pub by_key : Map Str Peer → List Peer → Map Str Peer
by_key m [] = m
by_key m (peer ∷ peers) = by_key (put Str-discrete peer.public_key peer m) peers

-- What a peer that is wanted asks for, given what is observed under its key.
abbrev pub changes : Peer → Option Peer → List Operation
changes peer none = record { kind = add; peer = peer } ∷ []
changes peer (some current) =
    if not (holds (Str-discrete current.ipv4 peer.ipv4))
      || not (holds (Str-discrete current.ipv6 peer.ipv6))
    then record { kind = update; peer = peer } ∷ []
    else []

-- The loop over `desiredByKey`.
unfoldable pub additions : Map Str Peer → Map Str Peer → List Operation
additions [] observed = []
additions ((key, peer) ∷ desired) observed =
    changes peer (get Str-discrete key observed) ++ additions desired observed

abbrev pub removal : Peer → Option Peer → List Operation
removal peer none =
    record { kind = remove; peer = record { public_key = peer.public_key; ipv4 = []; ipv6 = [] } }
    ∷ []
removal peer (some wanted) = []

-- The loop over `observed`.
unfoldable pub removals : Map Str Peer → Map Str Peer → List Operation
removals [] desired = []
removals ((key, peer) ∷ observed) desired =
    removal peer (get Str-discrete key desired) ++ removals observed desired

-- Go's `<` on strings.
unfoldable pub str_lt : Str → Str → Bool
str_lt s [] = false
str_lt [] (b ∷ t) = true
str_lt (a ∷ s) (b ∷ t) = ltb a b || a == b && str_lt s t

-- The order of "add", "remove" and "update".
abbrev pub kind_rank : OperationKind → ℕ
kind_rank add = 0
kind_rank remove = 1
kind_rank update = 2

unfoldable pub operation_less : Operation → Operation → Bool
operation_less a b =
    if holds (Str-discrete a.peer.public_key b.peer.public_key)
    then ltb (kind_rank a.kind) (kind_rank b.kind)
    else str_lt a.peer.public_key b.peer.public_key

-- `sort.Slice`, as an insertion sort.
unfoldable pub insert_operation : Operation → List Operation → List Operation
insert_operation a [] = a ∷ []
insert_operation a (b ∷ l) = if operation_less b a then b ∷ insert_operation a l else a ∷ b ∷ l

unfoldable pub sort_operations : List Operation → List Operation
sort_operations [] = []
sort_operations (a ∷ l) = insert_operation a (sort_operations l)

unfoldable pub unsigned : Snapshot → Snapshot
unsigned s = record s { signature = [] }

module _ (parse_prefix : ParsePrefix) where
  unfoldable pub valid_host_prefix : Str → ℕ → Bool
  valid_host_prefix value family = elim (parse_prefix value) [
    | none ↦ false
    | some (bits, bit_len) ↦
        if not (bits == bit_len)
        then false
        else family == 4 && bit_len == 32 || family == 6 && bit_len == 128
  ]

  unfoldable pub valid_peer : Peer → Bool
  valid_peer peer =
      valid_public_key peer.public_key
      && valid_host_prefix peer.ipv4 4
      && valid_host_prefix peer.ipv6 6

  -- The loop of `Validate`, over the three sets of what was seen.
  unfoldable pub validate_peers : List Str → List Str → List Str → List Peer → Result (Unit {0})
  validate_peers seen_keys seen_ipv4 seen_ipv6 [] = ok tt
  validate_peers seen_keys seen_ipv4 seen_ipv6 (peer ∷ peers) =
      let rest =
        validate_peers (insert Str-discrete peer.public_key seen_keys)
          (insert Str-discrete peer.ipv4 seen_ipv4) (insert Str-discrete peer.ipv6 seen_ipv6)
          peers in
      do
        fail_if (not (valid_peer peer)) invalid_snapshot
        fail_if (member Str-discrete peer.public_key seen_keys) invalid_snapshot
        fail_if (member Str-discrete peer.ipv4 seen_ipv4) invalid_snapshot
        fail_if (member Str-discrete peer.ipv6 seen_ipv6) invalid_snapshot
        rest

  unfoldable pub validate : Snapshot → ℕ → Str → Result (Unit {0})
  validate s now gateway_id = do
    fail_if
        (holds (Str-discrete s.gateway_id [])
          || not (holds (Str-discrete s.gateway_id gateway_id))
          || leb_ℤ s.generation (pos 0)
          || not (ltb now s.expires_at))
        invalid_snapshot
    fail_if (ltb max_peers_per_snapshot (length s.peers)) invalid_snapshot
    validate_peers [] [] [] s.peers

  unfoldable pub diff : Snapshot → Map Str Peer → Result (List Operation)
  diff desired observed = do
    validate desired 0 desired.gateway_id
    let desired_by_key = by_key [] desired.peers
    ok (sort_operations (additions desired_by_key observed ++ removals observed desired_by_key))

-- What signing rests on: the JSON of a snapshot, and ed25519.
pub record Signing : Type 0 where
  pub marshal : Snapshot → Option Str
  pub ed25519_sign : Str → Str → Str
  pub ed25519_verify : Str → Str → Str → Bool

module _ (x : Signing) where
  unfoldable pub signing_bytes : Snapshot → Option Str
  unfolding unsigned
  signing_bytes s = x.marshal (unsigned s)

  unfoldable pub sign : Snapshot → Str → Result Snapshot
  unfolding signing_bytes
  sign snapshot private_key =
      if not (length private_key == 64)
      then err invalid_signature
      else elim (signing_bytes (record snapshot { signature = [] })) [
        | none ↦ err encode_snapshot
        | some content ↦ ok (record snapshot { signature = x.ed25519_sign private_key content })
      ]

  unfoldable pub verify : ParsePrefix → Snapshot → ℕ → Str → Str → Result (Unit {0})
  unfolding signing_bytes
  verify parse_prefix s now gateway_id public_key = do
    validate parse_prefix s now gateway_id
    fail_if (not (length public_key == 32) || not (length s.signature == 64)) invalid_signature
    elim (signing_bytes s) [
      | none ↦ err invalid_signature
      | some content ↦
          fail_if (not (x.ed25519_verify public_key content s.signature)) invalid_signature
    ]
