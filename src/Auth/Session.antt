-- ===== src/Auth/Session.antt =====
-- services/api/internal/auth/session.go. Times are nanoseconds; a clock reading and a draw of
-- crypto/rand are arguments of the call that makes them, and SHA-256 is a parameter.
pub mod Views
pub mod Invariant
pub mod Revocation
pub mod Freshness
pub mod Issuing
pub mod Rotation
pub mod Lifecycle
pub mod Security
mod Tests
use mathlib.Core.Option
use personal_vpn.Prelude.{
  ℕ, ◌+◌, ◌*◌, ◌≡◌, Bool, true, false, ◌&&◌, ◌||◌, not, List, [], ◌∷◌, ◌++◌, Option, none, some,
  ltb, ◌==◌, if◌then◌else◌, holds, Str, Str-discrete, text, length, take, drop, Map, get, put,
  delete, member, insert, delete_all,
}
use personal_vpn.Encoding.Base64.{raw_url, encode, decode}

abbrev pub second : ℕ
second = 1_000_000_000

abbrev pub access_token_lifetime : ℕ
access_token_lifetime = 15 * 60 * second

abbrev pub refresh_token_lifetime : ℕ
refresh_token_lifetime = 30 * 24 * 3600 * second

abbrev pub token_prefix : Str
token_prefix = text "pv1_"

pub record TokenPair : Type 0 where
  pub access_token : Str
  pub refresh_token : Str
  pub access_expires_at : ℕ
  pub refresh_expires_at : ℕ

pub data Kind : Type 0 where
  access refresh : Kind

pub record Session : Type 0 where
  pub user_id : Str
  pub family_id : Str
  pub expires_at : ℕ
  pub kind : Kind

pub record SessionStore : Type 0 where
  pub sessions : Map Str Session
  pub families : Map Str (List Str)
  pub consumed : Map Str Str

pub data Error : Type 0 where
  user_required random_failed : Error

pub data Result {ℓ} (A : Type ℓ) : Type ℓ where
  ok : A → Result A
  err : Error → Result A

abbrev pub Draw : Type 0
Draw = Option Str

unfoldable pub new_session_store : SessionStore
new_session_store = record { sessions = []; families = []; consumed = [] }

-- `none` where the random source fails.
unfoldable pub random_token : Draw → Option Str
random_token none = none
random_token (some value) = some (token_prefix ++ encode raw_url value)

abbrev pub is_kind : Kind → Kind → Bool
is_kind access access = true
is_kind refresh refresh = true
is_kind _ _ = false

-- The inner map of a family; reading a missing one gives the empty map.
unfoldable pub hashes_of : SessionStore → Str → List Str
hashes_of s family_id = elim (get Str-discrete family_id s.families) [
  | none ↦ []
  | some hashes ↦ hashes
]

unfoldable pub revoke_family_locked : SessionStore → Str → SessionStore
revoke_family_locked s family_id = record s {
  sessions = delete_all Str-discrete (hashes_of s family_id) s.sessions;
  families = delete Str-discrete family_id s.families;
}

-- The inner loop of `revokeUserLocked`: some hash of the family is a session of the user.
unfoldable pub belongs_to : SessionStore → Str → List Str → Bool
belongs_to s user_id [] = false
belongs_to s user_id (hash ∷ hashes) =
    let later = belongs_to s user_id hashes in
    elim (get Str-discrete hash s.sessions) [
      | none ↦ later
      | some found ↦ holds (Str-discrete found.user_id user_id) || later
    ]

-- The outer loop, over the families that the map had when the loop began.
unfoldable pub revoke_matching : Map Str (List Str) → Str → SessionStore → SessionStore
revoke_matching [] user_id s = s
revoke_matching ((family_id, hashes) ∷ families) user_id s =
    revoke_matching families user_id
      (if belongs_to s user_id hashes then revoke_family_locked s family_id else s)

unfoldable pub revoke_user_locked : SessionStore → Str → SessionStore
unfolding revoke_matching
revoke_user_locked s user_id = revoke_matching s.families user_id s

-- `RevokeUser` has the body of `revokeUserLocked`.
unfoldable pub revoke_user : SessionStore → Str → SessionStore
unfolding revoke_matching
revoke_user s user_id = revoke_matching s.families user_id s

-- The two map writes of `issueLocked`. Its callers have just made the family, so that the write to
-- the inner map does not meet a nil map.
unfoldable pub add_session : SessionStore → Str → Session → SessionStore
add_session s hash session = record s {
  sessions = put Str-discrete hash session s.sessions;
  families =
      put Str-discrete session.family_id (insert Str-discrete hash (hashes_of s session.family_id))
        s.families;
}

-- `s.families[familyID] = make(map[[32]byte]struct{})`
unfoldable pub open_family : SessionStore → Str → SessionStore
open_family s family_id = record s { families = put Str-discrete family_id [] s.families }

pub record IssuedToken : Type 0 where
  pub token : Str
  pub expires_at : ℕ

abbrev pub pair_of : IssuedToken → IssuedToken → TokenPair
pair_of a r = record {
  access_token = a.token;
  refresh_token = r.token;
  access_expires_at = a.expires_at;
  refresh_expires_at = r.expires_at;
}

-- The two error returns after the calls of `issueLocked`, and the return of the pair.
abbrev pub both :
    SessionStore
    → SessionStore
    → Option IssuedToken
    → Option IssuedToken
    → SessionStore × Option TokenPair
both s1 s2 none _ = (s1, none)
both s1 s2 (some a) none = (s2, none)
both s1 s2 (some a) (some r) = (s2, some (pair_of a r))

abbrev pub hash_or_zero : Option Str → Str
hash_or_zero none =
    0 ∷ 0 ∷ 0 ∷ 0 ∷ 0 ∷ 0 ∷ 0 ∷ 0 ∷ 0 ∷ 0 ∷ 0 ∷ 0 ∷ 0 ∷ 0 ∷ 0 ∷ 0 ∷ 0 ∷ 0 ∷ 0 ∷ 0 ∷ 0 ∷ 0 ∷ 0 ∷ 0
    ∷ 0 ∷ 0 ∷ 0 ∷ 0 ∷ 0 ∷ 0 ∷ 0 ∷ 0 ∷ []
hash_or_zero (some hash) = hash

-- The token is unknown: a consumed one revokes its user.
unfoldable pub refuse_unknown : SessionStore → Str → SessionStore
refuse_unknown s hash = elim (get Str-discrete hash s.consumed) [
  | none ↦ s
  | some user_id ↦ revoke_user_locked s user_id
]

-- The old token is marked and its family revoked before the new pair is made.
unfoldable pub consume : SessionStore → Str → Session → SessionStore
consume s hash old =
    revoke_family_locked (record s { consumed = put Str-discrete hash old.user_id s.consumed })
      old.family_id

module _ (sha256 : Str → Str) where
  -- The hash is the zero array where the text is no token.
  unfoldable pub token_hash : Str → Option Str
  token_hash token =
      if not (length token == 47) || not (holds (Str-discrete (take 4 token) token_prefix))
      then none
      else elim (decode raw_url (drop 4 token)) [
        | none ↦ none
        | some decoded ↦ if length decoded == 32 then some (sha256 token) else none
      ]

  unfoldable pub issue_locked :
      SessionStore → Str → Str → Kind → ℕ → Draw → SessionStore × Option IssuedToken
  unfolding random_token
  issue_locked s user_id family_id kind expires_at draw = elim (random_token draw) [
    | none ↦ (s, none)
    | some token ↦ (
      add_session s (hash_or_zero (token_hash token)) (record {
        user_id = user_id;
        family_id = family_id;
        expires_at = expires_at;
        kind = kind;
      }),
      some (record { token = token; expires_at = expires_at }),
    )
  ]

  -- What `Issue` and `RotateRefresh` share: a new family with an access and a refresh token. A
  -- failing draw leaves what was written before it.
  unfoldable pub issue_pair :
      SessionStore → Str → ℕ → Draw → Draw → Draw → SessionStore × Option TokenPair
  unfolding random_token
  issue_pair s user_id now d0 d1 d2 = elim (random_token d0) [
    | none ↦ (s, none)
    | some family_id ↦
        let (s1, first) =
          issue_locked (open_family s family_id) user_id family_id access
            (now + access_token_lifetime) d1 in
        let (s2, second) =
          issue_locked s1 user_id family_id refresh (now + refresh_token_lifetime) d2 in
        both s1 s2 first second
  ]

  unfoldable pub issue :
      SessionStore → Str → ℕ → Draw → Draw → Draw → SessionStore × Result TokenPair
  issue s user_id now d0 d1 d2 =
      if holds (Str-discrete user_id [])
      then (s, err user_required)
      else let (s', pair) = issue_pair s user_id now d0 d1 d2 in
        (s', elim pair [ none ↦ err random_failed | some p ↦ ok p ])

  -- `authenticate`: no write.
  unfoldable pub authenticate : SessionStore → Str → Kind → ℕ → Option Str
  authenticate s token kind now = elim (token_hash token) [
    | none ↦ none
    | some hash ↦ elim (get Str-discrete hash s.sessions) [
      | none ↦ none
      | some found ↦
          if not (is_kind found.kind kind) || not (ltb now found.expires_at)
          then none
          else some found.user_id
    ]
  ]

  unfoldable pub authenticate_access : SessionStore → Str → ℕ → Option Str
  unfolding authenticate
  authenticate_access s token now = authenticate s token access now

  -- `checked` and `now` are the two readings of the clock.
  unfoldable pub rotate_refresh :
      SessionStore → Str → ℕ → ℕ → Draw → Draw → Draw → SessionStore × Option (TokenPair × Str)
  rotate_refresh s token checked now d0 d1 d2 = elim (token_hash token) [
    | none ↦ (s, none)
    | some hash ↦ elim (get Str-discrete hash s.sessions) [
      | none ↦ (refuse_unknown s hash, none)
      | some old ↦
          if not (is_kind old.kind refresh) || not (ltb checked old.expires_at)
          then (revoke_family_locked s old.family_id, none)
          else let (s', pair) = issue_pair (consume s hash old) old.user_id now d0 d1 d2 in
            (s', Option.map (λ p. (p, old.user_id)) pair)
    ]
  ]
