-- ===== src/Auth/Service.antt =====
-- services/api/internal/auth/service.go. The interface UserStore is a record of operations on a
-- state of its own; `strings.ToLower` is a parameter, for the case tables of Unicode.
pub mod Accounts
mod Tests
use personal_vpn.Prelude.{
  ℕ, Bool, true, false, ◌&&◌, ◌||◌, not, List, [], ◌∷◌, Option, none, some, ltb, ◌==◌,
  if◌then◌else◌, Fallible, ok, err, Str, length,
}
use personal_vpn.Encoding.Space.{trim_space}
use personal_vpn.Auth.Session
use personal_vpn.Auth.Session.{
  SessionStore, TokenPair, Draw, issue, rotate_refresh, revoke_user, authenticate_access,
}
use personal_vpn.Auth.Password
use personal_vpn.Auth.Password.{IdKey, hash_password, verify_password}

-- `unhashed` is an error of HashPassword, `unstored` one of the store, `unissued` one of Issue.
pub data Error : Type 0 where
  invalid_credentials : Error
  unhashed : Password.Error → Error
  unstored : Str → Error
  unissued : Session.Error → Error

-- What `FindUserPasswordHash` returns.
pub record User : Type 0 where
  pub user_id : Str
  pub password_hash : Str
  pub disabled : Bool

pub record UserStore (U : Type 0) : Type 0 where
  pub create_user : U → Str → Str → U × Fallible Str Str
  pub find_user_password_hash : U → Str → Fallible Str User

-- `strings.ContainsAny(s, "\r\n")` and `strings.Contains(s, "@")`.
unfoldable pub has_break : Str → Bool
has_break [] = false
has_break (c ∷ s) = c == 13 || c == 10 || has_break s

unfoldable pub has_at : Str → Bool
has_at [] = false
has_at (c ∷ s) = c == b'@' || has_at s

-- A draw for each of the three tokens of a pair.
abbrev pub Draws : Type 0
Draws = Draw × Draw × Draw

abbrev pub issued : Session.Result TokenPair → Fallible Error TokenPair
issued (Session.err e) = err (unissued e)
issued (Session.ok pair) = ok pair

abbrev pub or_invalid : {A : Type 0} → Option A → Fallible Error A
or_invalid none = err invalid_credentials
or_invalid (some a) = ok a

unfoldable pub normalize_email : (Str → Str) → Str → Fallible Error Str
normalize_email to_lower email =
    let normalized = to_lower (trim_space email) in
    if ltb (length normalized) 3
      || ltb 320 (length normalized)
      || has_break normalized
      || not (has_at normalized)
    then err invalid_credentials
    else ok normalized

unfoldable pub logout : SessionStore → Str → SessionStore
logout s user_id = revoke_user s user_id

module _ (sha256 : Str → Str) where
  unfoldable pub refresh :
      SessionStore → Str → ℕ → ℕ → Draws → SessionStore × Fallible Error (TokenPair × Str)
  refresh s token checked now (d0, d1, d2) =
      let (t, result) = rotate_refresh sha256 s token checked now d0 d1 d2 in (t, or_invalid result)

  unfoldable pub authenticate : SessionStore → Str → ℕ → Fallible Error Str
  authenticate s token now = or_invalid (authenticate_access sha256 s token now)

module _ {U : Type 0} (users : UserStore U) (to_lower : Str → Str) (id_key : IdKey) where
  unfoldable pub register : U → Str → Str → Option Str → U × Fallible Error Str
  register u email password draw = elim (normalize_email to_lower email) [
    | err e ↦ (u, err e)
    | ok normalized ↦ elim (hash_password id_key password draw) [
      | err e ↦ (u, err (unhashed e))
      | ok hash ↦
          let (v, result) = users.create_user u normalized hash in
          elim result [ err e ↦ (v, err (unstored e)) | ok id ↦ (v, ok id) ]
    ]
  ]

  -- The user whom the credentials belong to.
  unfoldable pub check_credentials : U → Str → Str → Option Str
  check_credentials u email password = elim (normalize_email to_lower email) [
    | err e ↦ none
    | ok normalized ↦ elim (users.find_user_password_hash u normalized) [
      | err e ↦ none
      | ok user ↦
          if user.disabled || not (verify_password id_key password user.password_hash)
          then none
          else some user.user_id
    ]
  ]

  unfoldable pub login :
      (Str → Str)
      → U
      → SessionStore
      → Str
      → Str
      → ℕ
      → Draws
      → SessionStore × Fallible Error TokenPair
  login sha256 u s email password now (d0, d1, d2) = elim (check_credentials u email password) [
    | none ↦ (s, err invalid_credentials)
    | some user_id ↦ let (t, result) = issue sha256 s user_id now d0 d1 d2 in (t, issued result)
  ]
