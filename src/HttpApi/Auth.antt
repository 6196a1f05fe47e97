-- ===== src/HttpApi/Auth.antt =====
-- services/api/internal/httpapi/auth.go: the handlers of accounts and sessions. The interface
-- AuthService is a record of operations on a state of its own.
use personal_vpn.Prelude.{
  Bool, [], ◌∷◌, Option, none, some, Fallible, ok, err, if◌then◌else◌, Str, text,
}
use personal_vpn.HttpApi.{
  Request, problem, json, bare, Response, Decoded, decode_json, bearer_token,
}

-- `errors.Is` of the errors that the handlers tell apart, for an error type of the services.
pub record AuthService (S E P : Type 0) : Type 0 where
  pub is_conflict : E → Bool
  pub register : S → Str → Str → S × Fallible E Str
  pub login : S → Str → Str → S × Fallible E P
  pub refresh : S → Str → S × Fallible E (P × Str)
  pub logout : S → Str → S
  pub authenticate_access : S → Str → Option Str

pub record Credentials : Type 0 where
  pub email : Str
  pub password : Str

-- A value that is answered.
pub data Value (P : Type 0) : Type 0 where
  user_id : Str → Value P
  pair : P → Value P

module _ {S E P : Type 0} (service : AuthService S E P) (parse : Str → Decoded Credentials)
    (parse_token : Str → Decoded Str) where
  unfoldable pub register : S → Request → S × Response (Value P)
  register s r =
      let (written, decoded) = decode_json parse r in
      elim decoded [
        | none ↦ (s, written)
        | some request ↦
            let (t, result) = service.register s request.email request.password in
            (
              t,
              elim result [
                | err e ↦
                    if service.is_conflict e
                    then problem 409 (text "account already exists") ∷ []
                    else problem 400 (text "invalid registration") ∷ []
                | ok id ↦ json 201 (user_id id) ∷ []
              ],
            )
      ]

  unfoldable pub login : S → Request → S × Response (Value P)
  login s r =
      let (written, decoded) = decode_json parse r in
      elim decoded [
        | none ↦ (s, written)
        | some request ↦
            let (t, result) = service.login s request.email request.password in
            (
              t,
              elim result [
                | err e ↦ problem 401 (text "invalid credentials") ∷ []
                | ok p ↦ json 200 (pair p) ∷ []
              ],
            )
      ]

  unfoldable pub refresh : S → Request → S × Response (Value P)
  refresh s r =
      let (written, decoded) = decode_json parse_token r in
      elim decoded [
        | none ↦ (s, written)
        | some token ↦
            let (t, result) = service.refresh s token in
            (
              t,
              elim result [
                | err e ↦ problem 401 (text "invalid refresh token") ∷ []
                | ok (p, user) ↦ json 200 (pair p) ∷ []
              ],
            )
      ]

  unfoldable pub logout : S → Request → S × Response (Value P)
  logout s r = elim (bearer_token r.authorization) [
    | none ↦ (s, problem 401 (text "missing bearer token") ∷ [])
    | some token ↦ elim (service.authenticate_access s token) [
      | none ↦ (s, problem 401 (text "invalid access token") ∷ [])
      | some user ↦ (service.logout s user, bare 204 ∷ [])
    ]
  ]
