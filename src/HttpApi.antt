-- ===== src/HttpApi.antt =====
-- services/api/internal/httpapi: requests, responses and the helpers of auth.go. A decoder of
-- encoding/json is a parameter of what decodes a body.
pub mod Auth
pub mod Devices
pub mod Gateway
pub mod Access
pub mod Answers
pub mod Router
mod Tests
use personal_vpn.Prelude.{
  ℕ, ◌*◌, Bool, true, false, ◌&&◌, ◌||◌, not, List, [], ◌∷◌, ◌++◌, Option, none, some, ltb, ◌==◌,
  if◌then◌else◌, holds, Str, Str-discrete, text, length, take,
}
use personal_vpn.Encoding.Space.{fields, lower_ascii, has_prefix}

abbrev pub max_json_body : ℕ
max_json_body = 16 * 1024

-- What a handler reads of a request. `peer` is the common name of the first certificate of TLS.
pub record Request : Type 0 where
  pub authorization : Str
  pub content_type : Str
  pub idempotency_key : Str
  pub body : Str
  pub device_id : Str
  pub gateway_id : Str
  pub delivery_id : Str
  pub peer : Option Str

-- What is written: a problem with its status and detail, a value as JSON, or a status alone.
pub data Write (V : Type 0) : Type 0 where
  problem : ℕ → Str → Write V
  json : ℕ → V → Write V
  bare : ℕ → Write V

-- The writes in their order; the first one sets the status.
abbrev pub Response : Type 0 → Type 0
Response V = List (Write V)

abbrev pub status_of : {V : Type 0} → Write V → ℕ
status_of (problem status detail) = status
status_of (json status value) = status
status_of (bare status) = status

abbrev pub status : {V : Type 0} → Response V → ℕ
status [] = 200
status (w ∷ r) = status_of w

-- What the decoder finds in a body: no value, a value with more after it, or one value.
pub data Decoded (A : Type 0) : Type 0 where
  malformed : Decoded A
  more : Decoded A
  single : A → Decoded A

module _ {V A : Type 0} (parse : Str → Decoded A) where
  -- The value, or the problem that has been written.
  unfoldable pub decode_json : Request → Response V × Option A
  decode_json r =
      if not (has_prefix (text "application/json") (lower_ascii r.content_type))
      then (problem 415 (text "content type must be application/json") ∷ [], none)
      else elim (parse (take max_json_body r.body)) [
        | malformed ↦ (problem 400 (text "invalid JSON body") ∷ [], none)
        | more ↦ (problem 400 (text "request must contain one JSON object") ∷ [], none)
        | single a ↦ ([], some a)
      ]

-- `strings.EqualFold(s, "bearer")`: no letter outside ASCII folds to one of `bearer`.
abbrev pub is_bearer : Str → Bool
is_bearer s = holds (Str-discrete (lower_ascii s) (text "bearer"))

abbrev pub bearer_of : List Str → Option Str
bearer_of (scheme ∷ token ∷ []) =
    if not (is_bearer scheme) || holds (Str-discrete token []) then none else some token
bearer_of _ = none

unfoldable pub bearer_token : Str → Option Str
bearer_token value = bearer_of (fields value)
