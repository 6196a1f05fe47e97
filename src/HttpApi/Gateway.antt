-- ===== src/HttpApi/Gateway.antt =====
-- services/api/internal/httpapi/gateway.go: the handlers that a gateway's agent calls.
use personal_vpn.Prelude.{
  ℕ, Bool, false, ◌||◌, not, [], ◌∷◌, ◌++◌, Option, none, some, Fallible, ok, err, ltb, ◌==◌,
  if◌then◌else◌, holds, Str, Str-discrete, text, length, ℤ, pos, leb_ℤ,
}
use personal_vpn.Agent.Worker.{Delivery}
use personal_vpn.HttpApi.{Request, problem, json, bare, Response, Decoded, decode_json}

-- `no_delivery` is what `errors.Is(err, agent.ErrNoDelivery)` tells apart.
pub data ClaimError : Type 0 where
  no_delivery unavailable : ClaimError

pub record GatewayDeliveryService (S : Type 0) : Type 0 where
  pub claim_snapshot : S → Str → S × Fallible ClaimError Delivery
  pub ack_snapshot_delivery : S → Str → Str → ℤ → S × Bool
  pub retry_snapshot_delivery : S → Str → Str → ℕ → Str → S × Bool

-- The body of a retry; a time is a number, with 0 for the zero time.
pub record RetryRequest : Type 0 where
  pub retry_at : ℕ
  pub reason : Str

-- `strings.ContainsAny(s, "/?#")`.
unfoldable pub contains_separator : Str → Bool
contains_separator [] = false
contains_separator (c ∷ s) = c == b'/' || c == b'?' || c == b'#' || contains_separator s

unfoldable pub gateway_identity : Request → Option Str
gateway_identity r = elim r.peer [
  | none ↦ none
  | some common_name ↦
      if holds (Str-discrete common_name []) || contains_separator common_name
      then none
      else some common_name
]

module _ {S : Type 0} (service : GatewayDeliveryService S) where
  unfoldable pub claim_for : S → Str → S × Response Delivery
  claim_for s gateway_id =
      let (t, result) = service.claim_snapshot s gateway_id in
      elim result [
        | err no_delivery ↦ (t, bare 204 ∷ [])
        | err unavailable ↦ (t, problem 503 (text "snapshot unavailable") ∷ [])
        | ok delivery ↦ (t, json 200 delivery ∷ [])
      ]

  -- What `decodeJSON` has written stays written.
  unfoldable pub ack_for : (Str → Decoded ℤ) → S → Request → Str → S × Response Delivery
  ack_for parse s r gateway_id =
      let (written, decoded) = decode_json parse r in
      elim decoded [
        | none ↦ (s, written ++ problem 400 (text "invalid generation") ∷ [])
        | some generation ↦
            if leb_ℤ generation (pos 0)
            then (s, problem 400 (text "invalid generation") ∷ [])
            else let (t, accepted) =
                service.ack_snapshot_delivery s gateway_id r.delivery_id generation in
              (t, if accepted then bare 204 ∷ [] else problem 404 (text "delivery not found") ∷ [])
      ]

  unfoldable pub retry_for :
      (Str → Decoded RetryRequest) → S → Request → Str → S × Response Delivery
  retry_for parse s r gateway_id =
      let (written, decoded) = decode_json parse r in
      elim decoded [
        | none ↦ (s, written ++ problem 400 (text "invalid retry request") ∷ [])
        | some request ↦
            if request.retry_at == 0 || ltb 512 (length request.reason)
            then (s, problem 400 (text "invalid retry request") ∷ [])
            else let (t, accepted) =
                service.retry_snapshot_delivery s gateway_id r.delivery_id request.retry_at
                  request.reason in
              (t, if accepted then bare 204 ∷ [] else problem 404 (text "delivery not found") ∷ [])
      ]

  -- The two checks that each handler starts with.
  unfoldable pub identified :
      (S → Request → Str → S × Response Delivery) → S → Request → S × Response Delivery
  identified handler s r = elim (gateway_identity r) [
    | none ↦ (s, problem 401 (text "gateway mTLS identity required") ∷ [])
    | some gateway_id ↦
        if not (holds (Str-discrete gateway_id r.gateway_id))
        then (s, problem 403 (text "gateway identity mismatch") ∷ [])
        else handler s r gateway_id
  ]

  unfoldable pub claim : S → Request → S × Response Delivery
  claim s r = identified (λ s r. claim_for s) s r

  unfoldable pub ack : (Str → Decoded ℤ) → S → Request → S × Response Delivery
  ack parse s r = identified (ack_for parse) s r

  unfoldable pub retry : (Str → Decoded RetryRequest) → S → Request → S × Response Delivery
  retry parse s r = identified (retry_for parse) s r
