-- ===== src/HttpApi/Answers.antt =====
-- How often a handler answers, and with which status.
use personal_vpn.Prelude.{
  ◌≡◌, refl, ◌⊎◌, inl, inr, not, [], ◌∷◌, none, some, arith, Bool-cases, Str, text, length, take, ℤ,
}
use personal_vpn.Encoding.Space.{has_prefix, lower_ascii}
use personal_vpn.Control.{RegisterDeviceRequest}
use personal_vpn.Agent.Worker.{Delivery}
use personal_vpn.HttpApi.{
  Request, Write, problem, status_of, Decoded, malformed, more, single, decode_json, max_json_body,
}
use personal_vpn.HttpApi.Auth.{AuthService, Credentials}
use personal_vpn.HttpApi.Auth
use personal_vpn.HttpApi.Devices.{
  DeviceService, Value, authenticated_user, list_for, register_for, revoke_for, configuration_for,
  list, register, revoke, configure, list_regions,
}
use personal_vpn.HttpApi.Gateway.{
  GatewayDeliveryService, RetryRequest, gateway_identity, ack_for, retry_for, identified, ack,
  retry,
}

-- The ways that a body is decoded: one problem, or a value and nothing written.
pub decode_json-cases :
    {V A : Type 0} (parse : Str → Decoded A) (r : Request)
    → ((w : Write V) × (decode_json parse r ≡ (w ∷ [], none))
        × ((status_of w ≡ 400) ⊎ (status_of w ≡ 415)))
      ⊎ ((a : A) × (parse (take max_json_body r.body) ≡ single a)
          × (decode_json {V = V} parse r ≡ ([], some a)))
unfolding decode_json
decode_json-cases parse r =
    elim (Bool-cases (not (has_prefix (text "application/json") (lower_ascii r.content_type)))) [
      | inl bad ↦
          inl (problem 415 (text "content type must be application/json"), ground arith, inr refl)
      | inr good ↦ elim (Decoded-cases (parse (take max_json_body r.body))) [
        | inl e ↦ inl (problem 400 (text "invalid JSON body"), ground arith, inl refl)
        | inr (inl e) ↦
            inl (problem 400 (text "request must contain one JSON object"), ground arith, inl refl)
        | inr (inr (a, e)) ↦ inr (a, e, ground arith)
      ]
    ]
  where
    Decoded-cases :
        {A : Type 0} (d : Decoded A) → (d ≡ malformed) ⊎ ((d ≡ more) ⊎ ((a : A) × (d ≡ single a)))
    Decoded-cases malformed = inl refl
    Decoded-cases more = inr (inl refl)
    Decoded-cases (single a) = inr (inr (a, refl))

module _ {S E P : Type 0} (service : AuthService S E P) (parse : Str → Decoded Credentials)
    (parse_token : Str → Decoded Str) where
  -- For every service and every request, each of the four handlers of accounts and sessions writes
  -- one answer.
  pub auth_handlers_answer :
      (s : S) (r : Request)
      → (length (Auth.register service parse parse_token s r).1 ≡ 1)
        × (length (Auth.login service parse parse_token s r).1 ≡ 1)
        × (length (Auth.refresh service parse parse_token s r).1 ≡ 1)
        × (length (Auth.logout service parse parse_token s r).1 ≡ 1)
  unfolding Auth.register Auth.login Auth.refresh Auth.logout
  auth_handlers_answer s r = (
    elim (decode_json-cases {V = Auth.Value P} parse r) [
      | inl (w, e, _) ↦ ground arith
      | inr (a, _, e) ↦ ground arith
    ],
    elim (decode_json-cases {V = Auth.Value P} parse r) [
      | inl (w, e, _) ↦ ground arith
      | inr (a, _, e) ↦ ground arith
    ],
    elim (decode_json-cases {V = Auth.Value P} parse_token r) [
      | inl (w, e, _) ↦ ground arith
      | inr (a, _, e) ↦ ground arith
    ],
    ground arith,
  )

module _ {S : Type 0} (service : DeviceService S) where
  -- For every service and every request, each handler of devices, configurations and regions
  -- writes one answer.
  pub device_handlers_answer :
      (parse : Str → Decoded RegisterDeviceRequest) (parse_region : Str → Decoded Str) (s : S)
      (r : Request)
      → (length (list service s r).1 ≡ 1)
        × (length (register service parse s r).1 ≡ 1)
        × (length (revoke service s r).1 ≡ 1)
        × (length (configure service parse_region s r).1 ≡ 1)
        × (length (list_regions service s r).1 ≡ 1)
  unfolding list register revoke configure list_regions authenticated_user list_for register_for
      revoke_for configuration_for
  device_handlers_answer parse parse_region s r = (
    ground arith,
    elim (decode_json-cases {V = Value} parse r) [
      | inl (w, e, _) ↦ ground arith
      | inr (a, _, e) ↦ ground arith
    ],
    ground arith,
    elim (decode_json-cases {V = Value} parse_region r) [
      | inl (w, e, _) ↦ ground arith
      | inr (a, _, e) ↦ ground arith
    ],
    ground arith,
  )

module _ {S : Type 0} (service : GatewayDeliveryService S) where
  -- For a gateway that is identified, an acknowledgement and a retry whose body cannot be decoded
  -- are answered twice.
  pub undecodable_answers_twice :
      (parse : Str → Decoded ℤ) (parse_retry : Str → Decoded RetryRequest) (s : S) (r : Request)
      (gateway_id : Str)
      → gateway_identity r ≡ some gateway_id
      → gateway_id ≡ r.gateway_id
      → (decode_json {V = Delivery} parse r).1 ≡ none
      → (decode_json {V = Delivery} parse_retry r).1 ≡ none
      → (length (ack service parse s r).1 ≡ 2) × (length (retry service parse_retry s r).1 ≡ 2)
  unfolding ack retry identified ack_for retry_for
  undecodable_answers_twice parse parse_retry s r gateway_id identity same e e' = (
    elim (decode_json-cases {V = Delivery} parse r) [
      | inl (w, f, _) ↦ ground arith
      | inr (a, _, f) ↦ absurd (ground arith)
    ],
    elim (decode_json-cases {V = Delivery} parse_retry r) [
      | inl (w, f, _) ↦ ground arith
      | inr (a, _, f) ↦ absurd (ground arith)
    ],
  )
