-- ===== src/Agent/Transport.antt =====
-- services/api/internal/agent/transport.go. net/url, encoding/json and the HTTP client are
-- parameters; url.PathEscape is modelled.
use personal_vpn.Prelude.{
  ℕ, ◌+◌, ◌/◌, ◌%◌, ◌*◌, ◌^◌, ◌==◌, Bool, false, ◌&&◌, ◌||◌, not, [], ◌∷◌, ◌++◌, Option, none, some,
  ltb, leb, if◌then◌else◌, holds, Str, Str-discrete, text, length, take, reverse, Fallible, ok, err,
  ℤ, pos, leb_ℤ,
}
use personal_vpn.Encoding.Space.{trim_space}
use personal_vpn.Agent.Worker.{Delivery}

-- `status` is what statusError makes of a response, and `request` an error of net/http.
pub data Error : Type 0 where
  invalid_transport no_delivery decode_response encode_request : Error
  status : ℕ → Error
  request : Str → Error

-- The parts of a URL that the code reads; `rest` are the others.
pub record Url : Type 0 where
  pub scheme : Str
  pub host : Str
  pub path : Str
  pub raw_query : Str
  pub fragment : Str
  pub rest : Str

pub record HttpRequest : Type 0 where
  pub method : Str
  pub url : Str
  pub content_type : Option Str
  pub body : Str

pub record HttpResponse : Type 0 where
  pub status_code : ℕ
  pub body : Str

-- The packages around the transport: url.Parse, URL.String, the error of NewRequest, the decoder of
-- a delivery, and the encoders of the two bodies.
pub record Http : Type 0 where
  pub parse_url : Str → Option Url
  pub url_text : Url → Str
  pub request_error : Str → Option Str
  pub decode : Str → Option Delivery
  pub encode_generation : ℤ → Option Str
  pub encode_retry : ℕ → Str → Option Str

-- A client sends a request.
abbrev pub Client : Type 0
Client = HttpRequest → Fallible Str HttpResponse

pub record HttpSource : Type 0 where
  pub base_url : Url
  pub client : Client
  pub gateway_id : Str

abbrev pub is_empty : Str → Bool
is_empty s = holds (Str-discrete s [])

-- `strings.ContainsAny(s, "/?#")`.
unfoldable pub contains_any : Str → Bool
contains_any [] = false
contains_any (c ∷ s) = c == b'/' || c == b'?' || c == b'#' || contains_any s

-- The bytes that url.PathEscape leaves: letters, digits, and -_.~$&+:=@.
abbrev pub is_plain : ℕ → Bool
is_plain c =
    leb 48 c && leb c 57
    || leb 65 c && leb c 90
    || leb 97 c && leb c 122
    || (c == b'-' || c == b'_' || c == b'.' || c == b'~')
    || (c == b'$' || c == b'&' || c == b'+' || c == b':' || c == b'=' || c == b'@')

abbrev pub upper_hex : ℕ → ℕ
upper_hex d = if ltb d 10 then 48 + d else 55 + d

unfoldable pub path_escape : Str → Str
path_escape [] = []
path_escape (c ∷ s) =
    let rest = path_escape s in
    if is_plain c then c ∷ rest else b'%' ∷ upper_hex (c / 16) ∷ upper_hex (c % 16) ∷ rest

-- `strings.TrimRight(s, "/")`.
unfoldable pub drop_slashes : Str → Str
drop_slashes [] = []
drop_slashes (c ∷ s) = let rest = drop_slashes s in if c == b'/' then rest else c ∷ s

unfoldable pub trim_right : Str → Str
trim_right s = reverse (drop_slashes (reverse s))

module _ (h : Http) (default_client : Client) where
  unfoldable pub new_http_source : Str → Str → Option Client → Fallible Error HttpSource
  new_http_source raw_url gateway_id client = elim (h.parse_url (trim_space raw_url)) [
    | none ↦ err invalid_transport
    | some parsed ↦
        if not (holds (Str-discrete parsed.scheme (text "https")))
          || is_empty parsed.host
          || not (is_empty parsed.raw_query)
          || not (is_empty parsed.fragment)
          || is_empty gateway_id
          || contains_any gateway_id
        then err invalid_transport
        else ok (record {
          base_url = parsed;
          client = elim client [ none ↦ default_client | some c ↦ c ];
          gateway_id = gateway_id;
        })
  ]

abbrev pub is_valid_delivery : Delivery → Bool
is_valid_delivery d = not (
    is_empty d.id
    || leb_ℤ d.generation (pos 0)
    || length d.payload == 0
    || not (length d.signature == 64))

abbrev pub max_response : ℕ
max_response = 4 * 2 ^ 20

abbrev get : Str → HttpRequest
get url = record { method = text "GET"; url = url; content_type = none; body = [] }

abbrev delivery_path : Str → Str → Str
delivery_path delivery_id action = text "/snapshots/" ++ (path_escape delivery_id ++ action)

module _ (h : Http) where
  unfoldable pub endpoint : HttpSource → Str → Str
  endpoint s suffix = h.url_text (record s.base_url {
    path =
        trim_right s.base_url.path
        ++ (text "/v1/agent/gateways/" ++ (path_escape s.gateway_id ++ suffix));
  })

  -- What `Claim` makes of a response.
  unfoldable pub claim_response : HttpResponse → Fallible Error Delivery
  claim_response r =
      if r.status_code == 204
      then err no_delivery
      else if not (r.status_code == 200)
      then err (status r.status_code)
      else elim (h.decode (take max_response r.body)) [
        | none ↦ err decode_response
        | some d ↦ if is_valid_delivery d then ok d else err invalid_transport
      ]

  unfoldable pub claim : HttpSource → Fallible Error Delivery
  claim s =
      let url : Str = endpoint s (text "/snapshots/next") in
      elim (h.request_error url) [
        | some e ↦ err (request e)
        | none ↦ elim (s.client (get url)) [ err e ↦ err (request e) | ok r ↦ claim_response r ]
      ]

  unfoldable pub post : HttpSource → Str → Option Str → Option Error
  post s suffix none = some encode_request
  post s suffix (some encoded) =
      let url : Str = endpoint s suffix in
      elim (h.request_error url) [
        | some e ↦ some (request e)
        | none ↦
            elim (s.client (record {
              method = text "POST";
              url = url;
              content_type = some (text "application/json");
              body = encoded;
            })) [
              | err e ↦ some (request e)
              | ok r ↦
                  if ltb r.status_code 200 || leb 300 r.status_code
                  then some (status r.status_code)
                  else none
            ]
      ]

  unfoldable pub ack : HttpSource → Str → ℤ → Option Error
  ack s delivery_id generation =
      post s (delivery_path delivery_id (text "/ack")) (h.encode_generation generation)

  -- A `retry_at` of 0 is the zero time.
  unfoldable pub retry : HttpSource → Str → ℕ → Str → Option Error
  retry s delivery_id retry_at reason =
      if retry_at == 0 || is_empty delivery_id
      then some invalid_transport
      else post s (delivery_path delivery_id (text "/retry")) (h.encode_retry retry_at reason)
