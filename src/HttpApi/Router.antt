-- ===== src/HttpApi/Router.antt =====
-- services/api/internal/httpapi/router.go: the routes of NewMux, the two handlers that it holds and
-- the headers of securityHeaders. net/http matches the patterns.
use personal_vpn.Prelude.{
  ℕ, ◌*◌, Bool, true, false, ◌&&◌, List, [], ◌∷◌, ◌++◌, Option, none, some, if◌then◌else◌, Str,
  text,
}
use personal_vpn.HttpApi.{problem, json, Response}

-- The handlers, by the methods of package httpapi.
pub data Handler : Type 0 where
  health ready : Handler
  auth_register auth_login auth_refresh auth_logout : Handler
  devices_list devices_register devices_revoke devices_configuration : Handler
  regions_list : Handler
  gateway_claim gateway_ack gateway_retry : Handler

-- Which services are not nil; `regions` tells whether the device service lists regions too, and
-- `gateway` whether there is a first gateway service that is not nil.
pub record Services : Type 0 where
  pub auth : Bool
  pub devices : Bool
  pub regions : Bool
  pub gateway : Bool

abbrev pub Route : Type 0
Route = Str × Handler

abbrev pub when : Bool → List Route → List Route
when true routes = routes
when false routes = []

abbrev pub auth_routes : List Route
auth_routes =
    (text "POST /v1/auth/register", auth_register)
    ∷ (text "POST /v1/auth/login", auth_login)
    ∷ (text "POST /v1/auth/refresh", auth_refresh)
    ∷ (text "POST /v1/auth/logout", auth_logout)
    ∷ []

abbrev pub device_routes : List Route
device_routes =
    (text "GET /v1/devices", devices_list)
    ∷ (text "POST /v1/devices", devices_register)
    ∷ (text "DELETE /v1/devices/{deviceId}", devices_revoke)
    ∷ (text "POST /v1/devices/{deviceId}/configuration", devices_configuration)
    ∷ []

abbrev pub gateway_routes : List Route
gateway_routes =
    (text "GET /v1/agent/gateways/{gatewayId}/snapshots/next", gateway_claim)
    ∷ (text "POST /v1/agent/gateways/{gatewayId}/snapshots/{deliveryId}/ack", gateway_ack)
    ∷ (text "POST /v1/agent/gateways/{gatewayId}/snapshots/{deliveryId}/retry", gateway_retry)
    ∷ []

unfoldable pub new_mux : Services → List Route
new_mux s =
    (text "GET /v1/health", health)
    ∷ (text "GET /v1/ready", ready)
    ∷ (when s.auth auth_routes
        ++ (when (s.auth && s.devices) device_routes
            ++ (when (s.auth && s.regions) ((text "GET /v1/regions", regions_list) ∷ [])
                ++ when s.gateway gateway_routes)))

-- The readiness: `ping` is none where there is no checker, and tells whether its ping succeeds.
unfoldable pub ready_answer : Option Bool → Response Str
ready_answer (some true) = json 200 (text "ready") ∷ []
ready_answer _ = problem 503 (text "database is not ready") ∷ []

abbrev pub health_answer : Response Str
health_answer = json 200 (text "ok") ∷ []

-- The headers that are set before a handler runs.
unfoldable pub security_headers : Bool → List (Str × Str)
security_headers over_tls =
    (text "X-Content-Type-Options", text "nosniff")
    ∷ (text "Referrer-Policy", text "no-referrer")
    ∷ (text "Cache-Control", text "no-store")
    ∷ (if over_tls
        then (text "Strict-Transport-Security", text "max-age=31536000; includeSubDomains") ∷ []
        else [])

abbrev pub seconds : ℕ → ℕ
seconds n = n * 1000000000

-- A server; `tls_config` is none for the plain one.
pub record HttpServer (T : Type 0) : Type 0 where
  pub address : Str
  pub read_header_timeout : ℕ
  pub read_timeout : ℕ
  pub write_timeout : ℕ
  pub idle_timeout : ℕ
  pub max_header_bytes : ℕ
  pub tls_config : Option T

abbrev pub new_server : {T : Type 0} → Str → HttpServer T
new_server address = record {
  address = address;
  read_header_timeout = seconds 5;
  read_timeout = seconds 15;
  write_timeout = seconds 15;
  idle_timeout = seconds 60;
  max_header_bytes = 16 * 1024;
  tls_config = none;
}

abbrev pub new_mtls_server : {T : Type 0} → Str → T → HttpServer T
new_mtls_server address tls = record (new_server address) { tls_config = some tls }
