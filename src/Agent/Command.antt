-- ===== src/Agent/Command.antt =====
-- services/api/cmd/gateway-agent/main.go: what the command reads before the worker runs.
use personal_vpn.Prelude.{
  ℕ, ◌*◌, ◌==◌, true, ◌||◌, not, [], Option, none, some, if◌then◌else◌, Str, text, length, Fallible,
  ok, err, ℤ, pos, leb_ℤ,
}
use personal_vpn.Encoding.Base64.{std, decode}
use personal_vpn.Encoding.Space.{trim_space}
use personal_vpn.Agent.Snapshot.{Snapshot}
use personal_vpn.Agent.Worker.{Worker}
use personal_vpn.Agent.Transport.{Http, HttpSource, Client, is_empty, new_http_source}
use personal_vpn.Agent.Tls.{TlsFiles, TlsConfig, Loading, client_tls_config}

unfoldable pub parse_public_key : Str → Option Str
parse_public_key value = elim (decode std (trim_space value)) [
  | none ↦ none
  | some decoded ↦ if length decoded == 32 then some decoded else none
]

abbrev pub second : ℕ
second = 1000000000

-- `AGENT_POLL_INTERVAL`; `parse_duration` is time.ParseDuration, with none for an error.
unfoldable pub poll_interval : (Str → Option ℤ) → Str → Option ℤ
poll_interval parse_duration raw =
    if is_empty (trim_space raw)
    then some (pos (5 * second))
    else elim (parse_duration (trim_space raw)) [
      | none ↦ none
      | some interval ↦
          if not (leb_ℤ (pos second) interval) || not (leb_ℤ interval (pos (60 * second)))
          then none
          else some interval
    ]

abbrev pub tls_files : (Str → Str) → TlsFiles
tls_files getenv = record {
  certificate_file = getenv (text "AGENT_TLS_CERT_FILE");
  private_key_file = getenv (text "AGENT_TLS_KEY_FILE");
  ca_file = getenv (text "AGENT_TLS_CA_FILE");
  server_name = getenv (text "AGENT_TLS_SERVER_NAME");
}

-- The zero value of the snapshot that a worker starts from.
abbrev pub zero_snapshot : Snapshot
zero_snapshot = record {
  gateway_id = [];
  generation = pos 0;
  expires_at = 0;
  peers = [];
  signature = [];
}

-- What the worker is started with.
pub record Started : Type 0 where
  pub worker : Worker
  pub source : HttpSource
  pub interface_name : Str
  pub interval : ℤ

-- `client_of` builds the HTTP client of a TLS configuration. Every error exits with the code 2.
module _ {C P : Type 0} (files : Loading C P) (h : Http) (parse_duration : Str → Option ℤ)
    (client_of : TlsConfig C P → Client) (default_client : Client) where
  unfoldable pub configure : (Str → Str) → Fallible ℕ Started
  configure getenv =
      let gateway_id : Str = trim_space (getenv (text "GATEWAY_ID")) in
      let control_url : Str = trim_space (getenv (text "CONTROL_API_URL")) in
      let interface_name : Str = trim_space (getenv (text "WG_INTERFACE")) in
      elim (parse_public_key (getenv (text "SNAPSHOT_VERIFY_KEY"))) [
        | none ↦ err 2
        | some verify_key ↦
            if is_empty gateway_id || is_empty control_url || is_empty interface_name
            then err 2
            else elim (poll_interval parse_duration (getenv (text "AGENT_POLL_INTERVAL"))) [
              | none ↦ err 2
              | some interval ↦ elim (client_tls_config files (tls_files getenv)) [
                | err e ↦ err 2
                | ok tls ↦
                    elim (new_http_source h default_client control_url gateway_id
                      (some (client_of tls))) [
                        | err e ↦ err 2
                        | ok source ↦ ok (record {
                          worker = record {
                            has_source = true;
                            has_applier = true;
                            gateway_id = gateway_id;
                            verify_key = verify_key;
                            current = zero_snapshot;
                            current_peers = [];
                          };
                          source = source;
                          interface_name = interface_name;
                          interval = interval;
                        })
                      ]
              ]
            ]
      ]
