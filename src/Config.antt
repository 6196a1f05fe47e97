-- ===== src/Config.antt =====
-- services/api/internal/config/config.go: `Load`, with the environment as a function.
pub mod Loads
mod Tests
use personal_vpn.Prelude.{
  ℕ, Bool, true, false, ◌&&◌, ◌||◌, not, List, [], ◌∷◌, ◌++◌, ltb, ◌==◌, if◌then◌else◌, holds,
  Fallible, ok, err, fail_if, ◌>>=◌, ◌>>◌, Str, Str-discrete, text, length,
}
use personal_vpn.Encoding.Space.{trim_space}

pub data Error : Type 0 where
  contains_newline database_url_required incomplete_tls too_long : Error

pub record Config : Type 0 where
  pub listen_address : Str
  pub gateway_listen_address : Str
  pub gateway_certificate_file : Str
  pub gateway_private_key_file : Str
  pub gateway_ca_file : Str
  pub database_url : Str
  pub environment : Str

-- `strings.ContainsAny(s, "\r\n")`.
unfoldable pub has_newline : Str → Bool
has_newline [] = false
has_newline (c ∷ s) = c == 13 || c == 10 || has_newline s

abbrev pub is_empty : Str → Bool
is_empty s = holds (Str-discrete s [])

abbrev pub or_default : Str → Str → Str
or_default s default = if is_empty s then default else s

-- The fields, trimmed, with the defaults of two of them.
unfoldable pub config_of : (Str → Str) → Config
config_of getenv = record {
  listen_address = or_default (trim_space (getenv (text "API_LISTEN_ADDRESS"))) (text ":8080");
  gateway_listen_address = trim_space (getenv (text "GATEWAY_LISTEN_ADDRESS"));
  gateway_certificate_file = trim_space (getenv (text "GATEWAY_TLS_CERT_FILE"));
  gateway_private_key_file = trim_space (getenv (text "GATEWAY_TLS_KEY_FILE"));
  gateway_ca_file = trim_space (getenv (text "GATEWAY_TLS_CA_FILE"));
  database_url = trim_space (getenv (text "DATABASE_URL"));
  environment = or_default (trim_space (getenv (text "APP_ENV"))) (text "development");
}

abbrev pub raw_values : (Str → Str) → Str
raw_values getenv =
    getenv (text "DATABASE_URL")
    ++ (getenv (text "API_LISTEN_ADDRESS")
        ++ (getenv (text "APP_ENV")
            ++ (getenv (text "GATEWAY_LISTEN_ADDRESS")
                ++ (getenv (text "GATEWAY_TLS_CERT_FILE")
                    ++ (getenv (text "GATEWAY_TLS_KEY_FILE")
                        ++ getenv (text "GATEWAY_TLS_CA_FILE"))))))

-- One of the three files is named, and one is not.
unfoldable pub partial_tls : Config → Bool
partial_tls c =
    (not (is_empty c.gateway_certificate_file)
      || not (is_empty c.gateway_private_key_file)
      || not (is_empty c.gateway_ca_file))
    && (is_empty c.gateway_certificate_file
        || is_empty c.gateway_private_key_file
        || is_empty c.gateway_ca_file)

unfoldable pub exceeds : Config → Bool
exceeds c =
    ltb 256 (length c.listen_address)
    || ltb 256 (length c.gateway_listen_address)
    || ltb 4096 (length c.database_url)
    || ltb 32 (length c.environment)
    || ltb 4096 (length c.gateway_certificate_file)
    || ltb 4096 (length c.gateway_private_key_file)
    || ltb 4096 (length c.gateway_ca_file)

unfoldable pub load : (Str → Str) → Fallible Error Config
load getenv =
    let config = config_of getenv in
    do
      fail_if (has_newline (raw_values getenv)) contains_newline
      fail_if (is_empty config.database_url) database_url_required
      fail_if (partial_tls config) incomplete_tls
      fail_if (exceeds config) too_long
      ok config
