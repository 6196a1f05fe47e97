-- ===== src/Config/Tests.antt =====
-- An environment with a database only.
use personal_vpn.Prelude.{◌≡◌, ◌↔◌, refl, [], if◌then◌else◌, holds, ok, Str, Str-discrete, text}
use personal_vpn.Encoding.Space.{trim_space}
use personal_vpn.Config.{Config, has_newline, config_of, partial_tls, exceeds, load}
use personal_vpn.Config.Loads.{Loaded, load_iff}

abbrev environment : Str → Str
environment v = if holds (Str-discrete v (text "DATABASE_URL")) then text "postgres://db" else []

abbrev defaults : Config
defaults = record {
  listen_address = text ":8080";
  gateway_listen_address = [];
  gateway_certificate_file = [];
  gateway_private_key_file = [];
  gateway_ca_file = [];
  database_url = text "postgres://db";
  environment = text "development";
}

loads : load environment ≡ ok defaults
unfolding load has_newline Str-discrete config_of trim_space partial_tls exceeds
loads = refl

load_iff_example : (load environment ≡ ok defaults) ↔ Loaded environment defaults
load_iff_example = load_iff environment defaults
