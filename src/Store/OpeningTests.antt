-- ===== src/Store/OpeningTests.antt =====
-- The opening of a database on a remote host, with TLS and a password file.
use personal_vpn.Prelude.{◌≡◌, ◌↔◌, refl, true, false, [], ◌∷◌, none, Str-discrete, text, ok}
use personal_vpn.Encoding.Space.{trim_space}
use personal_vpn.Store.Opening.{
  PoolConfig, Pgx, limited, open_database, open_with_password_file, open_config,
}
use personal_vpn.Store.Accounts.{require_tls_for_remote_host, fold_ascii}
use personal_vpn.Store.Opening.Protected.{Ends, Opened, open_database_iff}

abbrev remote : PoolConfig
remote = record {
  connection = record { host = text "db.example.org"; has_tls = true };
  password = [];
  max_conns = 4;
  min_conns = 0;
  max_conn_lifetime = 0;
  max_conn_idle_time = 0;
  health_check_period = 0;
}

-- A server that can be reached, and a file of one line.
abbrev reachable : Pgx
reachable = record {
  read_file = λ name. ok (text "secret\n");
  parse_config = λ url. ok remote;
  is_loopback = λ host. false;
  new_with_config = λ config. none;
  ping = λ config. none;
}

abbrev remote_pool : PoolConfig
remote_pool = limited (record remote { password = text "secret" })

opens :
    open_database reachable [] (text "postgres://db.example.org") (text "/run/secrets/db")
    ≡ (remote_pool ∷ [], ok remote_pool)
unfolding open_database open_with_password_file open_config require_tls_for_remote_host fold_ascii
    trim_space Str-discrete
opens = refl

open_database_iff_example :
    Ends reachable
      (λ d. Unit {0})
      []
      (open_database reachable [] (text "postgres://db.example.org") (text "/run/secrets/db"))
    × ((open_database reachable [] (text "postgres://db.example.org") (text "/run/secrets/db")
          ≡ (remote_pool ∷ [], ok remote_pool))
        ↔ Opened reachable (text "postgres://db.example.org") (text "/run/secrets/db") remote_pool)
open_database_iff_example =
    open_database_iff reachable [] (text "postgres://db.example.org") (text "/run/secrets/db")
      remote_pool
