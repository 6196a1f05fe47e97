-- ===== src/Store/Opening.antt =====
-- Open (open_url here), OpenWithPasswordFile and openConfig of services/api/internal/postgres/store.go, and the
-- choice between them of services/api/cmd/api/main.go. The calls of pgx are parameters, and the
-- state is the list of the pools that are open.
pub mod Protected
use personal_vpn.Prelude.{
  ℕ, ◌*◌, ◌≡◌, ◌≢◌, refl, ◌⊎◌, inl, inr, Bool, true, false, ◌||◌, List, ◌∷◌, [], Option, none, some,
  if◌then◌else◌, Str, text, Fallible, ok, err, arith, Bool-cases, Option-cases, Result-cases,
}
use personal_vpn.Encoding.Space.{trim_space}
use personal_vpn.Store.Tables.{str_eq}
use personal_vpn.Store.Accounts.{Connection, fold_ascii, require_tls_for_remote_host}

pub data Error : Type 0 where
  read_password parse_configuration create_pool ping_database tls_required : Str → Error
  empty_password : Error

-- The fields of pgxpool.Config that are read or set; a duration is in nanoseconds.
pub record PoolConfig : Type 0 where
  pub connection : Connection
  pub password : Str
  pub max_conns : ℕ
  pub min_conns : ℕ
  pub max_conn_lifetime : ℕ
  pub max_conn_idle_time : ℕ
  pub health_check_period : ℕ

-- The last two have the text of an error, if there is one.
pub record Pgx : Type 0 where
  pub read_file : Str → Fallible Str Str
  pub parse_config : Str → Fallible Str PoolConfig
  pub is_loopback : Str → Bool
  pub new_with_config : PoolConfig → Option Str
  pub ping : PoolConfig → Option Str

abbrev pub seconds : ℕ → ℕ
seconds n = n * 1000000000

abbrev pub limited : PoolConfig → PoolConfig
limited config = record config {
  max_conns = 20;
  min_conns = 2;
  max_conn_lifetime = seconds (30 * 60);
  max_conn_idle_time = seconds (5 * 60);
  health_check_period = seconds 30;
}

-- The pool that was opened last is closed.
abbrev pub close : List PoolConfig → List PoolConfig
close [] = []
close (pool ∷ pools) = pools

module _ (x : Pgx) where
  unfoldable pub open_config :
      List PoolConfig → PoolConfig → List PoolConfig × Fallible Error PoolConfig
  open_config pools config = elim (require_tls_for_remote_host x.is_loopback config.connection) [
    | some e ↦ (pools, err (tls_required e))
    | none ↦ elim (x.new_with_config (limited config)) [
      | some e ↦ (pools, err (create_pool e))
      | none ↦ elim (x.ping (limited config)) [
        | some e ↦ (close (limited config ∷ pools), err (ping_database e))
        | none ↦ (limited config ∷ pools, ok (limited config))
      ]
    ]
  ]

  unfoldable pub open_url : List PoolConfig → Str → List PoolConfig × Fallible Error PoolConfig
  open_url pools database_url = elim (x.parse_config database_url) [
    | err e ↦ (pools, err (parse_configuration e))
    | ok config ↦ open_config pools config
  ]

  unfoldable pub open_with_password_file :
      List PoolConfig → Str → Str → List PoolConfig × Fallible Error PoolConfig
  open_with_password_file pools database_url password_file = elim (x.read_file password_file) [
    | err e ↦ (pools, err (read_password e))
    | ok password ↦ elim (x.parse_config database_url) [
      | err e ↦ (pools, err (parse_configuration e))
      | ok config ↦
          if str_eq (trim_space password) []
          then (pools, err empty_password)
          else open_config pools (record config { password = trim_space password })
    ]
  ]

  -- `DATABASE_PASSWORD_FILE` is empty where it is not set.
  unfoldable pub open_database :
      List PoolConfig → Str → Str → List PoolConfig × Fallible Error PoolConfig
  open_database pools database_url password_file =
      if str_eq password_file []
      then open_url pools database_url
      else open_with_password_file pools database_url password_file
