-- ===== src/Agent/Tls.antt =====
-- services/api/internal/agent/tls.go. The files and the parsers of crypto/tls and crypto/x509 are
-- parameters.
use personal_vpn.Prelude.{
  ℕ, ◌≡◌, ◌≢◌, inl, inr, Bool, true, false, ◌||◌, Option, none, some, if◌then◌else◌, Str, [],
  Fallible, ok, err, arith, Result-cases,
}
use personal_vpn.Agent.Transport.{is_empty}

pub data Error : Type 0 where
  invalid_tls_configuration : Error
  load_certificate read_ca : Str → Error

pub record TlsFiles : Type 0 where
  pub certificate_file : Str
  pub private_key_file : Str
  pub ca_file : Str
  pub server_name : Str

abbrev pub version_tls_13 : ℕ
version_tls_13 = 0x0304

-- The fields of tls.Config that are set, and the two of the peer's verification.
pub record TlsConfig (C P : Type 0) : Type 0 where
  pub min_version : ℕ
  pub certificate : C
  pub root_cas : Option P
  pub client_cas : Option P
  pub server_name : Str
  pub require_and_verify_client_cert : Bool
  pub insecure_skip_verify : Bool

-- `pool_of` has none where no certificate was found.
pub record Loading (C P : Type 0) : Type 0 where
  pub load_key_pair : Str → Str → Fallible Str C
  pub read_file : Str → Fallible Str Str
  pub pool_of : Str → Option P

module _ {C P : Type 0} (x : Loading C P) where
  unfoldable pub load_tls_material : TlsFiles → Fallible Error (C × P)
  load_tls_material files =
      if is_empty files.certificate_file
        || is_empty files.private_key_file
        || is_empty files.ca_file
      then err invalid_tls_configuration
      else elim (x.load_key_pair files.certificate_file files.private_key_file) [
        | err e ↦ err (load_certificate e)
        | ok certificate ↦ elim (x.read_file files.ca_file) [
          | err e ↦ err (read_ca e)
          | ok bytes ↦ elim (x.pool_of bytes) [
            | none ↦ err invalid_tls_configuration
            | some roots ↦ ok (certificate, roots)
          ]
        ]
      ]

  unfoldable pub client_tls_config : TlsFiles → Fallible Error (TlsConfig C P)
  client_tls_config files = elim (load_tls_material files) [
    | err e ↦ err e
    | ok material ↦
        if is_empty files.server_name
        then err invalid_tls_configuration
        else ok (record {
          min_version = version_tls_13;
          certificate = material.0;
          root_cas = some material.1;
          client_cas = none;
          server_name = files.server_name;
          require_and_verify_client_cert = false;
          insecure_skip_verify = false;
        })
  ]

  unfoldable pub server_tls_config : TlsFiles → Fallible Error (TlsConfig C P)
  server_tls_config files = elim (load_tls_material files) [
    | err e ↦ err e
    | ok material ↦ ok (record {
      min_version = version_tls_13;
      certificate = material.0;
      root_cas = none;
      client_cas = some material.1;
      server_name = [];
      require_and_verify_client_cert = true;
      insecure_skip_verify = false;
    })
  ]

  -- Both sides verify each other against the authority of their file, and nothing below TLS 1.3.
  pub tls_configs_verify :
      (here there : TlsFiles) (client server : TlsConfig C P)
      → client_tls_config here ≡ ok client
      → server_tls_config there ≡ ok server
      → (client.min_version ≡ version_tls_13)
        × (server.min_version ≡ version_tls_13)
        × (client.insecure_skip_verify ≡ false)
        × (server.require_and_verify_client_cert ≡ true)
        × (client.root_cas ≢ none)
        × (server.client_cas ≢ none)
  unfolding client_tls_config server_tls_config
  tls_configs_verify here there client server e f = elim (Result-cases (load_tls_material here)) [
    | inl (x, h) ↦ absurd (ground arith)
    | inr (m, h) ↦ elim (Result-cases (load_tls_material there)) [
      | inl (x, k) ↦ absurd (ground arith)
      | inr (n, k) ↦ (
        ground arith,
        ground arith,
        ground arith,
        ground arith,
        (λ nothing. ground arith),
        (λ nothing. ground arith),
      )
    ]
  ]
