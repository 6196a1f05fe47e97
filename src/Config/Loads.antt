-- ===== src/Config/Loads.antt =====
-- What a configuration that is loaded satisfies.
use personal_vpn.Prelude.{
  ◌≡◌, ◌≢◌, ◌↔◌, ◌≤◌, ◌⊎◌, inl, inr, refl, sym, subst, false, ◌||◌, List, [], ◌∷◌, ◌++◌, arith, ok,
  if◌then◌else◌, holds, holds_no, holds-true, holds-false, All, All-map, Str, Str-discrete, text,
  length,
}
use personal_vpn.Encoding.Space.{trim_space}
use personal_vpn.Config.{
  Config, has_newline, or_default, config_of, raw_values, partial_tls, exceeds, load,
}

has_newline-append : (s t : Str) → has_newline (s ++ t) ≡ (has_newline s || has_newline t)
unfolding has_newline
has_newline-append [] t = refl
has_newline-append (c ∷ s) t = ground (arith, has_newline-append s t)

-- The variables that are read.
abbrev pub variables : List Str
variables =
    text "DATABASE_URL"
    ∷ text "API_LISTEN_ADDRESS"
    ∷ text "APP_ENV"
    ∷ text "GATEWAY_LISTEN_ADDRESS"
    ∷ text "GATEWAY_TLS_CERT_FILE"
    ∷ text "GATEWAY_TLS_KEY_FILE"
    ∷ text "GATEWAY_TLS_CA_FILE"
    ∷ []

-- A line break is a carriage return or a line feed.
abbrev pub IsPlain : Str → Type 0
IsPlain = All (λ c. (c ≢ 13) × (c ≢ 10))

has_newline-IsPlain : (s : Str) → (has_newline s ≡ false) ↔ IsPlain s
unfolding has_newline
has_newline-IsPlain [] = ((λ e. tt), (λ h. refl))
has_newline-IsPlain (c ∷ s) =
    let (out, back) = has_newline-IsPlain s in
    (
      (λ e. ((ground arith, ground arith), out (ground arith))),
      (λ ((no_return, no_feed), rest). let later = back rest in ground arith),
    )

-- All three files of TLS are named, or none is.
abbrev pub IsWholeTls : Config → Type 0
IsWholeTls c =
    ((c.gateway_certificate_file ≡ [])
      × (c.gateway_private_key_file ≡ [])
      × (c.gateway_ca_file ≡ []))
    ⊎ ((c.gateway_certificate_file ≢ [])
        × (c.gateway_private_key_file ≢ [])
        × (c.gateway_ca_file ≢ []))

-- The trimmed value of a variable, or a default where that is empty.
abbrev pub IsOr : Str → Str → Str → Type 0
IsOr value raw default =
    ((trim_space raw ≢ []) × (value ≡ trim_space raw)) ⊎ ((trim_space raw ≡ []) × (value ≡ default))

-- The fields, each from its variable.
pub record IsRead (getenv : Str → Str) (c : Config) : Type 0 where
  pub listening : IsOr c.listen_address (getenv (text "API_LISTEN_ADDRESS")) (text ":8080")
  pub environment : IsOr c.environment (getenv (text "APP_ENV")) (text "development")
  pub database : c.database_url ≡ trim_space (getenv (text "DATABASE_URL"))
  pub gateway : c.gateway_listen_address ≡ trim_space (getenv (text "GATEWAY_LISTEN_ADDRESS"))
  pub certificate : c.gateway_certificate_file ≡ trim_space (getenv (text "GATEWAY_TLS_CERT_FILE"))
  pub private_key : c.gateway_private_key_file ≡ trim_space (getenv (text "GATEWAY_TLS_KEY_FILE"))
  pub ca : c.gateway_ca_file ≡ trim_space (getenv (text "GATEWAY_TLS_CA_FILE"))

-- The bounds on the fields, in bytes.
pub record Fits (c : Config) : Type 0 where
  pub listening : length c.listen_address ≤ 256
  pub environment : length c.environment ≤ 32
  pub database : length c.database_url ≤ 4096
  pub gateway : length c.gateway_listen_address ≤ 256
  pub certificate : length c.gateway_certificate_file ≤ 4096
  pub private_key : length c.gateway_private_key_file ≤ 4096
  pub ca : length c.gateway_ca_file ≤ 4096

-- What is read of an environment that is accepted.
pub record Loaded (getenv : Str → Str) (c : Config) : Type 0 where
  pub plain : All (λ v. IsPlain (getenv v)) variables
  pub read : IsRead getenv c
  pub has_database : c.database_url ≢ []
  pub whole_tls : IsWholeTls c
  pub fits : Fits c

or_default-IsOr : (raw default : Str) → IsOr (or_default (trim_space raw) default) raw default
or_default-IsOr raw default =
    elim (Str-discrete (trim_space raw) [])
      as (λ d. IsOr (if holds d then default else trim_space raw) raw default) [
        | yes e ↦ inr (e, refl)
        | no ne ↦ inl (ne, refl)
      ]

IsOr-or_default :
    (value raw default : Str) → IsOr value raw default → value ≡ or_default (trim_space raw) default
IsOr-or_default value raw default (inl (ne, e)) =
    let named = holds-false (Str-discrete (trim_space raw) []) ne in ground arith
IsOr-or_default value raw default (inr (empty, e)) =
    let unnamed = holds-true (Str-discrete (trim_space raw) []) empty in ground arith

config_of-IsRead : (getenv : Str → Str) → IsRead getenv (config_of getenv)
unfolding config_of
config_of-IsRead getenv = record {
  listening = or_default-IsOr (getenv (text "API_LISTEN_ADDRESS")) (text ":8080");
  environment = or_default-IsOr (getenv (text "APP_ENV")) (text "development");
  database = refl;
  gateway = refl;
  certificate = refl;
  private_key = refl;
  ca = refl;
}

IsRead-config_of : (getenv : Str → Str) (c : Config) → IsRead getenv c → c ≡ config_of getenv
unfolding config_of
IsRead-config_of getenv c r =
    let listening =
      IsOr-or_default c.listen_address (getenv (text "API_LISTEN_ADDRESS")) (text ":8080")
        r.listening in
    let environment =
      IsOr-or_default c.environment (getenv (text "APP_ENV")) (text "development") r.environment in
    λ i. record {
      listen_address = listening i;
      gateway_listen_address = r.gateway i;
      gateway_certificate_file = r.certificate i;
      gateway_private_key_file = r.private_key i;
      gateway_ca_file = r.ca i;
      database_url = r.database i;
      environment = environment i;
    }

exceeds-Fits : (c : Config) → (exceeds c ≡ false) ↔ Fits c
unfolding exceeds
exceeds-Fits c = (
  (λ e. record {
    listening = ground arith;
    environment = ground arith;
    database = ground arith;
    gateway = ground arith;
    certificate = ground arith;
    private_key = ground arith;
    ca = ground arith;
  }),
  λ f.
      let listening = f.listening in
      let environment = f.environment in
      let database = f.database in
      let gateway = f.gateway in
      let certificate = f.certificate in
      let private_key = f.private_key in let ca = f.ca in ground arith,
)

raw_values-plain :
    (getenv : Str → Str)
    → (has_newline (raw_values getenv) ≡ false)
      ↔ All (λ v. has_newline (getenv v) ≡ false) variables
raw_values-plain getenv =
    let db = getenv (text "DATABASE_URL") in
    let api = getenv (text "API_LISTEN_ADDRESS") in
    let env = getenv (text "APP_ENV") in
    let gw = getenv (text "GATEWAY_LISTEN_ADDRESS") in
    let cert = getenv (text "GATEWAY_TLS_CERT_FILE") in
    let key = getenv (text "GATEWAY_TLS_KEY_FILE") in
    let ca = getenv (text "GATEWAY_TLS_CA_FILE") in
    let a = has_newline-append db (api ++ (env ++ (gw ++ (cert ++ (key ++ ca))))) in
    let b = has_newline-append api (env ++ (gw ++ (cert ++ (key ++ ca)))) in
    let c = has_newline-append env (gw ++ (cert ++ (key ++ ca))) in
    let d = has_newline-append gw (cert ++ (key ++ ca)) in
    let e = has_newline-append cert (key ++ ca) in
    let f = has_newline-append key ca in
    (
      (λ h. (
        ground arith,
        (
          ground arith,
          (ground arith, (ground arith, (ground arith, (ground arith, (ground arith, tt))))),
        ),
      )),
      λ (p, (q, (r, (s, (t, (u, (v, _))))))). ground arith,
    )

partial_tls-whole : (c : Config) → (partial_tls c ≡ false) ↔ IsWholeTls c
unfolding partial_tls
partial_tls-whole c = (λ h. ground arith, λ w. ground arith)

-- A configuration is loaded exactly when no variable has a line break, each field is the trimmed
-- value of its variable, where an empty listening address is `:8080` and an empty environment
-- `development`, the database is named, the three files of TLS are all named or none is, the
-- addresses are of at most 256 bytes, the environment of 32, and the others of 4096.
pub load_iff : (getenv : Str → Str) (c : Config) → (load getenv ≡ ok c) ↔ Loaded getenv c
unfolding load
load_iff getenv c = (
  (λ e.
      let same : c ≡ config_of getenv = ground arith in
      subst (Loaded getenv) (sym same) (record {
        plain =
            All-map variables (λ v. (has_newline-IsPlain (getenv v)).0)
              ((raw_values-plain getenv).0 (ground arith));
        read = config_of-IsRead getenv;
        has_database = holds_no (Str-discrete (config_of getenv).database_url []) (ground arith);
        whole_tls = (partial_tls-whole (config_of getenv)).0 (ground arith);
        fits = (exceeds-Fits (config_of getenv)).0 (ground arith);
      })),
  λ l.
      let same = IsRead-config_of getenv c l.read in
      let plain =
        (raw_values-plain getenv).1
          (All-map variables (λ v. (has_newline-IsPlain (getenv v)).1) l.plain) in
      let whole = (partial_tls-whole c).1 l.whole_tls in
      let fits = (exceeds-Fits c).1 l.fits in let named = l.has_database in ground arith,
)
