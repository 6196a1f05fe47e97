-- ===== src/Store/Opening/Protected.antt =====
-- That no pool stays open after a failure, and none without TLS is opened to a remote host.
use personal_vpn.Prelude.{
  ◌≡◌, ◌≢◌, refl, sym, subst, ◌∙◌, ◌⊎◌, inl, inr, Bool, true, ◌||◌, List, ◌∷◌, [], none, Str,
  Str-discrete, text, Fallible, ok, err, arith, Bool-cases, Option-cases, Result-cases, holds-true,
  holds_no, holds_yes, holds-false, ◌↔◌,
}
use personal_vpn.Encoding.Space.{trim_space}
use personal_vpn.Store.Tables.{str_eq}
use personal_vpn.Store.Accounts.{Connection, fold_ascii, require_tls_for_remote_host}
use personal_vpn.Store.Opening.{
  Error, read_password, parse_configuration, create_pool, ping_database, tls_required,
  empty_password, PoolConfig, Pgx, limited, open_config, open_url, open_with_password_file,
  open_database,
}

-- The empty host, that of the machine by its name, and a loopback address.
abbrev pub is_local : (Str → Bool) → Str → Bool
is_local is_loopback host =
    str_eq host [] || str_eq (fold_ascii host) (text "localhost") || is_loopback host

-- The host is local, or the connection has TLS.
abbrev pub IsProtected : (Str → Bool) → Connection → Type 0
IsProtected is_loopback c = (is_local is_loopback c.host ≡ true) ⊎ (c.has_tls ≡ true)

require_tls-IsProtected :
    (is_loopback : Str → Bool) (c : Connection)
    → require_tls_for_remote_host is_loopback c ≡ none
    → IsProtected is_loopback c
unfolding require_tls_for_remote_host
require_tls-IsProtected is_loopback c e = elim (Bool-cases (is_local is_loopback c.host)) [
  | inl here ↦ inl here
  | inr remote ↦ elim (Bool-cases c.has_tls) [
    | inl tls ↦ inr tls
    | inr bare ↦ absurd (ground arith)
  ]
]

IsProtected-require_tls :
    (is_loopback : Str → Bool) (c : Connection)
    → IsProtected is_loopback c
    → require_tls_for_remote_host is_loopback c ≡ none
unfolding require_tls_for_remote_host
IsProtected-require_tls is_loopback c (inl here) = ground arith
IsProtected-require_tls is_loopback c (inr tls) = ground arith

module _ (x : Pgx) where
  -- The password: that of the address, or that of the file where one is named.
  abbrev pub HasPassword : Str → PoolConfig → Str → Type 0
  HasPassword password_file parsed password =
      ((password_file ≡ []) × (password ≡ parsed.password))
      ⊎ ((content : Str) × (password_file ≢ [])
          × (x.read_file password_file ≡ ok content)
          × (password ≡ trim_space content)
          × (password ≢ []))

  -- The pool that is opened for an address: what the address names, with the password and the
  -- bounds, which is protected and answers.
  pub record Opened (database_url password_file : Str) (c : PoolConfig) : Type 0 where
    pub parsed : PoolConfig
    pub password : Str
    pub of_url : x.parse_config database_url ≡ ok parsed
    pub has_password : HasPassword password_file parsed password
    pub same : c ≡ limited (record parsed { password = password })
    pub is_protected : IsProtected x.is_loopback parsed.connection
    pub created : x.new_with_config c ≡ none
    pub answered : x.ping c ≡ none

  -- A failure leaves the pools as they were, and a success adds one.
  abbrev pub Ends :
      (PoolConfig → Type 0) → List PoolConfig → List PoolConfig × Fallible Error PoolConfig → Type 0
  Ends Good pools result =
      ((e : Error) × (result ≡ (pools, err e)))
      ⊎ ((c : PoolConfig) × (result ≡ (c ∷ pools, ok c)) × Good c)

  abbrev Pooled : PoolConfig → PoolConfig → Type 0
  Pooled config c =
      (c ≡ limited config)
      × IsProtected x.is_loopback config.connection
      × (x.new_with_config c ≡ none)
      × (x.ping c ≡ none)

  open_config-Ends :
      (pools : List PoolConfig) (config : PoolConfig)
      → Ends (Pooled config) pools (open_config x pools config)
  unfolding open_config
  open_config-Ends pools config =
      elim (Option-cases (require_tls_for_remote_host x.is_loopback config.connection)) [
        | inr (e, h) ↦ rw (open_config, h) (inl (tls_required e, refl))
        | inl h ↦ elim (Option-cases (x.new_with_config (limited config))) [
          | inr (e, h1) ↦ rw (open_config, h, h1) (inl (create_pool e, refl))
          | inl h1 ↦ elim (Option-cases (x.ping (limited config))) [
            | inr (e, h2) ↦ rw (open_config, h, h1, h2) (inl (ping_database e, refl))
            | inl h2 ↦
                let safe = require_tls-IsProtected x.is_loopback config.connection h in
                rw (open_config, h, h1, h2) (inr (limited config, refl, (refl, safe, h1, h2)))
          ]
        ]
      ]

  open_config_opens :
      (pools : List PoolConfig) (config c : PoolConfig)
      → Pooled config c
      → open_config x pools config ≡ (c ∷ pools, ok c)
  unfolding open_config
  open_config_opens pools config c (same, safe, created, answered) =
      let h = IsProtected-require_tls x.is_loopback config.connection safe in
      subst (λ z. open_config x pools config ≡ (z ∷ pools, ok z)) (sym same)
        (rw
          (
            open_config,
            h,
            subst (λ z. x.new_with_config z ≡ none) same created,
            subst (λ z. x.ping z ≡ none) same answered,
          )
          refl)

  Ends-map :
      (Good Better : PoolConfig → Type 0) (pools : List PoolConfig)
      (result : List PoolConfig × Fallible Error PoolConfig)
      → ((c : PoolConfig) → Good c → Better c)
      → Ends Good pools result
      → Ends Better pools result
  Ends-map Good Better pools result better (inl failed) = inl failed
  Ends-map Good Better pools result better (inr (c, e, good)) = inr (c, e, better c good)

  open_url-Ends :
      (pools : List PoolConfig) (database_url : Str)
      → Ends (Opened database_url []) pools (open_url x pools database_url)
  unfolding open_url
  open_url-Ends pools database_url = elim (Result-cases (x.parse_config database_url)) [
    | inl (e, h) ↦ rw (open_url, h) (inl (parse_configuration e, refl))
    | inr (config, h) ↦
        rw (open_url, h)
          (Ends-map (Pooled config) (Opened database_url []) pools (open_config x pools config)
            (λ c (same, safe, created, answered). record {
              parsed = config;
              password = config.password;
              of_url = h;
              has_password = inl (refl, refl);
              same = same;
              is_protected = safe;
              created = created;
              answered = answered;
            })
            (open_config-Ends pools config))
  ]

  with_file-Ends :
      (pools : List PoolConfig) (database_url file : Str)
      → file ≢ []
      → Ends (Opened database_url file) pools (open_with_password_file x pools database_url file)
  unfolding open_with_password_file
  with_file-Ends pools database_url file named = elim (Result-cases (x.read_file file)) [
    | inl (e, h) ↦ rw (open_with_password_file, h) (inl (read_password e, refl))
    | inr (content, h) ↦ elim (Result-cases (x.parse_config database_url)) [
      | inl (e, h1) ↦ rw (open_with_password_file, h, h1) (inl (parse_configuration e, refl))
      | inr (config, h1) ↦ elim (Bool-cases (str_eq (trim_space content) [])) [
        | inl blank ↦ rw (open_with_password_file, h, h1, blank) (inl (empty_password, refl))
        | inr given ↦
            let secret : PoolConfig = record config { password = trim_space content } in
            rw (open_with_password_file, h, h1, given)
              (Ends-map (Pooled secret) (Opened database_url file) pools
                (open_config x pools secret)
                (λ c (same, safe, created, answered). record {
                  parsed = config;
                  password = trim_space content;
                  of_url = h1;
                  has_password = inr (
                    content,
                    named,
                    h,
                    refl,
                    holds_no (Str-discrete (trim_space content) []) given,
                  );
                  same = same;
                  is_protected = safe;
                  created = created;
                  answered = answered;
                })
                (open_config-Ends pools secret))
      ]
    ]
  ]

  open_database-Ends :
      (pools : List PoolConfig) (database_url file : Str)
      → Ends (Opened database_url file) pools (open_database x pools database_url file)
  unfolding open_database
  open_database-Ends pools database_url file = elim (Bool-cases (str_eq file [])) [
    | inl unnamed ↦
        rw (open_database, unnamed)
          (subst (λ z. Ends (Opened database_url z) pools (open_url x pools database_url))
            (sym (holds_yes (Str-discrete file []) unnamed)) (open_url-Ends pools database_url))
    | inr named ↦
        rw (open_database, named)
          (with_file-Ends pools database_url file (holds_no (Str-discrete file []) named))
  ]

  Opened-open_database :
      (pools : List PoolConfig) (database_url file : Str) (c : PoolConfig)
      → Opened database_url file c
      → open_database x pools database_url file ≡ (c ∷ pools, ok c)
  unfolding open_database open_url open_with_password_file
  Opened-open_database pools database_url file c o =
      let secret : PoolConfig = record o.parsed { password = o.password } in
      let opens =
        open_config_opens pools secret c (o.same, o.is_protected, o.created, o.answered) in
      elim o.has_password [
        | inl (unnamed, kept) ↦
            let none_named = holds-true (Str-discrete file []) unnamed in
            rw (open_database, none_named, open_url, o.of_url)
              (subst
                (λ z. open_config x pools (record o.parsed { password = z }) ≡ (c ∷ pools, ok c))
                kept opens)
        | inr (content, is_named, read, its, given) ↦
            let named = holds-false (Str-discrete file []) is_named in
            let filled =
              holds-false (Str-discrete (trim_space content) [])
                (λ nothing. given (its ∙ nothing)) in
            rw (open_database, named, open_with_password_file, read, o.of_url, filled)
              (subst
                (λ z. open_config x pools (record o.parsed { password = z }) ≡ (c ∷ pools, ok c))
                its opens)
      ]

  -- The opening of the database either fails and leaves the open pools as they were, or adds the
  -- one pool that it returns. It opens a given pool exactly when that pool is what the address
  -- names, with the bounds on its connections and the password, it is created and answers, and it
  -- is local or has TLS; the password is the trimmed content of the password file, not empty,
  -- where a file is named, and otherwise that of the address.
  pub open_database_iff :
      (pools : List PoolConfig) (database_url password_file : Str) (c : PoolConfig)
      → Ends (λ d. Unit {0}) pools (open_database x pools database_url password_file)
        × ((open_database x pools database_url password_file ≡ (c ∷ pools, ok c))
            ↔ Opened database_url password_file c)
  open_database_iff pools database_url password_file c =
      let ends = open_database-Ends pools database_url password_file in
      (
        Ends-map (Opened database_url password_file) (λ d. Unit {0}) pools
            (open_database x pools database_url password_file) (λ d o. tt) ends,
        (
          (λ same. elim ends [
            | inl (e, failed) ↦ absurd (ground arith)
            | inr (d, opened, o) ↦ subst (Opened database_url password_file) (ground arith) o
          ]),
          Opened-open_database pools database_url password_file c,
        ),
      )
