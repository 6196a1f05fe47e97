-- ===== src/HttpApi/Access.antt =====
-- Who may call what: a handler calls its service for the caller that was identified, and for no one else.
use personal_vpn.Prelude.{
  ◌≡◌, ◌≢◌, ◌↔◌, ◌⊎◌, inl, inr, true, false, ◌||◌, List, [], ◌∷◌, some, arith, holds, Bool-cases,
  Option-cases, Str, Str-discrete, ℤ, All, text, holds-true, holds_yes, holds_no, refl, sym, ap,
  subst, ◌∙◌, none,
}
use personal_vpn.Encoding.Space.{fields, lower_ascii}
use personal_vpn.Control.{RegisterDeviceRequest}
use personal_vpn.Agent.Worker.{Delivery}
use personal_vpn.HttpApi.{Request, Response, status, Decoded, bearer_token, bearer_of, is_bearer}
use personal_vpn.HttpApi.Devices.{
  DeviceService, Value, authenticated_user, list_for, register_for, revoke_for, configuration_for,
  list, register, revoke, configure,
}
use personal_vpn.HttpApi.Gateway.{
  GatewayDeliveryService, RetryRequest, contains_separator, gateway_identity, claim_for, ack_for,
  retry_for, identified, claim, ack, retry,
}

bearer_sound :
    (l : List Str) (token : Str)
    → bearer_of l ≡ some token
    → (scheme : Str) × (l ≡ scheme ∷ token ∷ []) × (is_bearer scheme ≡ true) × (token ≢ [])
bearer_sound [] token e = absurd (cc)
bearer_sound (a ∷ []) token e = absurd (cc)
bearer_sound (a ∷ b ∷ c ∷ l) token e = absurd (cc)
bearer_sound (a ∷ b ∷ []) token e = (a, ground arith, ground arith, ground arith)

-- A header gives a bearer token exactly when its fields are two, a spelling of `bearer` and the
-- token, which is not empty.
pub bearer_token_iff :
    (value token : Str)
    → (bearer_token value ≡ some token) ↔ (
        (scheme : Str) × (fields value ≡ scheme ∷ token ∷ [])
        × (is_bearer scheme ≡ true)
        × (token ≢ []))
unfolding bearer_token
bearer_token_iff value token =
    (bearer_sound (fields value) token, λ (scheme, split, bearer, named). rw (split) (ground arith))

-- The header is a spelling of `bearer` and the token, which is not empty.
abbrev pub Carries : Str → Str → Type 0
Carries header token =
    (scheme : Str) × (fields header ≡ scheme ∷ token ∷ [])
    × (lower_ascii scheme ≡ text "bearer")
    × (token ≢ [])

bearer_token-Carries :
    (header token : Str) → (bearer_token header ≡ some token) ↔ Carries header token
bearer_token-Carries header token =
    let (sound, complete) = bearer_token_iff header token in
    (
      (λ e.
          let (scheme, split, bearer, named) = sound e in
          (
            scheme,
            split,
            holds_yes (Str-discrete (lower_ascii scheme) (text "bearer")) bearer,
            named,
          )),
      (λ (scheme, split, bearer, named). complete (
        scheme,
        split,
        holds-true (Str-discrete (lower_ascii scheme) (text "bearer")) bearer,
        named,
      )),
    )

module _ {S : Type 0} (service : DeviceService S) where
  -- The user to whom the access token of the header belongs.
  abbrev pub IsCaller : S → Request → Str → Type 0
  IsCaller s r user =
      (token : Str) × Carries r.authorization token
      × (service.authenticate_access s token ≡ some user)

  -- There is a caller and the handler ran for it, or there is none, and the request is refused and
  -- changes nothing.
  abbrev pub IsGuarded :
      (S → Request → Str → S × Response Value) → S → Request → S × Response Value → Type 0
  IsGuarded handler s r o =
      ((user : Str) × IsCaller s r user × (o ≡ handler s r user))
      ⊎ (¬ ((user : Str) × IsCaller s r user) × (o.0 ≡ s) × (status o.1 ≡ 401))

  -- `authenticatedUser` gives the caller, or writes a 401 where there is none.
  authenticated_user-cases :
      (s : S) (r : Request)
      → ((user : Str) × IsCaller s r user × (authenticated_user service s r ≡ ([], some user)))
        ⊎ (¬ ((user : Str) × IsCaller s r user)
            × ((authenticated_user service s r).1 ≡ none)
            × (status (authenticated_user service s r).0 ≡ 401))
  unfolding authenticated_user
  authenticated_user-cases s r = elim (Option-cases (bearer_token r.authorization)) [
    | inl e ↦ inr (
      (λ (user, (token, carried, its)).
          let found = (bearer_token-Carries r.authorization token).1 carried in ground arith),
      ground arith,
      ground arith,
    )
    | inr (token, e) ↦ elim (Option-cases (service.authenticate_access s token)) [
      | inl f ↦ inr (
        (λ (user, (other, carried, its)).
            let same = sym ((bearer_token-Carries r.authorization other).1 carried) ∙ e in
            ground arith),
        ground arith,
        ground arith,
      )
      | inr (user, f) ↦
          inl (user, (token, (bearer_token-Carries r.authorization token).0 e, f), ground arith)
    ]
  ]

  -- Each of the four handlers of devices does exactly what it does for the user whose access token
  -- the header carries; where it carries no token, or one that authenticates nobody, the handler
  -- changes nothing and answers 401.
  pub handlers-IsGuarded :
      (parse : Str → Decoded RegisterDeviceRequest) (parse_region : Str → Decoded Str) (s : S)
      (r : Request)
      → IsGuarded (λ s r. list_for service s) s r (list service s r)
        × IsGuarded (register_for service parse) s r (register service parse s r)
        × IsGuarded (revoke_for service) s r (revoke service s r)
        × IsGuarded
            (configuration_for service parse_region)
            s
            r
            (configure service parse_region s r)
  unfolding list register revoke configure
  handlers-IsGuarded parse parse_region s r = elim (authenticated_user-cases s r) [
    | inl (user, caller, e) ↦ (
      inl (user, caller, ground arith),
      inl (user, caller, ground arith),
      inl (user, caller, ground arith),
      inl (user, caller, ground arith),
    )
    | inr (nobody, e, refused) ↦ (
      inr (nobody, ground arith, ground arith),
      inr (nobody, ground arith, ground arith),
      inr (nobody, ground arith, ground arith),
      inr (nobody, ground arith, ground arith),
    )
  ]

abbrev pub HasNoSeparator : Str → Type 0
HasNoSeparator = All (λ c. (c ≢ b'/') × (c ≢ b'?') × (c ≢ b'#'))

-- A name that a certificate may give a gateway.
abbrev pub IsGatewayName : Str → Type 0
IsGatewayName name = (name ≢ []) × HasNoSeparator name

has_no_separator : (name : Str) → (contains_separator name ≡ false) ↔ HasNoSeparator name
unfolding contains_separator
has_no_separator [] = ((λ e. tt), (λ h. refl))
has_no_separator (c ∷ name) =
    let (out, back) = has_no_separator name in
    (
      (λ e. ((ground arith, ground arith, ground arith), out (ground arith))),
      (λ ((slash, question, hash), rest). let later = back rest in ground arith),
    )

module _ {S : Type 0} (service : GatewayDeliveryService S) where
  -- The handler ran for the gateway of the path, whose certificate names it; or no certificate
  -- names a gateway; or one names another.
  abbrev pub IsIdentified :
      (S → Request → Str → S × Response Delivery) → S → Request → S × Response Delivery → Type 0
  IsIdentified handler s r o =
      ((r.peer ≡ some r.gateway_id) × IsGatewayName r.gateway_id × (o ≡ handler s r r.gateway_id))
      ⊎ (¬ ((name : Str) × (r.peer ≡ some name) × IsGatewayName name)
          × (o.0 ≡ s)
          × (status o.1 ≡ 401))
      ⊎ ((name : Str) × (r.peer ≡ some name)
          × IsGatewayName name
          × (name ≢ r.gateway_id)
          × (o.0 ≡ s)
          × (status o.1 ≡ 403))

  identified-IsIdentified :
      (handler : S → Request → Str → S × Response Delivery) (s : S) (r : Request)
      → IsIdentified handler s r (identified service handler s r)
  unfolding identified gateway_identity
  identified-IsIdentified handler s r = elim (Option-cases r.peer) [
    | inl e ↦ inr (inl ((λ (name, its, good). ground arith), ground arith, ground arith))
    | inr (name, e) ↦ elim (Bool-cases (holds (Str-discrete name []) || contains_separator name)) [
      | inl bad ↦ inr (
          inl (
            (λ (other, its, (named, plain)).
                let whole = (has_no_separator other).1 plain in ground arith),
            ground arith,
            ground arith,
          ))
      | inr good ↦
          let named : name ≢ [] = holds_no (Str-discrete name []) (ground arith) in
          let plain = (has_no_separator name).0 (ground arith) in
          elim (Str-discrete name r.gateway_id) [
            | no other ↦ inr (inr (name, e, (named, plain), other, ground arith, ground arith))
            | yes same ↦
                inl (e ∙ ap some same, subst IsGatewayName same (named, plain), ground arith)
          ]
    ]
  ]

  -- Each of the three handlers of a gateway does exactly what it does for the gateway of the path
  -- where the certificate names that gateway, with a name that is not empty and has no slash,
  -- question mark or hash. Where the certificate names no gateway in this way it changes nothing
  -- and answers 401, and where it names another than that of the path it changes nothing and
  -- answers 403.
  pub handlers-IsIdentified :
      (parse : Str → Decoded ℤ) (parse_retry : Str → Decoded RetryRequest) (s : S) (r : Request)
      → IsIdentified (λ s r. claim_for service s) s r (claim service s r)
        × IsIdentified (ack_for service parse) s r (ack service parse s r)
        × IsIdentified (retry_for service parse_retry) s r (retry service parse_retry s r)
  unfolding claim ack retry
  handlers-IsIdentified parse parse_retry s r = (
    identified-IsIdentified (λ s r. claim_for service s) s r,
    identified-IsIdentified (ack_for service parse) s r,
    identified-IsIdentified (retry_for service parse_retry) s r,
  )
