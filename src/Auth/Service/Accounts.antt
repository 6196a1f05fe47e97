-- ===== src/Auth/Service/Accounts.antt =====
-- An account that has been registered can log in, and only credentials that match can.
use personal_vpn.Prelude.{
  ℕ, ◌≡◌, refl, sym, subst, ◌∙◌, true, false, Option, some, arith, Result-cases, inl, inr, holds,
  ok, All, Str, Str-discrete, length,
}
use personal_vpn.Encoding.Base64.RoundTrip.{IsByte}
use personal_vpn.Encoding.Space.{trim_space}
use personal_vpn.Auth.Session.{SessionStore, Draw, issue}
use personal_vpn.Auth.Password.{IdKey, argon_key_len, hash_password}
use personal_vpn.Auth.Password.Verifies.{key_for, verify_password-hash_password}
use personal_vpn.Auth.Service.{
  UserStore, issued, normalize_email, register, check_credentials, login,
}

holds_refl : (s : Str) → holds (Str-discrete s s) ≡ true
holds_refl s = ground arith

module _ {U : Type 0} (users : UserStore U) (to_lower : Str → Str) (id_key : IdKey) where
  -- A user who has been created is found under the email, and is not disabled.
  abbrev pub Finds : Type 0
  Finds =
      (u : U) (email hash id : Str)
      → (users.create_user u email hash).1 ≡ ok id
      → users.find_user_password_hash (users.create_user u email hash).0 email
        ≡ ok (record { user_id = id; password_hash = hash; disabled = false })

  -- What a registration that succeeds went through.
  record IsRegistered (u v : U) (email password id : Str) (draw : Option Str) : Type 0 where
    normalized : Str
    hash : Str
    named : normalize_email to_lower email ≡ ok normalized
    hashed : hash_password id_key password draw ≡ ok hash
    created : (users.create_user u normalized hash).1 ≡ ok id
    after : v ≡ (users.create_user u normalized hash).0

  register_ok :
      (u : U) (email password id : Str) (draw : Option Str)
      → (register users to_lower id_key u email password draw).1 ≡ ok id
      → IsRegistered u
          (register users to_lower id_key u email password draw).0
          email
          password
          id
          draw
  unfolding register
  register_ok u email password id draw e = elim (Result-cases (normalize_email to_lower email)) [
    | inl (x, bad) ↦ absurd (ground arith)
    | inr (normalized, named) ↦ elim (Result-cases (hash_password id_key password draw)) [
      | inl (x, bad) ↦ absurd (ground arith)
      | inr (hash, hashed) ↦ elim (Result-cases (users.create_user u normalized hash).1) [
        | inl (x, bad) ↦ absurd (ground arith)
        | inr (i, created) ↦ record {
          normalized = normalized;
          hash = hash;
          named = named;
          hashed = hashed;
          created = ground arith;
          after = ground arith;
        }
      ]
    ]
  ]

  normalize_email-same :
      (email other normalized : Str)
      → to_lower (trim_space other) ≡ to_lower (trim_space email)
      → normalize_email to_lower email ≡ ok normalized
      → normalize_email to_lower other ≡ ok normalized
  unfolding normalize_email
  normalize_email-same email other normalized same named = rw (same, normalize_email) named

  -- Where the user store finds whom it has created, after a registration that succeeds, with a
  -- salt of 16 bytes and a key of 32, a login with the same password and an email that is the same
  -- once it is trimmed and in lower case returns what issuing tokens to that user returns.
  pub login-register :
      (sha256 : Str → Str) (u : U) (s : SessionStore) (email other password salt id : Str) (now : ℕ)
      (d0 d1 d2 : Draw)
      → Finds
      → to_lower (trim_space other) ≡ to_lower (trim_space email)
      → length salt ≡ 16
      → All IsByte salt
      → All IsByte (key_for id_key password salt)
      → length (key_for id_key password salt) ≡ argon_key_len
      → (register users to_lower id_key u email password (some salt)).1 ≡ ok id
      → login users to_lower id_key sha256
          (register users to_lower id_key u email password (some salt)).0
          s
          other
          password
          now
          (d0, d1, d2)
        ≡ ((issue sha256 s id now d0 d1 d2).0, issued (issue sha256 s id now d0 d1 d2).1)
  unfolding login check_credentials
  login-register sha256 u s email other password salt id now d0 d1 d2 finds same size h k long e =
      let r = register_ok u email password id (some salt) e in
      let found = finds u r.normalized r.hash id r.created in
      let verifies =
        verify_password-hash_password id_key password password salt r.hash size h k long r.hashed
        ∙ holds_refl (key_for id_key password salt) in
      let named = normalize_email-same email other r.normalized same r.named in
      subst
        (λ v.
          login users to_lower id_key sha256 v s other password now (d0, d1, d2)
          ≡ ((issue sha256 s id now d0 d1 d2).0, issued (issue sha256 s id now d0 d1 d2).1))
        (sym r.after) (rw (named, found, verifies, check_credentials, login) refl)
