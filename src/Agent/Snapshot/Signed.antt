-- ===== src/Agent/Snapshot/Signed.antt =====
-- A snapshot that is signed verifies.
use personal_vpn.Prelude.{
  ℕ, ◌≡◌, refl, sym, subst, true, [], arith, some, Option-cases, length, Str, inl, inr,
}
use personal_vpn.Agent.Snapshot.{
  Snapshot, ParsePrefix, Signing, validate, sign, verify, signing_bytes, unsigned, ok, err, Result,
  ◌>>=◌,
}

-- What ed25519 promises of a pair of keys.
pub record IsKeyPair (x : Signing) (public_key private_key : Str) : Type 0 where
  pub public_size : length public_key ≡ 32
  pub signature_size : (m : Str) → length (x.ed25519_sign private_key m) ≡ 64
  pub verifies : (m : Str) → x.ed25519_verify public_key m (x.ed25519_sign private_key m) ≡ true

bind_ok : (r : Result (Unit {0})) → (r >>= λ _. ok tt) ≡ r
bind_ok (ok tt) = refl
bind_ok (err e) = refl

module _ (x : Signing) (parse_prefix : ParsePrefix) where
  sign_ok :
      (s t : Snapshot) (private_key : Str)
      → sign x s private_key ≡ ok t
      → (content : Str) × (signing_bytes x s ≡ some content)
        × (t ≡ record s { signature = x.ed25519_sign private_key content })
  unfolding sign signing_bytes unsigned
  sign_ok s t private_key e = elim (Option-cases (x.marshal (record s { signature = [] }))) [
    | inl none_made ↦ absurd (ground arith)
    | inr (content, made) ↦ (content, made, ground arith)
  ]

  -- A snapshot signed with the private key of a key pair verifies under its public key exactly as
  -- the unsigned one validates: with the same error, or none.
  pub verify-sign :
      (s t : Snapshot) (public_key private_key gateway_id : Str) (now : ℕ)
      → IsKeyPair x public_key private_key
      → sign x s private_key ≡ ok t
      → verify x parse_prefix t now gateway_id public_key ≡ validate parse_prefix s now gateway_id
  unfolding verify validate signing_bytes unsigned
  verify-sign s t public_key private_key gateway_id now pair e =
      let (content, made, same) = sign_ok s t private_key e in
      let size = pair.signature_size content in
      let verifies = pair.verifies content in
      subst
        (λ u.
          verify x parse_prefix u now gateway_id public_key
          ≡ validate parse_prefix s now gateway_id)
        (sym same)
        (rw (size, pair.public_size, made, verifies)
          (bind_ok (validate parse_prefix s now gateway_id)))
