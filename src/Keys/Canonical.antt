-- ===== src/Keys/Canonical.antt =====
-- The accepted keys are the canonical encodings of 32 bytes.
use personal_vpn.Prelude.{
  ◌≡◌, ◌↔◌, subst, true, some, arith, Str, All, length, Option-cases, inl, inr,
}
use personal_vpn.Encoding.Base64.{std, encode, decode}
use personal_vpn.Encoding.Base64.RoundTrip.{IsByte, decode-encode}
use personal_vpn.Encoding.Base64.Sizes.{decode_std-bytes}
use personal_vpn.Keys.{valid_public_key}

-- The text encodes 32 bytes.
pub record IsKey (value : Str) : Type 0 where
  pub key : Str
  pub size : length key ≡ 32
  pub bytes : All IsByte key
  pub canonical : encode std key ≡ value

valid_sound : (value : Str) → valid_public_key value ≡ true → IsKey value
unfolding valid_public_key
valid_sound value h = elim (Option-cases (decode std value)) [
  | inl e ↦ absurd (ground arith)
  | inr (key, e) ↦ record {
    key = key;
    size = ground arith;
    bytes = decode_std-bytes value key e;
    canonical = ground arith;
  }
]

valid_complete : (value : Str) → IsKey value → valid_public_key value ≡ true
unfolding valid_public_key
valid_complete value k =
    let e : decode std value ≡ some k.key =
      subst (λ v. decode std v ≡ some k.key) k.canonical (decode-encode std k.key k.bytes) in
    let size = k.size in let canonical = k.canonical in rw (e, valid_public_key) (ground arith)

-- A text is accepted as a public key exactly when it is the canonical base64 text of 32 bytes.
pub valid_public_key_iff : (value : Str) → (valid_public_key value ≡ true) ↔ IsKey value
valid_public_key_iff value = (valid_sound value, valid_complete value)
