-- ===== src/Encoding/Base64/Sizes.antt =====
-- The length of an encoded text, and the range of what is decoded.
use personal_vpn.Prelude.{
  ℕ, ◌+◌, ◌*◌, ◌/◌, ◌<◌, ◌≡◌, [], ◌∷◌, Option, none, some, arith, Str, All, length, Option-cases,
  inl, inr,
}
use personal_vpn.Encoding.Base64.{
  Alphabet, std, raw_std, raw_url, digit, encode, skip_newlines, last_quantum, std_tail, decode_std,
  decode, fourth,
}
use personal_vpn.Encoding.Base64.RoundTrip.{IsByte}

pub length-encode_raw : (s : Str) → length (encode raw_url s) ≡ (length s * 4 + 2) / 3
unfolding encode
length-encode_raw [] = omega arith
length-encode_raw (x ∷ []) = omega arith
length-encode_raw (x ∷ y ∷ []) = omega arith
length-encode_raw (x ∷ y ∷ z ∷ s) = omega (arith, length-encode_raw s)

digit-lt : (a : Alphabet) (c n : ℕ) → digit a c ≡ some n → n < 64
unfolding digit
digit-lt std c n h = ground arith
digit-lt raw_std c n h = ground arith
digit-lt raw_url c n h = ground arith

std_tail-IsByte :
    (p q c d : ℕ) (rest : Str) (more : Option Str) (s : Str)
    → p < 64
    → q < 64
    → ((m : Str) → more ≡ some m → All IsByte m)
    → std_tail p q c d rest more ≡ some s
    → All IsByte s
unfolding std_tail fourth last_quantum
std_tail-IsByte p q c d rest none s hp hq ih h = ground (arith, digit-lt std c, digit-lt std d)
std_tail-IsByte p q c d rest (some m) s hp hq ih h =
    ground (arith, digit-lt std c, digit-lt std d, ih m)

decode_std-IsByte : (s t : Str) → decode_std s ≡ some t → All IsByte t
unfolding decode_std
decode_std-IsByte [] t h = ground arith
decode_std-IsByte (a ∷ []) t h = ground arith
decode_std-IsByte (a ∷ b ∷ []) t h = ground arith
decode_std-IsByte (a ∷ b ∷ c ∷ []) t h = ground arith
decode_std-IsByte (a ∷ b ∷ c ∷ d ∷ rest) t h = elim (Option-cases (digit std a)) [
  | inl e ↦ absurd (ground arith)
  | inr (p, e) ↦ elim (Option-cases (digit std b)) [
    | inl f ↦ absurd (ground arith)
    | inr (q, f) ↦
        std_tail-IsByte p q c d rest (decode_std rest) t (digit-lt std a p e) (digit-lt std b q f)
          (decode_std-IsByte rest) (ground arith)
  ]
]

pub decode_std-bytes : (s t : Str) → decode std s ≡ some t → All IsByte t
unfolding decode
decode_std-bytes s t h = decode_std-IsByte (skip_newlines s) t h
