-- ===== src/Encoding/Base64/RoundTrip.antt =====
-- Decoding inverts encoding.
use personal_vpn.Prelude.{
  ℕ, ◌+◌, ◌*◌, ◌/◌, ◌%◌, ◌<◌, ◌≡◌, refl, false, [], ◌∷◌, some, arith, ◌==◌, Str, All, text,
}
use personal_vpn.Encoding.Base64.{
  Alphabet, std, raw_std, raw_url, pad, char, digit, encode, is_newline, skip_newlines, decode_std,
  decode_raw, decode,
}

abbrev pub IsByte : ℕ → Type 0
IsByte b = b < 256

digit-char : (a : Alphabet) (n : ℕ) → n < 64 → digit a (char a n) ≡ some n
unfolding digit char
digit-char std n h = ground arith
digit-char raw_std n h = ground arith
digit-char raw_url n h = ground arith

-- No digit is a line break or the padding.
char-ne : (a : Alphabet) (n : ℕ) → (is_newline (char a n) ≡ false) × ((char a n == b'=') ≡ false)
unfolding is_newline char
char-ne std n = ground arith
char-ne raw_std n = ground arith
char-ne raw_url n = ground arith

skip_newlines-char :
    (a : Alphabet) (n : ℕ) (s : Str) → skip_newlines (char a n ∷ s) ≡ char a n ∷ skip_newlines s
unfolding skip_newlines
skip_newlines-char a n s = rw ((char-ne a n).0, skip_newlines)

-- An encoded text has no line breaks.
skip_newlines-encode : (a : Alphabet) (s : Str) → skip_newlines (encode a s) ≡ encode a s
unfolding encode
skip_newlines-encode std [] = unfold skip_newlines in refl
skip_newlines-encode std (x ∷ []) =
    rw (skip_newlines-char std, skip_newlines-char std) (unfold skip_newlines in refl)
skip_newlines-encode std (x ∷ y ∷ []) = simp skip_newlines-char (unfold skip_newlines in refl)
skip_newlines-encode std (x ∷ y ∷ z ∷ s) = simp (skip_newlines-char, skip_newlines-encode std s)
skip_newlines-encode raw_std [] = unfold skip_newlines in refl
skip_newlines-encode raw_std (x ∷ []) = simp skip_newlines-char (unfold skip_newlines in refl)
skip_newlines-encode raw_std (x ∷ y ∷ []) = simp skip_newlines-char (unfold skip_newlines in refl)
skip_newlines-encode raw_std (x ∷ y ∷ z ∷ s) =
    simp (skip_newlines-char, skip_newlines-encode raw_std s)
skip_newlines-encode raw_url [] = unfold skip_newlines in refl
skip_newlines-encode raw_url (x ∷ []) = simp skip_newlines-char (unfold skip_newlines in refl)
skip_newlines-encode raw_url (x ∷ y ∷ []) = simp skip_newlines-char (unfold skip_newlines in refl)
skip_newlines-encode raw_url (x ∷ y ∷ z ∷ s) =
    simp (skip_newlines-char, skip_newlines-encode raw_url s)

-- What the digits of three bytes are joined to.
joined :
    (x y z : ℕ)
    → x < 256
    → y < 256
    → z < 256
    → (x / 4 * 4 + (x % 4 * 16 + y / 16) / 16 ≡ x)
      × ((x % 4 * 16 + y / 16) % 16 * 16 + (y % 16 * 4 + z / 64) / 4 ≡ y)
      × ((y % 16 * 4 + z / 64) % 4 * 64 + z % 64 ≡ z)
joined x y z hx hy hz = omega arith

decode_std-encode : (s : Str) → All IsByte s → decode_std (encode std s) ≡ some s
unfolding decode_std encode
decode_std-encode [] h = refl
decode_std-encode (x ∷ []) (hx, _) =
    rw (digit-char std (x / 4) (omega arith), digit-char std (x % 4 * 16) (omega arith))
      (ground arith)
decode_std-encode (x ∷ y ∷ []) (hx, (hy, _)) =
    rw
      (
        digit-char std (x / 4) (omega arith),
        digit-char std (x % 4 * 16 + y / 16) (omega arith),
        (char-ne std (y % 16 * 4)).1,
        digit-char std (y % 16 * 4) (omega arith),
      )
      (ground arith)
decode_std-encode (x ∷ y ∷ z ∷ s) (hx, (hy, (hz, h))) =
    rw
      (
        digit-char std (x / 4) (omega arith),
        digit-char std (x % 4 * 16 + y / 16) (omega arith),
        (char-ne std (y % 16 * 4 + z / 64)).1,
        digit-char std (y % 16 * 4 + z / 64) (omega arith),
        (char-ne std (z % 64)).1,
        digit-char std (z % 64) (omega arith),
        decode_std-encode s h,
      )
      (ground (arith, joined x y z))

decode_raw-encode :
    (a : Alphabet)
    → ((c : ℕ) → pad a c ≡ [])
    → (s : Str) → All IsByte s
    → decode_raw a (encode a s) ≡ some s
unfolding decode_raw encode
decode_raw-encode a bare [] h = refl
decode_raw-encode a bare (x ∷ []) (hx, _) =
    rw (bare b'=', digit-char a (x / 4) (omega arith), digit-char a (x % 4 * 16) (omega arith))
      (ground arith)
decode_raw-encode a bare (x ∷ y ∷ []) (hx, (hy, _)) =
    rw
      (
        bare b'=',
        digit-char a (x / 4) (omega arith),
        digit-char a (x % 4 * 16 + y / 16) (omega arith),
        digit-char a (y % 16 * 4) (omega arith),
      )
      (ground arith)
decode_raw-encode a bare (x ∷ y ∷ z ∷ s) (hx, (hy, (hz, h))) =
    rw
      (
        digit-char a (x / 4) (omega arith),
        digit-char a (x % 4 * 16 + y / 16) (omega arith),
        digit-char a (y % 16 * 4 + z / 64) (omega arith),
        digit-char a (z % 64) (omega arith),
        decode_raw-encode a bare s h,
      )
      (ground (arith, joined x y z))

pub decode-encode : (a : Alphabet) (s : Str) → All IsByte s → decode a (encode a s) ≡ some s
unfolding decode
decode-encode std s h = rw (skip_newlines-encode std s) (decode_std-encode s h)
decode-encode raw_std s h =
    rw (skip_newlines-encode raw_std s) (decode_raw-encode raw_std (λ c. refl) s h)
decode-encode raw_url s h =
    rw (skip_newlines-encode raw_url s) (decode_raw-encode raw_url (λ c. refl) s h)

test1 : encode std (text "Ma") ≡ text "TWE="
unfolding encode
test1 = refl

test2 : decode std (text "TW\nE=") ≡ some (text "Ma")
unfolding decode
test2 = refl
