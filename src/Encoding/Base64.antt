-- ===== src/Encoding/Base64.antt =====
-- Go's `base64.StdEncoding`, `base64.RawStdEncoding` and `base64.RawURLEncoding`: the encoder, and the decoder that skips
-- line breaks and does not look at the bits left over in the last digit.
pub mod RoundTrip
pub mod Sizes
use personal_vpn.Prelude.{
  ℕ, ◌+◌, ◌-◌, ◌*◌, ◌/◌, ◌%◌, Bool, true, false, ◌&&◌, ◌||◌, List, [], ◌∷◌, ◌++◌, Option, none,
  some, ltb, leb, ◌==◌, if◌then◌else◌, Str,
}

-- The encodings: `std` pads with '=', the others do not.
pub data Alphabet : Type 0 where
  std raw_std raw_url : Alphabet

abbrev pub char_62 : Alphabet → ℕ
char_62 std = b'+'
char_62 raw_std = b'+'
char_62 raw_url = b'-'

abbrev pub char_63 : Alphabet → ℕ
char_63 std = b'/'
char_63 raw_std = b'/'
char_63 raw_url = b'_'

-- The character of a six-bit digit.
unfoldable pub char : Alphabet → ℕ → ℕ
char a n =
    if ltb n 26
    then n + 65
    else if ltb n 52
    then n + 71
    else if ltb n 62
    then n - 4
    else if n == 62
    then char_62 a
    else char_63 a

-- The entry of the decode map.
pub digit : Alphabet → ℕ → Option ℕ
digit a c =
    if leb 65 c && leb c 90
    then some (c - 65)
    else if leb 97 c && leb c 122
    then some (c - 71)
    else if leb 48 c && leb c 57
    then some (c + 4)
    else if c == char_62 a
    then some 62
    else if c == char_63 a
    then some 63
    else none

abbrev pub pad : Alphabet → ℕ → Str
pad std c = c ∷ []
pad raw_std c = []
pad raw_url c = []

unfoldable pub encode : Alphabet → Str → Str
unfolding char
encode a [] = []
encode a (x ∷ []) = char a (x / 4) ∷ char a (x % 4 * 16) ∷ (pad a b'=' ++ pad a b'=')
encode a (x ∷ y ∷ []) =
    char a (x / 4) ∷ char a (x % 4 * 16 + y / 16) ∷ char a (y % 16 * 4) ∷ pad a b'='
encode a (x ∷ y ∷ z ∷ rest) =
    char a (x / 4)
    ∷ char a (x % 4 * 16 + y / 16)
    ∷ char a (y % 16 * 4 + z / 64)
    ∷ char a (z % 64)
    ∷ encode a rest

infixl 5 ◌>>=◌
abbrev ◌>>=◌ : {A B : Type 0} → Option A → (A → Option B) → Option B
none >>= f = none
some a >>= f = f a

is_newline : ℕ → Bool
is_newline c = c == 10 || c == 13

skip_newlines : Str → Str
unfolding is_newline
skip_newlines [] = []
skip_newlines (c ∷ s) = let rest = skip_newlines s in if is_newline c then rest else c ∷ rest

-- The bytes of two, three and four digits.
abbrev byte_1 : ℕ → ℕ → ℕ
byte_1 p q = p * 4 + q / 16

abbrev byte_2 : ℕ → ℕ → ℕ
byte_2 q r = q % 16 * 16 + r / 4

abbrev byte_3 : ℕ → ℕ → ℕ
byte_3 r s = r % 4 * 64 + s

-- A padded quantum is the last one.
last_quantum : Str → Str → Option Str
last_quantum bytes [] = some bytes
last_quantum bytes (c ∷ rest) = none

-- The last two characters of a quantum of the padded encoding, with its first two digits.
fourth : ℕ → ℕ → ℕ → ℕ → Str → Option Str → Option Str
unfolding last_quantum digit
fourth p q r d rest more =
    if d == b'='
    then last_quantum (byte_1 p q ∷ byte_2 q r ∷ []) rest
    else do s ← digit std d; bytes ← more; some (byte_1 p q ∷ byte_2 q r ∷ byte_3 r s ∷ bytes)

std_tail : ℕ → ℕ → ℕ → ℕ → Str → Option Str → Option Str
unfolding last_quantum digit fourth
std_tail p q c d rest more =
    if c == b'='
    then if d == b'=' then last_quantum (byte_1 p q ∷ []) rest else none
    else do r ← digit std c; fourth p q r d rest more

decode_std : Str → Option Str
unfolding std_tail digit
decode_std [] = some []
decode_std (a ∷ b ∷ c ∷ d ∷ rest) =
    let more = decode_std rest in do p ← digit std a; q ← digit std b; std_tail p q c d rest more
decode_std s = none

decode_raw : Alphabet → Str → Option Str
unfolding digit
decode_raw alphabet [] = some []
decode_raw alphabet (a ∷ []) = none
decode_raw alphabet (a ∷ b ∷ []) = do
  p ← digit alphabet a
  q ← digit alphabet b
  some (byte_1 p q ∷ [])
decode_raw alphabet (a ∷ b ∷ c ∷ []) = do
  p ← digit alphabet a
  q ← digit alphabet b
  r ← digit alphabet c
  some (byte_1 p q ∷ byte_2 q r ∷ [])
decode_raw alphabet (a ∷ b ∷ c ∷ d ∷ rest) =
    let more = decode_raw alphabet rest in
    do
      p ← digit alphabet a
      q ← digit alphabet b
      r ← digit alphabet c
      s ← digit alphabet d
      bytes ← more
      some (byte_1 p q ∷ byte_2 q r ∷ byte_3 r s ∷ bytes)

unfoldable pub decode : Alphabet → Str → Option Str
unfolding skip_newlines decode_std decode_raw
decode std s = decode_std (skip_newlines s)
decode raw_std s = decode_raw raw_std (skip_newlines s)
decode raw_url s = decode_raw raw_url (skip_newlines s)
