-- ===== src/Encoding/Fmt.antt =====
-- The verbs of Go's fmt that the program uses: `%d` of a number below 100000, `%x` of a uint16, and `%x` of bytes.
use personal_vpn.Prelude.{
  ℕ, zero, suc, ◌+◌, ◌-◌, ◌*◌, ◌/◌, ◌%◌, ◌≡◌, ◌<◌, refl, [], ◌∷◌, map, reverse, reverse-reverse,
  arith, ltb, if◌then◌else◌, Str,
}

-- The digits of a number below 10 ^ fuel, the last one first.
abbrev pub decimal_digits : ℕ → ℕ → Str
decimal_digits zero n = []
decimal_digits (suc fuel) n =
    let rest = decimal_digits fuel (n / 10) in if ltb n 10 then n ∷ [] else n % 10 ∷ rest

abbrev hex_digits : ℕ → ℕ → Str
hex_digits zero n = []
hex_digits (suc fuel) n =
    let rest = hex_digits fuel (n / 16) in if ltb n 16 then n ∷ [] else n % 16 ∷ rest

abbrev pub hex_char : ℕ → ℕ
hex_char d = if ltb d 10 then 48 + d else 87 + d

-- `%d` of a number below 100000, which has at most five digits.
unfoldable pub decimal : ℕ → Str
decimal n = reverse (map (λ d. 48 + d) (decimal_digits 5 n))

-- `%x` of a uint16, which has at most four digits.
unfoldable pub hex : ℕ → Str
hex n = reverse (map hex_char (hex_digits 4 n))

-- `%x` of bytes.
unfoldable pub hex_bytes : Str → Str
hex_bytes [] = []
hex_bytes (b ∷ s) = hex_char (b / 16) ∷ hex_char (b % 16) ∷ hex_bytes s

-- The number that the digits stand for, the last one first.
abbrev pub number_of : Str → ℕ
number_of [] = 0
number_of (d ∷ l) = d + 10 * number_of l

abbrev pub power_10 : ℕ → ℕ
power_10 zero = 1
power_10 (suc n) = 10 * power_10 n

number_of-decimal_digits : (fuel n : ℕ) → n < power_10 fuel → number_of (decimal_digits fuel n) ≡ n
number_of-decimal_digits zero n h = omega arith
number_of-decimal_digits (suc fuel) n h =
    let rest = number_of-decimal_digits fuel (n / 10) (omega arith) in ground arith

-- What a decimal text says.
abbrev pub read_decimal : Str → ℕ
read_decimal s = number_of (map (λ c. c - 48) (reverse s))

map_back : (l : Str) → map (λ c. c - 48) (map (λ d. 48 + d) l) ≡ l
map_back [] = refl
map_back (d ∷ l) = ground (arith, map_back l)

pub read_decimal-decimal : (n : ℕ) → n < 100_000 → read_decimal (decimal n) ≡ n
unfolding decimal
read_decimal-decimal n h =
    rw (reverse-reverse (map (λ d. 48 + d) (decimal_digits 5 n)), map_back (decimal_digits 5 n))
      (number_of-decimal_digits 5 n (omega arith))
