-- ===== src/Encoding/Space.antt =====
-- `strings.TrimSpace`, `strings.Fields`, `strings.ToLower` and `strings.HasPrefix` of Go on the
-- bytes of a text in UTF-8, with the white space of Unicode.
use personal_vpn.Prelude.{
  ◌+◌, ◌++◌, Option, none, some, List, true, false, ℕ, zero, suc, Bool, ◌&&◌, ◌||◌, [], ◌∷◌,
  reverse, leb, ◌==◌, if◌then◌else◌, Str,
}

abbrev is_space : ℕ → Bool
is_space a = leb 9 a && leb a 13 || a == 32

-- U+0085 and U+00A0.
abbrev is_space_2 : ℕ → ℕ → Bool
is_space_2 a b = a == 0xC2 && (b == 0x85 || b == 0xA0)

-- U+1680, U+2000 to U+200A, U+2028, U+2029, U+202F, U+205F and U+3000.
abbrev is_space_3 : ℕ → ℕ → ℕ → Bool
is_space_3 a b c =
    a == 0xE1 && b == 0x9A && c == 0x80
    || a == 0xE2 && b == 0x80 && (leb 0x80 c && leb c 0x8A || c == 0xA8 || c == 0xA9 || c == 0xAF)
    || a == 0xE2 && b == 0x81 && c == 0x9F
    || a == 0xE3 && b == 0x80 && c == 0x80

-- The bytes of the space that the text starts with, or 0.
abbrev size_first : Str → ℕ
size_first [] = 0
size_first (a ∷ []) = if is_space a then 1 else 0
size_first (a ∷ b ∷ []) = if is_space a then 1 else if is_space_2 a b then 2 else 0
size_first (a ∷ b ∷ c ∷ s) =
    if is_space a then 1 else if is_space_2 a b then 2 else if is_space_3 a b c then 3 else 0

-- The same for the reversed text, whose last byte comes first.
abbrev size_last : Str → ℕ
size_last [] = 0
size_last (a ∷ []) = if is_space a then 1 else 0
size_last (b ∷ a ∷ []) = if is_space b then 1 else if is_space_2 a b then 2 else 0
size_last (c ∷ b ∷ a ∷ s) =
    if is_space c then 1 else if is_space_2 b c then 2 else if is_space_3 a b c then 3 else 0

-- Drops `n` bytes, and then the spaces that `size` finds.
unfoldable pub trim_by : (Str → ℕ) → ℕ → Str → Str
trim_by size n [] = []
trim_by size (suc n) (a ∷ s) = trim_by size n s
trim_by size zero (a ∷ s) = elim (size (a ∷ s)) [ zero ↦ a ∷ s | suc n ↦ trim_by size n s ]

unfoldable pub trim_space : Str → Str
unfolding trim_by
trim_space s = reverse (trim_by size_last 0 (reverse (trim_by size_first 0 s)))

-- `strings.Fields`, from a word that has been begun, after `n` bytes of a space.
unfoldable pub fields_from : ℕ → Str → Str → List Str
fields_from n [] [] = []
fields_from n (c ∷ word) [] = (c ∷ word) ∷ []
fields_from (suc n) word (a ∷ s) = fields_from n word s
fields_from zero word (a ∷ s) = elim (size_first (a ∷ s)) [
  | zero ↦ fields_from zero (word ++ a ∷ []) s
  | suc n ↦ elim word [ [] ↦ fields_from n [] s | c ∷ rest ↦ (c ∷ rest) ∷ fields_from n [] s ]
]

unfoldable pub fields : Str → List Str
fields s = fields_from 0 [] s

-- Lower case of the letters of ASCII.
abbrev pub lower : ℕ → ℕ
lower c = if leb b'A' c && leb c b'Z' then c + 32 else c

-- The lower case of a text as far as ASCII goes: U+0130 becomes `i` and U+212A becomes `k`; every
-- other letter outside ASCII has a lower case outside ASCII.
-- The letter, and the bytes after the first one.
abbrev special : ℕ → Str → Option (ℕ × ℕ)
special c [] = none
special c (d ∷ []) = if c == 0xC4 && d == 0xB0 then some (b'i', 1) else none
special c (d ∷ e ∷ s) =
    if c == 0xC4 && d == 0xB0
    then some (b'i', 1)
    else if c == 0xE2 && d == 0x84 && e == 0xAA
    then some (b'k', 2)
    else none

unfoldable pub lower_from : ℕ → Str → Str
lower_from n [] = []
lower_from (suc n) (c ∷ s) = lower_from n s
lower_from zero (c ∷ s) = elim (special c s) [
  | none ↦ lower c ∷ lower_from zero s
  | some (d, n) ↦ d ∷ lower_from n s
]

unfoldable pub lower_ascii : Str → Str
lower_ascii s = lower_from 0 s

unfoldable pub has_prefix : Str → Str → Bool
has_prefix [] s = true
has_prefix (p ∷ prefix) [] = false
has_prefix (p ∷ prefix) (c ∷ s) = p == c && has_prefix prefix s
