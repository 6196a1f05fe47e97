-- ===== src/Store/Addresses.antt =====
-- `firstAvailableAddress` of services/api/internal/postgres/store.go. An address of netip is its
-- number, and the address after the last one, which is invalid, is the number of the addresses.
-- The pool is what netip.ParsePrefix makes of its text.
use personal_vpn.Prelude.{
  ℕ, zero, suc, ◌+◌, ◌-◌, ◌%◌, ◌^◌, Bool, ◌&&◌, not, List, Option, none, some, ltb, leb,
  if◌then◌else◌, Fallible, ok, err, member, ℕ_discrete,
}

pub data Error : Type 0 where
  parse_pool capacity_exhausted : Error

pub record Pool : Type 0 where
  pub is_4 : Bool
  pub address : ℕ
  pub bits : ℕ

abbrev pub width : Pool → ℕ
width p = if p.is_4 then 32 else 128

abbrev pub size : Pool → ℕ
size p = 2 ^ (width p - p.bits)

-- `pool.Masked().Addr()`.
unfoldable pub masked : Pool → ℕ
masked p = p.address - p.address % size p

-- `candidate.IsValid()`.
unfoldable pub is_valid : Pool → ℕ → Bool
is_valid p a = ltb a (2 ^ width p)

-- `pool.Contains(candidate)`: the addresses with the same first bits.
unfoldable pub contains : Pool → ℕ → Bool
unfolding masked is_valid
contains p a = is_valid p a && (leb (masked p) a && ltb a (masked p + size p))

-- The loop, with the attempts that are left.
unfoldable pub search : Pool → List ℕ → ℕ → ℕ → Fallible Error ℕ
search p used zero candidate = err capacity_exhausted
search p used (suc attempts) candidate =
    let rest = search p used attempts (candidate + 1) in
    if not (is_valid p candidate && contains p candidate)
    then err capacity_exhausted
    else if p.is_4 && not (contains p (candidate + 1))
    then err capacity_exhausted
    else if not (member ℕ_discrete candidate used)
    then ok candidate
    else rest

abbrev pub max_attempts : ℕ
max_attempts = 65535

unfoldable pub first_available_address : Option Pool → List ℕ → Fallible Error ℕ
first_available_address none used = err parse_pool
first_available_address (some p) used = search p used max_attempts (masked p + 1 + 1)
