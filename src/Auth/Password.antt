-- ===== src/Auth/Password.antt =====
-- services/api/internal/auth/password.go. argon2.IDKey is a parameter; a draw of crypto/rand is an
-- argument.
pub mod Verifies
use personal_vpn.Prelude.{
  ℕ, zero, suc, ◌+◌, ◌-◌, ◌*◌, ◌^◌, Bool, true, false, ◌&&◌, ◌||◌, not, List, [], ◌∷◌, ◌++◌, Option,
  none, some, ltb, leb, ◌==◌, if◌then◌else◌, holds, Fallible, ok, err, Str, Str-discrete, text,
  length, drop, Map, get, put,
}
use personal_vpn.Encoding.Base64.{raw_std, encode, decode}
use personal_vpn.Encoding.Fmt.{decimal}
use personal_vpn.Encoding.Space.{has_prefix}

abbrev pub argon_version : ℕ
argon_version = 19

abbrev pub argon_time : ℕ
argon_time = 3

abbrev pub argon_memory : ℕ
argon_memory = 64 * 1024

abbrev pub argon_threads : ℕ
argon_threads = 4

abbrev pub argon_key_len : ℕ
argon_key_len = 32

-- The password, the salt, the iterations, the memory, the threads and the length of the key.
abbrev pub IdKey : Type 0
IdKey = Str → Str → ℕ → ℕ → ℕ → ℕ → Str

pub data Error : Type 0 where
  password_length generate_salt : Error

-- `strings.Split(s, c)` for a separator of one byte.
unfoldable pub split : ℕ → Str → List Str
split c [] = [] ∷ []
split c (x ∷ s) = elim (split c s) [
  | [] ↦ []
  | word ∷ words ↦ if x == c then [] ∷ word ∷ words else (x ∷ word) ∷ words
]

-- `strings.SplitN(s, c, 2)` where it has two parts.
unfoldable pub cut : ℕ → Str → Option (Str × Str)
cut c [] = none
cut c (x ∷ s) =
    let rest = cut c s in
    if x == c
    then some ([], s)
    else elim rest [ none ↦ none | some (before, after) ↦ some (x ∷ before, after) ]

unfoldable pub parse_digits : ℕ → Str → Option ℕ
parse_digits n [] = some n
parse_digits n (c ∷ s) =
    let rest = parse_digits (n * 10 + (c - 48)) s in if leb b'0' c && leb c b'9' then rest else none

-- `strconv.ParseUint(s, 10, bits)`.
unfoldable pub parse_uint : ℕ → Str → Option ℕ
parse_uint bits [] = none
parse_uint bits (c ∷ s) = elim (parse_digits 0 (c ∷ s)) [
  | none ↦ none
  | some n ↦ if ltb n (2 ^ bits) then some n else none
]

abbrev is_parameter : Str → Bool
is_parameter k =
    holds (Str-discrete k (text "m"))
    || holds (Str-discrete k (text "t"))
    || holds (Str-discrete k (text "p"))

-- The loop over the parameters.
unfoldable pub parse_parameters : Map Str Str → List Str → Option (Map Str Str)
parse_parameters values [] = some values
parse_parameters values (parameter ∷ params) = elim (cut b'=' parameter) [
  | none ↦ none
  | some (key, value) ↦
      let rest = parse_parameters (put Str-discrete key value values) params in
      if not (is_parameter key)
      then none
      else elim (get Str-discrete key values) [ some old ↦ none | none ↦ rest ]
]

pub record Phc : Type 0 where
  pub version : ℕ
  pub memory : ℕ
  pub iterations : ℕ
  pub threads : ℕ
  pub salt : Str
  pub key : Str

infixl 5 ◌>>=?◌
abbrev ◌>>=?◌ : {A B : Type 0} → Option A → (A → Option B) → Option B
none >>=? f = none
some a >>=? f = f a

-- A missing key of the map is the empty text.
abbrev value_of : Str → Map Str Str → Str
value_of k values = elim (get Str-discrete k values) [ none ↦ [] | some v ↦ v ]

abbrev three : List Str → Option (List Str)
three (a ∷ b ∷ c ∷ []) = some (a ∷ b ∷ c ∷ [])
three _ = none

unfoldable pub parse_values : ℕ → Map Str Str → Str → Str → Option Phc
parse_values version values salt key = parse_uint 32 (value_of (text "m") values) >>=? λ memory.
    parse_uint 32 (value_of (text "t") values) >>=? λ iterations.
    parse_uint 8 (value_of (text "p") values) >>=? λ threads. decode raw_std salt >>=? λ salt.
    decode raw_std key >>=? λ key. some (record {
      version = version;
      memory = memory;
      iterations = iterations;
      threads = threads;
      salt = salt;
      key = key;
    })

unfoldable pub parse_parts : Str → Str → Str → Str → Str → Option Phc
parse_parts name version params salt key =
    if not (holds (Str-discrete name (text "argon2id"))) || not (has_prefix (text "v=") version)
    then none
    else parse_uint 32 (drop 2 version) >>=? λ v. three (split b',' params) >>=? λ params.
        parse_parameters [] params >>=? λ values. parse_values v values salt key

unfoldable pub parse_phc : Str → Option Phc
parse_phc encoded = elim (split b'$' encoded) [
  | first ∷ name ∷ version ∷ params ∷ salt ∷ key ∷ [] ↦ parse_parts name version params salt key
  | _ ↦ none
]

module _ (id_key : IdKey) where
  unfoldable pub hash_text : Str → Str → Str
  hash_text password salt =
      text "$argon2id$v="
      ++ (decimal argon_version
          ++ (text "$m="
              ++ (decimal argon_memory
                  ++ (text ",t="
                      ++ (decimal argon_time
                          ++ (text ",p="
                              ++ (decimal argon_threads
                                  ++ (b'$'
                                      ∷ (encode raw_std salt
                                          ++ (b'$'
                                              ∷ encode raw_std (
                                                  id_key password salt argon_time argon_memory
                                                    argon_threads argon_key_len)))))))))))

  unfoldable pub hash_password : Str → Option Str → Fallible Error Str
  hash_password password draw =
      if ltb (length password) 12 || ltb 1024 (length password)
      then err password_length
      else elim draw [ none ↦ err generate_salt | some salt ↦ ok (hash_text password salt) ]

  -- The bounds on what is parsed.
  unfoldable pub acceptable : Phc → Bool
  acceptable p =
      not (
        not (p.version == argon_version)
        || ltb (length p.salt) 16
        || not (length p.key == argon_key_len))
      && not (
          ltb p.memory (16 * 1024)
          || ltb (2 * 1024 * 1024) p.memory
          || p.iterations == 0
          || ltb 10 p.iterations
          || p.threads == 0
          || ltb 32 p.threads)

  unfoldable pub verify_password : Str → Str → Bool
  verify_password password encoded = elim (parse_phc encoded) [
    | none ↦ false
    | some p ↦
        if acceptable p
        then holds (
            Str-discrete (id_key password p.salt p.iterations p.memory p.threads (length p.key))
              p.key)
        else false
  ]
