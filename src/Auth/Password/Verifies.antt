-- ===== src/Auth/Password/Verifies.antt =====
-- A password verifies against its own hash, and only bounded parameters are computed with.
use personal_vpn.Prelude.{
  ℕ, ◌+◌, ◌*◌, ◌/◌, ◌%◌, ◌≡◌, ◌≤◌, refl, subst, true, false, [], ◌∷◌, ◌++◌, some, arith,
  Option-cases, inl, inr, ◌==◌, holds, All, ok, Str, Str-discrete, text, length, get, put, delete,
}
use personal_vpn.Encoding.Base64.{raw_std, encode, char}
use personal_vpn.Encoding.Base64.RoundTrip.{IsByte, decode-encode}
use personal_vpn.Encoding.Fmt.{decimal}
use personal_vpn.Encoding.Space.{has_prefix}
use personal_vpn.Auth.Password.{
  IdKey, argon_time, argon_memory, argon_threads, argon_key_len, argon_version, split, cut,
  parse_digits, parse_uint, parse_parameters, Phc, parse_values, parse_parts, parse_phc, hash_text,
  hash_password, acceptable, verify_password,
}

-- The byte does not stand in the text.
abbrev IsWithout : ℕ → Str → Type 0
IsWithout c = All (λ x. (x == c) ≡ false)

split-without : (c : ℕ) (s : Str) → IsWithout c s → split c s ≡ s ∷ []
unfolding split
split-without c [] h = refl
split-without c (x ∷ s) (n, h) = rw (split-without c s h, n) refl

split-at : (c : ℕ) (s t : Str) → IsWithout c s → IsWithout c t → split c (s ++ c ∷ t) ≡ s ∷ t ∷ []
unfolding split
split-at c [] t h k = rw (split-without c t k) (ground arith)
split-at c (x ∷ s) t (n, h) k = rw (split-at c s t h k, n) refl

char-IsWithout : (n : ℕ) → (char raw_std n == b'$') ≡ false
unfolding char
char-IsWithout n = ground arith

encode-IsWithout : (s : Str) → IsWithout b'$' (encode raw_std s)
unfolding encode
encode-IsWithout [] = tt
encode-IsWithout (x ∷ []) = (char-IsWithout (x / 4), (char-IsWithout (x % 4 * 16), tt))
encode-IsWithout (x ∷ y ∷ []) = (
  char-IsWithout (x / 4),
  (char-IsWithout (x % 4 * 16 + y / 16), (char-IsWithout (y % 16 * 4), tt)),
)
encode-IsWithout (x ∷ y ∷ z ∷ s) = (
  char-IsWithout (x / 4),
  (
    char-IsWithout (x % 4 * 16 + y / 16),
    (char-IsWithout (y % 16 * 4 + z / 64), (char-IsWithout (z % 64), encode-IsWithout s)),
  ),
)

-- What is read back from a hash.
abbrev phc_of : Str → Str → Phc
phc_of salt key = record {
  version = argon_version;
  memory = argon_memory;
  iterations = argon_time;
  threads = argon_threads;
  salt = salt;
  key = key;
}

values_parsed :
    (salt key : Str)
    → All IsByte salt
    → All IsByte key
    → parse_parts
        (text "argon2id")
        (text "v=19")
        (text "m=65536,t=3,p=4")
        (encode raw_std salt)
        (encode raw_std key)
      ≡ some (phc_of salt key)
unfolding parse_parts has_prefix parse_uint parse_digits split parse_parameters cut parse_values get
    put delete Str-discrete
values_parsed salt key h k = rw (decode-encode raw_std salt h, decode-encode raw_std key k) refl

module _ (id_key : IdKey) where
  abbrev pub key_for : Str → Str → Str
  key_for password salt = id_key password salt argon_time argon_memory argon_threads argon_key_len

  hash_text-parsed :
      (password salt : Str)
      → All IsByte salt
      → All IsByte (key_for password salt)
      → parse_phc (hash_text id_key password salt) ≡ some (phc_of salt (key_for password salt))
  unfolding hash_text parse_phc split decimal
  hash_text-parsed password salt h k =
      rw
        (
          split-at b'$' (encode raw_std salt) (encode raw_std (key_for password salt))
              (encode-IsWithout salt) (encode-IsWithout (key_for password salt)),
          parse_phc,
        )
        (values_parsed salt (key_for password salt) h k)

  -- A text that hashing returns, for a salt of 16 bytes and a key of 32, verifies another password
  -- exactly when argon2 gives both passwords the same key with that salt.
  pub verify_password-hash_password :
      (password other salt encoded : Str)
      → length salt ≡ 16
      → All IsByte salt
      → All IsByte (key_for password salt)
      → length (key_for password salt) ≡ argon_key_len
      → hash_password id_key password (some salt) ≡ ok encoded
      → verify_password id_key other encoded
        ≡ holds (Str-discrete (key_for other salt) (key_for password salt))
  unfolding verify_password hash_password acceptable
  verify_password-hash_password password other salt encoded size h k long e =
      let parsed = hash_text-parsed password salt h k in
      let same : hash_text id_key password salt ≡ encoded = ground arith in
      subst
        (λ t.
          verify_password id_key other t
          ≡ holds (Str-discrete (key_for other salt) (key_for password salt)))
        same (rw (parsed, verify_password) (rw (size, long) refl))

  -- A password verifies against a text only if the text is parsed, with a salt of at least 16
  -- bytes, 16 MiB to 2 GiB of memory, 1 to 10 iterations and 1 to 32 threads, and if argon2 gives
  -- the parsed key for these parameters.
  pub verify_password-bounds :
      (password encoded : Str)
      → verify_password id_key password encoded ≡ true
      → (p : Phc) × (parse_phc encoded ≡ some p)
        × (id_key password p.salt p.iterations p.memory p.threads 32 ≡ p.key)
        × (16 ≤ length p.salt)
        × (16 * 1024 ≤ p.memory)
        × (p.memory ≤ 2 * 1024 * 1024)
        × (1 ≤ p.iterations)
        × (p.iterations ≤ 10)
        × (1 ≤ p.threads)
        × (p.threads ≤ 32)
  unfolding verify_password acceptable
  verify_password-bounds password encoded e = elim (Option-cases (parse_phc encoded)) [
    | inl none_parsed ↦ absurd (ground arith)
    | inr (p, parsed) ↦ (
      p,
      parsed,
      ground arith,
      ground arith,
      ground arith,
      ground arith,
      ground arith,
      ground arith,
      ground arith,
      ground arith,
    )
  ]
