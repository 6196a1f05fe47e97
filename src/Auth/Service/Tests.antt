-- ===== src/Auth/Service/Tests.antt =====
-- The theorems on passwords and accounts at a store of one user. The length of the password stands
-- for argon2.
use personal_vpn.Prelude.{
  ◌*◌, ◌≡◌, ◌≤◌, refl, true, false, some, ok, arith, All, holds, Str, Str-discrete, text, length,
  replicate, get, put, delete,
}
use personal_vpn.Encoding.Base64.{encode, decode}
use personal_vpn.Encoding.Base64.RoundTrip.{IsByte}
use personal_vpn.Encoding.Fmt.{decimal}
use personal_vpn.Encoding.Space.{trim_space, trim_by, has_prefix, lower_ascii, lower_from}
use personal_vpn.Auth.Session.{new_session_store, issue}
use personal_vpn.Auth.Password.{
  IdKey, Phc, hash_text, hash_password, verify_password, parse_phc, parse_parts, parse_values,
  parse_parameters, parse_uint, parse_digits, split, cut, acceptable,
}
use personal_vpn.Auth.Password.Verifies.{
  key_for, verify_password-hash_password, verify_password-bounds,
}
use personal_vpn.Auth.Service.{
  User, UserStore, issued, normalize_email, has_break, has_at, register, login,
}
use personal_vpn.Auth.Service.Accounts.{Finds, login-register}

abbrev id_key : IdKey
id_key password salt time memory threads size = replicate size (length password)

abbrev salt : Str
salt = replicate 16 1

salt-bytes : All IsByte salt
salt-bytes = ground arith

abbrev password : Str
password = text "correct horse"

key-bytes : All IsByte (key_for id_key password salt)
key-bytes = ground arith

verify_password-hash_password_example :
    verify_password id_key (text "other") (hash_text id_key password salt)
    ≡ holds (Str-discrete (key_for id_key (text "other") salt) (key_for id_key password salt))
unfolding hash_password
verify_password-hash_password_example =
    verify_password-hash_password id_key password (text "other") salt
      (hash_text id_key password salt) refl salt-bytes key-bytes refl refl

verifies : verify_password id_key password (hash_text id_key password salt) ≡ true
unfolding verify_password acceptable parse_phc parse_parts parse_values parse_parameters parse_uint
    parse_digits split cut has_prefix hash_text decimal encode decode get put delete Str-discrete
verifies = refl

verify_password-bounds_example :
    (p : Phc) × (parse_phc (hash_text id_key password salt) ≡ some p)
    × (id_key password p.salt p.iterations p.memory p.threads 32 ≡ p.key)
    × (16 ≤ length p.salt)
    × (16 * 1024 ≤ p.memory)
    × (p.memory ≤ 2 * 1024 * 1024)
    × (1 ≤ p.iterations)
    × (p.iterations ≤ 10)
    × (1 ≤ p.threads)
    × (p.threads ≤ 32)
verify_password-bounds_example =
    verify_password-bounds id_key password (hash_text id_key password salt) verifies

-- The store keeps the last user, and finds it under every email.
abbrev users : UserStore User
users = record {
  create_user = λ u email hash.
      (record { user_id = text "u1"; password_hash = hash; disabled = false }, ok (text "u1"));
  find_user_password_hash = λ u email. ok u;
}

users-Finds : Finds users lower_ascii id_key
users-Finds u email hash id e = ground arith

abbrev nobody : User
nobody = record { user_id = text ""; password_hash = text ""; disabled = true }

registers :
    (register users lower_ascii id_key nobody (text "a@b") password (some salt)).1 ≡ ok (text "u1")
unfolding register normalize_email trim_space trim_by has_break has_at hash_password lower_ascii
    lower_from
registers = refl

spelled : lower_ascii (trim_space (text " A@b")) ≡ lower_ascii (trim_space (text "a@b"))
unfolding lower_ascii lower_from trim_space trim_by
spelled = refl

login-register_example :
    login users lower_ascii id_key
      (λ s. s)
      (register users lower_ascii id_key nobody (text "a@b") password (some salt)).0
      new_session_store
      (text " A@b")
      password
      100
      (some (replicate 32 1), some (replicate 32 2), some (replicate 32 3))
    ≡ (
      (issue
          (λ s. s)
          new_session_store
          (text "u1")
          100
          (some (replicate 32 1))
          (some (replicate 32 2))
          (some (replicate 32 3))).0,
      issued
          (issue
            (λ s. s)
            new_session_store
            (text "u1")
            100
            (some (replicate 32 1))
            (some (replicate 32 2))
            (some (replicate 32 3))).1,
    )
login-register_example =
    login-register users lower_ascii id_key (λ s. s) nobody new_session_store (text "a@b")
      (text " A@b") password salt (text "u1") 100 (some (replicate 32 1)) (some (replicate 32 2))
      (some (replicate 32 3)) users-Finds spelled refl salt-bytes key-bytes refl registers
