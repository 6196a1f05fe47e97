-- ===== src/Keys/Tests.antt =====
-- Keys at concrete texts.
use personal_vpn.Prelude.{◌≡◌, ◌↔◌, refl, true, false, text, replicate, Str-discrete}
use personal_vpn.Encoding.Base64.{std, encode, decode}
use personal_vpn.Keys.{valid_public_key}
use personal_vpn.Keys.Canonical.{IsKey, valid_public_key_iff}

-- The decoder alone would take a second spelling of the key.
not_canonical : valid_public_key (text "AAAAAAAAAAAAAAAAAAAAAAAAAAAAAAAAAAAAAAAAAAB=") ≡ false
unfolding valid_public_key decode encode Str-discrete
not_canonical = refl

valid_public_key_iff_example :
    (valid_public_key (encode std (replicate 32 7)) ≡ true) ↔ IsKey (encode std (replicate 32 7))
valid_public_key_iff_example = valid_public_key_iff (encode std (replicate 32 7))
