-- ===== src/Store/Tests.antt =====
-- A pool of four addresses of IPv4: the first two and the last one are reserved.
use personal_vpn.Prelude.{
  ◌+◌, ◌≡◌, ◌↔◌, ◌<◌, refl, true, [], ◌∷◌, some, ok, err, member, ℕ_discrete,
}
use personal_vpn.Store.Addresses.{
  Pool, capacity_exhausted, masked, is_valid, contains, search, max_attempts,
  first_available_address,
}
use personal_vpn.Store.Available.{IsFirst, first_available_address_iff}

abbrev pool : Pool
pool = record { is_4 = true; address = 1000; bits = 30 }

first_free : first_available_address (some pool) [] ≡ ok 1002
unfolding first_available_address search contains is_valid masked member
first_free = refl

first_available_address_iff_example :
    (first_available_address (some pool) [] ≡ ok 1002)
    ↔ (IsFirst pool [] (masked pool + 2) 1002 × (1002 < masked pool + 2 + max_attempts))
first_available_address_iff_example = first_available_address_iff pool [] 1002

none_free : first_available_address (some pool) (1002 ∷ []) ≡ err capacity_exhausted
unfolding first_available_address search contains is_valid masked member ℕ_discrete
none_free = refl
