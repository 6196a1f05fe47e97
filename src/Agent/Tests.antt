-- ===== src/Agent/Tests.antt =====
-- The theorems at concrete snapshots. A parser that takes every text of more than three bytes for a
-- prefix of IPv6 and the others for one of IPv4 stands for netip.ParsePrefix.
use personal_vpn.Prelude.{
  ◌≡◌, ◌↔◌, refl, true, List, [], ◌∷◌, none, some, if◌then◌else◌, Str, Str-discrete, text, length,
  replicate, ltb, Map, get, put, delete, insert, member, pos,
}
use personal_vpn.Encoding.Base64.{std, encode, decode}
use personal_vpn.Keys.{valid_public_key}
use personal_vpn.Agent.Snapshot.{
  Peer, Snapshot, Operation, add, update, external, ok, ParsePrefix, Signing, by_key, additions,
  removals, sort_operations, insert_operation, operation_less, str_lt, valid_host_prefix,
  valid_peer, validate_peers, validate, diff, sign, verify, signing_bytes, unsigned,
}
use personal_vpn.Agent.Snapshot.Operations.{perform_all}
use personal_vpn.Agent.Snapshot.Converges.{diff-perform_all}
use personal_vpn.Agent.Snapshot.Validity.{IsValid, validate_iff}
use personal_vpn.Agent.Snapshot.Signed.{IsKeyPair, verify-sign}
use personal_vpn.Agent.WireGuard.{WireGuardBackend, operation_arguments, apply}
use personal_vpn.Agent.WireGuard.Commands.{
  IsRunnable, command, IsPrefixRun, operation_arguments_iff, apply-IsPrefixRun,
}

abbrev pub parser : ParsePrefix
parser s = if ltb 3 (length s) then some (128, 128) else some (32, 32)

abbrev pub phone : Peer
phone = record { public_key = encode std (replicate 32 7); ipv4 = text "a/4"; ipv6 = text "a/128" }

abbrev pub laptop : Peer
laptop = record { public_key = encode std (replicate 32 8); ipv4 = text "b/4"; ipv6 = text "b/128" }

abbrev pub first_snapshot : Snapshot
first_snapshot = record {
  gateway_id = text "gw";
  generation = pos 1;
  expires_at = 1000;
  peers = phone ∷ laptop ∷ [];
  signature = [];
}

-- What the interface had before: the phone with another address.
abbrev before : Map Str Peer
before = (phone.public_key, record phone { ipv4 = text "c/4" }) ∷ []

abbrev pub first_operations : List Operation
first_operations =
    record { kind = update; peer = phone } ∷ record { kind = add; peer = laptop } ∷ []

first_diff : diff parser first_snapshot before ≡ ok first_operations
unfolding diff validate validate_peers valid_peer valid_host_prefix by_key additions removals
    sort_operations insert_operation operation_less str_lt get put delete insert member
    valid_public_key encode decode Str-discrete
first_diff = refl

diff-perform_all_example :
    get Str-discrete phone.public_key (perform_all first_operations before)
    ≡ get Str-discrete phone.public_key (by_key [] first_snapshot.peers)
unfolding get
diff-perform_all_example =
    diff-perform_all parser first_snapshot before first_operations phone.public_key (refl, tt)
      (refl, tt) first_diff

validate_iff_example :
    (validate parser first_snapshot 999 (text "gw") ≡ ok tt)
    ↔ IsValid parser first_snapshot 999 (text "gw")
validate_iff_example = validate_iff parser first_snapshot 999 (text "gw")

-- A signature that is the same for every message.
abbrev pub signing : Signing
signing = record {
  marshal = λ s. some s.gateway_id;
  ed25519_sign = λ key message. replicate 64 1;
  ed25519_verify = λ key message signature. true;
}

abbrev pub signed : Snapshot → Snapshot
signed s = record s { signature = replicate 64 1 }

pair-IsKeyPair : IsKeyPair signing (replicate 32 5) (replicate 64 6)
pair-IsKeyPair = record { public_size = refl; signature_size = λ m. refl; verifies = λ m. refl }

signs : sign signing first_snapshot (replicate 64 6) ≡ ok (signed first_snapshot)
unfolding sign signing_bytes unsigned
signs = refl

verify-sign_example :
    verify signing parser (signed first_snapshot) 999 (text "gw") (replicate 32 5)
    ≡ validate parser first_snapshot 999 (text "gw")
verify-sign_example =
    verify-sign signing parser first_snapshot (signed first_snapshot) (replicate 32 5)
      (replicate 64 6) (text "gw") 999 pair-IsKeyPair signs

operation_arguments_iff_example :
    (operation_arguments parser (text "wg0") (record { kind = add; peer = phone })
      ≡ ok (command parser (text "wg0") add phone))
    ↔ (IsRunnable parser (text "wg0") (record { kind = add; peer = phone })
        × (command parser (text "wg0") add phone ≡ command parser (text "wg0") add phone))
operation_arguments_iff_example =
    operation_arguments_iff parser (text "wg0") (record { kind = add; peer = phone })
      (command parser (text "wg0") add phone)

-- The second command fails.
abbrev backend : WireGuardBackend
backend = record {
  interface_name = text "wg0";
  runner = some (λ n args. if ltb n 1 then none else some (external (text "exit status 1")));
}

apply-IsPrefixRun_example :
    IsPrefixRun parser (text "wg0") first_operations (apply parser backend first_operations)
apply-IsPrefixRun_example = apply-IsPrefixRun parser backend first_operations
