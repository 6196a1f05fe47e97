-- ===== src/Agent/WireGuard.antt =====
-- services/api/internal/agent/wireguard.go. The runner is a parameter: the error, if any, of the
-- n-th command of a call.
pub mod Commands
use personal_vpn.Prelude.{
  ℕ, suc, Bool, true, false, ◌&&◌, ◌||◌, not, List, [], ◌∷◌, ◌++◌, Option, none, some, ltb, leb,
  ◌==◌, if◌then◌else◌, holds, Str, Str-discrete, text, length,
}
use personal_vpn.Keys.{valid_public_key}
use personal_vpn.Agent.Snapshot.{
  Operation, OperationKind, add, update, remove, Error, invalid_operation, apply_operation, Result,
  ok, err, ParsePrefix, valid_host_prefix, max_peers_per_snapshot,
}

abbrev pub is_safe : ℕ → Bool
is_safe c =
    leb b'a' c && leb c b'z'
    || leb b'A' c && leb c b'Z'
    || leb b'0' c && leb c b'9'
    || c == b'_'
    || c == b'-'

-- The loop of `sanitizeInterfaceName`: every character is safe.
unfoldable pub all_safe : Str → Bool
all_safe [] = true
all_safe (c ∷ s) = is_safe c && all_safe s

unfoldable pub sanitize_interface_name : Str → Str
unfolding all_safe
sanitize_interface_name value = if all_safe value then value else []

module _ (parse_prefix : ParsePrefix) where
  unfoldable pub set_arguments : Str → Operation → Result (List Str)
  set_arguments interface_name o =
      if not (valid_host_prefix parse_prefix o.peer.ipv4 4)
        || not (valid_host_prefix parse_prefix o.peer.ipv6 6)
      then err invalid_operation
      else ok (
          text "set"
          ∷ interface_name
          ∷ text "peer"
          ∷ o.peer.public_key
          ∷ text "allowed-ips"
          ∷ (o.peer.ipv4 ++ b',' ∷ o.peer.ipv6)
          ∷ [])

  unfoldable pub operation_arguments : Str → Operation → Result (List Str)
  unfolding set_arguments
  operation_arguments interface_name o =
      if holds (Str-discrete interface_name [])
        || not (holds (Str-discrete interface_name (sanitize_interface_name interface_name)))
      then err invalid_operation
      else if not (valid_public_key o.peer.public_key)
      then err invalid_operation
      else elim o.kind [
        | remove ↦
            if not (holds (Str-discrete o.peer.ipv4 []))
              || not (holds (Str-discrete o.peer.ipv6 []))
            then err invalid_operation
            else ok
                (text "set" ∷ interface_name ∷ text "peer" ∷ o.peer.public_key ∷ text "remove" ∷ [])
        | add ↦ set_arguments interface_name o
        | update ↦ set_arguments interface_name o
      ]

  -- The loop of `Apply`: the operations that took effect, and the error that stopped it.
  unfoldable pub apply_from :
      (ℕ → List Str → Option Error) → Str → ℕ → List Operation → List Operation × Option Error
  apply_from run interface_name n [] = ([], none)
  apply_from run interface_name n (o ∷ ops) =
      let rest = apply_from run interface_name (suc n) ops in
      elim (operation_arguments interface_name o) [
        | err e ↦ ([], some e)
        | ok args ↦ elim (run n args) [
          | some e ↦ ([], some (apply_operation o.kind))
          | none ↦ (o ∷ rest.0, rest.1)
        ]
      ]

-- The runner is `none` where the backend has none.
pub record WireGuardBackend : Type 0 where
  pub interface_name : Str
  pub runner : Option (ℕ → List Str → Option Error)

module _ (parse_prefix : ParsePrefix) where
  unfoldable pub apply : WireGuardBackend → List Operation → List Operation × Option Error
  unfolding apply_from
  apply b operations = elim b.runner [
    | none ↦ ([], some invalid_operation)
    | some run ↦
        if holds (Str-discrete b.interface_name [])
          || ltb max_peers_per_snapshot (length operations)
        then ([], some invalid_operation)
        else apply_from parse_prefix run b.interface_name 0 operations
  ]
