-- ===== src/Keys.antt =====
-- Public keys of WireGuard: `validWireGuardPublicKey` of services/api/internal/control/service.go
-- and `validPublicKey` of services/api/internal/agent/snapshot.go, which have one body.
pub mod Canonical
mod Tests
use personal_vpn.Prelude.{
  Bool, false, ◌&&◌, Option, none, some, ◌==◌, holds, Str, Str-discrete, length,
}
use personal_vpn.Encoding.Base64.{std, encode, decode}

unfoldable pub valid_public_key : Str → Bool
valid_public_key value = elim (decode std value) [
  | none ↦ false
  | some decoded ↦ length decoded == 32 && holds (Str-discrete (encode std decoded) value)
]
