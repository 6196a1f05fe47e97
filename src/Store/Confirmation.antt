-- ===== src/Store/Confirmation.antt =====
-- ConfirmGatewaySnapshot, AckSnapshotDelivery and RetrySnapshotDelivery of
-- services/api/internal/postgres/store.go.
pub mod Effects
pub mod Removals
use personal_vpn.Prelude.{
  ℕ, ◌+◌, ◌==◌, Bool, true, false, ◌&&◌, ◌||◌, not, List, [], ◌∷◌, Option, none, some,
  if◌then◌else◌, Str, text, Fallible, ok, err, ℤ, pos, leb_ℤ,
}
use personal_vpn.Control.{DeviceState, active, revocation_pending, revoked}
use personal_vpn.Store.Failures.{
  Failure, server, Error, invalid_input, wrapped, invalid_text, map_database_error, Fault, Faults,
}
use personal_vpn.Store.Tables.{
  AssignmentState, pending, removal_pending, removed, AssignmentRow, DeviceRow, LeaseRow, Database,
  Server, str_eq, is_live, update_where, exists_where,
}
use personal_vpn.Store.Outbox.{commit}
use personal_vpn.Store.Deliveries.{ack_snapshot, retry_snapshot}

-- CASE WHEN state = 'removal_pending' THEN 'removed' ELSE 'active' END.
abbrev pub observed_state : AssignmentState → AssignmentState
observed_state removal_pending = removed
observed_state _ = AssignmentState.active

abbrev pub is_observed : Str → ℤ → AssignmentRow → Bool
is_observed gateway_id generation a =
    str_eq a.gateway_id gateway_id && leb_ℤ a.desired_generation generation && is_live a.state

abbrev pub observe : AssignmentRow → AssignmentRow
observe a = record a { state = observed_state a.state; observed_generation = a.desired_generation }

abbrev pub is_removed : AssignmentState → Bool
is_removed removed = true
is_removed _ = false

abbrev pub is_unreleased : LeaseRow → Bool
is_unreleased l = elim l.released_at [ none ↦ true | some t ↦ false ]

-- EXISTS an assignment of the gateway that is removed and has the lease.
abbrev pub gave_up_lease : Str → List AssignmentRow → LeaseRow → Bool
gave_up_lease gateway_id assignments l =
    is_unreleased l
    && exists_where
        (λ a. str_eq a.lease_id l.id && str_eq a.gateway_id gateway_id && is_removed a.state)
        assignments

abbrev pub release : ℕ → LeaseRow → LeaseRow
release now l = record l { released_at = some now }

abbrev pub is_revoking : DeviceState → Bool
is_revoking revocation_pending = true
is_revoking _ = false

abbrev pub gave_up_device : Str → List AssignmentRow → DeviceRow → Bool
gave_up_device gateway_id assignments d =
    is_revoking d.state
    && exists_where
        (λ a. str_eq a.device_id d.id && str_eq a.gateway_id gateway_id && is_removed a.state)
        assignments

abbrev pub revoke_row : ℕ → DeviceRow → DeviceRow
revoke_row now d = record d { state = revoked; revoked_at = some now }

-- The three updates, each of what the one before has left.
unfoldable pub confirm_assignments : Str → ℤ → Database → Database
confirm_assignments gateway_id generation db = record db {
  assignments = update_where (is_observed gateway_id generation) observe db.assignments;
}

unfoldable pub release_leases : Str → ℕ → Database → Database
release_leases gateway_id now db = record db {
  leases = update_where (gave_up_lease gateway_id db.assignments) (release now) db.leases;
}

unfoldable pub revoke_devices : Str → ℕ → Database → Database
revoke_devices gateway_id now db = record db {
  devices = update_where (gave_up_device gateway_id db.assignments) (revoke_row now) db.devices;
}

abbrev pub confirmed : Str → ℤ → ℕ → Database → Database
confirmed gateway_id generation now db =
    revoke_devices gateway_id now
      (release_leases gateway_id now (confirm_assignments gateway_id generation db))

module _ (s : Server) where
  unfoldable pub confirm_gateway_snapshot :
      Database → Str → ℤ → ℕ → Faults → Database × Fallible Error (Unit {0})
  confirm_gateway_snapshot db gateway_id generation now faults =
      if str_eq gateway_id [] || leb_ℤ generation (pos 0)
      then (db, err invalid_input)
      else elim (faults 0) [
        | some f ↦ (db, err (wrapped (text "begin gateway confirmation") f.failure))
        | none ↦ elim (faults 1) [
          | some f ↦ (db, err (map_database_error f.failure))
          | none ↦ elim (s.uuid gateway_id) [
            | none ↦ (db, err (map_database_error (server invalid_text)))
            | some g ↦ elim (faults 2) [
              | some f ↦ (db, err (map_database_error f.failure))
              | none ↦ elim (faults 3) [
                | some f ↦ (db, err (map_database_error f.failure))
                | none ↦
                    commit (text "commit gateway confirmation") (faults 4) db
                      (confirmed g generation now db) tt
              ]
            ]
          ]
        ]
      ]

  -- The faults of the acknowledgement, and those of the confirmation.
  unfoldable pub ack_snapshot_delivery :
      Database → Str → Str → ℤ → ℕ → Option Fault → Faults → Database × Fallible Error (Unit {0})
  ack_snapshot_delivery db gateway_id delivery_id generation now fault faults =
      let (db', result) = ack_snapshot s db gateway_id delivery_id generation now fault in
      elim result [
        | err e ↦ (db', err e)
        | ok done ↦ confirm_gateway_snapshot db' gateway_id generation now faults
      ]

  abbrev pub retry_snapshot_delivery :
      Database → Str → Str → ℕ → Str → Option Fault → Database × Fallible Error (Unit {0})
  retry_snapshot_delivery = retry_snapshot s
