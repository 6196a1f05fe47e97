-- ===== src/Store/Confirmation/Removals.antt =====
-- The peer of an assignment that is to be removed, in the snapshot and after its confirmation.
use personal_vpn.Prelude.{
  ℕ, ◌≡◌, refl, sym, subst, ◌∙◌, inl, inr, true, false, ◌&&◌, not, some, if◌then◌else◌, holds_yes,
  holds-true, arith, Str, Str-discrete, ℤ, leb_ℤ, Bool-cases, All, All-map, Has,
}
use personal_vpn.Store.Tables.{
  removal_pending, AssignmentRow, DeviceRow, LeaseRow, GatewayRow, Database, Server, str_eq,
  is_live, update_where, find_where, exists_where,
}
use personal_vpn.Store.Tables.Lookups.{
  update_where-All, update_where-Has, find_where-picked, exists_where-Has, All-exists_where,
  update_where-each,
}
use personal_vpn.Store.Publishing.{
  Hosts, has_device, has_lease, peer_of, current_peers, needs_snapshot, is_ahead,
}
use personal_vpn.Store.Publishing.Peers.{current_peers_iff}
use personal_vpn.Store.Confirmation.{
  is_observed, observe, observed_state, is_removed, is_unreleased, gave_up_lease, release,
  confirm_assignments, release_leases, revoke_devices, confirmed,
}

-- An assignment that waits for the removal of its peer, with its device and its lease.
pub record Removal (db : Database) (g : Str) (generation : ℤ) : Type 0 where
  pub assignment : AssignmentRow
  pub device : DeviceRow
  pub lease : LeaseRow
  pub stored : Has assignment db.assignments
  pub of_gateway : assignment.gateway_id ≡ g
  pub waiting : assignment.state ≡ removal_pending
  pub covered : leb_ℤ assignment.desired_generation generation ≡ true
  pub its_device : find_where (has_device assignment) db.devices ≡ some device
  pub its_lease : find_where (has_lease assignment) db.leases ≡ some lease

-- No assignment of the gateway asks for a later generation.
abbrev pub IsCovered : Str → ℤ → AssignmentRow → Type 0
IsCovered g generation a =
    (str_eq a.gateway_id g && not (leb_ℤ a.desired_generation generation)) ≡ false

observe-is_ahead :
    (g : Str) (generation : ℤ) (a : AssignmentRow)
    → IsCovered g generation a
    → is_ahead g (if is_observed g generation a then observe a else a) ≡ false
observe-is_ahead g generation a covered = elim (Bool-cases (is_observed g generation a)) [
  | inl picked ↦ rw picked (ground arith)
  | inr passed ↦ rw passed (ground arith)
]

module _ (h : Hosts) (s : Server) where
  published :
      (db : Database) (g : Str) (generation : ℤ) (r : Removal db g generation)
      → Has (peer_of h r.device r.lease) (current_peers h db g)
  unfolding peer_of
  published db g generation r = (current_peers_iff h db g (peer_of h r.device r.lease)).1 (
    r.device.id,
    record {
      assignment = r.assignment;
      device = r.device;
      lease = r.lease;
      stored = r.stored;
      of_gateway = r.of_gateway;
      live = subst (λ t. is_live t ≡ true) (sym r.waiting) refl;
      its_device = r.its_device;
      its_lease = r.its_lease;
      its_id = refl;
      its_key = refl;
      its_ipv4 = refl;
      its_ipv6 = refl;
    },
  )

  -- The assignment is removed, which the second statement sees.
  seen :
      (db : Database) (g : Str) (generation : ℤ) (r : Removal db g generation) (id : Str)
      → id ≡ r.lease.id
      → exists_where
          (λ a. str_eq a.lease_id id && str_eq a.gateway_id g && is_removed a.state)
          (confirm_assignments g generation db).assignments
        ≡ true
  unfolding confirm_assignments
  seen db g generation r id same =
      let lease : str_eq r.assignment.lease_id id ≡ true =
        holds-true (Str-discrete r.assignment.lease_id id) (
          sym (
            holds_yes (Str-discrete r.lease.id r.assignment.lease_id)
              (find_where-picked (has_lease r.assignment) db.leases r.lease r.its_lease))
          ∙ sym same) in
      let gateway : str_eq r.assignment.gateway_id g ≡ true =
        holds-true (Str-discrete r.assignment.gateway_id g) r.of_gateway in
      let live : is_live r.assignment.state ≡ true =
        subst (λ t. is_live t ≡ true) (sym r.waiting) refl in
      let gone : is_removed (observed_state r.assignment.state) ≡ true =
        subst (λ t. is_removed (observed_state t) ≡ true) (sym r.waiting) refl in
      let covered = r.covered in
      exists_where-Has (λ a. str_eq a.lease_id id && str_eq a.gateway_id g && is_removed a.state)
        (observe r.assignment) (update_where (is_observed g generation) observe db.assignments)
        (update_where-Has (is_observed g generation) observe r.assignment db.assignments r.stored
          (ground arith))
        (ground arith)

  -- Its lease is released by the confirmation.
  lease_released :
      (db : Database) (g : Str) (generation : ℤ) (now : ℕ) (r : Removal db g generation)
      → All
          (λ l. l.id ≡ r.lease.id → is_unreleased l ≡ false)
          (confirmed g generation now db).leases
  unfolding confirm_assignments release_leases revoke_devices
  lease_released db g generation now r =
      update_where-All (λ l. l.id ≡ r.lease.id → is_unreleased l ≡ false)
        (gave_up_lease g (confirm_assignments g generation db).assignments) (release now) db.leases
        (λ l picked same. refl)
        (λ l passed same. let it = seen db g generation r l.id same in ground arith)

  -- With every assignment of the gateway covered, none is ahead.
  none_ahead :
      (db : Database) (g : Str) (generation : ℤ) (now : ℕ)
      → All (IsCovered g generation) db.assignments
      → All (λ a. is_ahead g a ≡ false) (confirmed g generation now db).assignments
  unfolding confirm_assignments release_leases revoke_devices
  none_ahead db g generation now h =
      update_where-each (λ a. is_ahead g a ≡ false) (is_observed g generation) observe
        db.assignments (All-map db.assignments (observe-is_ahead g generation) h)

  -- If an assignment of a gateway waits for its removal and all assignments of the gateway have
  -- desired generations up to a given one, the peer is in the snapshot that is published; the
  -- confirmation of that generation releases its lease, and leaves the gateway without need of
  -- another snapshot.
  pub removal_pending-published :
      (db : Database) (gw : GatewayRow) (generation : ℤ) (now : ℕ) (r : Removal db gw.id generation)
      → All (IsCovered gw.id generation) db.assignments
      → Has (peer_of h r.device r.lease) (current_peers h db gw.id)
        × All
            (λ l. l.id ≡ r.lease.id → is_unreleased l ≡ false)
            (confirmed gw.id generation now db).leases
        × (needs_snapshot (confirmed gw.id generation now db) gw ≡ false)
  unfolding needs_snapshot
  removal_pending-published db gw generation now r h' =
      let quiet =
        All-exists_where (is_ahead gw.id) (confirmed gw.id generation now db).assignments
          (none_ahead db gw.id generation now h') in
      (published db gw.id generation r, lease_released db gw.id generation now r, ground arith)
