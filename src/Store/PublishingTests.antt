-- ===== src/Store/PublishingTests.antt =====
-- The theorems on the snapshots of a gateway, where it has one device.
use personal_vpn.Prelude.{
  ◌≡◌, ◌↔◌, ◌⊎◌, refl, inl, true, false, List, [], ◌∷◌, Option, none, some, Str, Str-discrete, text,
  ok, pos, leb_ℤ, All, Has, replicate,
}
use personal_vpn.Encoding.Space.{trim_space}
use personal_vpn.HttpApi.{Request, problem, json}
use personal_vpn.HttpApi.Gateway.{gateway_identity, contains_separator, claim}
use personal_vpn.Store.Failures.{Error, no_faults}
use personal_vpn.Store.Tables.{SnapshotRow, find_where, exists_where, select_where}
use personal_vpn.Store.Outbox.{delivered, is_claimable}
use personal_vpn.Store.Deliveries.{delivery_of}
use personal_vpn.Store.Publishing.{
  peer_of, current_peers, needs_snapshot, gateways_needing_snapshot, insert_by, order_by,
}
use personal_vpn.Store.Publishing.Peers.{IsRow, current_peers_iff}
use personal_vpn.Store.Confirmation.{confirmed, is_unreleased}
use personal_vpn.Store.Confirmation.Removals.{Removal, removal_pending-published}
use personal_vpn.Store.Reconciler.{Attempt, reconcile}
use personal_vpn.Store.Reconciler.Passes.{Quiet, reconcile-Quiet}
use personal_vpn.Store.Reconciler.Insertions.{Grows}
use personal_vpn.Store.Service.{delivery_service, claim-answers}
use personal_vpn.Store.TestData.{
  hosts, postgres, device, lease, assignment, gateway, with_removal, signing,
}

current_peers_iff_example :
    Has (peer_of hosts device lease) (current_peers hosts with_removal (text "g")) ↔ (
      (id : Str) × IsRow hosts with_removal
        (text "g")
        with_removal.assignments
        (id, peer_of hosts device lease))
current_peers_iff_example =
    current_peers_iff hosts with_removal (text "g") (peer_of hosts device lease)

pending_removal : Removal with_removal gateway.id (pos 1)
unfolding find_where Str-discrete
pending_removal = record {
  assignment = assignment;
  device = device;
  lease = lease;
  stored = inl refl;
  of_gateway = refl;
  waiting = refl;
  covered = refl;
  its_device = refl;
  its_lease = refl;
}

removal_pending-published_example :
    Has
      (peer_of hosts pending_removal.device pending_removal.lease)
      (current_peers hosts with_removal gateway.id)
    × All
        (λ l. l.id ≡ pending_removal.lease.id → is_unreleased l ≡ false)
        (confirmed gateway.id (pos 1) 50 with_removal).leases
    × (needs_snapshot (confirmed gateway.id (pos 1) 50 with_removal) gateway ≡ false)
unfolding Str-discrete
removal_pending-published_example =
    removal_pending-published hosts postgres with_removal gateway (pos 1) 50 pending_removal
      (refl, tt)

abbrev attempts : Str → Attempt
attempts id = record {
  generation_fault = none;
  clock = 5;
  id = text "s";
  now = 5;
  faults = no_faults;
}

listed : gateways_needing_snapshot with_removal no_faults ≡ ok (text "g" ∷ [])
unfolding gateways_needing_snapshot select_where needs_snapshot exists_where order_by insert_by
    Str-discrete
listed = refl

reconcile-Quiet_example :
    (logged : List (Option Error)) × ((reconcile postgres hosts signing
        (replicate 64 2)
        no_faults
        attempts
        with_removal).1
      ≡ ok logged)
    × Quiet postgres hosts signing
        (replicate 64 2)
        (reconcile postgres hosts signing (replicate 64 2) no_faults attempts with_removal).0
        (text "g" ∷ [])
        logged
    × Grows with_removal
        (reconcile postgres hosts signing (replicate 64 2) no_faults attempts with_removal).0
reconcile-Quiet_example =
    reconcile-Quiet postgres hosts signing (replicate 64 2) no_faults attempts with_removal
      (text "g" ∷ []) listed (refl, tt)

abbrev from_gateway : Request
from_gateway = record {
  authorization = [];
  content_type = [];
  idempotency_key = [];
  body = [];
  device_id = [];
  gateway_id = text "g";
  delivery_id = [];
  peer = some (text "g");
}

claim-answers_example :
    (All (λ q. is_claimable (text "g") 50 [] q ≡ false) with_removal.snapshots
      × (claim (delivery_service postgres 50 [] none no_faults) with_removal from_gateway
          ≡ (with_removal, problem 503 (text "snapshot unavailable") ∷ [])))
    ⊎ ((q : SnapshotRow) × Has q with_removal.snapshots
        × (is_claimable (text "g") 50 [] q ≡ true)
        × All
            (λ x. is_claimable (text "g") 50 [] x ≡ true → leb_ℤ q.generation x.generation ≡ true)
            with_removal.snapshots
        × ((claim (delivery_service postgres 50 [] none no_faults) with_removal from_gateway).1
            ≡ json 200 (delivery_of (delivered q)) ∷ []))
unfolding gateway_identity contains_separator Str-discrete trim_space
claim-answers_example =
    claim-answers postgres 50 [] none with_removal from_gateway (text "g") (text "g") refl refl refl
      refl
