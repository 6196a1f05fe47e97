-- ===== src/Store/Service.antt =====
-- The store behind the handlers of services/api/internal/httpapi/gateway.go, as
-- services/api/cmd/api/main.go puts them together.
pub mod EndToEnd
use personal_vpn.Prelude.{
  ℕ, ◌≡◌, ◌∙◌, ap, holds-true, refl, ◌⊎◌, inl, inr, Bool, true, false, List, [], ◌∷◌, Option, some,
  holds, Str, Str-discrete, text, Fallible, ok, err, leb_ℤ, All, Has, Has-All,
}
use personal_vpn.Control.{blank}
use personal_vpn.Agent.Worker.{Delivery}
use personal_vpn.HttpApi.{Request, Response, problem, json}
use personal_vpn.HttpApi.Gateway.{
  GatewayDeliveryService, ClaimError, unavailable, gateway_identity, claim_for, identified, claim,
}
use personal_vpn.Store.Failures.{Error, Fault, Faults, no_faults}
use personal_vpn.Store.Tables.{SnapshotRow, Database, Server}
use personal_vpn.Store.Outbox.{delivered, is_claimable}
use personal_vpn.Store.Deliveries.{claim_snapshot, delivery_of}
use personal_vpn.Store.Confirmation.{ack_snapshot_delivery, retry_snapshot_delivery}
use personal_vpn.Store.Machine.Claims.{earliest-All}
use personal_vpn.Store.Machine.Draining.{claim-least}

module _ (s : Server) (now : ℕ) (locked : List Str) (fault : Option Fault) (faults : Faults) where
  abbrev accepted : Fallible Error (Unit {0}) → Bool
  accepted (err e) = false
  accepted (ok done) = true

  -- No error of the store is agent.ErrNoDelivery.
  abbrev refused : Fallible Error Delivery → Fallible ClaimError Delivery
  refused (err e) = err unavailable
  refused (ok d) = ok d

  unfoldable pub delivery_service : GatewayDeliveryService Database
  delivery_service = record {
    claim_snapshot = λ db gateway_id.
        let (db', result) = claim_snapshot s db gateway_id now locked faults in
        (db', refused result);
    ack_snapshot_delivery = λ db gateway_id id generation.
        let (db', result) = ack_snapshot_delivery s db gateway_id id generation now fault faults in
        (db', accepted result);
    retry_snapshot_delivery = λ db gateway_id id retry_at reason.
        let (db', result) = retry_snapshot_delivery s db gateway_id id retry_at reason fault in
        (db', accepted result);
  }

abbrev unavailable_response : Response Delivery
unavailable_response = problem 503 (text "snapshot unavailable") ∷ []

module _ (s : Server) (now : ℕ) (locked : List Str) (fault : Option Fault) where
  -- With the store behind the handler and no faults, the claim of an identified gateway is
  -- answered with 503, and changes nothing, if no row may be claimed, and else with 200 and the
  -- row of the least generation among those that may.
  pub claim-answers :
      (db : Database) (r : Request) (gateway_id g : Str)
      → gateway_identity r ≡ some gateway_id
      → gateway_id ≡ r.gateway_id
      → blank gateway_id ≡ false
      → s.uuid gateway_id ≡ some g
      → (All (λ q. is_claimable g now locked q ≡ false) db.snapshots
          × (claim (delivery_service s now locked fault no_faults) db r
              ≡ (db, problem 503 (text "snapshot unavailable") ∷ [])))
        ⊎ ((q : SnapshotRow) × Has q db.snapshots
            × (is_claimable g now locked q ≡ true)
            × All
                (λ x. is_claimable g now locked x ≡ true → leb_ℤ q.generation x.generation ≡ true)
                db.snapshots
            × ((claim (delivery_service s now locked fault no_faults) db r).1
                ≡ json 200 (delivery_of (delivered q)) ∷ []))
  unfolding claim claim_for identified delivery_service claim_snapshot
  claim-answers db r gateway_id g identity named present known =
      let service : GatewayDeliveryService Database =
        delivery_service s now locked fault no_faults in
      let same : holds (Str-discrete gateway_id r.gateway_id) ≡ true =
        holds-true (Str-discrete gateway_id r.gateway_id) named in
      let inner : claim service db r ≡ claim_for service db gateway_id =
        rw (claim, identified, identity, same) refl in
      elim (claim-least s db gateway_id g now locked present known) [
        | inl idle ↦
            let answer = idle.answer in
            inl (
              idle.none_waits,
              inner
                  ∙ rw (claim_for, delivery_service, claim_snapshot, answer)
                      (ap (λ z. (z.0, unavailable_response)) answer),
            )
        | inr (q, claimed) ↦
            let result = claimed.result in
            inr (
              q,
              (earliest-All (λ y. Has y db.snapshots) (is_claimable g now locked) db.snapshots q
                  (Has-All db.snapshots) claimed.chosen).0,
              claimed.claimable,
              claimed.least,
              ap (λ z. z.1) inner ∙ rw (claim_for, delivery_service, claim_snapshot, result) refl,
            )
      ]
