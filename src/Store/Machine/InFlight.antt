-- ===== src/Store/Machine/InFlight.antt =====
-- A snapshot that is in flight waits for its agent.
use personal_vpn.Prelude.{
  ℕ, ◌≡◌, sym, subst, inl, inr, Bool, true, false, List, [], ◌∷◌, holds_yes, holds-true, Str,
  Str-discrete, ok, arith, Bool-cases, Option-cases, All, Has, Has-append_left,
}
use personal_vpn.Store.Tables.{SnapshotRow, in_flight, GatewayRow, Database, Server, str_eq}
use personal_vpn.Store.Tables.Lookups.{update_where-Has_kept, exists_where-Has}
use personal_vpn.Store.Outbox.{
  SnapshotDelivery, is_claimable, earliest, has_id, send, claim_row, claim_statement,
}
use personal_vpn.Store.Deliveries.{enqueue_snapshot}
use personal_vpn.Store.Publishing.{needs_snapshot, is_outstanding_for}
use personal_vpn.Store.Reconciler.Insertions.{enqueue_snapshot-Ends}
use personal_vpn.Store.Reconciler.Passes.{Ends-Grows}
use personal_vpn.Store.Machine.{IsKeyed, IsOrderly}
use personal_vpn.Store.Machine.Claims.{earliest-All}
use personal_vpn.Store.Machine.Calls.{claim_next_snapshot-keeps}
use personal_vpn.Store.Machine.History.{
  OutboxCall, enqueue, claim, ack, put_off, perform, run_calls, perform-Sound, keyed-same,
}

-- The calls of the publishers and of other agents: all but an answer to a delivery.
abbrev pub is_answer : OutboxCall → Bool
is_answer (ack _ _ _ _ _) = true
is_answer (put_off _ _ _ _ _) = true
is_answer _ = false

module _ (s : Server) where
  claim_row-InFlight :
      (g : Str) (now : ℕ) (locked : List Str) (rows new : List SnapshotRow) (d : SnapshotDelivery)
      (r : SnapshotRow)
      → IsKeyed rows
      → Has r rows
      → r.state ≡ in_flight
      → claim_row g now locked rows ≡ ok (new, d)
      → Has r new
  unfolding claim_row is_claimable
  claim_row-InFlight g now locked rows new d r keyed here flying e =
      elim (Option-cases (earliest (is_claimable g now locked) rows)) [
        | inl nothing ↦ absurd (ground arith)
        | inr (q, chosen) ↦
            let (unique, picked) =
              earliest-All (λ x. x.id ≡ r.id → x ≡ r) (is_claimable g now locked) rows q
                (keyed-same r rows keyed here) chosen in
            elim (Bool-cases (has_id q.id r)) [
              | inl same ↦
                  let equal = unique (sym (holds_yes (Str-discrete r.id q.id) same)) in
                  absurd (ground arith)
              | inr other ↦
                  subst (Has r) (ground arith)
                    (update_where-Has_kept (has_id q.id) (send now) r rows here other)
            ]
      ]

  perform-InFlight :
      (c : OutboxCall) (db : Database) (r : SnapshotRow)
      → is_answer c ≡ false
      → IsKeyed db.snapshots
      → Has r db.snapshots
      → r.state ≡ in_flight
      → Has r (perform s c db).snapshots
  perform-InFlight (enqueue gateway_id generation payload signature id now fault) db r quiet keyed
        here flying =
      let (more, grown) =
        Ends-Grows s db gateway_id
          (enqueue_snapshot s db gateway_id generation payload signature id now fault)
          (enqueue_snapshot-Ends s db gateway_id generation payload signature id now fault) in
      subst (λ z. Has r z.snapshots) (sym grown) (Has-append_left r db.snapshots more here)
  perform-InFlight (claim gateway_id now locked faults) db r quiet keyed here flying =
      claim_next_snapshot-keeps s (Has r) db gateway_id now locked faults here
        (λ rows d e. claimed gateway_id now locked rows d e)
    where
      claimed :
          (gateway_id : Str) (now : ℕ) (locked : List Str) (rows : List SnapshotRow)
          (d : SnapshotDelivery)
          → claim_statement s gateway_id now locked db.snapshots ≡ ok (rows, d)
          → Has r rows
      claimed gateway_id now locked rows d e = elim (Option-cases (s.uuid gateway_id)) [
        | inl bad ↦ absurd (ground arith)
        | inr (g, known) ↦
            claim_row-InFlight g now locked db.snapshots rows d r keyed here flying (ground arith)
      ]
  perform-InFlight (ack _ _ _ _ _) db r quiet keyed here flying = absurd (ground arith)
  perform-InFlight (put_off _ _ _ _ _) db r quiet keyed here flying = absurd (ground arith)

  run_calls-InFlight :
      (calls : List OutboxCall) (db : Database) (r : SnapshotRow)
      → All (λ c. is_answer c ≡ false) calls
      → IsKeyed db.snapshots
      → All IsOrderly db.snapshots
      → Has r db.snapshots
      → r.state ≡ in_flight
      → Has r (run_calls s calls db).snapshots
  run_calls-InFlight [] db r quiet keyed orderly here flying = here
  run_calls-InFlight (c ∷ calls) db r (first, quiet) keyed orderly here flying =
      let sound = perform-Sound s c db keyed orderly in
      run_calls-InFlight calls (perform s c db) r quiet sound.keyed sound.orderly
        (perform-InFlight c db r first keyed here flying) flying

  -- From distinct keys and orderly rows, a row that is in flight stays so through every history of
  -- publications and claims, as long as no answer to a delivery comes, and while it does its
  -- gateway is never listed as one that needs a snapshot.
  pub lost_delivery :
      (calls : List OutboxCall) (db : Database) (r : SnapshotRow) (gw : GatewayRow)
      → All (λ c. is_answer c ≡ false) calls
      → IsKeyed db.snapshots
      → All IsOrderly db.snapshots
      → Has r db.snapshots
      → r.state ≡ in_flight
      → r.gateway_id ≡ gw.id
      → Has r (run_calls s calls db).snapshots × (needs_snapshot (run_calls s calls db) gw ≡ false)
  unfolding needs_snapshot
  lost_delivery calls db r gw quiet keyed orderly here flying its =
      let there = run_calls-InFlight calls db r quiet keyed orderly here flying in
      let named : str_eq r.gateway_id gw.id ≡ true =
        holds-true (Str-discrete r.gateway_id gw.id) its in
      let outstanding =
        exists_where-Has (is_outstanding_for gw.id) r (run_calls s calls db).snapshots there
          (ground arith) in
      (there, ground arith)
