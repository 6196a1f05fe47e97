-- ===== src/Agent/Worker/Outcomes.antt =====
-- The three ways that a round ends.
use personal_vpn.Prelude.{
  ◌≡◌, ◌≢◌, refl, sym, subst, ◌⊎◌, inl, inr, true, false, ◌||◌, not, List, [], ◌∷◌, Option, none,
  some, arith, ◌==◌, holds, Str, Str-discrete, length, Map, leb_ℤ, eqb_ℤ, Bool-cases, Option-cases,
}
use personal_vpn.Agent.Snapshot.{
  Peer, Snapshot, Operation, Error, invalid_snapshot, ok, Result-cases, ParsePrefix, Signing,
  verify, diff, decode_snapshot,
}
use personal_vpn.Agent.Worker.{
  Delivery, Worker, Round, claimed, acked, Outcome, retry_delivery, install, reconcile, check,
  process, apply_once,
}
use personal_vpn.Agent.Worker.Calls.{acks, interface_after}
use personal_vpn.Agent.Worker.Steps.{Verified, received}

-- Nothing is acknowledged or applied, the worker stays, and the round fails.
pub record IsQuiet (w : Worker) (o : Outcome) : Type 0 where
  pub same : o.0 ≡ w
  pub silent : acks o.1 ≡ false
  pub untouched : (m : Map Str Peer) → interface_after o.1 m ≡ m
  pub failed : o.2 ≢ none

retry_delivery-IsQuiet :
    (w : Worker) (r : Round) (d : Delivery) (cause : Error)
    → IsQuiet w (retry_delivery w r d (claimed ∷ []) cause)
unfolding retry_delivery
retry_delivery-IsQuiet w r d cause = record {
  same = refl;
  silent = refl;
  untouched = λ m. refl;
  failed = ground arith;
}

module _ (x : Signing) (parse_prefix : ParsePrefix) (unmarshal : Str → Option Snapshot) where
  -- A verified snapshot that is not newer: it is acknowledged.
  pub record IsStale (w : Worker) (r : Round) (o : Outcome) : Type 0 where
    pub verified : Verified x parse_prefix unmarshal w r
    pub old : leb_ℤ verified.payload.generation w.current.generation ≡ true
    pub result :
        o ≡ (w, claimed ∷ acked verified.delivery.id verified.delivery.generation ∷ [], r.ack)

  -- A verified snapshot that is newer, and its difference to the known peers.
  pub record IsInstall (w : Worker) (r : Round) (o : Outcome) : Type 0 where
    pub verified : Verified x parse_prefix unmarshal w r
    pub new : leb_ℤ verified.payload.generation w.current.generation ≡ false
    pub operations : List Operation
    pub differs :
        diff parse_prefix (received x parse_prefix unmarshal verified) w.current_peers
        ≡ ok operations
    pub result :
        o ≡ install w r verified.delivery (received x parse_prefix unmarshal verified) operations

  abbrev pub Ends : Worker → Round → Outcome → Type 0
  Ends w r o = IsQuiet w o ⊎ (IsStale w r o ⊎ IsInstall w r o)

  reconcile-Ends :
      (w : Worker) (r : Round) (v : Verified x parse_prefix unmarshal w r)
      → Ends w r
          (reconcile x parse_prefix unmarshal w r v.delivery (received x parse_prefix unmarshal v))
  unfolding reconcile
  reconcile-Ends w r v = elim (Bool-cases (leb_ℤ v.payload.generation w.current.generation)) [
    | inl old ↦ inr (inl (record { verified = v; old = old; result = rw (old, reconcile) refl }))
    | inr new ↦
        elim (Result-cases
          (diff parse_prefix (received x parse_prefix unmarshal v) w.current_peers)) [
            | inl (e, bad) ↦
                inl (rw (new, bad, reconcile) (retry_delivery-IsQuiet w r v.delivery e))
            | inr (ops, good) ↦ inr (
                inr (record {
                  verified = v;
                  new = new;
                  operations = ops;
                  differs = good;
                  result = rw (new, good, reconcile) refl;
                }))
          ]
  ]

  check-Ends :
      (w : Worker) (r : Round) (d : Delivery) (s : Snapshot)
      → r.claim ≡ ok d
      → unmarshal d.payload ≡ some s
      → Ends w r (check x parse_prefix unmarshal w r d (record s { signature = d.signature }))
  unfolding check
  check-Ends w r d s claim decoded = elim (Bool-cases (eqb_ℤ s.generation d.generation)) [
    | inr other ↦ inl (rw (other, check) (retry_delivery-IsQuiet w r d invalid_snapshot))
    | inl same ↦
        let signed = record s { signature = d.signature } in
        elim (Result-cases (verify x parse_prefix signed r.now w.gateway_id w.verify_key)) [
          | inl (e, bad) ↦ inl (rw (same, bad, check) (retry_delivery-IsQuiet w r d e))
          | inr (tt, genuine) ↦
              rw (same, genuine, check)
                (reconcile-Ends w r (record {
                  delivery = d;
                  payload = s;
                  claim = claim;
                  decoded = decoded;
                  numbered = same;
                  genuine = genuine;
                }))
        ]
  ]

  process-Ends :
      (w : Worker) (r : Round) (d : Delivery)
      → r.claim ≡ ok d
      → Ends w r (process x parse_prefix unmarshal w r d)
  unfolding process
  process-Ends w r d claim = elim (Option-cases (unmarshal d.payload)) [
    | inl e ↦ inl (rw (e, process) (retry_delivery-IsQuiet w r d decode_snapshot))
    | inr (s, e) ↦ rw (e, process) (check-Ends w r d s claim e)
  ]

  pub apply_once-Ends :
      (w : Worker) (r : Round) → Ends w r (apply_once x parse_prefix unmarshal w r)
  unfolding apply_once
  apply_once-Ends w r =
      elim (Bool-cases (
        not w.has_source
        || not w.has_applier
        || holds (Str-discrete w.gateway_id [])
        || not (length w.verify_key == 32))) [
          | inl bad ↦ inl (
              rw (bad, apply_once)
                (record {
                  same = refl;
                  silent = refl;
                  untouched = λ m. refl;
                  failed = ground arith;
                }))
          | inr good ↦ elim (Result-cases r.claim) [
            | inl (e, bad) ↦ inl (
                rw (good, bad, apply_once)
                  (record {
                    same = refl;
                    silent = refl;
                    untouched = λ m. refl;
                    failed = ground arith;
                  }))
            | inr (d, e) ↦
                let same : apply_once x parse_prefix unmarshal w r
                    ≡ process x parse_prefix unmarshal w r d =
                  ground arith in
                subst (Ends w r) (sym same) (process-Ends w r d e)
          ]
        ]
