-- ===== src/Agent/Worker.antt =====
-- services/api/internal/agent/worker.go. What the delivery source, the applier and the clock answer
-- in one round is an argument of the round; the calls that the worker makes are part of its result.
pub mod Steps
pub mod Calls
pub mod Outcomes
pub mod Sync
mod Tests
use personal_vpn.Prelude.{
  ℕ, ◌+◌, ◌*◌, ◌≡◌, Bool, true, false, ◌&&◌, ◌||◌, not, List, [], ◌∷◌, ◌++◌, Option, none, some,
  ltb, leb, ◌==◌, if◌then◌else◌, holds, Str, Str-discrete, length, Map, ℤ, leb_ℤ, eqb_ℤ,
}
use personal_vpn.Agent.Snapshot.{
  Peer, Snapshot, Operation, Error, invalid_snapshot, invalid_signature, invalid_operation,
  no_delivery, encode_snapshot, decode_snapshot, apply_operation, apply_snapshot, external, Result,
  ok, err, ParsePrefix, Signing, verify, diff, by_key,
}

pub record Delivery : Type 0 where
  pub id : Str
  pub generation : ℤ
  pub payload : Str
  pub signature : Str

pub record Worker : Type 0 where
  pub has_source : Bool
  pub has_applier : Bool
  pub gateway_id : Str
  pub verify_key : Str
  pub current : Snapshot
  pub current_peers : Map Str Peer

-- The answers of one round. `applies` gives the operations that took effect, and the error;
-- `now` is the clock of the worker, `retry_clock` the system's clock that `retry` reads.
pub record Round : Type 0 where
  pub claim : Result Delivery
  pub now : ℕ
  pub applies : List Operation → List Operation × Option Error
  pub ack : Option Error
  pub retry : Option Error
  pub retry_clock : ℕ

-- The calls with an effect outside the worker.
pub data Call : Type 0 where
  claimed : Call
  applied : List Operation → List Operation → Call
  acked : Str → ℤ → Call
  retried : Str → ℕ → Error → Call

abbrev pub minute : ℕ
minute = 60 * 1_000_000_000

abbrev pub Outcome : Type 0
Outcome = Worker × List Call × Option Error

unfoldable pub retry_delivery : Worker → Round → Delivery → List Call → Error → Outcome
retry_delivery w r d calls cause = (
  w,
  calls ++ retried d.id (r.retry_clock + minute) cause ∷ [],
  elim r.retry [ none ↦ some cause | some e ↦ some e ],
)

-- `w.Current = snapshot`, and the map of its peers.
unfoldable pub advance : Worker → Snapshot → Worker
advance w s = record w { current = s; current_peers = by_key [] s.peers }

unfoldable pub install : Worker → Round → Delivery → Snapshot → List Operation → Outcome
install w r d s ops =
    let (done, failed) = r.applies ops in
    let calls = claimed ∷ applied ops done ∷ [] in
    elim failed [
      | some e ↦ retry_delivery w r d calls (apply_snapshot e)
      | none ↦ elim r.ack [
        | some e ↦ (w, calls ++ acked d.id d.generation ∷ [], some e)
        | none ↦ (advance w s, calls ++ acked d.id d.generation ∷ [], none)
      ]
    ]

module _ (x : Signing) (parse_prefix : ParsePrefix) (unmarshal : Str → Option Snapshot) where
  unfoldable pub reconcile : Worker → Round → Delivery → Snapshot → Outcome
  reconcile w r d s =
      if leb_ℤ s.generation w.current.generation
      then (w, claimed ∷ acked d.id d.generation ∷ [], r.ack)
      else elim (diff parse_prefix s w.current_peers) [
        | err e ↦ retry_delivery w r d (claimed ∷ []) e
        | ok ops ↦ install w r d s ops
      ]

  unfoldable pub check : Worker → Round → Delivery → Snapshot → Outcome
  check w r d s =
      if not (eqb_ℤ s.generation d.generation)
      then retry_delivery w r d (claimed ∷ []) invalid_snapshot
      else elim (verify x parse_prefix s r.now w.gateway_id w.verify_key) [
        | err e ↦ retry_delivery w r d (claimed ∷ []) e
        | ok _ ↦ reconcile w r d s
      ]

  unfoldable pub process : Worker → Round → Delivery → Outcome
  process w r d = elim (unmarshal d.payload) [
    | none ↦ retry_delivery w r d (claimed ∷ []) decode_snapshot
    | some s ↦ check w r d (record s { signature = d.signature })
  ]

  unfoldable pub apply_once : Worker → Round → Outcome
  apply_once w r =
      if not w.has_source
        || not w.has_applier
        || holds (Str-discrete w.gateway_id [])
        || not (length w.verify_key == 32)
      then (w, [], some invalid_operation)
      else elim r.claim [ err e ↦ (w, claimed ∷ [], some e) | ok d ↦ process w r d ]

-- `errors.Is(err, ErrNoDelivery)`.
unfoldable pub is_no_delivery : Error → Bool
is_no_delivery no_delivery = true
is_no_delivery (apply_snapshot e) = is_no_delivery e
is_no_delivery _ = false

abbrev pub max_backoff : ℕ
max_backoff = 30 * 1_000_000_000

-- The backoff after a round of `Run`.
unfoldable pub next_backoff : ℕ → ℕ → Option Error → ℕ
next_backoff interval backoff none = interval
next_backoff interval backoff (some e) =
    if is_no_delivery e
    then interval
    else if ltb backoff max_backoff
    then if ltb max_backoff (backoff * 2) then max_backoff else backoff * 2
    else backoff

-- The waits of `Run`, for the errors of its rounds until the context ends.
unfoldable pub waits : ℕ → ℕ → List (Option Error) → List ℕ
waits interval backoff [] = []
waits interval backoff (e ∷ errors) =
    let wait = next_backoff interval backoff e in wait ∷ waits interval wait errors

-- `none` for the refused interval.
unfoldable pub run : ℕ → List (Option Error) → Option (List ℕ)
unfolding waits
run interval errors = if interval == 0 then none else some (waits interval interval errors)
