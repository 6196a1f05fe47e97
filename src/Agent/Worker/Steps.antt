-- ===== src/Agent/Worker/Steps.antt =====
-- The branches of a round.
use personal_vpn.Prelude.{
  ℕ, ◌≡◌, ◌≤◌, refl, subst, ◌⊎◌, inr, true, List, [], ◌∷◌, Option, none, some, arith, All, Str,
  eqb_ℤ,
}
use personal_vpn.Agent.Snapshot.{Snapshot, Error, ok, ParsePrefix, Signing, verify}
use personal_vpn.Agent.Worker.{Delivery, Worker, Round, max_backoff, next_backoff, waits, run}

-- The wait is at least the interval, and at most thirty seconds or the interval if that is longer.
abbrev InBounds : ℕ → ℕ → Type 0
InBounds interval wait = (interval ≤ wait) × ((wait ≤ max_backoff) ⊎ (wait ≡ interval))

next_backoff_bounds :
    (interval backoff : ℕ) (e : Option Error)
    → InBounds interval backoff
    → InBounds interval (next_backoff interval backoff e)
unfolding next_backoff
next_backoff_bounds interval backoff none h = (omega arith, inr refl)
next_backoff_bounds interval backoff (some e) h = ground arith

waits_bounds :
    (interval backoff : ℕ) (errors : List (Option Error))
    → InBounds interval backoff
    → All (InBounds interval) (waits interval backoff errors)
unfolding waits
waits_bounds interval backoff [] h = tt
waits_bounds interval backoff (e ∷ errors) h =
    let next = next_backoff_bounds interval backoff e h in
    (next, waits_bounds interval (next_backoff interval backoff e) errors next)

-- If the loop accepts its interval, the interval is positive and every wait is at least the
-- interval, and at most thirty seconds or exactly the interval.
pub run_bounds :
    (interval : ℕ) (errors : List (Option Error)) (ws : List ℕ)
    → run interval errors ≡ some ws
    → (1 ≤ interval)
      × All (λ wait. (interval ≤ wait) × ((wait ≤ max_backoff) ⊎ (wait ≡ interval))) ws
unfolding run
run_bounds interval errors ws e =
    let all = waits_bounds interval interval errors (omega arith, inr refl) in
    (ground arith, subst (All (InBounds interval)) (ground arith) all)

-- What a round was about, where it got as far as a verified snapshot.
module _ (x : Signing) (parse_prefix : ParsePrefix) (unmarshal : Str → Option Snapshot) where
  pub record Verified (w : Worker) (r : Round) : Type 0 where
    pub delivery : Delivery
    pub payload : Snapshot
    pub claim : r.claim ≡ ok delivery
    pub decoded : unmarshal delivery.payload ≡ some payload
    pub numbered : eqb_ℤ payload.generation delivery.generation ≡ true
    pub genuine :
        verify x parse_prefix
          (record payload { signature = delivery.signature })
          r.now
          w.gateway_id
          w.verify_key
        ≡ ok tt

  abbrev pub received : {w : Worker} {r : Round} → Verified w r → Snapshot
  received v = record v.payload { signature = v.delivery.signature }
