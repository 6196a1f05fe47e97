-- ===== src/Store/Service/EndToEnd.antt =====
-- The claim of the agent, over the handler and the store.
use personal_vpn.Prelude.{
  ℕ, ◌≡◌, refl, ap, ◌⊎◌, inl, inr, true, false, List, [], ◌∷◌, Option, some, none, Str, text, take,
  ok, err, leb_ℤ, All, All-Has,
}
use personal_vpn.Control.{blank}
use personal_vpn.Agent.Worker.{Delivery}
use personal_vpn.Agent.Transport.{
  Http, HttpSource, HttpRequest, HttpResponse, is_valid_delivery, max_response, endpoint,
  claim_response,
}
use personal_vpn.Agent.Transport
use personal_vpn.HttpApi.{Request, Response, problem, json, bare}
use personal_vpn.HttpApi.Gateway.{gateway_identity}
use personal_vpn.HttpApi.Gateway
use personal_vpn.Store.Failures.{Fault, no_faults}
use personal_vpn.Store.Tables.{SnapshotRow, Database, Server}
use personal_vpn.Store.Outbox.{delivered, is_claimable}
use personal_vpn.Store.Deliveries.{delivery_of}
use personal_vpn.Store.Service.{delivery_service, claim-answers}

-- What the agent receives of what a handler has written.
abbrev pub received : (Delivery → Str) → Response Delivery → HttpResponse
received encode [] = record { status_code = 200; body = [] }
received encode (problem status detail ∷ rest) = record { status_code = status; body = detail }
received encode (json status d ∷ rest) = record { status_code = status; body = encode d }
received encode (bare status ∷ rest) = record { status_code = status; body = [] }

module _ (s : Server) (now : ℕ) (locked : List Str) (fault : Option Fault) (h : Http)
    (encode : Delivery → Str) where
  -- A row that the agent accepts, and reads from its JSON within the limit of a response.
  abbrev pub Readable : SnapshotRow → Type 0
  Readable q =
      (is_valid_delivery (delivery_of (delivered q)) ≡ true)
      × (h.decode (take max_response (encode (delivery_of (delivered q))))
          ≡ some (delivery_of (delivered q)))

  -- The source of an agent whose requests reach the handler as `r`.
  abbrev pub served : Database → Request → HttpSource → HttpSource
  served db r source = record source {
    client = λ q.
        ok (received encode (Gateway.claim (delivery_service s now locked fault no_faults) db r).1);
  }

  -- An agent whose requests reach the handler over the store, with an identified gateway and no
  -- faults, where it accepts and reads the JSON of every row, gets an error with the status 503
  -- from its claim if no row may be claimed, and else the delivery of the row of the least
  -- generation among those that may.
  pub claim-delivers :
      (db : Database) (r : Request) (source : HttpSource) (gateway_id g : Str)
      → gateway_identity r ≡ some gateway_id
      → gateway_id ≡ r.gateway_id
      → blank gateway_id ≡ false
      → s.uuid gateway_id ≡ some g
      → h.request_error (endpoint h source (text "/snapshots/next")) ≡ none
      → All Readable db.snapshots
      → (All (λ q. is_claimable g now locked q ≡ false) db.snapshots
          × (Transport.claim h (served db r source) ≡ err (Transport.status 503)))
        ⊎ ((q : SnapshotRow) × (is_claimable g now locked q ≡ true)
            × All
                (λ x. is_claimable g now locked x ≡ true → leb_ℤ q.generation x.generation ≡ true)
                db.snapshots
            × (Transport.claim h (served db r source) ≡ ok (delivery_of (delivered q))))
  unfolding Transport.claim claim_response endpoint
  claim-delivers db r source gateway_id g identity named present known reachable readable =
      elim (claim-answers s now locked fault db r gateway_id g identity named present known) [
        | inl (others, answer) ↦
            let response = ap (λ z. z.1) answer in
            inl (others, rw (Transport.claim, reachable, response) refl)
        | inr (q, there, claimable, least, response) ↦
            let (accepted, read) = All-Has Readable q db.snapshots readable there in
            inr (
              q,
              claimable,
              least,
              rw (Transport.claim, reachable, response) (rw (claim_response, read, accepted) refl),
            )
      ]
