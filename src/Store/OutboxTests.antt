-- ===== src/Store/OutboxTests.antt =====
-- One gateway with one snapshot.
use personal_vpn.Prelude.{
  suc, ◌≡◌, ◌≢◌, ◌⊎◌, refl, inl, true, false, List, [], ◌∷◌, none, some, err, Str, text, ok, pos,
  leb_ℤ, eqb_ℤ, All, Has, arith, replicate, Str-discrete, member,
}
use personal_vpn.Encoding.Space.{trim_space}
use personal_vpn.Agent.Transport.{Http, HttpSource}
use personal_vpn.Agent.Transport
use personal_vpn.HttpApi.{Request}
use personal_vpn.HttpApi.Gateway.{gateway_identity, contains_separator}
use personal_vpn.Store.Service.EndToEnd.{served, claim-delivers}
use personal_vpn.Store.Failures.{no_faults}
use personal_vpn.Store.Tables.{
  in_flight, acked, SnapshotRow, GatewayRow, ready, Database, Server, str_eq, count_where,
  exists_where,
}
use personal_vpn.Store.Outbox.{
  delivered, new_row, is_claimable, execute, insert_row, earliest, claim_row, commit,
}
use personal_vpn.Store.Deliveries.{
  delivery_of, enqueue_snapshot, claim_next_snapshot, claim_transaction,
}
use personal_vpn.Store.Machine.{Sound}
use personal_vpn.Store.Machine.History.{
  OutboxCall, enqueue, claim, perform, run_calls, perform-Sound, acked_undelivered,
}
use personal_vpn.Store.Machine.Draining.{drain, Drained, drain-Drained}
use personal_vpn.Store.Machine.InFlight.{lost_delivery}
use personal_vpn.Store.Publishing.{needs_snapshot, max_generation, next_gateway_snapshot_generation}
use personal_vpn.Store.Publishing.Generations.{next_generation-IsUnused}

abbrev postgres : Server
postgres = record { uuid = λ v. some v; json_object = λ v. some v; is_text = λ v. true }

abbrev signature : Str
signature = replicate 64 1

abbrev first : SnapshotRow
first = new_row (text "a") (text "g") (pos 1) (text "{}") signature 10

abbrev gateway_row : GatewayRow
gateway_row = record {
  id = text "g";
  region_id = text "eu";
  endpoint_host = text "gw";
  endpoint_port = 51820;
  public_key = text "k";
  state = ready;
  capacity_peers = 10;
}

abbrev outbox : List SnapshotRow → Database
outbox rows = record {
  users = [];
  devices = [];
  regions = [];
  gateways = gateway_row ∷ [];
  leases = [];
  assignments = [];
  idempotency_keys = [];
  snapshots = rows;
}

perform-Sound_example :
    Sound
      (outbox (first ∷ [])).snapshots
      (perform postgres (claim (text "g") 20 [] no_faults) (outbox (first ∷ []))).snapshots
perform-Sound_example =
    perform-Sound postgres (claim (text "g") 20 [] no_faults) (outbox (first ∷ [])) (tt, tt)
      ((ground arith, refl), tt)

drain-Drained_example :
    Drained postgres
      (text "g")
      (text "g")
      20
      []
      (count_where (is_claimable (text "g") 20 []) (outbox (first ∷ [])).snapshots)
      (drain postgres
        (text "g")
        (text "g")
        20
        []
        (suc (count_where (is_claimable (text "g") 20 []) (outbox (first ∷ [])).snapshots))
        (outbox (first ∷ [])))
unfolding Str-discrete trim_space
drain-Drained_example =
    drain-Drained postgres (text "g") (text "g") 20 [] (outbox (first ∷ [])) refl refl (tt, tt)
      ((ground arith, refl), tt)

abbrev done : SnapshotRow
done = record first { state = acked; attempts = 1; sent_at = some 11; acked_at = some 12 }

abbrev publish_second : OutboxCall
publish_second = enqueue (text "g") (pos 2) (text "[]") signature (text "b") 20 none

abbrev second_row : SnapshotRow
second_row = new_row (text "b") (text "g") (pos 2) (text "[]") signature 20

claims_second :
    (claim_next_snapshot postgres
      (run_calls postgres (publish_second ∷ []) (outbox (done ∷ [])))
      (text "g")
      30
      []
      no_faults).1
    ≡ ok (delivered second_row)
unfolding claim_next_snapshot claim_transaction claim_row commit earliest is_claimable
    enqueue_snapshot execute insert_row exists_where Str-discrete trim_space member
claims_second = refl

acked_undelivered_example :
    Has done (run_calls postgres (publish_second ∷ []) (outbox (done ∷ []))).snapshots
    × ((delivered second_row).id ≢ done.id)
acked_undelivered_example =
    acked_undelivered postgres (publish_second ∷ []) done (outbox (done ∷ [])) (text "g") 30 []
      no_faults (delivered second_row) (tt, tt) ((ground arith, refl), tt) (inl refl) refl
      claims_second

abbrev lost : SnapshotRow
lost = record first { state = in_flight; attempts = 1; sent_at = some 11 }

lost_delivery_example :
    Has lost
      (run_calls postgres
        (publish_second ∷ claim (text "g") 90 [] no_faults ∷ [])
        (outbox (lost ∷ []))).snapshots
    × (needs_snapshot
          (run_calls postgres
            (publish_second ∷ claim (text "g") 90 [] no_faults ∷ [])
            (outbox (lost ∷ [])))
          gateway_row
        ≡ false)
lost_delivery_example =
    lost_delivery postgres (publish_second ∷ claim (text "g") 90 [] no_faults ∷ [])
      (outbox (lost ∷ [])) lost gateway_row (refl, (refl, tt)) (tt, tt) ((ground arith, refl), tt)
      (inl refl) refl refl

next_is_2 :
    next_gateway_snapshot_generation postgres (outbox (first ∷ [])) (text "g") none ≡ (pos 2, none)
unfolding next_gateway_snapshot_generation max_generation Str-discrete
next_is_2 = refl

next_generation-IsUnused_example :
    (g : Str) × (postgres.uuid (text "g") ≡ some g)
    × All
        (λ r. str_eq r.gateway_id g ≡ true → eqb_ℤ r.generation (pos 2) ≡ false)
        (outbox (first ∷ [])).snapshots
next_generation-IsUnused_example =
    next_generation-IsUnused postgres (outbox (first ∷ [])) (text "g") none (pos 2) next_is_2

abbrev from_gateway : Request
from_gateway = record {
  authorization = [];
  content_type = [];
  idempotency_key = [];
  body = [];
  device_id = [];
  gateway_id = text "g";
  delivery_id = [];
  peer = some (text "g");
}

-- A JSON of one delivery only.
abbrev http : Http
http = record {
  parse_url = λ v. none;
  url_text = λ u. u.path;
  request_error = λ url. none;
  decode = λ body. some (delivery_of (delivered first));
  encode_generation = λ n. none;
  encode_retry = λ t reason. none;
}

abbrev source : HttpSource
source = record {
  base_url = record {
    scheme = text "https";
    host = text "api";
    path = [];
    raw_query = [];
    fragment = [];
    rest = [];
  };
  client = λ q. err (text "unused");
  gateway_id = text "g";
}

claim-delivers_example :
    (All (λ q. is_claimable (text "g") 20 [] q ≡ false) (outbox (first ∷ [])).snapshots
      × (Transport.claim http (
            served postgres 20 [] none http
              (λ d. text "{}")
              (outbox (first ∷ []))
              from_gateway
              source)
          ≡ err (Transport.status 503)))
    ⊎ ((q : SnapshotRow) × (is_claimable (text "g") 20 [] q ≡ true)
        × All
            (λ x. is_claimable (text "g") 20 [] x ≡ true → leb_ℤ q.generation x.generation ≡ true)
            (outbox (first ∷ [])).snapshots
        × (Transport.claim http (
              served postgres 20 [] none http
                (λ d. text "{}")
                (outbox (first ∷ []))
                from_gateway
                source)
            ≡ ok (delivery_of (delivered q))))
unfolding gateway_identity contains_separator Str-discrete trim_space
claim-delivers_example =
    claim-delivers postgres 20 [] none http (λ d. text "{}") (outbox (first ∷ [])) from_gateway
      source (text "g") (text "g") refl refl refl refl refl ((refl, refl), tt)
