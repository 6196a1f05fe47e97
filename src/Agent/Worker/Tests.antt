-- ===== src/Agent/Worker/Tests.antt =====
-- The theorems on the worker at concrete rounds.
use personal_vpn.Prelude.{
  ℕ, ◌==◌, if◌then◌else◌, ◌≡◌, ◌⊎◌, refl, true, List, [], ◌∷◌, Option, none, some, Str,
  Str-discrete, text, replicate, get, put, delete, insert, member, pos, leb_ℤ,
}
use personal_vpn.Encoding.Base64.{encode, decode}
use personal_vpn.Keys.{valid_public_key}
use personal_vpn.Agent.Snapshot.{
  Snapshot, Operation, add, Error, external, ok, by_key, additions, removals, sort_operations,
  insert_operation, operation_less, str_lt, valid_host_prefix, valid_peer, validate_peers, validate,
  diff, verify, signing_bytes, unsigned,
}
use personal_vpn.Agent.Worker.{
  Worker, Round, waits, next_backoff, is_no_delivery, run, retry_delivery, install, reconcile,
  check, process, apply_once,
}
use personal_vpn.Agent.Worker.Calls.{acks, interface_after}
use personal_vpn.Agent.Worker.Steps.{Verified, received}
use personal_vpn.Agent.Worker.Outcomes.{IsInstall}
use personal_vpn.Agent.Worker.Sync.{InSync, IsHonest, apply_once-acks, apply_once-InSync, lost_ack}
use personal_vpn.Agent.Tests.{parser, phone, laptop, first_snapshot, signing}

abbrev pub second_snapshot : Snapshot
second_snapshot = record first_snapshot { generation = pos 2; peers = laptop ∷ [] }

backs_off :
    run 1_000_000_000 (some (external []) ∷ none ∷ []) ≡ some (2_000_000_000 ∷ 1_000_000_000 ∷ [])
unfolding run waits next_backoff is_no_delivery
backs_off = refl

-- The first byte of the payload is the number of the snapshot.
abbrev unmarshal : Str → Option Snapshot
unmarshal [] = none
unmarshal (n ∷ s) =
    if n == 1 then some first_snapshot else if n == 2 then some second_snapshot else none

abbrev worker : Worker
worker = record {
  has_source = true;
  has_applier = true;
  gateway_id = text "gw";
  verify_key = replicate 32 5;
  current = record {
    gateway_id = [];
    generation = pos 0;
    expires_at = 0;
    peers = [];
    signature = [];
  };
  current_peers = [];
}

-- A round that delivers the n-th snapshot; everything is applied.
abbrev round : ℕ → Option Error → Round
round n ack = record {
  claim =
      ok (record {
        id = text "d";
        generation = pos n;
        payload = n ∷ [];
        signature = replicate 64 1;
      });
  now = 500;
  applies = λ ops. (ops, none);
  ack = ack;
  retry = none;
  retry_clock = 500;
}

round-IsHonest : (n : ℕ) (ack : Option Error) → IsHonest (round n ack)
round-IsHonest n ack ops e = refl

worker-InSync : InSync worker []
worker-InSync = record { known = λ k. refl; distinct = tt; self_keyed = tt }

verified_1 : (ack : Option Error) → Verified signing parser unmarshal worker (round 1 ack)
unfolding verify signing_bytes unsigned validate validate_peers valid_peer valid_host_prefix insert
    member valid_public_key encode decode Str-discrete
verified_1 ack = record {
  delivery = record {
    id = text "d";
    generation = pos 1;
    payload = 1 ∷ [];
    signature = replicate 64 1;
  };
  payload = first_snapshot;
  claim = refl;
  decoded = refl;
  numbered = refl;
  genuine = refl;
}

verified_2 : Verified signing parser unmarshal worker (round 2 none)
unfolding verify signing_bytes unsigned validate validate_peers valid_peer valid_host_prefix insert
    member valid_public_key encode decode Str-discrete
verified_2 = record {
  delivery = record {
    id = text "d";
    generation = pos 2;
    payload = 2 ∷ [];
    signature = replicate 64 1;
  };
  payload = second_snapshot;
  claim = refl;
  decoded = refl;
  numbered = refl;
  genuine = refl;
}

abbrev added : List Operation
added = record { kind = add; peer = phone } ∷ record { kind = add; peer = laptop } ∷ []

install_1 :
    (ack : Option Error)
    → IsInstall signing parser unmarshal worker
        (round 1 ack)
        (apply_once signing parser unmarshal worker (round 1 ack))
unfolding apply_once process check reconcile diff verify signing_bytes unsigned validate
    validate_peers valid_peer valid_host_prefix by_key additions removals sort_operations
    insert_operation operation_less str_lt get put delete insert member valid_public_key encode
    decode Str-discrete verified_1
install_1 ack = record {
  verified = verified_1 ack;
  new = refl;
  operations = added;
  differs = refl;
  result = refl;
}

install_2 :
    IsInstall signing parser unmarshal worker
      (round 2 none)
      (apply_once signing parser unmarshal worker (round 2 none))
unfolding apply_once process check reconcile diff verify signing_bytes unsigned validate
    validate_peers valid_peer valid_host_prefix by_key additions removals sort_operations
    insert_operation operation_less str_lt get put delete insert member valid_public_key encode
    decode Str-discrete verified_2
install_2 = record {
  verified = verified_2;
  new = refl;
  operations = record { kind = add; peer = laptop } ∷ [];
  differs = refl;
  result = refl;
}

-- The run of the round.
runs : (apply_once signing parser unmarshal worker (round 1 none)).2 ≡ none
unfolding apply_once process check reconcile install retry_delivery diff verify signing_bytes
    unsigned validate validate_peers valid_peer valid_host_prefix by_key additions removals
    sort_operations insert_operation operation_less str_lt get put delete insert member
    valid_public_key encode decode Str-discrete
runs = refl

runs_2 : (apply_once signing parser unmarshal worker (round 2 none)).2 ≡ none
unfolding apply_once process check reconcile install retry_delivery diff verify signing_bytes
    unsigned validate validate_peers valid_peer valid_host_prefix by_key additions removals
    sort_operations insert_operation operation_less str_lt get put delete insert member
    valid_public_key encode decode Str-discrete
runs_2 = refl

acknowledges : acks (apply_once signing parser unmarshal worker (round 1 none)).1 ≡ true
unfolding apply_once process check reconcile install retry_delivery diff verify signing_bytes
    unsigned validate validate_peers valid_peer valid_host_prefix by_key additions removals
    sort_operations insert_operation operation_less str_lt get put delete insert member
    valid_public_key encode decode Str-discrete
acknowledges = refl

apply_once-acks_example :
    (v : Verified signing parser unmarshal worker (round 1 none)) × ((leb_ℤ v.payload.generation
          (pos 0)
        ≡ true)
      ⊎ ((ops : List Operation) × (diff parser (received signing parser unmarshal v) [] ≡ ok ops)
          × (((round 1 none).applies ops).1 ≡ none)))
apply_once-acks_example =
    apply_once-acks signing parser unmarshal worker (round 1 none) acknowledges

apply_once-InSync_example :
    InSync
      (apply_once signing parser unmarshal worker (round 1 none)).0
      (interface_after (apply_once signing parser unmarshal worker (round 1 none)).1 [])
apply_once-InSync_example =
    apply_once-InSync signing parser unmarshal worker (round 1 none) [] worker-InSync
      (round-IsHonest 1 none) runs

wants_phone : get Str-discrete phone.public_key (by_key [] first_snapshot.peers) ≡ some phone
unfolding by_key get put delete encode Str-discrete
wants_phone = refl

drops_phone : get Str-discrete phone.public_key (by_key [] second_snapshot.peers) ≡ none
unfolding by_key get put delete encode Str-discrete
drops_phone = refl

no_phone : get Str-discrete phone.public_key worker.current_peers ≡ none
unfolding get
no_phone = refl

-- The phone is wanted by the first snapshot only, and stays.
lost_ack_example :
    ((apply_once signing parser unmarshal worker (round 1 (some (external [])))).0 ≡ worker)
    × (get Str-discrete phone.public_key (
          interface_after (apply_once signing parser unmarshal worker (round 2 none)).1 (
            interface_after
              (apply_once signing parser unmarshal worker (round 1 (some (external [])))).1
              []))
        ≡ some phone)
unfolding install_1 install_2 verified_1 verified_2
lost_ack_example =
    lost_ack signing parser unmarshal worker (round 1 (some (external []))) (round 2 none) []
      phone.public_key phone (external []) (install_1 (some (external []))) install_2 worker-InSync
      (round-IsHonest 1 (some (external []))) (round-IsHonest 2 none) refl refl runs_2 no_phone
      wants_phone drops_phone
