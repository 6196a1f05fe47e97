-- ===== src/Store/Reconciler.antt =====
-- services/api/cmd/reconciler/main.go and services/api/cmd/snapshot-publisher/main.go: the pass over
-- the gateways that need a snapshot, and what is read before it.
pub mod Insertions
pub mod Passes
use personal_vpn.Prelude.{
  ℕ, ◌*◌, ◌==◌, Bool, true, false, ◌&&◌, ◌||◌, not, List, [], ◌∷◌, Option, none, some,
  if◌then◌else◌, ltb, Str, text, length, Fallible, ok, err, ℤ, pos, leb_ℤ,
}
use personal_vpn.Encoding.Base64.{std, decode}
use personal_vpn.Encoding.Space.{trim_space}
use personal_vpn.Agent.Snapshot.{Signing}
use personal_vpn.Store.Failures.{Error, Fault, Faults}
use personal_vpn.Store.Tables.{Database, Server, str_eq}
use personal_vpn.Store.Publishing.{
  Hosts, gateways_needing_snapshot, next_gateway_snapshot_generation,
  enqueue_current_gateway_snapshot,
}

unfoldable pub parse_private_key : Str → Option Str
parse_private_key value = elim (decode std value) [
  | none ↦ none
  | some decoded ↦ if length decoded == 64 then some decoded else none
]

abbrev pub second : ℕ
second = 1000000000

-- `RECONCILE_INTERVAL`; `parse_duration` is time.ParseDuration, with none for an error.
unfoldable pub reconcile_interval : (Str → Option ℤ) → Str → Option ℤ
reconcile_interval parse_duration raw =
    if str_eq (trim_space raw) []
    then some (pos (15 * second))
    else elim (parse_duration (trim_space raw)) [
      | none ↦ none
      | some parsed ↦
          if not (leb_ℤ (pos second) parsed) || not (leb_ℤ parsed (pos (10 * 60 * second)))
          then none
          else some parsed
    ]

-- What the reconciler reads before it opens the database: the exit code 2, or the interval and key.
unfoldable pub reconciler_configuration :
    (Str → Option ℤ) → (Str → Str) → (Str → Option Str) → Fallible ℕ (ℤ × Str)
reconciler_configuration parse_duration getenv read_file =
    if str_eq (getenv (text "SNAPSHOT_SIGNING_KEY_FILE")) []
    then err 2
    else elim (reconcile_interval parse_duration (getenv (text "RECONCILE_INTERVAL"))) [
      | none ↦ err 2
      | some interval ↦ elim (read_file (getenv (text "SNAPSHOT_SIGNING_KEY_FILE"))) [
        | none ↦ err 2
        | some encoded ↦ elim (parse_private_key (trim_space encoded)) [
          | none ↦ err 2
          | some key ↦ ok (interval, key)
        ]
      ]
    ]

-- What the two calls for one gateway meet.
pub record Attempt : Type 0 where
  pub generation_fault : Option Fault
  pub clock : ℕ
  pub id : Str
  pub now : ℕ
  pub faults : Faults

module _ (s : Server) (h : Hosts) (x : Signing) (key : Str) where
  unfoldable pub publish : Database → Str → Attempt → Database × Option Error
  publish db gateway_id t =
      let (generation, failure) =
        next_gateway_snapshot_generation s db gateway_id t.generation_fault in
      elim failure [
        | some e ↦ (db, some e)
        | none ↦
            let (db', result) =
              enqueue_current_gateway_snapshot h s x db gateway_id generation key t.clock t.id t.now
                t.faults in
            (db', elim result [ err e ↦ some e | ok done ↦ none ])
      ]

  -- The snapshot-publisher: with the generation that is asked for, or with the next one.
  unfoldable pub run_publisher : Database → Str → Option ℤ → Attempt → Database × Option Error
  run_publisher db gateway_id none t = publish db gateway_id t
  run_publisher db gateway_id (some generation) t =
      let (db', result) =
        enqueue_current_gateway_snapshot h s x db gateway_id generation key t.clock t.id t.now
          t.faults in
      (db', elim result [ err e ↦ some e | ok done ↦ none ])

  -- The loop; what is logged for each gateway is an error or none.
  unfoldable pub publish_all :
      (Str → Attempt) → Database → List Str → Database × List (Option Error)
  publish_all attempts db [] = (db, [])
  publish_all attempts db (gateway_id ∷ gateways) =
      let (db', logged) = publish db gateway_id (attempts gateway_id) in
      let (last, rest) = publish_all attempts db' gateways in (last, logged ∷ rest)

  unfoldable pub reconcile :
      Faults → (Str → Attempt) → Database → Database × Fallible Error (List (Option Error))
  reconcile faults attempts db = elim (gateways_needing_snapshot db faults) [
    | err e ↦ (db, err e)
    | ok gateways ↦ let (db', logged) = publish_all attempts db gateways in (db', ok logged)
  ]

-- `strconv.ParseInt` of the trimmed text, with none for an error; the publisher's exit code 2, or
-- the identifier of the gateway and the generation that is asked for, if one is.
unfoldable pub publisher_configuration :
    (Str → Option ℤ) → (Str → Str) → (Str → Option Str) → Fallible ℕ (Str × Option ℤ × Str)
publisher_configuration parse_int getenv read_file =
    let raw : Str = getenv (text "SNAPSHOT_GENERATION") in
    let parsed : Option ℤ = parse_int (trim_space raw) in
    let gateway_id : Str = getenv (text "GATEWAY_ID") in
    let key_file : Str = getenv (text "SNAPSHOT_SIGNING_KEY_FILE") in
    if not (str_eq raw []) && is_none parsed || str_eq gateway_id [] || str_eq key_file []
    then err 2
    else elim (read_file key_file) [
      | none ↦ err 2
      | some encoded ↦ elim (parse_private_key (trim_space encoded)) [
        | none ↦ err 2
        | some key ↦ ok (gateway_id, (if str_eq (trim_space raw) [] then none else parsed), key)
      ]
    ]
  where
    is_none : Option ℤ → Bool
    is_none none = true
    is_none (some n) = false
