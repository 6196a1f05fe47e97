-- ===== src/Store/Reconciler/Passes.antt =====
-- What a pass of the reconciler leaves.
use personal_vpn.Prelude.{
  ℕ, ◌≡◌, refl, sym, subst, ap, ◌∙◌, ◌⊎◌, inl, inr, true, ◌||◌, ◌==◌, not, List, [], ◌∷◌, ◌++◌,
  Option, none, some, holds-true, arith, Str, Str-discrete, length, Fallible, ok, ℤ, pos, leb_ℤ,
  Bool-cases, Option-cases, Result-cases, All,
}
use personal_vpn.Agent.Snapshot.{Signing}
use personal_vpn.Store.Failures.{
  Error, Faults, invalid_input, unwrapped, server, invalid_text, map_database_error,
}
use personal_vpn.Store.Tables.{Database, Server, str_eq, exists_where}
use personal_vpn.Store.Publishing.{
  Hosts, is_outstanding_for, enqueue_current_gateway_snapshot, signed_payload, current_snapshot,
  next_gateway_snapshot_generation, gateways_needing_snapshot,
}
use personal_vpn.Store.Reconciler.{Attempt, publish, publish_all, reconcile}
use personal_vpn.Store.Reconciler.Insertions.{
  unchanged, added, Grows, append_nil, append_assoc, exists_where-append, exists_where-last, Ends,
  enqueue_snapshot-Ends,
}

Grows-refl : (db : Database) → Grows db db
Grows-refl db = ([], ap (λ z. record db { snapshots = z }) (sym (append_nil db.snapshots)))

Grows-trans : (a b c : Database) → Grows a b → Grows b c → Grows a c
Grows-trans a b c (more, one) (rest, all) = (
  more ++ rest,
  all
      ∙ (ap {A = Database} (λ z. record z { snapshots = z.snapshots ++ rest }) one
          ∙ ap (λ z. record a { snapshots = z }) (append_assoc a.snapshots more rest)),
)

module _ (s : Server) where
  pub Ends-Grows :
      (db : Database) (gateway_id : Str) (result : Database × Fallible Error (Unit {0}))
      → Ends s db gateway_id result
      → Grows db result.0
  Ends-Grows db gateway_id result (unchanged e same) = (
    [],
    ap (λ z. z.0) same ∙ ap (λ z. record db { snapshots = z }) (sym (append_nil db.snapshots)),
  )
  Ends-Grows db gateway_id result (added g r known its fresh same) = (r ∷ [], same)

  module _ (h : Hosts) (x : Signing) where
    enqueue_current-Ends :
        (db : Database) (gateway_id : Str) (generation : ℤ) (key : Str) (clock : ℕ) (id : Str)
        (now : ℕ) (faults : Faults)
        → Ends s db gateway_id (
            enqueue_current_gateway_snapshot h s x db gateway_id generation key clock id now faults)
    unfolding enqueue_current_gateway_snapshot
    enqueue_current-Ends db gateway_id generation key clock id now faults =
        elim (Bool-cases
          (str_eq gateway_id [] || leb_ℤ generation (pos 0) || not (length key == 64))) [
            | inl bad ↦ unchanged invalid_input (rw (enqueue_current_gateway_snapshot, bad) refl)
            | inr good ↦ elim (Option-cases (faults 0)) [
              | inr (f, e0) ↦
                  unchanged (map_database_error f.failure)
                    (rw (enqueue_current_gateway_snapshot, good, e0) refl)
              | inl e0 ↦ elim (Option-cases (s.uuid gateway_id)) [
                | inl u ↦
                    unchanged (map_database_error (server invalid_text))
                      (rw (enqueue_current_gateway_snapshot, good, e0, u) refl)
                | inr (g, u) ↦ elim (Option-cases (faults 1)) [
                  | inr (f, e1) ↦
                      unchanged (unwrapped f.failure)
                        (rw (enqueue_current_gateway_snapshot, good, e0, u, e1) refl)
                  | inl e1 ↦
                      elim (Result-cases (
                        signed_payload h s x (current_snapshot h db g gateway_id generation clock)
                          key)) [
                            | inl (f, e2) ↦
                                unchanged f
                                  (rw (enqueue_current_gateway_snapshot, good, e0, u, e1, e2) refl)
                            | inr ((payload, signature), e2) ↦
                                rw (enqueue_current_gateway_snapshot, good, e0, u, e1, e2)
                                  (enqueue_snapshot-Ends s db gateway_id generation payload
                                    signature id now (faults 2))
                          ]
                ]
              ]
            ]
          ]

    Ends-outstanding :
        (db : Database) (gateway_id : Str) (result : Database × Fallible Error (Unit {0}))
        → Ends s db gateway_id result
        → s.uuid gateway_id ≡ some gateway_id
        → result.1 ≡ ok tt
        → exists_where (is_outstanding_for gateway_id) result.0.snapshots ≡ true
    Ends-outstanding db gateway_id result (unchanged e same) canonical done = absurd (ground arith)
    Ends-outstanding db gateway_id result (added g r known its fresh same) canonical done =
        let own : r.gateway_id ≡ gateway_id = its ∙ ground arith in
        let named : str_eq r.gateway_id gateway_id ≡ true =
          holds-true (Str-discrete r.gateway_id gateway_id) own in
        subst (λ z. exists_where (is_outstanding_for gateway_id) z.snapshots ≡ true) (sym same)
          (exists_where-last (is_outstanding_for gateway_id) db.snapshots r (ground arith))

    module _ (key : Str) where
      publish-Grows :
          (db : Database) (gateway_id : Str) (t : Attempt)
          → Grows db (publish s h x key db gateway_id t).0
      unfolding publish
      publish-Grows db gateway_id t =
          elim (Option-cases
            (next_gateway_snapshot_generation s db gateway_id t.generation_fault).1) [
              | inr (e, failed) ↦ rw (publish, failed) (Grows-refl db)
              | inl fine ↦
                  let generation =
                    (next_gateway_snapshot_generation s db gateway_id t.generation_fault).0 in
                  rw (publish, fine)
                    (Ends-Grows db gateway_id
                      (enqueue_current_gateway_snapshot h s x db gateway_id generation key t.clock
                        t.id t.now t.faults)
                      (enqueue_current-Ends db gateway_id generation key t.clock t.id t.now
                        t.faults))
            ]

      publish-outstanding :
          (db : Database) (gateway_id : Str) (t : Attempt)
          → s.uuid gateway_id ≡ some gateway_id
          → (publish s h x key db gateway_id t).1 ≡ none
          → exists_where
              (is_outstanding_for gateway_id)
              (publish s h x key db gateway_id t).0.snapshots
            ≡ true
      unfolding publish
      publish-outstanding db gateway_id t canonical logged =
          elim (Option-cases
            (next_gateway_snapshot_generation s db gateway_id t.generation_fault).1) [
              | inr (e, failed) ↦ absurd (ground arith)
              | inl fine ↦
                  let generation : ℤ =
                    (next_gateway_snapshot_generation s db gateway_id t.generation_fault).0 in
                  let result : Database × Fallible Error (Unit {0}) =
                    enqueue_current_gateway_snapshot h s x db gateway_id generation key t.clock t.id
                      t.now t.faults in
                  elim (Result-cases result.1) [
                    | inl (e, refused) ↦ absurd (ground arith)
                    | inr (done, accepted) ↦
                        rw (publish, fine)
                          (Ends-outstanding db gateway_id result
                            (enqueue_current-Ends db gateway_id generation key t.clock t.id t.now
                              t.faults)
                            canonical accepted)
                  ]
            ]

      publish_all-Grows :
          (attempts : Str → Attempt) (db : Database) (gateways : List Str)
          → Grows db (publish_all s h x key attempts db gateways).0
      unfolding publish_all
      publish_all-Grows attempts db [] = Grows-refl db
      publish_all-Grows attempts db (g ∷ gateways) =
          let db' = (publish s h x key db g (attempts g)).0 in
          Grows-trans db db' (publish_all s h x key attempts db' gateways).0
            (publish-Grows db g (attempts g)) (publish_all-Grows attempts db' gateways)

      -- For each gateway, an error was logged, or a snapshot of it waits or is on its way.
      abbrev pub Quiet : Database → List Str → List (Option Error) → Type 0
      Quiet db [] [] = Unit
      Quiet db [] (l ∷ logged) = ⊥
      Quiet db (g ∷ gateways) [] = ⊥
      Quiet db (g ∷ gateways) (l ∷ logged) =
          (((e : Error) × (l ≡ some e)) ⊎ (exists_where (is_outstanding_for g) db.snapshots ≡ true))
          × Quiet db gateways logged

      pub publish_all-Quiet :
          (attempts : Str → Attempt) (db : Database) (gateways : List Str)
          → All (λ g. s.uuid g ≡ some g) gateways
          → Quiet
              (publish_all s h x key attempts db gateways).0
              gateways
              (publish_all s h x key attempts db gateways).1
      unfolding publish_all
      publish_all-Quiet attempts db [] canonical = tt
      publish_all-Quiet attempts db (g ∷ gateways) (first, canonical) =
          let db' = (publish s h x key db g (attempts g)).0 in
          let (rest, all) = publish_all-Grows attempts db' gateways in
          (
            elim (Option-cases (publish s h x key db g (attempts g)).1) [
              | inr (e, failed) ↦ inl (e, failed)
              | inl quiet ↦ inr (
                  subst (λ z. exists_where (is_outstanding_for g) z.snapshots ≡ true) (sym all)
                    (exists_where-append (is_outstanding_for g) db'.snapshots rest
                      (publish-outstanding db g (attempts g) first quiet)))
            ],
            publish_all-Quiet attempts db' gateways canonical,
          )

      -- A pass of the reconciler that has listed the gateways, with canonical identifiers, goes
      -- through all of them whatever fails, only adds rows to the outbox and changes no other
      -- table, and for each of them either logs an error or leaves a snapshot that is queued or in
      -- flight.
      pub reconcile-Quiet :
          (faults : Faults) (attempts : Str → Attempt) (db : Database) (gateways : List Str)
          → gateways_needing_snapshot db faults ≡ ok gateways
          → All (λ g. s.uuid g ≡ some g) gateways
          → (logged : List (Option Error)) × ((reconcile s h x key faults attempts db).1
              ≡ ok logged)
            × Quiet (reconcile s h x key faults attempts db).0 gateways logged
            × Grows db (reconcile s h x key faults attempts db).0
      unfolding reconcile
      reconcile-Quiet faults attempts db gateways listed canonical = (
        (publish_all s h x key attempts db gateways).1,
        rw (reconcile, listed) refl,
        rw (reconcile, listed) (publish_all-Quiet attempts db gateways canonical),
        rw (reconcile, listed) (publish_all-Grows attempts db gateways),
      )
