-- ===== src/Agent/Worker/Sync.antt =====
-- The interface follows the snapshots; what a lost acknowledgement leaves behind.
use personal_vpn.Prelude.{
  ◌≡◌, sym, subst, ap, ◌∙◌, ◌⊎◌, inl, inr, true, false, List, [], ◌∷◌, Option, none, some, arith,
  Str, Str-discrete, Map, IsMap, get, leb_ℤ,
}
use personal_vpn.Agent.Snapshot.{
  Peer, Snapshot, Operation, Error, ok, ParsePrefix, Signing, diff, by_key,
}
use personal_vpn.Agent.Snapshot.Operations.{perform_all, op_at, outcome, or_else, get-perform_all}
use personal_vpn.Agent.Snapshot.Changes.{
  change, gone, IsSelfKeyed, by_key-IsMap, by_key-IsSelfKeyed,
}
use personal_vpn.Agent.Snapshot.Converges.{diff-op_at, diff-IsDistinct, diff-perform_all}
use personal_vpn.Agent.Worker.{
  Delivery, Worker, Round, claimed, applied, acked, Outcome, install, advance, apply_once,
  retry_delivery,
}
use personal_vpn.Agent.Worker.Calls.{acks, interface_after}
use personal_vpn.Agent.Worker.Steps.{Verified, received}
use personal_vpn.Agent.Worker.Outcomes.{IsInstall, apply_once-Ends}

-- Both maps give the same peer for each key.
abbrev pub IsSame : Map Str Peer → Map Str Peer → Type 0
IsSame m n = (k : Str) → get Str-discrete k m ≡ get Str-discrete k n

-- The worker knows the peers of the interface.
pub record InSync (w : Worker) (m : Map Str Peer) : Type 0 where
  pub known : IsSame m w.current_peers
  pub distinct : IsMap Str-discrete w.current_peers
  pub self_keyed : IsSelfKeyed w.current_peers

-- An applier that reports success has done all the operations.
abbrev pub IsHonest : Round → Type 0
IsHonest r = (ops : List Operation) → (r.applies ops).1 ≡ none → (r.applies ops).0 ≡ ops

module _ (parse_prefix : ParsePrefix) where
  -- The difference to the known peers takes any interface with the same peers to the wanted ones.
  pub converges :
      (w : Worker) (m : Map Str Peer) (s : Snapshot) (ops : List Operation)
      → InSync w m
      → diff parse_prefix s w.current_peers ≡ ok ops
      → IsSame (perform_all ops m) (by_key [] s.peers)
  converges w m s ops sync e k =
      let distinct =
        diff-IsDistinct parse_prefix s w.current_peers ops sync.distinct sync.self_keyed e in
      let there =
        diff-perform_all parse_prefix s w.current_peers ops k sync.distinct sync.self_keyed e in
      get-perform_all k ops m distinct
      ∙ (ap (outcome (op_at k ops)) (sync.known k)
          ∙ (sym (get-perform_all k ops w.current_peers distinct) ∙ there))

-- The ways that an installation ends.
install_ok :
    (w : Worker) (r : Round) (d : Delivery) (s : Snapshot) (ops : List Operation)
    → (install w r d s ops).2 ≡ none
    → ((r.applies ops).1 ≡ none)
      × (install w r d s ops ≡ (
        advance w s,
        claimed ∷ applied ops (r.applies ops).0 ∷ acked d.id d.generation ∷ [],
        none,
      ))
unfolding install retry_delivery
install_ok w r d s ops e = ground arith

install_lost :
    (w : Worker) (r : Round) (d : Delivery) (s : Snapshot) (ops : List Operation) (lost : Error)
    → (r.applies ops).1 ≡ none
    → r.ack ≡ some lost
    → install w r d s ops
      ≡ (w, claimed ∷ applied ops (r.applies ops).0 ∷ acked d.id d.generation ∷ [], some lost)
unfolding install retry_delivery
install_lost w r d s ops lost e f = ground arith

install-acks :
    (w : Worker) (r : Round) (d : Delivery) (s : Snapshot) (ops : List Operation)
    → acks (install w r d s ops).1 ≡ true
    → (r.applies ops).1 ≡ none
unfolding install retry_delivery
install-acks w r d s ops e = ground arith

install-generation :
    (w : Worker) (r : Round) (d : Delivery) (s : Snapshot) (ops : List Operation)
    → leb_ℤ s.generation w.current.generation ≡ false
    → leb_ℤ w.current.generation (install w r d s ops).0.current.generation ≡ true
unfolding install retry_delivery advance
install-generation w r d s ops e = ground arith

module _ (x : Signing) (parse_prefix : ParsePrefix) (unmarshal : Str → Option Snapshot) where
  abbrev after : Worker → Round → Outcome
  after = apply_once x parse_prefix unmarshal

  abbrev Install : Worker → Round → Type 0
  Install w r = IsInstall x parse_prefix unmarshal w r (apply_once x parse_prefix unmarshal w r)

  -- A round that acknowledges its delivery had a delivery that decodes, has the generation of its
  -- envelope and verifies under the worker's key, and either that generation is not newer than the
  -- current one, or the difference to the known peers was applied without an error.
  pub apply_once-acks :
      (w : Worker) (r : Round)
      → acks (apply_once x parse_prefix unmarshal w r).1 ≡ true
      → (v : Verified x parse_prefix unmarshal w r) × ((leb_ℤ v.payload.generation
              w.current.generation
            ≡ true)
          ⊎ ((ops : List Operation) × (diff parse_prefix
                  (received x parse_prefix unmarshal v)
                  w.current_peers
                ≡ ok ops)
              × ((r.applies ops).1 ≡ none)))
  apply_once-acks w r e = elim (apply_once-Ends x parse_prefix unmarshal w r) [
    | inl q ↦ let silent = q.silent in absurd (ground arith)
    | inr (inl s) ↦ (s.verified, inl s.old)
    | inr (inr i) ↦ (
      i.verified,
      inr (
        i.operations,
        i.differs,
        install-acks w r i.verified.delivery (received x parse_prefix unmarshal i.verified)
            i.operations (subst (λ o. acks (o.1) ≡ true) i.result e),
      ),
    )
  ]

  -- No round lowers the generation that the worker stands at, whatever it is delivered and
  -- whatever fails.
  pub apply_once-generation :
      (w : Worker) (r : Round)
      → leb_ℤ w.current.generation (apply_once x parse_prefix unmarshal w r).0.current.generation
        ≡ true
  apply_once-generation w r = elim (apply_once-Ends x parse_prefix unmarshal w r) [
    | inl q ↦
        subst (λ u. leb_ℤ w.current.generation u.current.generation ≡ true) (sym q.same)
          (ground arith)
    | inr (inl s) ↦
        subst (λ o. leb_ℤ w.current.generation (o.0).current.generation ≡ true) (sym s.result)
          (ground arith)
    | inr (inr i) ↦
        subst (λ o. leb_ℤ w.current.generation (o.0).current.generation ≡ true) (sym i.result)
          (install-generation w r i.verified.delivery (received x parse_prefix unmarshal i.verified)
            i.operations i.new)
  ]

  installed :
      (w : Worker) (r : Round) (m : Map Str Peer) (i : Install w r)
      → InSync w m
      → IsHonest r
      → (apply_once x parse_prefix unmarshal w r).2 ≡ none
      → InSync
          (apply_once x parse_prefix unmarshal w r).0
          (interface_after (apply_once x parse_prefix unmarshal w r).1 m)
  unfolding advance
  installed w r m i sync honest e =
      let s = received x parse_prefix unmarshal i.verified in
      let (applied_all, result) =
        install_ok w r i.verified.delivery s i.operations (subst (λ o. o.2 ≡ none) i.result e) in
      subst (λ o. InSync (o.0) (interface_after (o.1) m)) (sym (i.result ∙ result))
        (record {
          known =
              subst (λ done. IsSame (perform_all done m) (by_key [] s.peers))
                (sym (honest i.operations applied_all))
                (converges parse_prefix w m s i.operations sync i.differs);
          distinct = by_key-IsMap [] s.peers tt;
          self_keyed = by_key-IsSelfKeyed [] s.peers tt;
        })

  -- When the peers known to the worker are those of the interface and the applier does all that it
  -- reports, a round that returns no error keeps the two the same: the peers of the interface
  -- after the calls of the round are those that the worker then knows.
  pub apply_once-InSync :
      (w : Worker) (r : Round) (m : Map Str Peer)
      → InSync w m
      → IsHonest r
      → (apply_once x parse_prefix unmarshal w r).2 ≡ none
      → InSync
          (apply_once x parse_prefix unmarshal w r).0
          (interface_after (apply_once x parse_prefix unmarshal w r).1 m)
  apply_once-InSync w r m sync honest e = elim (apply_once-Ends x parse_prefix unmarshal w r) [
    | inl q ↦ absurd (q.failed e)
    | inr (inl s) ↦
        subst (λ o. InSync (o.0) (interface_after (o.1) m)) (sym s.result)
          (record { known = sync.known; distinct = sync.distinct; self_keyed = sync.self_keyed })
    | inr (inr i) ↦ installed w r m i sync honest e
  ]

  -- When a round applies a snapshot but its acknowledgement fails, the worker stays as it was, so
  -- a peer that it does not know and that this snapshot added stays on the interface through a
  -- later successful installation of a snapshot without the peer.
  pub lost_ack :
      (w : Worker) (r1 r2 : Round) (m : Map Str Peer) (k : Str) (p : Peer) (lost : Error)
      (i1 : IsInstall x parse_prefix unmarshal w r1 (apply_once x parse_prefix unmarshal w r1))
      (i2 : IsInstall x parse_prefix unmarshal w r2 (apply_once x parse_prefix unmarshal w r2))
      → InSync w m
      → IsHonest r1
      → IsHonest r2
      → (r1.applies i1.operations).1 ≡ none
      → r1.ack ≡ some lost
      → (apply_once x parse_prefix unmarshal w r2).2 ≡ none
      → get Str-discrete k w.current_peers ≡ none
      → get Str-discrete k (by_key [] i1.verified.payload.peers) ≡ some p
      → get Str-discrete k (by_key [] i2.verified.payload.peers) ≡ none
      → ((apply_once x parse_prefix unmarshal w r1).0 ≡ w)
        × (get Str-discrete k (
              interface_after
                (apply_once x parse_prefix unmarshal w r2).1
                (interface_after (apply_once x parse_prefix unmarshal w r1).1 m))
            ≡ some p)
  lost_ack w r1 r2 m k p lost i1 i2 sync h1 h2 done noack e2 unknown wanted unwanted =
      let s1 = received x parse_prefix unmarshal i1.verified in
      let s2 = received x parse_prefix unmarshal i2.verified in
      let first =
        i1.result ∙ install_lost w r1 i1.verified.delivery s1 i1.operations lost done noack in
      let (all2, result2) =
        install_ok w r2 i2.verified.delivery s2 i2.operations
          (subst (λ o. o.2 ≡ none) i2.result e2) in
      let second = i2.result ∙ result2 in
      let o2 = apply_once x parse_prefix unmarshal w r2 in
      let done1 = (r1.applies i1.operations).0 in
      let none_at =
        diff-op_at parse_prefix s2 w.current_peers i2.operations k sync.distinct sync.self_keyed
          i2.differs
        ∙ (ap
              (λ o.
                or_else (change o (get Str-discrete k w.current_peers))
                  (gone (get Str-discrete k w.current_peers) o))
              unwanted
            ∙ ap (λ o. or_else (change none o) (gone o none)) unknown) in
      (
        ap (λ o. o.0) first,
        subst (λ o. get Str-discrete k (interface_after (o2.1) (interface_after (o.1) m)) ≡ some p)
            (sym first)
            (subst (λ o. get Str-discrete k (interface_after (o.1) (perform_all done1 m)) ≡ some p)
              (sym second)
              (subst
                (λ l.
                  get Str-discrete k (perform_all (r2.applies i2.operations).0 (perform_all l m))
                  ≡ some p)
                (sym (h1 i1.operations done))
                (subst
                  (λ l. get Str-discrete k (perform_all l (perform_all i1.operations m)) ≡ some p)
                  (sym (h2 i2.operations all2))
                  (get-perform_all k i2.operations (perform_all i1.operations m) (
                      diff-IsDistinct parse_prefix s2 w.current_peers i2.operations sync.distinct
                        sync.self_keyed i2.differs)
                    ∙ (ap (λ o. outcome o (get Str-discrete k (perform_all i1.operations m)))
                          none_at
                        ∙ (converges parse_prefix w m s1 i1.operations sync i1.differs k
                            ∙ wanted)))))),
      )
