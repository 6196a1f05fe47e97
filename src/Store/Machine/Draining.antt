-- ===== src/Store/Machine/Draining.antt =====
-- The order of the deliveries, and that claims come to an end.
use personal_vpn.Prelude.{
  ℕ, zero, suc, length, ◌+◌, ◌≡◌, refl, sym, ap, subst, ◌⊎◌, inl, inr, Bool, true, false, List, [],
  ◌∷◌, some, holds_yes, holds_no, Str, Str-discrete, Fallible, ok, err, leb_ℤ, arith, Bool-cases,
  All, All-every, Has, Has-All,
}
use personal_vpn.Control.{blank}
use personal_vpn.Store.Failures.{no_faults, Error, not_found, map_database_error}
use personal_vpn.Store.Tables.{SnapshotRow, Database, Server, update_where, count_where}
use personal_vpn.Store.Outbox.{
  SnapshotDelivery, delivered, is_claimable, earliest, has_id, send, claim_row, commit,
}
use personal_vpn.Store.Deliveries.{claim_next_snapshot, claim_transaction}
use personal_vpn.Store.Machine.{IsKeyed, IsOrderly, Apart}
use personal_vpn.Store.Machine.Claims.{earliest-All, earliest-least}
use personal_vpn.Store.Machine.Calls.{claim_next_snapshot-Sound}
use personal_vpn.Store.Machine.History.{keyed-Apart}

module _ (s : Server) where
  -- What a claim does that no fault meets.
  pub record Claimed (db : Database) (gateway_id g : Str) (now : ℕ) (locked : List Str)
      (r : SnapshotRow) : Type 0 where
    pub table :
        (claim_next_snapshot s db gateway_id now locked no_faults).0
        ≡ record db { snapshots = update_where (has_id r.id) (send now) db.snapshots }
    pub result : (claim_next_snapshot s db gateway_id now locked no_faults).1 ≡ ok (delivered r)
    pub chosen : earliest (is_claimable g now locked) db.snapshots ≡ some r
    pub claimable : is_claimable g now locked r ≡ true
    pub least :
        All
          (λ q. is_claimable g now locked q ≡ true → leb_ℤ r.generation q.generation ≡ true)
          db.snapshots

  pub record Idle (db : Database) (gateway_id g : Str) (now : ℕ) (locked : List Str) : Type 0 where
    pub answer : claim_next_snapshot s db gateway_id now locked no_faults ≡ (db, err not_found)
    pub none_waits : All (λ q. is_claimable g now locked q ≡ false) db.snapshots

  -- A claim for a named gateway that no fault meets either finds no row to claim, and answers that
  -- nothing was found without a change, or delivers a row that may be claimed and has the least
  -- generation of those, and changes that row alone.
  pub claim-least :
      (db : Database) (gateway_id g : Str) (now : ℕ) (locked : List Str)
      → blank gateway_id ≡ false
      → s.uuid gateway_id ≡ some g
      → Idle db gateway_id g now locked ⊎ ((r : SnapshotRow) × Claimed db gateway_id g now locked r)
  unfolding claim_next_snapshot claim_transaction claim_row commit map_database_error
  claim-least db gateway_id g now locked named known =
      elim (earliest-least (is_claimable g now locked) db.snapshots) [
        | inl (nothing, others) ↦ inl (record { answer = ground arith; none_waits = others })
        | inr (r, picked, low) ↦ inr (
          r,
          record {
            table = ground arith;
            result = ground arith;
            chosen = picked;
            claimable =
                (earliest-All (λ x. Unit) (is_claimable g now locked) db.snapshots r
                  (All-every db.snapshots (λ x. tt)) picked).1;
            least = low;
          },
        )
      ]

count_where-none :
    (p : SnapshotRow → Bool) (rows : List SnapshotRow)
    → All (λ q. p q ≡ false) rows
    → count_where p rows ≡ 0
unfolding count_where
count_where-none p [] h = refl
count_where-none p (r ∷ rows) (here, h) = let rest = count_where-none p rows h in ground arith

count_where-All :
    (p : SnapshotRow → Bool) (rows : List SnapshotRow)
    → count_where p rows ≡ 0
    → All (λ q. p q ≡ false) rows
unfolding count_where
count_where-All p [] e = tt
count_where-All p (r ∷ rows) e = elim (Bool-cases (p r)) [
  | inl yes_it ↦ absurd (ground arith)
  | inr no_it ↦ (no_it, count_where-All p rows (ground arith))
]

-- An update of a row with another identifier changes no count.
count_where-others :
    (p : SnapshotRow → Bool) (f : SnapshotRow → SnapshotRow) (r : SnapshotRow)
    (rows : List SnapshotRow)
    → All (Apart r) rows
    → count_where p (update_where (has_id r.id) f rows) ≡ count_where p rows
unfolding count_where update_where
count_where-others p f r [] apart = refl
count_where-others p f r (q ∷ rows) (first, apart) =
    let rest = count_where-others p f r rows apart in
    elim (Bool-cases (has_id r.id q)) [
      | inl same ↦ absurd (first.0 (holds_yes (Str-discrete q.id r.id) same))
      | inr other ↦ ground arith
    ]

-- An update that takes one row out of the count.
count_where-one :
    (p : SnapshotRow → Bool) (f : SnapshotRow → SnapshotRow) (r : SnapshotRow)
    (rows : List SnapshotRow)
    → IsKeyed rows
    → Has r rows
    → p r ≡ true
    → p (f r) ≡ false
    → count_where p (update_where (has_id r.id) f rows) + 1 ≡ count_where p rows
unfolding count_where update_where
count_where-one p f r [] keyed there before after = absurd there
count_where-one p f r (q ∷ rows) (fresh, keyed) (inl same) before after =
    let rest = count_where-others p f r rows (subst (λ x. All (Apart x) rows) (sym same) fresh) in
    elim (Bool-cases (has_id r.id q)) [
      | inl yes_it ↦
          let picked = subst (λ x. p x ≡ true) same before in
          let changed = subst (λ x. p (f x) ≡ false) same after in ground arith
      | inr no_it ↦ absurd (holds_no (Str-discrete q.id r.id) no_it (ap (λ x. x.id) (sym same)))
    ]
count_where-one p f r (q ∷ rows) (fresh, keyed) (inr later) before after =
    let rest = count_where-one p f r rows keyed later before after in
    let (other, _) = (keyed-Apart q r rows fresh later) in
    elim (Bool-cases (has_id r.id q)) [
      | inl yes_it ↦ absurd (other (sym (holds_yes (Str-discrete q.id r.id) yes_it)))
      | inr no_it ↦ ground arith
    ]

module _ (s : Server) (gateway_id g : Str) (now : ℕ) (locked : List Str) where
  abbrev next : Database → Database × Fallible Error SnapshotDelivery
  next db = claim_next_snapshot s db gateway_id now locked no_faults

  -- Claims one after the other until one is refused; the Boolean tells whether one was.
  unfoldable pub drain : ℕ → Database → Database × List SnapshotDelivery × Bool
  drain zero db = (db, [], false)
  drain (suc n) db =
      let rest = drain n (next db).0 in
      elim (next db).1 [ err e ↦ (db, [], true) | ok d ↦ (rest.0, d ∷ rest.1, rest.2) ]

  drain-idle :
      (n : ℕ) (db : Database) → next db ≡ (db, err not_found) → drain (suc n) db ≡ (db, [], true)
  unfolding drain
  drain-idle n db e = rw (drain, e) refl

  drain-claimed :
      (n : ℕ) (db : Database) (d : SnapshotDelivery)
      → (next db).1 ≡ ok d
      → drain (suc n) db
        ≡ ((drain n (next db).0).0, d ∷ (drain n (next db).0).1, (drain n (next db).0).2)
  unfolding drain
  drain-claimed n db d e = rw (drain, e) refl

  pub record Drained (n : ℕ) (result : Database × List SnapshotDelivery × Bool) : Type 0 where
    pub all_of_them : length result.1 ≡ n
    pub ended : result.2 ≡ true
    pub none_left : All (λ q. is_claimable g now locked q ≡ false) result.0.snapshots

  -- A claim takes one row out of those that wait.
  next-count :
      (db : Database) (r : SnapshotRow)
      → IsKeyed db.snapshots
      → Claimed s db gateway_id g now locked r
      → count_where (is_claimable g now locked) (next db).0.snapshots + 1
        ≡ count_where (is_claimable g now locked) db.snapshots
  unfolding is_claimable
  next-count db r keyed claimed =
      let here =
        (earliest-All (λ q. Has q db.snapshots) (is_claimable g now locked) db.snapshots r
          (Has-All db.snapshots) claimed.chosen).0 in
      subst
        (λ x.
          count_where (is_claimable g now locked) x.snapshots + 1
          ≡ count_where (is_claimable g now locked) db.snapshots)
        (sym claimed.table)
        (count_where-one (is_claimable g now locked) (send now) r db.snapshots keyed here
          claimed.claimable (ground arith))

  drain-Idle :
      (n : ℕ) (db : Database)
      → Idle s db gateway_id g now locked
      → count_where (is_claimable g now locked) db.snapshots ≡ n
      → Drained n (drain (suc n) db)
  drain-Idle n db idle counted =
      let nothing = count_where-none (is_claimable g now locked) db.snapshots idle.none_waits in
      subst (Drained n) (sym (drain-idle n db idle.answer))
        (record { all_of_them = ground arith; ended = refl; none_left = idle.none_waits })

  drain_from :
      (n : ℕ) (db : Database)
      → blank gateway_id ≡ false
      → s.uuid gateway_id ≡ some g
      → IsKeyed db.snapshots
      → All IsOrderly db.snapshots
      → count_where (is_claimable g now locked) db.snapshots ≡ n
      → Drained n (drain (suc n) db)
  drain_from zero db named known keyed orderly counted =
      elim (claim-least s db gateway_id g now locked named known) [
        | inl idle ↦ drain-Idle zero db idle counted
        | inr (r, claimed) ↦ let fewer = next-count db r keyed claimed in absurd (ground arith)
      ]
  drain_from (suc k) db named known keyed orderly counted =
      elim (claim-least s db gateway_id g now locked named known) [
        | inl idle ↦ drain-Idle (suc k) db idle counted
        | inr (r, claimed) ↦
            let fewer = next-count db r keyed claimed in
            let sound =
              claim_next_snapshot-Sound s db gateway_id now locked no_faults keyed orderly in
            let more =
              drain_from k (next db).0 named known sound.keyed sound.orderly (ground arith) in
            subst (Drained (suc k)) (sym (drain-claimed (suc k) db (delivered r) claimed.result))
              (record {
                all_of_them = ap suc more.all_of_them;
                ended = more.ended;
                none_left = more.none_left;
              })
      ]

  -- From distinct keys and orderly rows, as many claims for a gateway as there are rows to claim,
  -- without faults, deliver one snapshot each; the next claim is refused, and no row to claim is
  -- left.
  pub drain-Drained :
      (db : Database)
      → blank gateway_id ≡ false
      → s.uuid gateway_id ≡ some g
      → IsKeyed db.snapshots
      → All IsOrderly db.snapshots
      → Drained
          (count_where (is_claimable g now locked) db.snapshots)
          (drain (suc (count_where (is_claimable g now locked) db.snapshots)) db)
  drain-Drained db named known keyed orderly =
      drain_from (count_where (is_claimable g now locked) db.snapshots) db named known keyed orderly
        refl
