-- ===== src/Store/Allocation/Leases.antt =====
-- No two leases that are not released share an address of a region, or a device.
use personal_vpn.Prelude.{
  ◌≡◌, sym, subst, inl, inr, ◌==◌, Bool, false, ◌&&◌, ◌||◌, List, [], ◌∷◌, ◌++◌, Str, length, ltb,
  arith, Bool-cases, Option-cases, Result-cases, All, All-append,
}
use personal_vpn.Control.{blank}
use personal_vpn.Store.Tables.{LeaseRow, Database, str_eq}
use personal_vpn.Store.Tables.Lookups.{exists_where-All}
use personal_vpn.Store.Confirmation.{is_unreleased}
use personal_vpn.Store.Machine.Statements.{commit-keeps}
use personal_vpn.Store.Allocation.{Externals, Draws, is_same_lease}
use personal_vpn.Store.Allocation.Creation.{
  Query, query_of, transaction, run_transaction, create_tunnel_configuration,
}
use personal_vpn.Store.Allocation.Outcomes.{Leased}
use personal_vpn.Store.Allocation.Keys.{transaction-Committed}

abbrev pub clash : LeaseRow → LeaseRow → Bool
clash l q =
    is_unreleased l
    && is_unreleased q
    && (str_eq q.device_id l.device_id
        || str_eq q.region_id l.region_id && (q.ipv4 == l.ipv4 || q.ipv6 == l.ipv6))

abbrev pub LeasesApart : List LeaseRow → Type 0
LeasesApart [] = Unit
LeasesApart (l ∷ leases) = All (λ q. clash q l ≡ false) leases × LeasesApart leases

append-LeasesApart :
    (leases : List LeaseRow) (l : LeaseRow)
    → LeasesApart leases
    → All (λ q. is_same_lease l q ≡ false) leases
    → LeasesApart (leases ++ l ∷ [])
append-LeasesApart [] l apart fresh = (tt, tt)
append-LeasesApart (q ∷ leases) l (first, apart) (here, fresh) = (
  All-append (λ z. clash z q ≡ false) leases (l ∷ []) first (clashes q here, tt),
  append-LeasesApart leases l apart fresh,
)
  where
    clashes : (q : LeaseRow) → is_same_lease l q ≡ false → clash l q ≡ false
    clashes q other = ground arith

Leased-LeasesApart :
    (x : Externals) (q : Query) (t : Draws) (db db' : Database)
    → LeasesApart db.leases
    → Leased x q t db db'
    → LeasesApart db'.leases
Leased-LeasesApart x q t db db' apart (inl same) = subst LeasesApart (sym same) apart
Leased-LeasesApart x q t db db' apart (inr (l, unused, added)) =
    subst LeasesApart (sym added)
      (append-LeasesApart db.leases l apart (exists_where-All (is_same_lease l) db.leases unused))

run_transaction-LeasesApart :
    (x : Externals) (q : Query) (t : Draws) (db : Database)
    → LeasesApart db.leases
    → LeasesApart (run_transaction x db q t).0.leases
unfolding run_transaction
run_transaction-LeasesApart x q t db apart = elim (Result-cases (transaction x db q t)) [
  | inl (f, e) ↦ rw (run_transaction, e) apart
  | inr (o, e) ↦
      let end = transaction-Committed x q t db o e in
      let after : LeasesApart o.database.leases = elim end.way [
        | inl (_, same) ↦ subst (λ z. LeasesApart z.leases) (sym same) apart
        | inr (_, a) ↦ Leased-LeasesApart x q t db o.database apart a.leased
      ] in
      rw (run_transaction, e)
        (commit-keeps (λ z. LeasesApart z.leases) o.label (t.faults 12) db o.database
          (o.configuration, o.created) apart after)
]

-- Every call for a configuration, with whatever faults and on every branch, keeps the leases
-- apart: no two that are not released have one device, or one region and one address of either
-- family.
pub create-LeasesApart :
    (x : Externals) (db : Database) (owner_id device_id region_id key : Str) (t : Draws)
    → LeasesApart db.leases
    → LeasesApart (create_tunnel_configuration x db owner_id device_id region_id key t).0.leases
unfolding create_tunnel_configuration
create-LeasesApart x db owner_id device_id region_id key t apart =
    elim (Bool-cases (
      blank owner_id
      || blank device_id
      || blank region_id
      || ltb (length key) 16
      || ltb 128 (length key))) [
        | inl bad ↦ rw (create_tunnel_configuration, bad) apart
        | inr good ↦ elim (Option-cases (t.faults 0)) [
          | inr (f, e) ↦ rw (create_tunnel_configuration, good, e) apart
          | inl begun ↦ elim (Option-cases (x.server_of.uuid device_id)) [
            | inl e ↦ rw (create_tunnel_configuration, good, begun, e) apart
            | inr (device, d) ↦ elim (Option-cases (x.server_of.uuid owner_id)) [
              | inl e ↦ rw (create_tunnel_configuration, good, begun, d, e) apart
              | inr (owner, o) ↦
                  rw (create_tunnel_configuration, good, begun, d, o)
                    (run_transaction-LeasesApart x (query_of owner device device_id region_id key) t
                      db apart)
            ]
          ]
        ]
      ]
