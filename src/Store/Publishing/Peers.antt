-- ===== src/Store/Publishing/Peers.antt =====
-- Which peers EnqueueCurrentGatewaySnapshot publishes.
use personal_vpn.Prelude.{
  ◌≡◌, refl, sym, ap, subst, text, ◌↔◌, ◌⊎◌, inl, inr, true, ◌&&◌, List, [], ◌∷◌, ◌++◌, some, Str,
  Str-discrete, holds_yes, holds-true, arith, Bool-cases, Option-cases, Has, Has-map, map-Has,
  append-Has, Has-append_left, Has-append_right,
}
use personal_vpn.Agent.Snapshot.{Peer, str_lt}
use personal_vpn.Store.Tables.{
  AssignmentRow, DeviceRow, LeaseRow, Database, str_eq, is_live, find_where,
}
use personal_vpn.Store.Publishing.{
  Hosts, has_device, has_lease, peer_of, join_row, join_rows, current_peers, insert_by, order_by,
}

module _ {A : Type 0} (key : A → Str) where
  insert_by-cases :
      (a b : A) (l : List A)
      → (insert_by key a (b ∷ l) ≡ b ∷ insert_by key a l) ⊎ (insert_by key a (b ∷ l) ≡ a ∷ b ∷ l)
  unfolding insert_by
  insert_by-cases a b l = elim (Bool-cases (str_lt (key b) (key a))) [
    | inl after ↦ inl (rw (insert_by, after) refl)
    | inr before ↦ inr (rw (insert_by, before) refl)
  ]

  -- Sorting keeps what there is.
  insert_by-Has : (x a : A) (l : List A) → Has x (insert_by key a l) → Has x (a ∷ l)
  unfolding insert_by
  insert_by-Has x a [] here = here
  insert_by-Has x a (b ∷ l) here = elim (insert_by-cases a b l) [
    | inl after ↦ elim (subst (Has x) after here) [
      | inl same ↦ inr (inl same)
      | inr later ↦ elim (insert_by-Has x a l later) [
        | inl same ↦ inl same
        | inr there ↦ inr (inr there)
      ]
    ]
    | inr before ↦ subst (Has x) before here
  ]

  Has-insert_by : (x a : A) (l : List A) → Has x (a ∷ l) → Has x (insert_by key a l)
  unfolding insert_by
  Has-insert_by x a [] here = here
  Has-insert_by x a (b ∷ l) here = elim (insert_by-cases a b l) [
    | inl after ↦ subst (Has x) (sym after) (elim here [
      | inl same ↦ inr (Has-insert_by x a l (inl same))
      | inr (inl same) ↦ inl same
      | inr (inr later) ↦ inr (Has-insert_by x a l (inr later))
    ])
    | inr before ↦ subst (Has x) (sym before) here
  ]

  pub order_by-Has : (x : A) (l : List A) → Has x (order_by key l) ↔ Has x l
  unfolding order_by
  order_by-Has x [] = ((λ here. here), (λ here. here))
  order_by-Has x (a ∷ l) =
      let (out, back) = order_by-Has x l in
      (
        (λ here. elim (insert_by-Has x a (order_by key l) here) [
          | inl same ↦ inl same
          | inr later ↦ inr (out later)
        ]),
        (λ here.
            Has-insert_by x a (order_by key l)
              (elim here [ inl same ↦ inl same | inr later ↦ inr (back later) ])),
      )

module _ (h : Hosts) (db : Database) (gateway_id : Str) where
  -- The row of a live assignment of the gateway: the key of its device and the addresses of its
  -- lease, as prefixes of one host.
  pub record IsRow (assignments : List AssignmentRow) (row : Str × Peer) : Type 0 where
    pub assignment : AssignmentRow
    pub device : DeviceRow
    pub lease : LeaseRow
    pub stored : Has assignment assignments
    pub of_gateway : assignment.gateway_id ≡ gateway_id
    pub live : is_live assignment.state ≡ true
    pub its_device : find_where (has_device assignment) db.devices ≡ some device
    pub its_lease : find_where (has_lease assignment) db.leases ≡ some lease
    pub its_id : row.0 ≡ device.id
    pub its_key : row.1.public_key ≡ device.public_key
    pub its_ipv4 : row.1.ipv4 ≡ h.host_ipv4 lease.ipv4 ++ text "/32"
    pub its_ipv6 : row.1.ipv6 ≡ h.host_ipv6 lease.ipv6 ++ text "/128"

  later-IsRow :
      (a : AssignmentRow) (assignments : List AssignmentRow) (row : Str × Peer)
      → IsRow assignments row
      → IsRow (a ∷ assignments) row
  later-IsRow a assignments row r = record {
    assignment = r.assignment;
    device = r.device;
    lease = r.lease;
    stored = inr r.stored;
    of_gateway = r.of_gateway;
    live = r.live;
    its_device = r.its_device;
    its_lease = r.its_lease;
    its_id = r.its_id;
    its_key = r.its_key;
    its_ipv4 = r.its_ipv4;
    its_ipv6 = r.its_ipv6;
  }

  first-IsRow :
      (a : AssignmentRow) (assignments : List AssignmentRow) (row : Str × Peer)
      → a.gateway_id ≡ gateway_id
      → is_live a.state ≡ true
      → Has row (join_row h db a)
      → IsRow (a ∷ assignments) row
  unfolding join_row peer_of
  first-IsRow a assignments row of_gateway live here =
      elim (Option-cases (find_where (has_device a) db.devices)) [
        | inl e ↦
            let none_of_it : join_row h db a ≡ [] = rw (join_row, e) refl in
            absurd (subst (Has row) none_of_it here)
        | inr (d, e) ↦ elim (Option-cases (find_where (has_lease a) db.leases)) [
          | inl e2 ↦
              let none_of_it : join_row h db a ≡ [] = rw (join_row, e, e2) refl in
              absurd (subst (Has row) none_of_it here)
          | inr (l, e2) ↦
              let one : join_row h db a ≡ (d.id, peer_of h d l) ∷ [] = rw (join_row, e, e2) refl in
              let same = only (subst (Has row) one here) in
              record {
                assignment = a;
                device = d;
                lease = l;
                stored = inl refl;
                of_gateway = of_gateway;
                live = live;
                its_device = e;
                its_lease = e2;
                its_id = ap (λ z. z.0) same;
                its_key = ap (λ z. z.1.public_key) same;
                its_ipv4 = ap (λ z. z.1.ipv4) same;
                its_ipv6 = ap (λ z. z.1.ipv6) same;
              }
        ]
      ]
    where
      only : {z : Str × Peer} → Has row (z ∷ []) → row ≡ z
      only (inl same) = same
      only (inr nothing) = absurd nothing

  join_rows-IsRow :
      (assignments : List AssignmentRow) (row : Str × Peer)
      → Has row (join_rows h db gateway_id assignments)
      → IsRow assignments row
  unfolding join_rows
  join_rows-IsRow [] row here = absurd here
  join_rows-IsRow (a ∷ assignments) row here =
      elim (Bool-cases (str_eq a.gateway_id gateway_id && is_live a.state)) [
        | inl picked ↦
            let both : join_rows h db gateway_id (a ∷ assignments)
                ≡ join_row h db a ++ join_rows h db gateway_id assignments =
              rw (join_rows, picked) refl in
            elim (append-Has row (join_row h db a) (join_rows h db gateway_id assignments)
              (subst (Has row) both here)) [
                | inl first ↦
                    first-IsRow a assignments row
                      (holds_yes (Str-discrete a.gateway_id gateway_id) (ground arith))
                      (ground arith) first
                | inr later ↦ later-IsRow a assignments row (join_rows-IsRow assignments row later)
              ]
        | inr passed ↦
            let rest : join_rows h db gateway_id (a ∷ assignments)
                ≡ join_rows h db gateway_id assignments =
              rw (join_rows, passed) refl in
            later-IsRow a assignments row
              (join_rows-IsRow assignments row (subst (Has row) rest here))
      ]

  IsRow-join_rows :
      (assignments : List AssignmentRow) (row : Str × Peer) (a : AssignmentRow) (d : DeviceRow)
      (l : LeaseRow)
      → Has a assignments
      → a.gateway_id ≡ gateway_id
      → is_live a.state ≡ true
      → find_where (has_device a) db.devices ≡ some d
      → find_where (has_lease a) db.leases ≡ some l
      → row ≡ (d.id, peer_of h d l)
      → Has row (join_rows h db gateway_id assignments)
  unfolding join_rows join_row
  IsRow-join_rows [] row a d l here of_gateway live e e2 same = absurd here
  IsRow-join_rows (b ∷ assignments) row a d l (inl first) of_gateway live e e2 same =
      let picked : str_eq a.gateway_id gateway_id ≡ true =
        holds-true (Str-discrete a.gateway_id gateway_id) of_gateway in
      subst (λ x. Has row (join_rows h db gateway_id (x ∷ assignments))) first
        (rw (join_rows, picked, live)
          (Has-append_left row (join_row h db a) (join_rows h db gateway_id assignments)
            (rw (join_row, e, e2) (inl same))))
  IsRow-join_rows (b ∷ assignments) row a d l (inr later) of_gateway live e e2 same =
      let rest = IsRow-join_rows assignments row a d l later of_gateway live e e2 same in
      elim (Bool-cases (str_eq b.gateway_id gateway_id && is_live b.state)) [
        | inl picked ↦
            rw (join_rows, picked)
              (Has-append_right row (join_row h db b) (join_rows h db gateway_id assignments) rest)
        | inr passed ↦ rw (join_rows, passed) rest
      ]

  -- A peer is in the snapshot that is published for a gateway exactly when it has the key of the
  -- device and the addresses of the lease, as prefixes of one host, of an assignment to the
  -- gateway whose state is pending, active or removal_pending.
  pub current_peers_iff :
      (p : Peer)
      → Has p (current_peers h db gateway_id) ↔ ((id : Str) × IsRow db.assignments (id, p))
  unfolding current_peers peer_of
  current_peers_iff p = (
    (λ here.
        let ((id, q), there, same) =
          map-Has (λ row. row.1) p
            (order_by (λ row. row.0) (join_rows h db gateway_id db.assignments)) here in
        (
          id,
          subst (λ x. IsRow db.assignments (id, x)) (sym same)
              (join_rows-IsRow db.assignments (id, q)
                ((order_by-Has (λ row. row.0) (id, q) (join_rows h db gateway_id db.assignments)).0
                  there)),
        )),
    (λ found.
        let (id, r) = found in
        Has-map (λ row. row.1) (id, p)
          (order_by (λ row. row.0) (join_rows h db gateway_id db.assignments))
          ((order_by-Has (λ row. row.0) (id, p) (join_rows h db gateway_id db.assignments)).1 (
            IsRow-join_rows db.assignments (id, p) r.assignment r.device r.lease r.stored
              r.of_gateway r.live r.its_device r.its_lease
              (λ i. (
                r.its_id i,
                record { public_key = r.its_key i; ipv4 = r.its_ipv4 i; ipv6 = r.its_ipv6 i },
              ))))),
  )
