-- ===== src/Agent/Snapshot/Validity.antt =====
-- `Validate` accepts exactly the well-formed snapshots.
use personal_vpn.Prelude.{
  ℕ, ◌≡◌, ◌≢◌, ◌≤◌, ◌<◌, ◌↔◌, ◌∙◌, refl, true, false, List, [], ◌∷◌, arith, some, inl, inr,
  Option-cases, All, All-map, length, leb_ℤ, pos, map, Str, Str-discrete, holds_yes, holds_no,
  member, insert, member-insert,
}
use personal_vpn.Keys.{valid_public_key}
use personal_vpn.Agent.Snapshot.{
  Peer, Snapshot, ParsePrefix, valid_host_prefix, valid_peer, validate_peers, validate, ok,
  max_peers_per_snapshot,
}

-- The text is not in the list.
abbrev pub IsAbsent : Str → List Str → Type 0
IsAbsent a = All (λ b. b ≢ a)

-- No text stands twice.
abbrev pub IsNodup : List Str → Type 0
IsNodup [] = Unit
IsNodup (a ∷ l) = IsAbsent a l × IsNodup l

abbrev pub keys_of : List Peer → List Str
keys_of = map (λ p. p.public_key)

abbrev pub ipv4s_of : List Peer → List Str
ipv4s_of = map (λ p. p.ipv4)

abbrev pub ipv6s_of : List Peer → List Str
ipv6s_of = map (λ p. p.ipv6)

-- A list whose texts are new to the set, and distinct.
abbrev IsNew : List Str → List Str → Type 0
IsNew seen l = All (λ a. member Str-discrete a seen ≡ false) l × IsNodup l

IsNew-insert :
    (a : Str) (seen l : List Str)
    → member Str-discrete a seen ≡ false
    → IsNew (insert Str-discrete a seen) l
    → IsNew seen (a ∷ l)
IsNew-insert a seen [] h (n, d) = ((h, tt), (tt, tt))
IsNew-insert a seen (b ∷ l) h ((nb, n), (ab, d)) =
    let ((_, rest), (absent, _)) = IsNew-insert a seen l h (n, d) in
    ground (arith, member-insert Str-discrete a b seen)

insert-IsNew :
    (a : Str) (seen l : List Str) → IsNew seen (a ∷ l) → IsNew (insert Str-discrete a seen) l
insert-IsNew a seen [] h = (tt, tt)
insert-IsNew a seen (b ∷ l) ((ha, (hb, h)), ((ne, absent), (bl, d))) =
    let (n, _) = insert-IsNew a seen l ((ha, h), (absent, d)) in
    ground (arith, member-insert Str-discrete a b seen)

module _ (parse_prefix : ParsePrefix) where
  -- The text is the prefix of one host, of as many bits as the family has.
  abbrev pub IsHost : Str → ℕ → Type 0
  IsHost value size = parse_prefix value ≡ some (size, size)

  abbrev pub IsValidPeer : Peer → Type 0
  IsValidPeer p = (valid_public_key p.public_key ≡ true) × IsHost p.ipv4 32 × IsHost p.ipv6 128

  -- Every peer has a canonical key and host prefixes, and no two share a key or an address.
  pub record IsWellFormed (peers : List Peer) : Type 0 where
    pub valid : All IsValidPeer peers
    pub keys : IsNodup (keys_of peers)
    pub ipv4s : IsNodup (ipv4s_of peers)
    pub ipv6s : IsNodup (ipv6s_of peers)

  valid_host_prefix-IsHost :
      (value : Str)
      → ((valid_host_prefix parse_prefix value 4 ≡ true) ↔ IsHost value 32)
        × ((valid_host_prefix parse_prefix value 6 ≡ true) ↔ IsHost value 128)
  unfolding valid_host_prefix
  valid_host_prefix-IsHost value = elim (Option-cases (parse_prefix value)) [
    | inl e ↦
        (((λ h. ground arith), (λ h. ground arith)), ((λ h. ground arith), (λ h. ground arith)))
    | inr ((bits, bit_len), e) ↦ (
      (
        (λ h.
            let sizes : (bits ≡ 32) × (bit_len ≡ 32) = ground arith in
            e ∙ (λ i. some (sizes.0 i, sizes.1 i))),
        (λ h. ground arith),
      ),
      (
        (λ h.
            let sizes : (bits ≡ 128) × (bit_len ≡ 128) = ground arith in
            e ∙ (λ i. some (sizes.0 i, sizes.1 i))),
        (λ h. ground arith),
      ),
    )
  ]

  valid_peer-IsValidPeer : (p : Peer) → (valid_peer parse_prefix p ≡ true) ↔ IsValidPeer p
  unfolding valid_peer
  valid_peer-IsValidPeer p =
      let (four, _) = valid_host_prefix-IsHost p.ipv4 in
      let (_, six) = valid_host_prefix-IsHost p.ipv6 in
      (
        (λ e. (ground arith, four.0 (ground arith), six.0 (ground arith))),
        (λ (key, ipv4, ipv6). let f = four.1 ipv4 in let g = six.1 ipv6 in ground arith),
      )

  abbrev Checked : List Str → List Str → List Str → List Peer → Type 0
  Checked ks fs ss peers =
      All (λ p. valid_peer parse_prefix p ≡ true) peers
      × IsNew ks (keys_of peers)
      × IsNew fs (ipv4s_of peers)
      × IsNew ss (ipv6s_of peers)

  peers_sound :
      (ks fs ss : List Str) (peers : List Peer)
      → validate_peers parse_prefix ks fs ss peers ≡ ok tt
      → Checked ks fs ss peers
  unfolding validate_peers
  peers_sound ks fs ss [] h = (tt, (tt, tt), (tt, tt), (tt, tt))
  peers_sound ks fs ss (p ∷ ps) h =
      let first : (valid_peer parse_prefix p ≡ true)
          × (member Str-discrete p.public_key ks ≡ false)
          × (member Str-discrete p.ipv4 fs ≡ false)
          × (member Str-discrete p.ipv6 ss ≡ false) =
        ground arith in
      let (valid, keys, ipv4s, ipv6s) =
        peers_sound (insert Str-discrete p.public_key ks) (insert Str-discrete p.ipv4 fs)
          (insert Str-discrete p.ipv6 ss) ps (ground arith) in
      (
        (first.0, valid),
        IsNew-insert p.public_key ks (keys_of ps) first.1 keys,
        IsNew-insert p.ipv4 fs (ipv4s_of ps) first.2 ipv4s,
        IsNew-insert p.ipv6 ss (ipv6s_of ps) first.3 ipv6s,
      )

  peers_complete :
      (ks fs ss : List Str) (peers : List Peer)
      → Checked ks fs ss peers
      → validate_peers parse_prefix ks fs ss peers ≡ ok tt
  unfolding validate_peers
  peers_complete ks fs ss [] h = refl
  peers_complete ks fs ss (p ∷ ps) ((v, valid), keys, ipv4s, ipv6s) =
      let rest =
        peers_complete (insert Str-discrete p.public_key ks) (insert Str-discrete p.ipv4 fs)
          (insert Str-discrete p.ipv6 ss) ps
          (
            valid,
            insert-IsNew p.public_key ks (keys_of ps) keys,
            insert-IsNew p.ipv4 fs (ipv4s_of ps) ipv4s,
            insert-IsNew p.ipv6 ss (ipv6s_of ps) ipv6s,
          ) in
      let a = keys.0.0 in let b = ipv4s.0.0 in let c = ipv6s.0.0 in ground arith

  nothing_seen : (l : List Str) → IsNodup l → IsNew [] l
  unfolding member
  nothing_seen [] h = (tt, tt)
  nothing_seen (a ∷ l) (absent, h) = let (n, d) = nothing_seen l h in ((refl, n), (absent, d))

  pub validate_peers_iff :
      (peers : List Peer)
      → (validate_peers parse_prefix [] [] [] peers ≡ ok tt) ↔ IsWellFormed peers
  validate_peers_iff peers = (
    (λ h.
        let (valid, keys, ipv4s, ipv6s) = peers_sound [] [] [] peers h in
        record {
          valid = All-map peers (λ p. (valid_peer-IsValidPeer p).0) valid;
          keys = keys.1;
          ipv4s = ipv4s.1;
          ipv6s = ipv6s.1;
        }),
    λ w. peers_complete [] [] [] peers (
      All-map peers (λ p. (valid_peer-IsValidPeer p).1) w.valid,
      nothing_seen (keys_of peers) w.keys,
      nothing_seen (ipv4s_of peers) w.ipv4s,
      nothing_seen (ipv6s_of peers) w.ipv6s,
    ),
  )

  -- Addressed to the gateway, numbered, not expired, not too long, and well formed.
  pub record IsValid (s : Snapshot) (now : ℕ) (gateway_id : Str) : Type 0 where
    pub named : s.gateway_id ≢ []
    pub addressed : s.gateway_id ≡ gateway_id
    pub numbered : leb_ℤ s.generation (pos 0) ≡ false
    pub in_time : now < s.expires_at
    pub bounded : length s.peers ≤ max_peers_per_snapshot
    pub well_formed : IsWellFormed s.peers

  -- Validation accepts a snapshot exactly when its gateway is named and the expected one, its
  -- generation positive, its expiry later than the time, it has at most a hundred thousand peers,
  -- every peer has a canonical key and two host prefixes, and no two peers share a key or an
  -- address.
  pub validate_iff :
      (s : Snapshot) (now : ℕ) (gateway_id : Str)
      → (validate parse_prefix s now gateway_id ≡ ok tt) ↔ IsValid s now gateway_id
  unfolding validate
  validate_iff s now gateway_id = (
    (λ h. record {
      named = holds_no (Str-discrete s.gateway_id []) (ground arith);
      addressed = holds_yes (Str-discrete s.gateway_id gateway_id) (ground arith);
      numbered = ground arith;
      in_time = ground arith;
      bounded = ground arith;
      well_formed = (validate_peers_iff s.peers).0 (ground arith);
    }),
    λ v.
        let peers = (validate_peers_iff s.peers).1 v.well_formed in let n = v.named in ground arith,
  )
