-- ===== src/Auth/Session/Freshness.antt =====
-- The draws of a new pair of tokens, and that the invariant holds on every branch.
use personal_vpn.Prelude.{
  ℕ, ◌+◌, ◌≡◌, ◌≢◌, subst, true, ◌++◌, Option, none, some, arith, Str, Str-discrete, All, length,
  get, Option-cases, inl, inr,
}
use personal_vpn.Encoding.Base64.{raw_url, encode}
use personal_vpn.Encoding.Base64.RoundTrip.{IsByte, decode-encode}
use personal_vpn.Encoding.Base64.Sizes.{length-encode_raw}
use personal_vpn.Auth.Session.{
  Session, SessionStore, Kind, access, refresh, Draw, TokenPair, IssuedToken, random_token,
  token_hash, token_prefix, hash_or_zero, open_family, both, issue_locked, issue_pair,
  access_token_lifetime, refresh_token_lifetime,
}
use personal_vpn.Auth.Session.Views.{session_at, in_family, session_at-add_session}
use personal_vpn.Auth.Session.Invariant.{
  Inv, IsFreshFamily, fresh_family, IsFamilyOf, open_family-Inv, add_session-Inv,
}

-- A 32-byte value of the random source.
abbrev pub IsEntropy : Str → Type 0
IsEntropy value = (length value ≡ 32) × All IsByte value

abbrev pub token_of : Str → Str
token_of value = token_prefix ++ encode raw_url value

-- The entry of an access or a refresh token.
abbrev pub entry : Str → Str → ℕ → Kind → Session
entry user f expires_at kind = record {
  user_id = user;
  family_id = f;
  expires_at = expires_at;
  kind = kind;
}

abbrev pub new_pair : ℕ → Str → Str → TokenPair
new_pair now v1 v2 = record {
  access_token = token_of v1;
  refresh_token = token_of v2;
  access_expires_at = now + access_token_lifetime;
  refresh_expires_at = now + refresh_token_lifetime;
}

module _ (sha256 : Str → Str) where
  -- The text that `randomToken` makes is a token, so the flag that `issueLocked` drops is true.
  pub token_hash-token_of :
      (value : Str)
      → IsEntropy value
      → token_hash sha256 (token_of value) ≡ some (sha256 (token_of value))
  unfolding token_hash
  token_hash-token_of value (size, bytes) =
      rw (decode-encode raw_url value bytes, size) (ground (arith, length-encode_raw value))

  abbrev pub hash_of : Str → Str
  hash_of token = hash_or_zero (token_hash sha256 token)

  -- The values drawn collide with nothing in the store, nor with one another.
  pub record IsFresh (s : SessionStore) (d0 d1 d2 : Draw) : Type 0 where
    pub family : (f : Str) → random_token d0 ≡ some f → IsFreshFamily s f
    pub first : (t : Str) → random_token d1 ≡ some t → session_at s (hash_of t) ≡ none
    pub second : (t : Str) → random_token d2 ≡ some t → session_at s (hash_of t) ≡ none
    -- Nor were the tokens ever rotated away.
    pub first_unused :
        (t : Str) → random_token d1 ≡ some t → get Str-discrete (hash_of t) s.consumed ≡ none
    pub second_unused :
        (t : Str) → random_token d2 ≡ some t → get Str-discrete (hash_of t) s.consumed ≡ none
    pub apart :
        (t u : Str) → random_token d1 ≡ some t → random_token d2 ≡ some u → hash_of t ≢ hash_of u

  issue_locked-Inv :
      (s : SessionStore) (user f : Str) (kind : Kind) (expires_at : ℕ) (d : Draw)
      → ((t : Str) → random_token d ≡ some t → session_at s (hash_of t) ≡ none)
      → IsFamilyOf s f user
      → Inv s
      → Inv (issue_locked sha256 s user f kind expires_at d).0
  unfolding issue_locked
  issue_locked-Inv s user f kind expires_at d fresh mine v = elim (Option-cases (random_token d)) [
    | inl e ↦ rw (e, issue_locked) v
    | inr (t, e) ↦ rw (e, issue_locked) (add_session-Inv s (hash_of t) _ (fresh t e) mine v)
  ]

  fresh_IsFamilyOf :
      (s : SessionStore) (f user : Str) → IsFreshFamily s f → Inv s → IsFamilyOf s f user
  fresh_IsFamilyOf s f user fresh v h r at same =
      let mine = subst (λ g. in_family s g h ≡ true) same (v.owned h r at) in
      absurd (ground (arith, fresh_family s f h fresh))

  -- The store after the first token of a pair.
  abbrev after_first : SessionStore → Str → Str → ℕ → Draw → SessionStore
  after_first s user f now d1 =
      (issue_locked sha256 (open_family s f) user f access (now + access_token_lifetime) d1).0

  after_first-IsFamilyOf :
      (s : SessionStore) (user f : Str) (now : ℕ) (d1 : Draw)
      → IsFreshFamily s f
      → Inv s
      → IsFamilyOf (after_first s user f now d1) f user
  unfolding issue_locked open_family
  after_first-IsFamilyOf s user f now d1 fresh v h r at same =
      elim (Option-cases (random_token d1)) [
        | inl e ↦
            fresh_IsFamilyOf s f user fresh v h r (rw (e, after_first, issue_locked) at at) same
        | inr (t, e) ↦
            let old = fresh_IsFamilyOf s f user fresh v h r in
            ground (
              arith,
              session_at-add_session (open_family s f) (hash_of t) h (record {
                user_id = user;
                family_id = f;
                expires_at = now + access_token_lifetime;
                kind = access;
              }),
            )
      ]

  -- An absent hash stays absent unless it is the one drawn.
  issue_locked_absent :
      (s : SessionStore) (user f h : Str) (kind : Kind) (expires_at : ℕ) (d : Draw)
      → session_at s h ≡ none
      → ((t : Str) → random_token d ≡ some t → hash_of t ≢ h)
      → session_at (issue_locked sha256 s user f kind expires_at d).0 h ≡ none
  unfolding issue_locked
  issue_locked_absent s user f h kind expires_at d absent ne =
      elim (Option-cases (random_token d)) [
        | inl e ↦ rw (e, issue_locked) absent
        | inr (t, e) ↦
            let apart = ne t e in
            ground (arith, session_at-add_session s (hash_of t) h (entry user f expires_at kind))
      ]

  both_absent :
      (s1 s2 : SessionStore) (h : Str) (first second : Option IssuedToken)
      → session_at s1 h ≡ none
      → session_at s2 h ≡ none
      → session_at (both s1 s2 first second).0 h ≡ none
  both_absent s1 s2 h none second e f = e
  both_absent s1 s2 h (some a) none e f = f
  both_absent s1 s2 h (some a) (some r) e f = f

  pub issue_pair_absent :
      (s : SessionStore) (user h : Str) (now : ℕ) (d0 d1 d2 : Draw)
      → session_at s h ≡ none
      → ((t : Str) → random_token d1 ≡ some t → hash_of t ≢ h)
      → ((t : Str) → random_token d2 ≡ some t → hash_of t ≢ h)
      → session_at (issue_pair sha256 s user now d0 d1 d2).0 h ≡ none
  unfolding issue_pair open_family
  issue_pair_absent s user h now d0 d1 d2 absent ne1 ne2 = elim (Option-cases (random_token d0)) [
    | inl e ↦ rw (e, issue_pair) absent
    | inr (f, e) ↦
        let one =
          issue_locked_absent (open_family s f) user f h access (now + access_token_lifetime) d1
            absent ne1 in
        let two =
          issue_locked_absent (after_first s user f now d1) user f h refresh
            (now + refresh_token_lifetime) d2 one ne2 in
        rw (e, issue_pair) (both_absent _ _ h _ _ one two)
  ]

  both-Inv :
      (s1 s2 : SessionStore) (first second : Option IssuedToken)
      → Inv s1
      → Inv s2
      → Inv (both s1 s2 first second).0
  both-Inv s1 s2 none second v w = v
  both-Inv s1 s2 (some a) none v w = w
  both-Inv s1 s2 (some a) (some r) v w = w

  -- On every branch, the failing draws included, the invariant is kept.
  pub issue_pair-Inv :
      (s : SessionStore) (user : Str) (now : ℕ) (d0 d1 d2 : Draw)
      → IsFresh s d0 d1 d2
      → Inv s
      → Inv (issue_pair sha256 s user now d0 d1 d2).0
  unfolding issue_pair
  issue_pair-Inv s user now d0 d1 d2 fresh v = elim (Option-cases (random_token d0)) [
    | inl e ↦ rw (e, issue_pair) v
    | inr (f, e) ↦
        let new = fresh.family f e in
        let one =
          issue_locked-Inv (open_family s f) user f access (now + access_token_lifetime) d1
            (unfold open_family in fresh.first)
            (unfold open_family in fresh_IsFamilyOf s f user new v) (open_family-Inv s f new v) in
        let two =
          issue_locked-Inv (after_first s user f now d1) user f refresh
            (now + refresh_token_lifetime) d2
            (λ t drawn.
              issue_locked_absent (open_family s f) user f (hash_of t) access
                (now + access_token_lifetime) d1 (unfold open_family in fresh.second t drawn)
                (λ u also. fresh.apart u t also drawn))
            (after_first-IsFamilyOf s user f now d1 new v) one in
        rw (e, issue_pair) (both-Inv _ _ _ _ one two)
  ]
