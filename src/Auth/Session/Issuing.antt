-- ===== src/Auth/Session/Issuing.antt =====
-- A new pair of tokens: what is written, and when it is accepted.
use mathlib.Core.Option.{some-injective}
use personal_vpn.Prelude.{
  ap, ℕ, ◌+◌, ◌≡◌, ◌≢◌, refl, sym, subst, ◌∙◌, [], none, some, arith, if◌then◌else◌, Str,
  Str-discrete, get, ltb, ite, if_pos, if_neg, ◌&&◌,
}
use personal_vpn.Auth.Session.{
  SessionStore, Kind, access, refresh, Draw, random_token, add_session, open_family, issue_locked,
  issue_pair, issue, authenticate, authenticate_access, is_kind, access_token_lifetime,
  refresh_token_lifetime, ok,
}
use personal_vpn.Auth.Session.Views.{session_at, session_at-add_session}
use personal_vpn.Auth.Session.Invariant.{IsFreshFamily}
use personal_vpn.Auth.Session.Freshness.{
  IsEntropy, token_of, entry, new_pair, token_hash-token_of, hash_of, IsFresh,
}

module _ (sha256 : Str → Str) where
  -- With draws that succeed, the sessions are the old ones and the two new ones.
  pub session_at-issue_pair :
      (s : SessionStore) (user : Str) (now : ℕ) (v0 v1 v2 h : Str)
      → session_at (issue_pair sha256 s user now (some v0) (some v1) (some v2)).0 h
        ≡ ite
            (Str-discrete (hash_of sha256 (token_of v2)) h)
            (some (entry user (token_of v0) (now + refresh_token_lifetime) refresh))
            (ite
              (Str-discrete (hash_of sha256 (token_of v1)) h)
              (some (entry user (token_of v0) (now + access_token_lifetime) access))
              (session_at s h))
  unfolding issue_pair issue_locked random_token open_family
  session_at-issue_pair s user now v0 v1 v2 h =
      let one = open_family s (token_of v0) in
      let a = entry user (token_of v0) (now + access_token_lifetime) access in
      let two = add_session one (hash_of sha256 (token_of v1)) a in
      rw (
        session_at-add_session two (hash_of sha256 (token_of v2)) h _,
        session_at-add_session one (hash_of sha256 (token_of v1)) h _,
      )

  -- For a user that has a name, `Issue` is the shared part.
  pub issue-issue_pair :
      (s : SessionStore) (user : Str) (now : ℕ) (d0 d1 d2 : Draw)
      → user ≢ []
      → (issue sha256 s user now d0 d1 d2).0 ≡ (issue_pair sha256 s user now d0 d1 d2).0
  unfolding issue
  issue-issue_pair s user now d0 d1 d2 named = ground arith

  issue_ok :
      (s : SessionStore) (user v0 v1 v2 : Str) (now : ℕ)
      → user ≢ []
      → (issue sha256 s user now (some v0) (some v1) (some v2)).1 ≡ ok (new_pair now v1 v2)
  unfolding issue issue_pair issue_locked random_token
  issue_ok s user v0 v1 v2 now named = ground arith

  -- A token whose hash has an entry is accepted by kind and by time.
  pub authenticate-entry :
      (s : SessionStore) (value user f : Str) (expires_at t : ℕ) (kind wanted : Kind)
      → IsEntropy value
      → session_at s (hash_of sha256 (token_of value)) ≡ some (entry user f expires_at kind)
      → authenticate sha256 s (token_of value) wanted t
        ≡ (if is_kind kind wanted && ltb t expires_at then some user else none)
  unfolding authenticate
  authenticate-entry s value user f expires_at t kind wanted e at =
      ground (arith, token_hash-token_of sha256 value e)

  -- A login of a named user, with draws that succeed and hashes that differ, returns a pair whose
  -- access token is accepted exactly until its fifteen minutes are over, and whose refresh token
  -- is never accepted as an access token.
  pub issue-authenticate_access :
      (s : SessionStore) (user v0 v1 v2 : Str) (now t : ℕ)
      → user ≢ []
      → IsEntropy v1
      → IsEntropy v2
      → hash_of sha256 (token_of v1) ≢ hash_of sha256 (token_of v2)
      → ((issue sha256 s user now (some v0) (some v1) (some v2)).1 ≡ ok (new_pair now v1 v2))
        × (authenticate_access sha256
              (issue sha256 s user now (some v0) (some v1) (some v2)).0
              (token_of v1)
              t
            ≡ (if ltb t (now + access_token_lifetime) then some user else none))
        × (authenticate_access sha256
              (issue sha256 s user now (some v0) (some v1) (some v2)).0
              (token_of v2)
              t
            ≡ none)
  unfolding authenticate_access
  issue-authenticate_access s user v0 v1 v2 now t named e1 e2 apart =
      let s' = (issue_pair sha256 s user now (some v0) (some v1) (some v2)).0 in
      (
        issue_ok s user v0 v1 v2 now named,
        rw (issue-issue_pair s user now (some v0) (some v1) (some v2) named) (
            authenticate-entry s' v1 user (token_of v0) (now + access_token_lifetime) t access
              access e1
              (rw
                (
                  session_at-issue_pair s user now v0 v1 v2 (hash_of sha256 (token_of v1)),
                  if_neg _ (λ p. apart (sym p)),
                  if_pos _ refl,
                )
                refl)),
        rw (issue-issue_pair s user now (some v0) (some v1) (some v2) named) (
            authenticate-entry s' v2 user (token_of v0) (now + refresh_token_lifetime) t refresh
              access e2
              (rw
                (
                  session_at-issue_pair s user now v0 v1 v2 (hash_of sha256 (token_of v2)),
                  if_pos _ refl,
                )
                refl)),
      )

  -- Freshness of draws that succeed.
  pub values-IsFresh :
      (s : SessionStore) (v0 v1 v2 : Str)
      → IsFreshFamily s (token_of v0)
      → session_at s (hash_of sha256 (token_of v1)) ≡ none
      → session_at s (hash_of sha256 (token_of v2)) ≡ none
      → get Str-discrete (hash_of sha256 (token_of v1)) s.consumed ≡ none
      → get Str-discrete (hash_of sha256 (token_of v2)) s.consumed ≡ none
      → hash_of sha256 (token_of v1) ≢ hash_of sha256 (token_of v2)
      → IsFresh sha256 s (some v0) (some v1) (some v2)
  unfolding random_token
  values-IsFresh s v0 v1 v2 f a b c d ne = record {
    family = λ t e. subst (λ x. IsFreshFamily s x) (some-injective _ _ e) f;
    first = λ t e. subst (λ x. session_at s (hash_of sha256 x) ≡ none) (some-injective _ _ e) a;
    second = λ t e. subst (λ x. session_at s (hash_of sha256 x) ≡ none) (some-injective _ _ e) b;
    first_unused = λ t e.
        subst (λ x. get Str-discrete (hash_of sha256 x) s.consumed ≡ none) (some-injective _ _ e) c;
    second_unused = λ t e.
        subst (λ x. get Str-discrete (hash_of sha256 x) s.consumed ≡ none) (some-injective _ _ e) d;
    apart = λ t u e g p. ne (
        ap (hash_of sha256) (some-injective _ _ e)
        ∙ (p ∙ sym (ap (hash_of sha256) (some-injective _ _ g))));
  }
