-- ===== src/Auth/Session/Security.antt =====
-- What the session store promises its callers.
use personal_vpn.Prelude.{
  ℕ, ◌+◌, ◌<◌, ◌≡◌, ◌≢◌, ◌↔◌, refl, sym, subst, ◌∙◌, true, none, some, arith, if◌then◌else◌, Str,
  if_pos, if_neg, get, Option-cases, Bool-cases, inl, inr, ltb, not, ◌||◌,
}
use personal_vpn.Auth.Session.{
  Session, SessionStore, Kind, access, refresh, Draw, TokenPair, random_token, token_hash,
  authenticate_access, revoke_user_locked, revoke_user, issue_locked, issue_pair, authenticate,
  refuse_unknown, consume, rotate_refresh, is_kind, access_token_lifetime, new_session_store,
}
use personal_vpn.Auth.Session.Views.{session_at}
use personal_vpn.Auth.Session.Invariant.{Inv, new_session_store-Inv}
use personal_vpn.Auth.Session.Revocation.{session_at-revoke_user_locked}
use personal_vpn.Auth.Session.Freshness.{IsFresh, IsEntropy, token_of, new_pair, hash_of}
use personal_vpn.Auth.Session.Issuing.{authenticate-entry, session_at-issue_pair}
use personal_vpn.Auth.Session.Rotation.{consume-other}
use personal_vpn.Auth.Session.Lifecycle.{
  Reach, Healthy, Reach-Healthy, Reach-IsConsumed, IsConsumed, revoke_user-eq, issue_pair-consumed,
  consume-consumed, rotates, next, here,
}

module _ (sha256 : Str → Str) where
  pub new_session_store-Healthy : Healthy sha256 new_session_store
  unfolding new_session_store get
  new_session_store-Healthy = record { inv = new_session_store-Inv; dead = λ h u e. ground arith }

  -- The token is known, of the kind, and has not expired.
  record Accepted (s : SessionStore) (token user : Str) (kind : Kind) (now : ℕ) : Type 0 where
    hash : Str
    found : Session
    hashed : token_hash sha256 token ≡ some hash
    at : session_at s hash ≡ some found
    of_kind : is_kind found.kind kind ≡ true
    in_time : ltb now found.expires_at ≡ true
    of_user : found.user_id ≡ user

  accepted :
      (s : SessionStore) (token user : Str) (kind : Kind) (now : ℕ)
      → authenticate sha256 s token kind now ≡ some user
      → Accepted s token user kind now
  unfolding authenticate
  accepted s token user kind now e = elim (Option-cases (token_hash sha256 token)) [
    | inl none_hashed ↦ absurd (ground arith)
    | inr (h, hashed) ↦ elim (Option-cases (session_at s h)) [
      | inl absent ↦ absurd (ground arith)
      | inr (r, at) ↦ record {
        hash = h;
        found = r;
        hashed = hashed;
        at = at;
        of_kind = ground arith;
        in_time = ground arith;
        of_user = ground arith;
      }
    ]
  ]

  accept :
      (s : SessionStore) (token user : Str) (kind : Kind) (now : ℕ)
      → Accepted s token user kind now
      → authenticate sha256 s token kind now ≡ some user
  unfolding authenticate
  accept s token user kind now a =
      rw (a.hashed, authenticate) (rw (a.at, a.of_kind, a.in_time, a.of_user) refl)

  -- On a consistent store a token authenticates as a user after another user is logged out exactly
  -- when it did before and the user is not the one logged out; this holds for both kinds of token.
  pub revoke_user-authenticate :
      (s : SessionStore) (user token other : Str) (kind : Kind) (now : ℕ)
      → Healthy sha256 s
      → (authenticate sha256 (revoke_user s user) token kind now ≡ some other)
        ↔ ((authenticate sha256 s token kind now ≡ some other) × (other ≢ user))
  revoke_user-authenticate s user token other kind now v = (
    (λ e.
        let a = accepted (revoke_user s user) token other kind now e in
        let (before, ne) =
          (session_at-revoke_user_locked s user a.hash a.found v.inv).0
            (subst (λ t. session_at t a.hash ≡ some a.found) (revoke_user-eq s user) a.at) in
        (
          accept s token other kind now (record {
            hash = a.hash;
            found = a.found;
            hashed = a.hashed;
            at = before;
            of_kind = a.of_kind;
            in_time = a.in_time;
            of_user = a.of_user;
          }),
          λ p. ne (a.of_user ∙ p),
        )),
    λ (e, ne).
        let a = accepted s token other kind now e in
        accept (revoke_user s user) token other kind now (record {
          hash = a.hash;
          found = a.found;
          hashed = a.hashed;
          at = rw (revoke_user-eq s user) (
              (session_at-revoke_user_locked s user a.hash a.found v.inv).1
                (a.at, λ p. ne (sym a.of_user ∙ p)));
          of_kind = a.of_kind;
          in_time = a.in_time;
          of_user = a.of_user;
        }),
  )

  -- What a successful rotation started from and left.
  record Exchanged (s s' : SessionStore) (token user : Str) : Type 0 where
    hash : Str
    hashed : token_hash sha256 token ≡ some hash
    marked : IsConsumed sha256 hash user s'

  exchanged :
      (s : SessionStore) (token : Str) (checked now : ℕ) (d0 d1 d2 : Draw) (p : TokenPair)
      (user : Str)
      → (rotate_refresh sha256 s token checked now d0 d1 d2).1 ≡ some (p, user)
      → Exchanged s (rotate_refresh sha256 s token checked now d0 d1 d2).0 token user
  unfolding rotate_refresh
  exchanged s token checked now d0 d1 d2 p user e = elim (Option-cases (token_hash sha256 token)) [
    | inl absent ↦ absurd (ground arith)
    | inr (h, hashed) ↦ elim (Option-cases (session_at s h)) [
      | inl absent ↦ absurd (ground arith)
      | inr (old, at) ↦
          elim (Bool-cases (not (is_kind old.kind refresh) || not (ltb checked old.expires_at))) [
            | inl bad ↦ absurd (ground arith)
            | inr good ↦
                let same : old.user_id ≡ user = ground arith in
                record {
                  hash = h;
                  hashed = hashed;
                  marked =
                      rw (hashed, at, good, rotate_refresh)
                        (rw (issue_pair-consumed sha256 (consume s h old) old.user_id now d0 d1 d2)
                          (ground (arith, consume-consumed s h h old)));
                }
          ]
    ]
  ]

  -- A dead, consumed token is refused, and its user loses every session.
  refused :
      (s : SessionStore) (token h user : Str) (checked now : ℕ) (d0 d1 d2 : Draw)
      → Healthy sha256 s
      → token_hash sha256 token ≡ some h
      → IsConsumed sha256 h user s
      → rotate_refresh sha256 s token checked now d0 d1 d2 ≡ (revoke_user_locked s user, none)
  unfolding rotate_refresh refuse_unknown
  refused s token h user checked now d0 d1 d2 v hashed marked =
      let gone = v.dead h user marked in
      rw (hashed, rotate_refresh) (rw (gone, marked, refuse_unknown) refl)

  dead_none :
      (s : SessionStore) (token h : Str) (kind : Kind) (now : ℕ)
      → token_hash sha256 token ≡ some h
      → session_at s h ≡ none
      → authenticate sha256 s token kind now ≡ none
  unfolding authenticate
  dead_none s token h kind now hashed gone =
      rw (hashed, authenticate) (rw (gone, authenticate) refl)

  -- From a consistent store and draws that collide with nothing, once a refresh token has been
  -- exchanged it is never accepted again after any history of calls: it authenticates as nothing,
  -- a second exchange fails, and that second exchange leaves its user without any session.
  pub rotate_refresh_once :
      (s t : SessionStore) (token user : Str) (p : TokenPair) (checked now : ℕ) (d0 d1 d2 : Draw)
      (kind : Kind) (checked' now' : ℕ) (e0 e1 e2 : Draw)
      → Healthy sha256 s
      → IsFresh sha256 s d0 d1 d2
      → (rotate_refresh sha256 s token checked now d0 d1 d2).1 ≡ some (p, user)
      → Reach sha256 (rotate_refresh sha256 s token checked now d0 d1 d2).0 t
      → (authenticate sha256 t token kind now' ≡ none)
        × ((rotate_refresh sha256 t token checked' now' e0 e1 e2).1 ≡ none)
        × ((h : Str) (r : Session)
            → session_at (rotate_refresh sha256 t token checked' now' e0 e1 e2).0 h ≡ some r
            → r.user_id ≢ user)
  rotate_refresh_once s t token user p checked now d0 d1 d2 kind checked' now' e0 e1 e2 v fresh ok
        reach =
      let x = exchanged s token checked now d0 d1 d2 p user ok in
      let s' = (rotate_refresh sha256 s token checked now d0 d1 d2).0 in
      let w : Healthy sha256 s' =
        Reach-Healthy sha256 (next (rotates token checked now d0 d1 d2) here fresh refl) v in
      let z = Reach-Healthy sha256 reach w in
      let marked = Reach-IsConsumed sha256 x.hash user reach w x.marked in
      let gone = z.dead x.hash user marked in
      let r = refused t token x.hash user checked' now' e0 e1 e2 z x.hashed marked in
      (
        dead_none t token x.hash kind now' x.hashed gone,
        rw r refl,
        λ h q at. ((session_at-revoke_user_locked t user h q z.inv).0 (rw r at at)).1,
      )

  exchange :
      (s : SessionStore) (token h v0 v1 v2 : Str) (old : Session) (checked now : ℕ)
      → token_hash sha256 token ≡ some h
      → session_at s h ≡ some old
      → old.kind ≡ refresh
      → checked < old.expires_at
      → rotate_refresh sha256 s token checked now (some v0) (some v1) (some v2) ≡ (
        (issue_pair sha256 (consume s h old) old.user_id now (some v0) (some v1) (some v2)).0,
        some (new_pair now v1 v2, old.user_id),
      )
  unfolding rotate_refresh issue_pair issue_locked random_token
  exchange s token h v0 v1 v2 old checked now hashed at kind live =
      let early : ltb checked old.expires_at ≡ true = ground arith in
      rw (hashed, rotate_refresh) (rw (at, kind, early, rotate_refresh) refl)

  issued_elsewhere :
      (s : SessionStore) (f v0 v1 v2 j : Str) (r : Session) (user : Str) (now : ℕ)
      → token_of v0 ≢ f
      → (session_at s j ≡ some r → r.family_id ≢ f)
      → session_at (issue_pair sha256 s user now (some v0) (some v1) (some v2)).0 j ≡ some r
      → r.family_id ≢ f
  issued_elsewhere s f v0 v1 v2 j r user now new before e same =
      ground (arith, session_at-issue_pair sha256 s user now v0 v1 v2 j)

  -- From a store that keeps the invariant of sessions and families, exchanging a live refresh
  -- token, with draws that succeed, new hashes that differ and the identifier of a family other
  -- than the old one, returns the new pair for the same user; the new access token is accepted
  -- exactly until its fifteen minutes are over, and no session of the old family is left.
  pub rotate_refresh-authenticate :
      (s : SessionStore) (token h v0 v1 v2 : Str) (old : Session) (checked now t : ℕ)
      → Inv s
      → token_hash sha256 token ≡ some h
      → session_at s h ≡ some old
      → old.kind ≡ refresh
      → checked < old.expires_at
      → IsEntropy v1
      → IsEntropy v2
      → hash_of sha256 (token_of v1) ≢ hash_of sha256 (token_of v2)
      → token_of v0 ≢ old.family_id
      → ((rotate_refresh sha256 s token checked now (some v0) (some v1) (some v2)).1
          ≡ some (new_pair now v1 v2, old.user_id))
        × (authenticate_access sha256
              (rotate_refresh sha256 s token checked now (some v0) (some v1) (some v2)).0
              (token_of v1)
              t
            ≡ (if ltb t (now + access_token_lifetime) then some old.user_id else none))
        × ((j : Str) (r : Session)
            → session_at
                (rotate_refresh sha256 s token checked now (some v0) (some v1) (some v2)).0
                j
              ≡ some r
            → r.family_id ≢ old.family_id)
  unfolding authenticate_access
  rotate_refresh-authenticate s token h v0 v1 v2 old checked now t v hashed at kind live e1 e2 apart
        new =
      let s1 = consume s h old in
      let s2 = (issue_pair sha256 s1 old.user_id now (some v0) (some v1) (some v2)).0 in
      let whole = exchange s token h v0 v1 v2 old checked now hashed at kind live in
      (
        rw whole refl,
        rw whole (
            authenticate-entry sha256 s2 v1 old.user_id (token_of v0) (now + access_token_lifetime)
              t access access e1
              (rw
                (
                  session_at-issue_pair sha256 s1 old.user_id now v0 v1 v2
                      (hash_of sha256 (token_of v1)),
                  if_neg _ (λ p. apart (sym p)),
                  if_pos _ refl,
                )
                refl)),
        λ j r found.
            issued_elsewhere s1 old.family_id v0 v1 v2 j r old.user_id now new
              (λ before. consume-other s h j old r v before)
              (subst (λ x. session_at (x.0) j ≡ some r) whole found),
      )
