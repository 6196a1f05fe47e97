-- ===== src/Auth/Session/Tests.antt =====
-- The theorems at concrete stores. The identity stands for SHA-256.
use personal_vpn.Prelude.{
  ℕ, ◌≡◌, ◌≢◌, ◌↔◌, refl, ◌+◌, none, some, arith, if◌then◌else◌, ltb, Str, Str-discrete, text,
  replicate, get, put, delete, delete_all, insert, member, Option, ne_by_test,
}
use personal_vpn.Encoding.Base64.{encode, decode}
use personal_vpn.Auth.Session.{
  Session, SessionStore, access, refresh, TokenPair, new_session_store, issue, issue_pair,
  rotate_refresh, revoke_user, authenticate, authenticate_access, access_token_lifetime, token_hash,
  random_token, hashes_of, issue_locked, add_session, open_family, consume, revoke_family_locked,
  refresh_token_lifetime,
}
use personal_vpn.Auth.Session.Views.{session_at}
use personal_vpn.Auth.Session.Freshness.{IsFresh, token_of, new_pair, hash_of}
use personal_vpn.Auth.Session.Issuing.{values-IsFresh}
use personal_vpn.Auth.Session.Lifecycle.{Healthy, Reach-Healthy, here, next, issues, rotates}
use personal_vpn.Auth.Session.Security.{
  new_session_store-Healthy, revoke_user-authenticate, rotate_refresh_once,
  rotate_refresh-authenticate,
}

abbrev id_hash : Str → Str
id_hash t = t

abbrev val : ℕ → Str
val n = replicate 32 n

abbrev alice : Str
alice = text "alice"

-- Alice logs in at time 100.
abbrev logged_in : SessionStore
logged_in =
    (issue id_hash new_session_store alice 100 (some (val 1)) (some (val 2)) (some (val 3))).0

apart : hash_of id_hash (token_of (val 2)) ≢ hash_of id_hash (token_of (val 3))
unfolding token_hash Str-discrete decode encode
apart = ne_by_test _ _ refl

login-IsFresh : IsFresh id_hash new_session_store (some (val 1)) (some (val 2)) (some (val 3))
unfolding new_session_store get
login-IsFresh =
    values-IsFresh id_hash new_session_store (val 1) (val 2) (val 3) refl refl refl refl refl apart

logged_in-Healthy : Healthy id_hash logged_in
logged_in-Healthy =
    Reach-Healthy id_hash
      (next (issues alice 100 (some (val 1)) (some (val 2)) (some (val 3))) here login-IsFresh refl)
      (new_session_store-Healthy id_hash)

revoke_user-authenticate_example :
    (authenticate id_hash (revoke_user logged_in alice) (token_of (val 2)) access 500 ≡ some alice)
    ↔ ((authenticate id_hash logged_in (token_of (val 2)) access 500 ≡ some alice)
        × (alice ≢ alice))
revoke_user-authenticate_example =
    revoke_user-authenticate id_hash logged_in alice (token_of (val 2)) alice access 500
      logged_in-Healthy

later_apart : hash_of id_hash (token_of (val 5)) ≢ hash_of id_hash (token_of (val 6))
unfolding token_hash Str-discrete decode encode
later_apart = ne_by_test _ _ refl

refresh-IsFresh : IsFresh id_hash logged_in (some (val 4)) (some (val 5)) (some (val 6))
unfolding issue issue_pair issue_locked add_session open_family hashes_of random_token
    new_session_store token_hash decode encode get put delete insert member Str-discrete
refresh-IsFresh =
    values-IsFresh id_hash logged_in (val 4) (val 5) (val 6) refl refl refl refl refl later_apart

-- Alice exchanges her refresh token at time 700.
abbrev exchanged : SessionStore × Option (TokenPair × Str)
exchanged =
    rotate_refresh id_hash logged_in (token_of (val 3)) 600 700 (some (val 4)) (some (val 5))
      (some (val 6))

exchange_returns : exchanged.1 ≡ some (new_pair 700 (val 5) (val 6), alice)
unfolding issue issue_pair issue_locked add_session open_family hashes_of random_token
    rotate_refresh consume revoke_family_locked new_session_store token_hash decode encode get put
    delete delete_all insert member Str-discrete
exchange_returns = refl

rotate_refresh_once_example :
    (authenticate id_hash exchanged.0 (token_of (val 3)) refresh 800 ≡ none)
    × ((rotate_refresh id_hash exchanged.0 (token_of (val 3)) 800 800 none none none).1 ≡ none)
    × ((h : Str) (r : Session)
        → session_at
            (rotate_refresh id_hash exchanged.0 (token_of (val 3)) 800 800 none none none).0
            h
          ≡ some r
        → r.user_id ≢ alice)
rotate_refresh_once_example =
    rotate_refresh_once id_hash logged_in exchanged.0 (token_of (val 3)) alice
      (new_pair 700 (val 5) (val 6)) 600 700 (some (val 4)) (some (val 5)) (some (val 6)) refresh
      800 800 none none none logged_in-Healthy refresh-IsFresh exchange_returns here

abbrev old : Session
old = record {
  user_id = alice;
  family_id = token_of (val 1);
  expires_at = 100 + refresh_token_lifetime;
  kind = refresh;
}

old_at : session_at logged_in (token_of (val 3)) ≡ some old
unfolding issue issue_pair issue_locked add_session open_family hashes_of random_token
    new_session_store token_hash decode encode get put delete insert member Str-discrete
old_at = refl

new_family : token_of (val 4) ≢ old.family_id
unfolding Str-discrete encode
new_family = ne_by_test _ _ refl

old_hash : token_hash id_hash (token_of (val 3)) ≡ some (token_of (val 3))
unfolding token_hash Str-discrete decode encode
old_hash = refl

rotate_refresh-authenticate_example :
    (exchanged.1 ≡ some (new_pair 700 (val 5) (val 6), alice))
    × (authenticate_access id_hash exchanged.0 (token_of (val 5)) 900
        ≡ (if ltb 900 (700 + access_token_lifetime) then some alice else none))
    × ((j : Str) (r : Session) → session_at exchanged.0 j ≡ some r → r.family_id ≢ old.family_id)
rotate_refresh-authenticate_example =
    rotate_refresh-authenticate id_hash logged_in (token_of (val 3)) (token_of (val 3)) (val 4)
      (val 5) (val 6) old 600 700 900 logged_in-Healthy.inv old_hash old_at refl (omega arith)
      (omega arith) (omega arith) later_apart new_family

Reach-Healthy_example : Healthy id_hash exchanged.0
Reach-Healthy_example =
    Reach-Healthy id_hash
      (next (rotates (token_of (val 3)) 600 700 (some (val 4)) (some (val 5)) (some (val 6))) here
        refresh-IsFresh refl)
      logged_in-Healthy
