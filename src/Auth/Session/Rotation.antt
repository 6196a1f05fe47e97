-- ===== src/Auth/Session/Rotation.antt =====
-- Rotation: a refresh token is good for one exchange, and a second use revokes its user.
use personal_vpn.Prelude.{
  ℕ, ◌≡◌, ◌≢◌, none, some, arith, Str, Str-discrete, get, put, get-put, get-delete, Option-cases,
  Bool-cases, inl, inr, ltb, not, ◌||◌,
}
use personal_vpn.Auth.Session.{
  Session, SessionStore, refresh, Draw, token_hash, hashes_of, revoke_family_locked,
  revoke_user_locked, refuse_unknown, consume, rotate_refresh, is_kind,
}
use personal_vpn.Auth.Session.Views.{session_at, session_at-revoke_family_locked}
use personal_vpn.Auth.Session.Invariant.{
  Inv, revoke_family_locked-Inv, revoke_family_locked-shrinks,
}
use personal_vpn.Auth.Session.Revocation.{revoke_user_locked-Inv, session_at-revoke_user_locked}
use personal_vpn.Auth.Session.Freshness.{IsFresh, issue_pair-Inv, hash_of}

-- Whoever was revoked here stays absent there.
abbrev pub Shrinks : SessionStore → SessionStore → Type 0
Shrinks s t = (h : Str) → session_at s h ≡ none → session_at t h ≡ none

-- A consumed token has no session.
abbrev pub IsDead : SessionStore → Type 0
IsDead s = (h u : Str) → get Str-discrete h s.consumed ≡ some u → session_at s h ≡ none

pub revoke_family_locked-Shrinks :
    (s : SessionStore) (f : Str) → Shrinks s (revoke_family_locked s f)
revoke_family_locked-Shrinks s f h e = ground (arith, session_at-revoke_family_locked s f h)

pub revoke_user_locked-Shrinks :
    (s : SessionStore) (u : Str) → Inv s → Shrinks s (revoke_user_locked s u)
revoke_user_locked-Shrinks s u v h e = elim (Option-cases (session_at (revoke_user_locked s u) h)) [
  | inl gone ↦ gone
  | inr (r, at) ↦
      let (before, other) = (session_at-revoke_user_locked s u h r v).0 at in absurd (ground arith)
]

abbrev marked : SessionStore → Str → Session → SessionStore
marked s h old = record s { consumed = put Str-discrete h old.user_id s.consumed }

marked-Inv : (s : SessionStore) (h : Str) (old : Session) → Inv s → Inv (marked s h old)
unfolding hashes_of
marked-Inv s h old v = record {
  owned = v.owned;
  listed = v.listed;
  one_user = v.one_user;
  keyed = v.keyed;
}

pub consume-Inv : (s : SessionStore) (h : Str) (old : Session) → Inv s → Inv (consume s h old)
unfolding consume
consume-Inv s h old v =
    revoke_family_locked-Inv (marked s h old) old.family_id (marked-Inv s h old v)

-- What is left after the old family is gone is of other families.
pub consume-other :
    (s : SessionStore) (h j : Str) (old r : Session)
    → Inv s
    → session_at (consume s h old) j ≡ some r
    → r.family_id ≢ old.family_id
unfolding consume
consume-other s h j old r v e =
    (revoke_family_locked-shrinks (marked s h old) old.family_id j r (marked-Inv s h old v) e).1

refuse_unknown-Inv : (s : SessionStore) (h : Str) → Inv s → Inv (refuse_unknown s h)
unfolding refuse_unknown
refuse_unknown-Inv s h v = elim (Option-cases (get Str-discrete h s.consumed)) [
  | inl e ↦ rw (e, refuse_unknown) v
  | inr (u, e) ↦ rw (e, refuse_unknown) (revoke_user_locked-Inv s u v)
]

module _ (sha256 : Str → Str) where
  pub consume-IsFresh :
      (s : SessionStore) (h : Str) (old : Session) (d0 d1 d2 : Draw)
      → session_at s h ≡ some old
      → IsFresh sha256 s d0 d1 d2
      → IsFresh sha256 (consume s h old) d0 d1 d2
  unfolding consume revoke_family_locked hashes_of
  consume-IsFresh s h old d0 d1 d2 at fresh = record {
    family = λ f e.
        let new = fresh.family f e in
        ground (arith, get-delete Str-discrete old.family_id f s.families);
    first =
        λ t e. revoke_family_locked-Shrinks s old.family_id (hash_of sha256 t) (fresh.first t e);
    second =
        λ t e. revoke_family_locked-Shrinks s old.family_id (hash_of sha256 t) (fresh.second t e);
    first_unused = λ t e.
        let unused = fresh.first_unused t e in
        let absent = fresh.first t e in
        ground (arith, get-put Str-discrete h (hash_of sha256 t) old.user_id s.consumed);
    second_unused = λ t e.
        let unused = fresh.second_unused t e in
        let absent = fresh.second t e in
        ground (arith, get-put Str-discrete h (hash_of sha256 t) old.user_id s.consumed);
    apart = fresh.apart;
  }

  -- The cases of `RotateRefresh`: what each leaves.
  pub rotate_refresh-Inv :
      (s : SessionStore) (token : Str) (checked now : ℕ) (d0 d1 d2 : Draw)
      → IsFresh sha256 s d0 d1 d2
      → Inv s
      → Inv (rotate_refresh sha256 s token checked now d0 d1 d2).0
  unfolding rotate_refresh
  rotate_refresh-Inv s token checked now d0 d1 d2 fresh v =
      elim (Option-cases (token_hash sha256 token)) [
        | inl e ↦ rw (e, rotate_refresh) v
        | inr (h, e) ↦ elim (Option-cases (session_at s h)) [
          | inl absent ↦ rw (e, absent, rotate_refresh) (refuse_unknown-Inv s h v)
          | inr (old, at) ↦
              elim (Bool-cases
                (not (is_kind old.kind refresh) || not (ltb checked old.expires_at))) [
                  | inl bad ↦
                      rw (e, at, bad, rotate_refresh) (revoke_family_locked-Inv s old.family_id v)
                  | inr good ↦
                      rw (e, at, good, rotate_refresh)
                        (issue_pair-Inv sha256 (consume s h old) old.user_id now d0 d1 d2
                          (consume-IsFresh s h old d0 d1 d2 at fresh) (consume-Inv s h old v))
                ]
        ]
      ]
