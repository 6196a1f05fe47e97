-- ===== src/Auth/Session/Invariant.antt =====
-- The invariant of the session store: the two maps describe one another, and a family has one user.
use personal_vpn.Prelude.{
  ◌≡◌, ◌≢◌, sym, ◌∙◌, true, false, [], none, some, arith, ite, Str, Str-discrete, get, member,
  IsMap, put-IsMap, delete-IsMap, Bool-cases, inl, inr,
}
use personal_vpn.Auth.Session.{
  Session, SessionStore, hashes_of, revoke_family_locked, add_session, open_family,
  new_session_store,
}
use personal_vpn.Auth.Session.Views.{
  session_at, in_family, session_at-revoke_family_locked, in_family-revoke_family_locked,
  session_at-add_session, in_family-add_session, in_family-open_family,
}

pub record Inv (s : SessionStore) : Type 0 where
  -- A session is listed in its family.
  pub owned : (h : Str) (r : Session) → session_at s h ≡ some r → in_family s r.family_id h ≡ true
  -- What a family lists is a session of it.
  pub listed :
      (f h : Str)
      → in_family s f h ≡ true
      → (r : Session) × (session_at s h ≡ some r) × (r.family_id ≡ f)
  pub one_user :
      (h j : Str) (r q : Session)
      → session_at s h ≡ some r
      → session_at s j ≡ some q
      → r.family_id ≡ q.family_id
      → r.user_id ≡ q.user_id
  pub keyed : IsMap Str-discrete s.families

pub new_session_store-Inv : Inv new_session_store
unfolding new_session_store hashes_of get member
new_session_store-Inv = record {
  owned = λ h r e. ground arith;
  listed = λ f h e. absurd (ground arith);
  one_user = λ h j r q e. ground arith;
  keyed = tt;
}

-- Every session after a revocation was there before, and is of another family.
pub revoke_family_locked-shrinks :
    (s : SessionStore) (f h : Str) (r : Session)
    → Inv s
    → session_at (revoke_family_locked s f) h ≡ some r
    → (session_at s h ≡ some r) × (r.family_id ≢ f)
revoke_family_locked-shrinks s f h r v e = (
  ground (arith, session_at-revoke_family_locked s f h),
  λ p.
      let before : session_at s h ≡ some r =
        ground (arith, session_at-revoke_family_locked s f h) in
      let mine = v.owned h r before in
      ground (arith, session_at-revoke_family_locked s f h, rw p at mine),
)

-- The sessions of other families stay.
pub revoke_family_locked-keeps :
    (s : SessionStore) (f h : Str) (r : Session)
    → Inv s
    → session_at s h ≡ some r
    → r.family_id ≢ f
    → session_at (revoke_family_locked s f) h ≡ some r
revoke_family_locked-keeps s f h r v e ne = elim (Bool-cases (in_family s f h)) [
  | inl mine ↦ let (q, found, same) = v.listed f h mine in absurd (ground arith)
  | inr other ↦ ground (arith, session_at-revoke_family_locked s f h)
]

pub revoke_family_locked-Inv : (s : SessionStore) (f : Str) → Inv s → Inv (revoke_family_locked s f)
revoke_family_locked-Inv s f v = record {
  owned = λ h r e.
      let (old, ne) = revoke_family_locked-shrinks s f h r v e in
      ground (arith, in_family-revoke_family_locked s f r.family_id h, v.owned h r old);
  listed = λ g h e.
      let e' : ite (Str-discrete f g) false (in_family s g h) ≡ true =
        rw (in_family-revoke_family_locked s f g h) at e in
      let old : (in_family s g h ≡ true) × (f ≢ g) = ground arith in
      let (r, found, same) = v.listed g h old.0 in
      (r, revoke_family_locked-keeps s f h r v found (λ p. old.1 (sym p ∙ same)), same);
  one_user = λ h j r q e d.
      v.one_user h j r q (revoke_family_locked-shrinks s f h r v e).0
        (revoke_family_locked-shrinks s f j q v d).0;
  keyed = unfold revoke_family_locked in delete-IsMap Str-discrete f s.families v.keyed;
}

-- A family that is not there has no hashes and no sessions.
abbrev pub IsFreshFamily : SessionStore → Str → Type 0
IsFreshFamily s f = get Str-discrete f s.families ≡ none

pub fresh_family : (s : SessionStore) (f h : Str) → IsFreshFamily s f → in_family s f h ≡ false
unfolding hashes_of member
fresh_family s f h e = ground arith

pub open_family-Inv :
    (s : SessionStore) (f : Str) → IsFreshFamily s f → Inv s → Inv (open_family s f)
unfolding open_family
open_family-Inv s f fresh v = record {
  owned = λ h r e.
      ground
        (arith, in_family-open_family s f r.family_id h, v.owned h r e, fresh_family s f h fresh);
  listed = λ g h e.
      let e' : ite (Str-discrete f g) false (in_family s g h) ≡ true =
        rw (in_family-open_family s f g h) at e in
      let old : in_family s g h ≡ true = ground arith in v.listed g h old;
  one_user = λ h j r q e d. v.one_user h j r q e d;
  keyed = put-IsMap Str-discrete f [] s.families v.keyed;
}

-- The sessions of the family that are there are of the user.
abbrev pub IsFamilyOf : SessionStore → Str → Str → Type 0
IsFamilyOf s f user =
    (h : Str) (r : Session) → session_at s h ≡ some r → r.family_id ≡ f → r.user_id ≡ user

add_session-listed :
    (s : SessionStore) (h g j : Str) (r : Session)
    → session_at s h ≡ none
    → Inv s
    → in_family (add_session s h r) g j ≡ true
    → (q : Session) × (session_at (add_session s h r) j ≡ some q) × (q.family_id ≡ g)
add_session-listed s h g j r fresh v e = elim (Bool-cases (in_family s g j)) [
  | inl old ↦
      let (q, found, same) = v.listed g j old in
      (q, ground (arith, session_at-add_session s h j r), same)
  | inr new ↦ (
    r,
    ground (arith, session_at-add_session s h j r, in_family-add_session s h g j r),
    ground (arith, in_family-add_session s h g j r),
  )
]

pub add_session-Inv :
    (s : SessionStore) (h : Str) (r : Session)
    → session_at s h ≡ none
    → IsFamilyOf s r.family_id r.user_id
    → Inv s
    → Inv (add_session s h r)
add_session-Inv s h r fresh mine v = record {
  owned = λ j q e. ground (
    arith,
    session_at-add_session s h j r,
    in_family-add_session s h q.family_id j r,
    v.owned j q,
  );
  listed = λ g j e. add_session-listed s h g j r fresh v e;
  one_user = λ j k q p e d same. ground (
    arith,
    session_at-add_session s h j r,
    session_at-add_session s h k r,
    v.one_user j k q p,
    mine j q,
    mine k p,
  );
  keyed = unfold add_session in put-IsMap Str-discrete _ _ s.families v.keyed;
}
