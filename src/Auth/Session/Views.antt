-- ===== src/Auth/Session/Views.antt =====
-- What the writes of the session store do to the two maps that are read: the session of a hash, and
-- the hashes of a family.
use personal_vpn.Prelude.{
  ◌≡◌, Bool, true, false, [], Option, none, some, arith, ite, if◌then◌else◌, Str, Str-discrete, get,
  member, insert, get-put, get-delete, get-delete_all, member-insert,
}
use personal_vpn.Auth.Session.{
  Session, SessionStore, hashes_of, revoke_family_locked, add_session, open_family,
}

abbrev pub session_at : SessionStore → Str → Option Session
session_at s hash = get Str-discrete hash s.sessions

abbrev pub in_family : SessionStore → Str → Str → Bool
in_family s family_id hash = member Str-discrete hash (hashes_of s family_id)

pub session_at-revoke_family_locked :
    (s : SessionStore) (f h : Str)
    → session_at (revoke_family_locked s f) h ≡ (if in_family s f h then none else session_at s h)
unfolding revoke_family_locked
session_at-revoke_family_locked s f h = get-delete_all Str-discrete (hashes_of s f) h s.sessions

pub in_family-revoke_family_locked :
    (s : SessionStore) (f g h : Str)
    → in_family (revoke_family_locked s f) g h ≡ ite (Str-discrete f g) false (in_family s g h)
unfolding revoke_family_locked hashes_of member
in_family-revoke_family_locked s f g h = ground (arith, get-delete Str-discrete f g s.families)

pub session_at-add_session :
    (s : SessionStore) (h j : Str) (r : Session)
    → session_at (add_session s h r) j ≡ ite (Str-discrete h j) (some r) (session_at s j)
unfolding add_session
session_at-add_session s h j r = get-put Str-discrete h j r s.sessions

pub in_family-add_session :
    (s : SessionStore) (h g j : Str) (r : Session)
    → in_family (add_session s h r) g j
      ≡ ite
          (Str-discrete r.family_id g)
          (ite (Str-discrete h j) true (in_family s r.family_id j))
          (in_family s g j)
unfolding add_session hashes_of
in_family-add_session s h g j r = ground (
  arith,
  get-put Str-discrete r.family_id g (insert Str-discrete h (hashes_of s r.family_id)) s.families,
  member-insert Str-discrete h j (hashes_of s r.family_id),
)

pub in_family-open_family :
    (s : SessionStore) (f g h : Str)
    → in_family (open_family s f) g h ≡ ite (Str-discrete f g) false (in_family s g h)
unfolding open_family hashes_of member
in_family-open_family s f g h = ground (arith, get-put Str-discrete f g [] s.families)
