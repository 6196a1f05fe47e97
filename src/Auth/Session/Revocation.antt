-- ===== src/Auth/Session/Revocation.antt =====
-- Revoking a user ends exactly the user's sessions.
use personal_vpn.Prelude.{
  ◌≡◌, ◌≢◌, ◌↔◌, refl, sym, subst, ◌∙◌, true, List, [], ◌∷◌, none, some, arith, if◌then◌else◌, Str,
  Str-discrete, Map, All, get, member, IsMap-entries, Option-cases, Bool-cases, inl, inr,
}
use personal_vpn.Auth.Session.{
  Session, SessionStore, hashes_of, revoke_family_locked, belongs_to, revoke_matching,
  revoke_user_locked,
}
use personal_vpn.Auth.Session.Views.{session_at, in_family, in_family-revoke_family_locked}
use personal_vpn.Auth.Session.Invariant.{
  Inv, revoke_family_locked-shrinks, revoke_family_locked-keeps, revoke_family_locked-Inv,
}

-- What the loop knows of an entry that it has yet to visit: it lists every session of its family,
-- and no session of another.
abbrev Tracks : SessionStore → Str × List Str → Type 0
Tracks s (f, hashes) =
    ((h : Str) → in_family s f h ≡ true → member Str-discrete h hashes ≡ true)
    × ((h : Str) (r : Session)
        → member Str-discrete h hashes ≡ true
        → session_at s h ≡ some r
        → r.family_id ≡ f)

belongs_to_of_member :
    (s : SessionStore) (u h : Str) (r : Session) (hashes : List Str)
    → member Str-discrete h hashes ≡ true
    → session_at s h ≡ some r
    → r.user_id ≡ u
    → belongs_to s u hashes ≡ true
unfolding belongs_to member
belongs_to_of_member s u h r [] m e p = ground arith
belongs_to_of_member s u h r (k ∷ hashes) m e p =
    ground (arith, belongs_to_of_member s u h r hashes)

member_of_belongs_to :
    (s : SessionStore) (u : Str) (hashes : List Str)
    → belongs_to s u hashes ≡ true
    → (h : Str) × (r : Session) × (member Str-discrete h hashes ≡ true)
      × (session_at s h ≡ some r)
      × (r.user_id ≡ u)
unfolding belongs_to member
member_of_belongs_to s u [] b = absurd (ground arith)
member_of_belongs_to s u (k ∷ hashes) b = elim (Option-cases (session_at s k)) [
  | inl e ↦
      let (h, r, m, at, p) = member_of_belongs_to s u hashes (ground arith) in
      (h, r, ground arith, at, p)
  | inr (r, e) ↦ elim (Str-discrete r.user_id u) [
    | yes p ↦ (k, r, ground arith, e, p)
    | no p ↦
        let (h, q, m, at, same) = member_of_belongs_to s u hashes (ground arith) in
        (h, q, ground arith, at, same)
  ]
]

-- One round of the loop.
round : SessionStore → Str → Str × List Str → SessionStore
round s u (f, hashes) = if belongs_to s u hashes then revoke_family_locked s f else s

round-Inv : (s : SessionStore) (u : Str) (e : Str × List Str) → Inv s → Inv (round s u e)
unfolding round
round-Inv s u (f, hashes) v = elim (Bool-cases (belongs_to s u hashes)) [
  | inl b ↦ rw b (revoke_family_locked-Inv s f v)
  | inr b ↦ rw b v
]

round-shrinks :
    (s : SessionStore) (u : Str) (e : Str × List Str) (h : Str) (r : Session)
    → Inv s
    → session_at (round s u e) h ≡ some r
    → session_at s h ≡ some r
unfolding round
round-shrinks s u (f, hashes) h r v at = elim (Bool-cases (belongs_to s u hashes)) [
  | inl b ↦ (revoke_family_locked-shrinks s f h r v (rw b at at)).0
  | inr b ↦ rw b at at
]

round-Tracks :
    (s : SessionStore) (u : Str) (e d : Str × List Str)
    → Inv s
    → Tracks s d
    → Tracks (round s u e) d
unfolding round
round-Tracks s u (f, hashes) (g, others) v (lists, only) =
    elim (Bool-cases (belongs_to s u hashes)) [
      | inl b ↦ rw b (
        (λ h m. lists h (ground (arith, in_family-revoke_family_locked s f g h))),
        λ h r m at. only h r m (revoke_family_locked-shrinks s f h r v at).0,
      )
      | inr b ↦ rw b (lists, only)
    ]

-- After its round, the user has no session in the family of the entry.
round_clears :
    (s : SessionStore) (u f : Str) (hashes : List Str) (h : Str) (r : Session)
    → Inv s
    → Tracks s (f, hashes)
    → session_at (round s u (f, hashes)) h ≡ some r
    → r.user_id ≡ u
    → r.family_id ≢ f
round_clears s u f hashes h r v (lists, only) at mine same =
    let before = round-shrinks s u (f, hashes) h r v at in
    let b =
      belongs_to_of_member s u h r hashes
        (lists h (subst (λ g. in_family s g h ≡ true) same (v.owned h r before))) before mine in
    (revoke_family_locked-shrinks s f h r v (unfold round in rw b at at)).1 same

-- Sessions of other users outlive it.
round_spares :
    (s : SessionStore) (u f : Str) (hashes : List Str) (h : Str) (r : Session)
    → Inv s
    → Tracks s (f, hashes)
    → session_at s h ≡ some r
    → r.user_id ≢ u
    → session_at (round s u (f, hashes)) h ≡ some r
unfolding round
round_spares s u f hashes h r v (lists, only) at other = elim (Bool-cases (belongs_to s u hashes)) [
  | inl b ↦
      let (j, q, m, found, mine) = member_of_belongs_to s u hashes b in
      rw b (
        revoke_family_locked-keeps s f h r v at
          λ same. other (v.one_user h j r q at found (same ∙ sym (only j q m found)) ∙ mine))
  | inr b ↦ rw b at
]

All-Tracks :
    (s : SessionStore) (u : Str) (e : Str × List Str) (l : List (Str × List Str))
    → Inv s
    → All (Tracks s) l
    → All (Tracks (round s u e)) l
All-Tracks s u e [] v t = tt
All-Tracks s u e (d ∷ l) v (t, ts) = (round-Tracks s u e d v t, All-Tracks s u e l v ts)

module _ (u : Str) where
  loop-Inv : (l : Map Str (List Str)) (s : SessionStore) → Inv s → Inv (revoke_matching l u s)
  unfolding revoke_matching round
  loop-Inv [] s v = v
  loop-Inv ((f, hashes) ∷ l) s v = loop-Inv l (round s u (f, hashes)) (round-Inv s u (f, hashes) v)

  loop_spares :
      (l : Map Str (List Str)) (s : SessionStore) (h : Str) (r : Session)
      → Inv s
      → All (Tracks s) l
      → session_at s h ≡ some r
      → r.user_id ≢ u
      → session_at (revoke_matching l u s) h ≡ some r
  unfolding revoke_matching round
  loop_spares [] s h r v t at other = at
  loop_spares ((f, hashes) ∷ l) s h r v (t, ts) at other =
      loop_spares l (round s u (f, hashes)) h r (round-Inv s u (f, hashes) v)
        (All-Tracks s u (f, hashes) l v ts) (round_spares s u f hashes h r v t at other) other

  -- A session that the loop leaves was there before; if it is the user's, its family was not
  -- visited.
  loop_clears :
      (l : Map Str (List Str)) (s : SessionStore) (h : Str) (r : Session)
      → Inv s
      → All (Tracks s) l
      → session_at (revoke_matching l u s) h ≡ some r
      → (session_at s h ≡ some r) × (r.user_id ≡ u → get Str-discrete r.family_id l ≡ none)
  unfolding revoke_matching round get
  loop_clears [] s h r v t at = (at, λ mine. refl)
  loop_clears ((f, hashes) ∷ l) s h r v (t, ts) at =
      let (before, absent) =
        loop_clears l (round s u (f, hashes)) h r (round-Inv s u (f, hashes) v)
          (All-Tracks s u (f, hashes) l v ts) at in
      (
        round-shrinks s u (f, hashes) h r v before,
        λ mine.
            let ne = round_clears s u f hashes h r v t before mine in ground (arith, absent mine),
      )

entries-Tracks :
    (s : SessionStore) (l : Map Str (List Str))
    → Inv s
    → All (λ e. get Str-discrete (e.0) s.families ≡ some (e.1)) l
    → All (Tracks s) l
unfolding hashes_of
entries-Tracks s [] v t = tt
entries-Tracks s ((f, hashes) ∷ l) v (e, es) = (
  (
    (λ h m. ground arith),
    λ h r m at. let (q, found, same) = v.listed f h (ground arith) in ground arith,
  ),
  entries-Tracks s l v es,
)

pub revoke_user_locked-Inv : (s : SessionStore) (u : Str) → Inv s → Inv (revoke_user_locked s u)
unfolding revoke_user_locked
revoke_user_locked-Inv s u v = loop-Inv u s.families s v

-- On a store that keeps the invariant, the sessions after `revokeUserLocked` are exactly those
-- before it that are not the user's.
pub session_at-revoke_user_locked :
    (s : SessionStore) (u h : Str) (r : Session)
    → Inv s
    → (session_at (revoke_user_locked s u) h ≡ some r)
      ↔ ((session_at s h ≡ some r) × (r.user_id ≢ u))
unfolding revoke_user_locked
session_at-revoke_user_locked s u h r v =
    let t = entries-Tracks s s.families v (IsMap-entries Str-discrete s.families v.keyed) in
    (
      (λ at.
          let (before, absent) = loop_clears u s.families s h r v t at in
          (
            before,
            λ mine.
                let m = v.owned h r before in
                absurd (unfold hashes_of member in ground (arith, absent mine)),
          )),
      λ (at, other). loop_spares u s.families s h r v t at other,
    )
