-- ===== src/Auth/Session/Lifecycle.antt =====
-- Histories of the session store, and what holds after any of them.
use personal_vpn.Prelude.{
  ℕ, ◌≡◌, refl, subst, ite, List, [], ◌∷◌, none, some, arith, Str, Str-discrete, Map, get, put,
  get-put, Option-cases, Bool-cases, inl, inr, ltb, not, holds, ◌||◌,
}
use personal_vpn.Auth.Session.{
  Session, SessionStore, refresh, Draw, token_hash, hashes_of, belongs_to, revoke_family_locked,
  revoke_matching, revoke_user_locked, revoke_user, issue_locked, issue_pair, issue, refuse_unknown,
  consume, rotate_refresh, is_kind, add_session, open_family,
}
use personal_vpn.Auth.Session.Views.{session_at, session_at-revoke_family_locked}
use personal_vpn.Auth.Session.Invariant.{Inv}
use personal_vpn.Auth.Session.Revocation.{revoke_user_locked-Inv}
use personal_vpn.Auth.Session.Freshness.{IsFresh, issue_pair-Inv, issue_pair_absent}
use personal_vpn.Auth.Session.Rotation.{
  Shrinks, IsDead, revoke_family_locked-Shrinks, revoke_user_locked-Shrinks, rotate_refresh-Inv,
  consume-IsFresh,
}

-- The calls that write. The draws and the clock readings are those that the call makes.
pub data Op : Type 0 where
  issues : Str → ℕ → Draw → Draw → Draw → Op
  rotates : Str → ℕ → ℕ → Draw → Draw → Draw → Op
  revokes : Str → Op

revoke_matching-consumed :
    (l : Map Str (List Str)) (u : Str) (s : SessionStore)
    → (revoke_matching l u s).consumed ≡ s.consumed
unfolding revoke_matching revoke_family_locked
revoke_matching-consumed [] u s = refl
revoke_matching-consumed ((f, hashes) ∷ l) u s = elim (Bool-cases (belongs_to s u hashes)) [
  | inl b ↦ rw (b, revoke_matching) (revoke_matching-consumed l u (revoke_family_locked s f))
  | inr b ↦ rw (b, revoke_matching) (revoke_matching-consumed l u s)
]

-- The two copies of the loop.
pub revoke_user-eq : (s : SessionStore) (u : Str) → revoke_user s u ≡ revoke_user_locked s u
unfolding revoke_user revoke_user_locked
revoke_user-eq s u = refl

revoke_user_locked-consumed :
    (s : SessionStore) (u : Str) → (revoke_user_locked s u).consumed ≡ s.consumed
unfolding revoke_user_locked
revoke_user_locked-consumed s u = revoke_matching-consumed s.families u s

refuse_unknown-consumed : (s : SessionStore) (h : Str) → (refuse_unknown s h).consumed ≡ s.consumed
unfolding refuse_unknown
refuse_unknown-consumed s h = elim (Option-cases (get Str-discrete h s.consumed)) [
  | inl e ↦ rw (e, refuse_unknown) refl
  | inr (u, e) ↦ rw (e, refuse_unknown) (revoke_user_locked-consumed s u)
]

refuse_unknown-Shrinks : (s : SessionStore) (h : Str) → Inv s → Shrinks s (refuse_unknown s h)
unfolding refuse_unknown
refuse_unknown-Shrinks s h v j absent = elim (Option-cases (get Str-discrete h s.consumed)) [
  | inl e ↦ rw (e, refuse_unknown) absent
  | inr (u, e) ↦ rw (e, refuse_unknown) (revoke_user_locked-Shrinks s u v j absent)
]

-- A store with the same consumed tokens and no more sessions has dead ones too.
Shrinks-IsDead : (s t : SessionStore) → Shrinks s t → t.consumed ≡ s.consumed → IsDead s → IsDead t
Shrinks-IsDead s t less same dead h u e = less h (dead h u (rw same at e))

-- The old token of a rotation has no session left.
consume_clears :
    (s : SessionStore) (h : Str) (old : Session)
    → Inv s
    → session_at s h ≡ some old
    → session_at (consume s h old) h ≡ none
unfolding consume hashes_of
consume_clears s h old v at =
    let mine = v.owned h old at in
    let marked = record s { consumed = put Str-discrete h old.user_id s.consumed } in
    ground (arith, session_at-revoke_family_locked marked old.family_id h)

consume-IsDead :
    (s : SessionStore) (h : Str) (old : Session)
    → Inv s
    → session_at s h ≡ some old
    → IsDead s
    → IsDead (consume s h old)
consume-IsDead s h old v at dead j u e = elim (Str-discrete h j) [
  | yes p ↦ subst (λ k. session_at (consume s h old) k ≡ none) p (consume_clears s h old v at)
  | no p ↦
      let before : get Str-discrete j s.consumed ≡ some u =
        unfold consume revoke_family_locked in
        ground (arith, get-put Str-discrete h j old.user_id s.consumed) in
      unfold consume in revoke_family_locked-Shrinks _ old.family_id j (dead j u before)
]

pub consume-consumed :
    (s : SessionStore) (h j : Str) (old : Session)
    → get Str-discrete j (consume s h old).consumed
      ≡ ite (Str-discrete h j) (some old.user_id) (get Str-discrete j s.consumed)
unfolding consume revoke_family_locked
consume-consumed s h j old = get-put Str-discrete h j old.user_id s.consumed

module _ (sha256 : Str → Str) where
  abbrev pub step : SessionStore → Op → SessionStore
  step s (issues user now d0 d1 d2) = (issue sha256 s user now d0 d1 d2).0
  step s (rotates token checked now d0 d1 d2) =
      (rotate_refresh sha256 s token checked now d0 d1 d2).0
  step s (revokes user) = revoke_user s user

  -- The random source does not repeat itself.
  abbrev pub IsAllowed : SessionStore → Op → Type 0
  IsAllowed s (issues user now d0 d1 d2) = IsFresh sha256 s d0 d1 d2
  IsAllowed s (rotates token checked now d0 d1 d2) = IsFresh sha256 s d0 d1 d2
  IsAllowed s (revokes user) = Unit

  pub data Reach (s : SessionStore) : SessionStore → Type 0 where
    here : Reach s s
    next : {t u : SessionStore} (op : Op) → Reach s t → IsAllowed t op → step t op ≡ u → Reach s u

  pub issue_pair-consumed :
      (s : SessionStore) (user : Str) (now : ℕ) (d0 d1 d2 : Draw)
      → (issue_pair sha256 s user now d0 d1 d2).0.consumed ≡ s.consumed
  unfolding issue_pair issue_locked open_family add_session
  issue_pair-consumed s user now d0 d1 d2 = ground arith

  issue_pair-IsDead :
      (s : SessionStore) (user : Str) (now : ℕ) (d0 d1 d2 : Draw)
      → IsFresh sha256 s d0 d1 d2
      → IsDead s
      → IsDead (issue_pair sha256 s user now d0 d1 d2).0
  issue_pair-IsDead s user now d0 d1 d2 fresh dead h u e =
      let before : get Str-discrete h s.consumed ≡ some u =
        rw (issue_pair-consumed s user now d0 d1 d2) at e in
      issue_pair_absent sha256 s user h now d0 d1 d2 (dead h u before)
        (λ t drawn p. let unused = fresh.first_unused t drawn in ground arith)
        (λ t drawn p. let unused = fresh.second_unused t drawn in ground arith)

  issue-cases {ℓ} :
      (P : SessionStore → Type ℓ) (s : SessionStore) (user : Str) (now : ℕ) (d0 d1 d2 : Draw)
      → P s
      → P (issue_pair sha256 s user now d0 d1 d2).0
      → P (issue sha256 s user now d0 d1 d2).0
  unfolding issue
  issue-cases P s user now d0 d1 d2 same made = elim (Bool-cases (holds (Str-discrete user []))) [
    | inl b ↦ rw (b, issue) same
    | inr b ↦ rw (b, issue) made
  ]

  -- The branches of a rotation: no token, an unknown one, one refused, and the exchange.
  pub rotate_refresh-cases {ℓ} :
      (P : SessionStore → Type ℓ) (s : SessionStore) (token : Str) (checked now : ℕ)
      (d0 d1 d2 : Draw)
      → P s
      → ((h : Str) → session_at s h ≡ none → P (refuse_unknown s h))
      → ((f : Str) → P (revoke_family_locked s f))
      → ((h : Str) (old : Session)
          → session_at s h ≡ some old
          → P (issue_pair sha256 (consume s h old) old.user_id now d0 d1 d2).0)
      → P (rotate_refresh sha256 s token checked now d0 d1 d2).0
  unfolding rotate_refresh
  rotate_refresh-cases P s token checked now d0 d1 d2 same unknown refused exchanged =
      elim (Option-cases (token_hash sha256 token)) [
        | inl e ↦ rw (e, rotate_refresh) same
        | inr (h, e) ↦ elim (Option-cases (session_at s h)) [
          | inl absent ↦ rw (e, absent, rotate_refresh) (unknown h absent)
          | inr (old, at) ↦
              elim (Bool-cases
                (not (is_kind old.kind refresh) || not (ltb checked old.expires_at))) [
                  | inl bad ↦ rw (e, at, bad, rotate_refresh) (refused old.family_id)
                  | inr good ↦ rw (e, at, good, rotate_refresh) (exchanged h old at)
                ]
        ]
      ]

  step-Inv : (s : SessionStore) (op : Op) → IsAllowed s op → Inv s → Inv (step s op)
  step-Inv s (issues user now d0 d1 d2) fresh v =
      issue-cases Inv s user now d0 d1 d2 v (issue_pair-Inv sha256 s user now d0 d1 d2 fresh v)
  step-Inv s (rotates token checked now d0 d1 d2) fresh v =
      rotate_refresh-Inv sha256 s token checked now d0 d1 d2 fresh v
  step-Inv s (revokes user) _ v = rw (revoke_user-eq s user) (revoke_user_locked-Inv s user v)

  step-IsDead :
      (s : SessionStore) (op : Op) → IsAllowed s op → Inv s → IsDead s → IsDead (step s op)
  step-IsDead s (issues user now d0 d1 d2) fresh v dead =
      issue-cases IsDead s user now d0 d1 d2 dead (issue_pair-IsDead s user now d0 d1 d2 fresh dead)
  step-IsDead s (rotates token checked now d0 d1 d2) fresh v dead =
      rotate_refresh-cases IsDead s token checked now d0 d1 d2 dead
        (λ h absent.
          Shrinks-IsDead s (refuse_unknown s h) (refuse_unknown-Shrinks s h v)
            (refuse_unknown-consumed s h) dead)
        (λ f.
          Shrinks-IsDead s (revoke_family_locked s f) (revoke_family_locked-Shrinks s f)
            (unfold revoke_family_locked in refl) dead)
        (λ h old at.
          issue_pair-IsDead (consume s h old) old.user_id now d0 d1 d2
            (consume-IsFresh sha256 s h old d0 d1 d2 at fresh) (consume-IsDead s h old v at dead))
  step-IsDead s (revokes user) _ v dead = rw (revoke_user-eq s user) (
      Shrinks-IsDead s (revoke_user_locked s user) (revoke_user_locked-Shrinks s user v)
        (revoke_user_locked-consumed s user) dead)

  -- A consumed token stays consumed, by the same user.
  abbrev pub IsConsumed : Str → Str → SessionStore → Type 0
  IsConsumed h u s = get Str-discrete h s.consumed ≡ some u

  step-IsConsumed :
      (s : SessionStore) (op : Op) (h u : Str)
      → IsDead s
      → IsConsumed h u s
      → IsConsumed h u (step s op)
  step-IsConsumed s (issues user now d0 d1 d2) h u dead e =
      issue-cases (IsConsumed h u) s user now d0 d1 d2 e
        (rw (issue_pair-consumed s user now d0 d1 d2) e)
  step-IsConsumed s (rotates token checked now d0 d1 d2) h u dead e =
      rotate_refresh-cases (IsConsumed h u) s token checked now d0 d1 d2 e
        (λ j absent. rw (refuse_unknown-consumed s j) e) (λ f. unfold revoke_family_locked in e)
        (λ j old at.
          rw (issue_pair-consumed (consume s j old) old.user_id now d0 d1 d2)
            (let gone = dead h u e in ground (arith, consume-consumed s j h old)))
  step-IsConsumed s (revokes user) h u dead e =
      rw (revoke_user-eq s user, revoke_user_locked-consumed s user) e

  pub record Healthy (s : SessionStore) : Type 0 where
    pub inv : Inv s
    pub dead : IsDead s

  -- Every history of logins, exchanges and logouts, on every branch, keeps the session map and the
  -- family map consistent with one another, keeps one user to a family, and keeps the consumed
  -- tokens without a session, if the draws collide with nothing.
  pub Reach-Healthy : {s t : SessionStore} → Reach s t → Healthy s → Healthy t
  Reach-Healthy here v = v
  Reach-Healthy (next {t} op r allowed e) v =
      let w = Reach-Healthy r v in
      subst Healthy e
        (record { inv = step-Inv t op allowed w.inv; dead = step-IsDead t op allowed w.inv w.dead })

  pub Reach-IsConsumed :
      {s t : SessionStore} (h u : Str) → Reach s t → Healthy s → IsConsumed h u s → IsConsumed h u t
  Reach-IsConsumed h u here v c = c
  Reach-IsConsumed h u (next {t} op r allowed e) v c =
      subst (IsConsumed h u) e
        (step-IsConsumed t op h u (Reach-Healthy r v).dead (Reach-IsConsumed h u r v c))
