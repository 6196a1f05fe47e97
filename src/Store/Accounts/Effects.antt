-- ===== src/Store/Accounts/Effects.antt =====
-- What the calls on accounts and devices leave for the later ones.
use personal_vpn.Prelude.{
  ℕ, ◌≡◌, refl, ap, ◌∙◌, inl, inr, Bool, true, false, ◌||◌, List, [], ◌∷◌, ◌++◌, Option, none, some,
  Str, Str-discrete, holds-true, length, ltb, ok, err, arith, Bool-cases, Option-cases,
}
use personal_vpn.Control.{DeviceState, blank}
use personal_vpn.Store.Failures.{device_not_active, Fault}
use personal_vpn.Store.Tables.{
  UserRow, DeviceRow, Database, str_eq, exists_where, find_where, update_where,
}
use personal_vpn.Store.Accounts.{
  has_email, new_user, insert_user, write_row, create_user, find_user_password_hash, is_device,
  request_row, revoking, request_revocation,
}
use personal_vpn.Store.Allocation.{Externals, Draws, owned_device, is_active_state}
use personal_vpn.Store.Allocation.Creation.{
  transaction, run_transaction, create_tunnel_configuration,
}

find_where-append :
    (p : UserRow → Bool) (users : List UserRow) (u : UserRow)
    → exists_where p users ≡ false
    → p u ≡ true
    → find_where p (users ++ u ∷ []) ≡ some u
unfolding find_where exists_where
find_where-append p [] u unused it = ground arith
find_where-append p (v ∷ users) u unused it = elim (Bool-cases (p v)) [
  | inl e ↦ absurd (ground arith)
  | inr e ↦ let rest = find_where-append p users u (ground arith) it in ground arith
]

exists_where-or :
    (p r : UserRow → Bool) (users : List UserRow)
    → exists_where (λ v. p v || r v) users ≡ false
    → exists_where r users ≡ false
unfolding exists_where
exists_where-or p r [] e = refl
exists_where-or p r (v ∷ users) e = elim (Bool-cases (p v || r v)) [
  | inl it ↦ absurd (ground arith)
  | inr other ↦ let rest = exists_where-or p r users (ground arith) in ground arith
]

-- A user who has been created is found under the email, with the hash of the password, and is not
-- disabled.
pub create_user-find :
    (is_normalized : Str → Bool) (db db' : Database) (email password_hash id : Str)
    (fault : Option Fault)
    → create_user is_normalized db email password_hash id fault ≡ (db', ok id)
    → find_user_password_hash db' email none ≡ ok (id, password_hash, false)
unfolding create_user find_user_password_hash insert_user write_row
create_user-find is_normalized db db' email password_hash id fault e =
    elim (Bool-cases (exists_where (λ v. str_eq v.id id || has_email email v) db.users)) [
      | inl taken ↦ absurd (ground arith)
      | inr unused ↦ elim (Option-cases fault) [
        | inr (f, it) ↦ absurd (ground arith)
        | inl fine ↦
            let same : str_eq email email ≡ true = holds-true (Str-discrete email email) refl in
            let users : db'.users ≡ db.users ++ new_user id email password_hash ∷ [] =
              ground arith in
            let found : find_where (has_email email) db'.users
                ≡ some (new_user id email password_hash) =
              ap (find_where (has_email email)) users
              ∙ find_where-append (has_email email) db.users (new_user id email password_hash)
                  (exists_where-or (λ v. str_eq v.id id) (has_email email) db.users unused) same in
            ground arith
      ]
    ]

-- The device that is looked up is the first one that the update has changed.
find_where-revoking :
    (device user : Str) (devices : List DeviceRow)
    → exists_where (is_device device user) devices ≡ true
    → (d : DeviceRow) × (find_where
          (owned_device device user)
          (update_where (is_device device user) request_row devices)
        ≡ some (request_row d))
unfolding find_where update_where exists_where
find_where-revoking device user [] e = absurd (ground arith)
find_where-revoking device user (d ∷ devices) e = elim (Bool-cases (is_device device user d)) [
  | inl it ↦ (d, ground arith)
  | inr other ↦
      let (found, rest) = find_where-revoking device user devices (ground arith) in
      (found, ground arith)
]

revoking-inactive : (t : DeviceState) → is_active_state (revoking t) ≡ false
revoking-inactive DeviceState.active = refl
revoking-inactive DeviceState.revocation_pending = refl
revoking-inactive DeviceState.revoked = refl

-- Once the owner of a device has requested its revocation with success, a call for a configuration
-- of the device, with acceptable arguments and without faults, is refused since the device is not
-- active, and changes nothing.
pub request_revocation-create :
    (x : Externals) (db db' : Database) (owner_id device_id region_id key : Str) (t : Draws)
    (fault : Option Fault)
    → request_revocation x.server_of db owner_id device_id fault ≡ (db', ok tt)
    → (blank owner_id
        || blank device_id
        || blank region_id
        || ltb (length key) 16
        || ltb 128 (length key))
      ≡ false
    → ((n : ℕ) → t.faults n ≡ none)
    → create_tunnel_configuration x db' owner_id device_id region_id key t
      ≡ (db', err device_not_active)
unfolding request_revocation write_row create_tunnel_configuration run_transaction transaction
request_revocation-create x db db' owner_id device_id region_id key t fault e good calm =
    elim (Option-cases (x.server_of.uuid device_id)) [
      | inl bad ↦ absurd (ground arith)
      | inr (device, d) ↦ elim (Option-cases (x.server_of.uuid owner_id)) [
        | inl bad ↦ absurd (ground arith)
        | inr (user, u) ↦ elim (Bool-cases (exists_where (is_device device user) db.devices)) [
          | inr nothing ↦ absurd (ground arith)
          | inl present ↦ elim (Option-cases fault) [
            | inr (f, it) ↦ absurd (ground arith)
            | inl fine ↦
                let devices : db'.devices
                    ≡ update_where (is_device device user) request_row db.devices =
                  ground arith in
                let (row, found) = find_where-revoking device user db.devices present in
                let there : find_where (owned_device device user) db'.devices
                    ≡ some (request_row row) =
                  ap (find_where (owned_device device user)) devices ∙ found in
                let inactive = revoking-inactive row.state in
                let f0 = calm 0 in let f1 = calm 1 in ground arith
          ]
        ]
      ]
    ]
