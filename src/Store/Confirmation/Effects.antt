-- ===== src/Store/Confirmation/Effects.antt =====
-- What a confirmation leaves.
use personal_vpn.Prelude.{ℕ, ◌≡◌, true, false, Str, ok, ℤ, All}
use personal_vpn.Store.Failures.{no_faults}
use personal_vpn.Store.Tables.{active, AssignmentRow, Database, Server}
use personal_vpn.Store.Confirmation.{
  is_observed, gave_up_lease, gave_up_device, confirmed, confirm_gateway_snapshot,
}

-- An assignment of the gateway whose generation is covered is active and up to date, or removed.
abbrev pub IsSettled : Str → ℤ → AssignmentRow → Type 0
IsSettled g generation a =
    is_observed g generation a ≡ true
    → (a.state ≡ active) × (a.observed_generation ≡ a.desired_generation)

module _ (s : Server) where
  pub record Confirmed (db : Database) (gateway_id g : Str) (generation : ℤ) (now : ℕ)
      : Type 0 where
    pub result :
        confirm_gateway_snapshot s db gateway_id generation now no_faults
        ≡ (confirmed g generation now db, ok tt)
    pub settled : All (IsSettled g generation) (confirmed g generation now db).assignments
    pub released :
        All
          (λ l. gave_up_lease g (confirmed g generation now db).assignments l ≡ false)
          (confirmed g generation now db).leases
    pub revoked :
        All
          (λ d. gave_up_device g (confirmed g generation now db).assignments d ≡ false)
          (confirmed g generation now db).devices
