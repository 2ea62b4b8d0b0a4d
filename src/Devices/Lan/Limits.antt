-- ===== src/Devices/Lan/Limits.antt =====
-- The limits that the commands of devices/lan.py check before they write.
use jebao_flow_engine.Base.{
  ℕ, ◌%◌, ◌<◌, ◌≡◌, ◌≢◌, refl, sym, subst, true, Option, arith, ◌⊎◌, inl, inr, String,
}
use jebao_flow_engine.Base.Int.{ℤ}
use jebao_flow_engine.Base.Result.{Error, Result-cases, err, value_error}
use jebao_flow_engine.Devices.Lan.{LanDevice}
use jebao_flow_engine.Devices.Lan.Commands.{command, set_power, write_target}
use jebao_flow_engine.Devices.Lan.Targets.{
  enabled_changes, power_change, require_logical_attribute, target_changes, validate_power,
}
use jebao_flow_engine.Devices.RawSession.{RawSession, Loop}
use jebao_flow_engine.Protocol.Models.{DeviceTarget, enabled}
use jebao_flow_engine.Safety.{PowerLimits}

-- A power that the adapter must not write.
abbrev pub IsOutside : PowerLimits → ℕ → ℕ → Type 0
IsOutside limits step amount =
    (amount < limits.min_power) ⊎ ((limits.max_power < amount) ⊎ (amount % step ≢ 0))

validate_power-IsOutside :
    (limits : PowerLimits) (step amount : ℕ)
    → IsOutside limits step amount
    → validate_power limits step amount ≡ err value_error
unfolding validate_power
validate_power-IsOutside limits step amount h = ground (arith, h)

module _ {S : Type 0} (float_text : String → Option ℤ) (session : RawSession S) (loop : Loop S)
    (d : LanDevice S) where
  -- A power below the minimum, above the maximum or off the step is never written: `set_power` and `write_target`, for a
  -- target that is enabled, raise with it, and the adapter and its session are left as they were.
  pub IsOutside-refused :
      (amount : ℕ) (target : DeviceTarget)
      → IsOutside d.power_limits d.power_step amount
      → target.enabled ≡ true
      → target.power ≡ amount
      → (set_power float_text session loop amount d ≡ (err value_error, d))
        × ((raised : Error) × (write_target float_text session loop target d ≡ (err raised, d)))
  unfolding set_power write_target command power_change target_changes enabled_changes
  IsOutside-refused amount target outside is_enabled same =
      let refused = validate_power-IsOutside d.power_limits d.power_step amount outside in
      let off =
        subst (λ a. validate_power d.power_limits d.power_step a ≡ err value_error) (sym same)
          refused in
      (
        rw refused refl,
        elim (Result-cases (require_logical_attribute d.schema enabled)) [
          | inr (raised, missing) ↦ (raised, rw missing refl)
          | inl (attribute, found) ↦ (value_error, rw (found, is_enabled, off) refl)
        ],
      )
