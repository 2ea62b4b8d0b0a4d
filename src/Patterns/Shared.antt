-- ===== src/Patterns/Shared.antt =====
-- patterns/base.py
use jebao_flow_engine.Base.{ℕ, Bool, ◌&&◌, Option, none, some, List, [], ◌∷◌}
use jebao_flow_engine.Base.Dict.{Dict, insert}
use jebao_flow_engine.Base.Result.{Result, ok, ◌>>=◌}
use jebao_flow_engine.Floats.{Floats, divide}
use jebao_flow_engine.Groups.{GroupMember, GroupConfig, GroupRuntime}
use jebao_flow_engine.Protocol.Models.{DeviceTarget, device_target}
use jebao_flow_engine.Safety.{PowerLimits, power_limits, clamp, clamp_enabled_power}

-- `fallback if value is None else value`
abbrev pub or_default {ℓ} : {A : Type ℓ} → A → Option A → A
or_default fallback none = fallback
or_default fallback (some a) = a

module _ (F : Floats) where
  open F use {Float, of_nat, sub, mul, mod_one}

  unfoldable pub is_group_enabled : GroupConfig Float → GroupRuntime Float → Bool
  is_group_enabled group runtime = or_default group.enabled runtime.enabled

  unfoldable pub effective_limits : GroupConfig Float → GroupRuntime Float → Result PowerLimits
  effective_limits group runtime =
      power_limits (or_default group.default.min_power runtime.min_power)
        (or_default group.default.max_power runtime.max_power)

  unfoldable pub effective_period : GroupConfig Float → GroupRuntime Float → Float
  effective_period group runtime = or_default group.default.period_seconds runtime.period_seconds

  unfoldable pub effective_power : GroupConfig Float → GroupRuntime Float → ℕ
  effective_power group runtime = or_default group.default.power runtime.power

  unfoldable pub effective_ceiling :
      GroupConfig Float → GroupRuntime Float → PowerLimits → Result Float
  unfolding effective_power
  effective_ceiling group runtime limits =
      clamp F (of_nat (effective_power group runtime)) (of_nat limits.min_power)
        (of_nat limits.max_power)

  -- [0, 1), a positive phase being a delay
  unfoldable pub cycle_fraction : Float → GroupRuntime Float → Float → Float → Result Float
  unfolding divide
  cycle_fraction timestamp runtime period_seconds phase_degrees = do
    cycles ← divide F (sub timestamp runtime.started_at) period_seconds
    delay ← divide F phase_degrees (of_nat 360)
    ok (mod_one (sub cycles delay))

  unfoldable pub member_target :
      Float → GroupMember Float → PowerLimits → Bool → Result DeviceTarget
  member_target requested_power member limits group_enabled = do
    let enabled = group_enabled && member.enabled
    power ← clamp_enabled_power F (mul requested_power member.gain) limits enabled
    device_target enabled power none none

  -- `for member in group.members: targets[member.device] = member_target(request(member), ...)`
  unfoldable pub for_members :
      (GroupMember Float → Result Float)
      → PowerLimits
      → Bool
      → List (GroupMember Float)
      → Dict DeviceTarget
      → Result (Dict DeviceTarget)
  for_members request limits enabled [] targets = ok targets
  for_members request limits enabled (member ∷ members) targets = do
    requested ← request member
    target ← member_target requested member limits enabled
    for_members request limits enabled members (insert member.device target targets)
