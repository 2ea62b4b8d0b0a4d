-- ===== src/Patterns/Bounds.antt =====
-- The targets of groups/calculator.py against the limits of the group.
use jebao_flow_engine.Base.{◌≤◌, ◌≡◌, true}
use jebao_flow_engine.Base.Dict.{Dict}
use jebao_flow_engine.Base.Result.{ok, >>=-eq-ok}
use jebao_flow_engine.Floats.{Floats, FloatLaws, divide}
use jebao_flow_engine.Groups.{
  GroupConfig, GroupRuntime, PatternKind, constant, sync, anti_phase, lagoon, reef_crest, gyre,
  tidal_swell, nutrient_transport,
}
use jebao_flow_engine.Patterns.Calculator.{is_supported, calculate_kind, calculate}
use jebao_flow_engine.Patterns.Shared.{
  or_default, is_group_enabled, effective_limits, effective_ceiling, cycle_fraction,
}
use jebao_flow_engine.Patterns.Fixed.{
  constant_pattern, sync_pattern, anti_phase_pattern, gyre_pattern,
}
use jebao_flow_engine.Patterns.Waves.{
  tidal_intensity, tidal_swell_pattern, nutrient_transport_pattern,
}
use jebao_flow_engine.Patterns.Randomized.{lagoon_pattern, reef_crest_pattern}
use jebao_flow_engine.Protocol.Models.{DeviceTarget}
use jebao_flow_engine.Safety.{PowerLimits}
use jebao_flow_engine.Patterns.Targets.{AllWithin, Covers, IsBounded, for_members-eq_ok}
use jebao_flow_engine.Patterns.Returns.{HasCycles, calculate_kind-Returns, effective_limits-eq_ok}

module _ (F : Floats) (L : FloatLaws F) where
  open F use {Float, sub}

  calculate_kind-eq_ok :
      (kind : PatternKind) (timestamp : Float) (group : GroupConfig Float)
      (runtime : GroupRuntime Float) (limits : PowerLimits) (targets : Dict DeviceTarget)
      → effective_limits F group runtime ≡ ok limits
      → limits.min_power ≤ limits.max_power
      → limits.max_power ≤ 100
      → calculate_kind F kind timestamp group runtime ≡ ok targets
      → AllWithin (is_group_enabled F group runtime) limits targets × Covers group.members targets
  unfolding calculate_kind constant_pattern sync_pattern anti_phase_pattern lagoon_pattern
      reef_crest_pattern gyre_pattern tidal_swell_pattern nutrient_transport_pattern
  calculate_kind-eq_ok constant timestamp group runtime limits targets e h hi run =
      for_members-eq_ok F L _ limits _ group.members targets h hi (rw e at run)
  calculate_kind-eq_ok sync timestamp group runtime limits targets e h hi run =
      let (_, _, h1) = >>=-eq-ok (cycle_fraction F timestamp runtime _ _) _ (rw e at run) in
      for_members-eq_ok F L _ limits _ group.members targets h hi h1
  calculate_kind-eq_ok anti_phase timestamp group runtime limits targets e h hi run =
      for_members-eq_ok F L _ limits _ group.members targets h hi (rw e at run)
  calculate_kind-eq_ok gyre timestamp group runtime limits targets e h hi run =
      let (_, _, h1) = >>=-eq-ok (effective_ceiling F group runtime limits) _ (rw e at run) in
      for_members-eq_ok F L _ limits _ group.members targets h hi h1
  calculate_kind-eq_ok lagoon timestamp group runtime limits targets e h hi run =
      let (_, _, h1) = >>=-eq-ok (effective_ceiling F group runtime limits) _ (rw e at run) in
      let (cycles, _, h2) = >>=-eq-ok (divide F _ _) _ h1 in
      let (_, _, h3) = >>=-eq-ok (F.floor cycles) _ h2 in
      for_members-eq_ok F L _ limits _ group.members targets h hi h3
  calculate_kind-eq_ok reef_crest timestamp group runtime limits targets e h hi run =
      let (_, _, h1) = >>=-eq-ok (effective_ceiling F group runtime limits) _ (rw e at run) in
      let (cycles, _, h2) = >>=-eq-ok (divide F _ _) _ h1 in
      let (_, _, h3) = >>=-eq-ok (F.floor cycles) _ h2 in
      for_members-eq_ok F L _ limits _ group.members targets h hi h3
  calculate_kind-eq_ok tidal_swell timestamp group runtime limits targets e h hi run =
      let (_, _, h1) = >>=-eq-ok (effective_ceiling F group runtime limits) _ (rw e at run) in
      let (cycles, _, h2) = >>=-eq-ok (divide F _ _) _ h1 in
      let (_, _, h3) = >>=-eq-ok (F.floor cycles) _ h2 in
      let (_, _, h4) = >>=-eq-ok (tidal_intensity F _) _ h3 in
      for_members-eq_ok F L _ limits _ group.members targets h hi h4
  calculate_kind-eq_ok nutrient_transport timestamp group runtime limits targets e h hi run =
      let (_, _, h1) = >>=-eq-ok (effective_ceiling F group runtime limits) _ (rw e at run) in
      let (cycles, _, h2) = >>=-eq-ok (divide F _ _) _ h1 in
      for_members-eq_ok F L _ limits _ group.members targets h hi h2
  calculate_kind-eq_ok _ timestamp group runtime limits targets e h hi run = cc

  -- For a group whose effective limits are valid, whose effective pattern is supported, whose effective period is not 0 and
  -- whose number of periods up to the time is finite, `calculate` returns a target for each member of the group, whatever
  -- the gains and phases are. Each target it returns is disabled with power 0, or enabled with a power between the
  -- effective limits; it is disabled where the group is.
  pub calculate-IsBounded :
      (timestamp : Float) (group : GroupConfig Float) (runtime : GroupRuntime Float)
      (limits : PowerLimits)
      → is_supported (or_default group.default.pattern runtime.pattern) ≡ true
      → effective_limits F group runtime ≡ ok limits
      → HasCycles F timestamp group runtime
      → IsBounded
          (is_group_enabled F group runtime)
          limits
          group.members
          (calculate F timestamp group runtime)
  unfolding calculate IsBounded
  calculate-IsBounded timestamp group runtime limits s e runs =
      let kind = or_default group.default.pattern runtime.pattern in
      let (h, hi) = effective_limits-eq_ok F L group runtime limits e in
      let (targets, done) =
        calculate_kind-Returns F L kind timestamp group runtime limits s e runs h hi in
      let (within, covered) =
        calculate_kind-eq_ok kind timestamp group runtime limits targets e h hi done in
      (targets, done, within, covered)

  calculate_kind-limits :
      (kind : PatternKind) (timestamp : Float) (group : GroupConfig Float)
      (runtime : GroupRuntime Float) (targets : Dict DeviceTarget)
      → calculate_kind F kind timestamp group runtime ≡ ok targets
      → (limits : PowerLimits) × (effective_limits F group runtime ≡ ok limits)
  unfolding calculate_kind constant_pattern sync_pattern anti_phase_pattern lagoon_pattern
      reef_crest_pattern gyre_pattern tidal_swell_pattern nutrient_transport_pattern
  calculate_kind-limits constant timestamp group runtime targets h =
      let (limits, e, _) = >>=-eq-ok (effective_limits F group runtime) _ h in (limits, e)
  calculate_kind-limits sync timestamp group runtime targets h =
      let (limits, e, _) = >>=-eq-ok (effective_limits F group runtime) _ h in (limits, e)
  calculate_kind-limits anti_phase timestamp group runtime targets h =
      let (limits, e, _) = >>=-eq-ok (effective_limits F group runtime) _ h in (limits, e)
  calculate_kind-limits gyre timestamp group runtime targets h =
      let (limits, e, _) = >>=-eq-ok (effective_limits F group runtime) _ h in (limits, e)
  calculate_kind-limits lagoon timestamp group runtime targets h =
      let (limits, e, _) = >>=-eq-ok (effective_limits F group runtime) _ h in (limits, e)
  calculate_kind-limits reef_crest timestamp group runtime targets h =
      let (limits, e, _) = >>=-eq-ok (effective_limits F group runtime) _ h in (limits, e)
  calculate_kind-limits tidal_swell timestamp group runtime targets h =
      let (limits, e, _) = >>=-eq-ok (effective_limits F group runtime) _ h in (limits, e)
  calculate_kind-limits nutrient_transport timestamp group runtime targets h =
      let (limits, e, _) = >>=-eq-ok (effective_limits F group runtime) _ h in (limits, e)
  calculate_kind-limits _ timestamp group runtime targets h = cc

  -- What `calculate` returns, when it returns, for whatever pattern.
  pub calculate-eq_ok :
      (timestamp : Float) (group : GroupConfig Float) (runtime : GroupRuntime Float)
      (targets : Dict DeviceTarget)
      → calculate F timestamp group runtime ≡ ok targets
      → (limits : PowerLimits) × AllWithin (is_group_enabled F group runtime) limits targets
        × Covers group.members targets
  unfolding calculate
  calculate-eq_ok timestamp group runtime targets run =
      let kind = or_default group.default.pattern runtime.pattern in
      let (limits, e) = calculate_kind-limits kind timestamp group runtime targets run in
      let (h, hi) = effective_limits-eq_ok F L group runtime limits e in
      let (within, covered) =
        calculate_kind-eq_ok kind timestamp group runtime limits targets e h hi run in
      (limits, within, covered)
