-- ===== src/Patterns/Returns.antt =====
-- When the calculation of groups/calculator.py raises no exception.
use jebao_flow_engine.Base.{
  ◌≤◌, ◌≡◌, refl, sym, subst, ◌∙◌, Bool, true, false, arith, if◌then◌else◌, Bool-cases, inl, inr,
  [],
}
use jebao_flow_engine.Base.Result.{ok, ◌>>=◌, Returns, >>=-Returns, ok-injective}
use jebao_flow_engine.Floats.{Floats, FloatLaws, divide}
use jebao_flow_engine.Groups.{
  GroupConfig, GroupRuntime, PatternKind, constant, sync, anti_phase, lagoon, reef_crest, gyre,
  tidal_swell, nutrient_transport,
}
use jebao_flow_engine.Patterns.Calculator.{is_supported, calculate_kind}
use jebao_flow_engine.Patterns.Shared.{
  effective_limits, effective_power, effective_ceiling, effective_period, cycle_fraction,
}
use jebao_flow_engine.Patterns.Fixed.{
  constant_pattern, sync_pattern, anti_phase_pattern, gyre_pattern,
}
use jebao_flow_engine.Patterns.Waves.{
  tidal_intensity, tidal_swell_pattern, nutrient_transport_pattern,
}
use jebao_flow_engine.Patterns.Randomized.{lagoon_pattern, reef_crest_pattern}
use jebao_flow_engine.Safety.{PowerLimits}
use jebao_flow_engine.Safety.Bounds.{clamp_between}
use jebao_flow_engine.Patterns.Targets.{for_members-Returns, power_limits-eq_ok}

module _ (F : Floats) where
  open F use {Float, sub, is_zero, is_finite}

  -- The period of a group is not 0, and the cycles up to a time are a finite number.
  abbrev pub HasCycles : Float → GroupConfig Float → GroupRuntime Float → Type 0
  HasCycles timestamp group runtime =
      let period = effective_period F group runtime in
      (is_zero period ≡ false)
      × (is_finite (F.div (sub timestamp runtime.started_at) period) ≡ true)

module _ (F : Floats) (L : FloatLaws F) where
  open F use {Float, of_nat, literal, sub, lt, is_zero, is_finite, mod_one}

  effective_ceiling-Returns :
      (group : GroupConfig Float) (runtime : GroupRuntime Float) (limits : PowerLimits)
      → limits.min_power ≤ limits.max_power
      → Returns (effective_ceiling F group runtime limits)
  unfolding effective_ceiling
  effective_ceiling-Returns group runtime limits h =
      let (x, done, a, b) =
        clamp_between F L (of_nat (effective_power F group runtime)) limits.min_power
          limits.max_power h in
      (x, done)

  pub effective_limits-eq_ok :
      (group : GroupConfig Float) (runtime : GroupRuntime Float) (limits : PowerLimits)
      → effective_limits F group runtime ≡ ok limits
      → (limits.min_power ≤ limits.max_power) × (limits.max_power ≤ 100)
  unfolding effective_limits
  effective_limits-eq_ok group runtime limits e = power_limits-eq_ok _ _ limits e

  divide_nonzero : (x y : Float) → is_zero y ≡ false → divide F x y ≡ ok (F.div x y)
  unfolding divide
  divide_nonzero x y h = rw h refl

  divide-Returns : (x y : Float) → is_zero y ≡ false → Returns (divide F x y)
  divide-Returns x y h = (F.div x y, divide_nonzero x y h)

  divide_360-Returns : (x : Float) → Returns (divide F x (of_nat 360))
  divide_360-Returns x = divide-Returns x (of_nat 360) (L.of_nat_ne_zero 360 (omega arith))

  cycle_fraction-Returns :
      (timestamp period phase : Float) (runtime : GroupRuntime Float)
      → is_zero period ≡ false
      → Returns (cycle_fraction F timestamp runtime period phase)
  unfolding cycle_fraction
  cycle_fraction-Returns timestamp period phase runtime h =
      >>=-Returns (divide F (sub timestamp runtime.started_at) period) _ (divide-Returns _ period h)
        (λ cycles _.
          >>=-Returns (divide F phase (of_nat 360)) _ (divide_360-Returns phase)
            (λ delay _. (mod_one (sub cycles delay), refl)))

  tidal_intensity-Returns : (x : Float) → Returns (tidal_intensity F (mod_one x))
  unfolding tidal_intensity
  tidal_intensity-Returns x = elim (Bool-cases (lt (mod_one x) (literal 4 1))) [
    | inl early ↦ rw early (>>=-Returns _ _ (L.sin_mod_one x early) (λ wave _. (_, refl)))
    | inr a ↦ elim (Bool-cases (lt (mod_one x) (literal 7 1))) [
      | inl calm ↦ rw (a, calm) (literal 3 1, refl)
      | inr b ↦ elim (Bool-cases (lt (mod_one x) (literal 9 1))) [
        | inl rising ↦
            rw (a, b, rising)
              (>>=-Returns _ _
                (divide-Returns (sub (mod_one x) (literal 7 1)) (literal 2 1)
                  (L.tenths_ne_zero 2 (omega arith)))
                (λ rise _. (_, refl)))
        | inr c ↦ rw (a, b, c) (literal 10 1, refl)
      ]
    ]
  ]

  floor-Returns :
      (x y cycles : Float)
      → divide F x y ≡ ok cycles
      → is_zero y ≡ false
      → is_finite (F.div x y) ≡ true
      → Returns (F.floor cycles)
  floor-Returns x y cycles divided nonzero finite =
      let same = ok-injective (sym (divide_nonzero x y nonzero) ∙ divided) in
      L.floor_finite cycles (subst (λ c. is_finite c ≡ true) same finite)

  -- The request of a member in the two stages of a transport.
  transport-Returns :
      (early : Bool) (phase later : Float) (sooner : Float → Float)
      → Returns
          (if early then (divide F phase (of_nat 360) >>= λ delay. ok (sooner delay)) else ok later)
  transport-Returns true phase later sooner =
      >>=-Returns (divide F phase (of_nat 360)) _ (divide_360-Returns phase)
        (λ delay _. (sooner delay, refl))
  transport-Returns false phase later sooner = (later, refl)

  pub calculate_kind-Returns :
      (kind : PatternKind) (timestamp : Float) (group : GroupConfig Float)
      (runtime : GroupRuntime Float) (limits : PowerLimits)
      → is_supported kind ≡ true
      → effective_limits F group runtime ≡ ok limits
      → HasCycles F timestamp group runtime
      → limits.min_power ≤ limits.max_power
      → limits.max_power ≤ 100
      → Returns (calculate_kind F kind timestamp group runtime)
  unfolding calculate_kind is_supported constant_pattern sync_pattern anti_phase_pattern
      lagoon_pattern reef_crest_pattern gyre_pattern tidal_swell_pattern nutrient_transport_pattern
  calculate_kind-Returns constant timestamp group runtime limits s e runs h hi =
      rw e (for_members-Returns F L _ limits _ h hi (λ m. (_, refl)) group.members [])
  calculate_kind-Returns sync timestamp group runtime limits s e runs h hi = rw e (
      >>=-Returns _ _ (cycle_fraction-Returns timestamp _ _ runtime runs.0)
        (λ fraction _. for_members-Returns F L _ limits _ h hi (λ m. (_, refl)) group.members []))
  calculate_kind-Returns anti_phase timestamp group runtime limits s e runs h hi = rw e (
      for_members-Returns F L _ limits _ h hi
        (λ m.
          >>=-Returns _ _ (cycle_fraction-Returns timestamp _ m.phase runtime runs.0)
            (λ fraction _. (_, refl)))
        group.members [])
  calculate_kind-Returns gyre timestamp group runtime limits s e runs h hi = rw e (
      >>=-Returns _ _ (effective_ceiling-Returns group runtime limits h) (λ upper _.
        for_members-Returns F L _ limits _ h hi
          (λ m.
            >>=-Returns _ _ (cycle_fraction-Returns timestamp _ m.phase runtime runs.0)
              (λ fraction _. (_, refl)))
          group.members []))
  calculate_kind-Returns lagoon timestamp group runtime limits s e runs h hi = rw e (
      >>=-Returns _ _ (effective_ceiling-Returns group runtime limits h) (λ upper _.
        >>=-Returns _ _ (divide-Returns _ _ runs.0) (λ cycles divided.
          >>=-Returns _ _ (floor-Returns _ _ cycles divided runs.0 runs.1)
            (λ step _. for_members-Returns F L _ limits _ h hi (λ m. (_, refl)) group.members []))))
  calculate_kind-Returns reef_crest timestamp group runtime limits s e runs h hi = rw e (
      >>=-Returns _ _ (effective_ceiling-Returns group runtime limits h) (λ upper _.
        >>=-Returns _ _ (divide-Returns _ _ runs.0) (λ cycles divided.
          >>=-Returns _ _ (floor-Returns _ _ cycles divided runs.0 runs.1)
            (λ step _. for_members-Returns F L _ limits _ h hi (λ m. (_, refl)) group.members []))))
  calculate_kind-Returns tidal_swell timestamp group runtime limits s e runs h hi = rw e (
      >>=-Returns _ _ (effective_ceiling-Returns group runtime limits h) (λ upper _.
        >>=-Returns _ _ (divide-Returns _ _ runs.0) (λ cycles divided.
          >>=-Returns _ _ (floor-Returns _ _ cycles divided runs.0 runs.1) (λ step _.
            >>=-Returns _ _ (tidal_intensity-Returns cycles) (λ intensity _.
              for_members-Returns F L _ limits _ h hi (λ m. (_, refl)) group.members [])))))
  calculate_kind-Returns nutrient_transport timestamp group runtime limits s e runs h hi = rw e (
      >>=-Returns _ _ (effective_ceiling-Returns group runtime limits h) (λ upper _.
        >>=-Returns _ _ (divide-Returns _ _ runs.0) (λ cycles divided.
          for_members-Returns F L _ limits _ h hi
            (λ m. transport-Returns (lt (mod_one cycles) (literal 5 1)) m.phase _ _) group.members
            [])))
  calculate_kind-Returns _ timestamp group runtime limits s e runs h hi = cc
