-- ===== src/Safety/Bounds.antt =====
-- The output of `clamp_enabled_power`, whatever the requested number is.
use jebao_flow_engine.Base.{ℕ, ◌+◌, ◌≤◌, ◌≡◌, refl, Bool, true, false, arith, Bool-cases, inl, inr}
use jebao_flow_engine.Base.Result.{ok}
use jebao_flow_engine.Floats.{Floats, FloatLaws}
use jebao_flow_engine.Safety.{PowerLimits, clamp, clamp_enabled_power}

module _ (F : Floats) (L : FloatLaws F) where
  open F use {Float, of_nat, literal, add, lt, le, truncate}

  -- Half-up rounding of a number between two whole numbers stays between them.
  half_up_between :
      (lo hi : ℕ) (x : Float)
      → hi ≤ 100
      → lo ≤ hi
      → le (of_nat lo) x ≡ true
      → le x (of_nat hi) ≡ true
      → (lo ≤ truncate (add x (literal 5 1))) × (truncate (add x (literal 5 1)) ≤ hi)
  half_up_between lo hi x h ord a b =
      let half = literal 5 1 in
      let upper = L.add_half_mono x (of_nat hi) b in
      let bound = L.le_trans _ _ _ upper (L.half_le hi h) in
      let low =
        L.truncate_mono (hi + 1) (add (of_nat lo) half) (add x half) (L.add_half_mono _ _ a)
          bound in
      let high =
        L.truncate_mono (hi + 1) (add x half) (add (of_nat hi) half) upper (L.half_le hi h) in
      omega (arith, low, high, L.truncate_half lo (omega arith), L.truncate_half hi h)

  -- The clamped number lies between the limits even where the request is a NaN.
  pub clamp_between :
      (value : Float) (lo hi : ℕ)
      → lo ≤ hi
      → (x : Float) × (clamp F value (of_nat lo) (of_nat hi) ≡ ok x)
        × (le (of_nat lo) x ≡ true)
        × (le x (of_nat hi) ≡ true)
  unfolding clamp
  clamp_between value lo hi h = elim (Bool-cases (lt (of_nat hi) value)) [
    | inl above ↦ elim (Bool-cases (lt (of_nat lo) (of_nat hi))) [
      | inl apart ↦ (
        of_nat hi,
        rw (L.not_lt_of_nat lo hi h, above, apart),
        L.of_nat_le lo hi h,
        L.of_nat_le hi hi (omega arith),
      )
      | inr same ↦ (
        of_nat lo,
        rw (L.not_lt_of_nat lo hi h, above, same),
        L.of_nat_le lo lo (omega arith),
        L.of_nat_le lo hi h,
      )
    ]
    | inr within ↦ elim (Bool-cases (lt (of_nat lo) value)) [
      | inl above ↦ (
        value,
        rw (L.not_lt_of_nat lo hi h, within, above),
        L.le_of_lt _ _ above,
        L.le_of_not_lt lo hi value above within,
      )
      | inr below ↦ (
        of_nat lo,
        rw (L.not_lt_of_nat lo hi h, within, below),
        L.of_nat_le lo lo (omega arith),
        L.of_nat_le lo hi h,
      )
    ]
  ]

  -- For limits in order and at most 100, `clamp_enabled_power` always returns a number. It is 0 when disabled, and
  -- between the two limits when enabled, whatever float was requested.
  pub clamp_enabled_power_bounds :
      (value : Float) (limits : PowerLimits) (enabled : Bool)
      → limits.min_power ≤ limits.max_power
      → limits.max_power ≤ 100
      → (power : ℕ) × (clamp_enabled_power F value limits enabled ≡ ok power)
        × (enabled ≡ false → power ≡ 0)
        × (enabled ≡ true → (limits.min_power ≤ power) × (power ≤ limits.max_power))
  unfolding clamp_enabled_power
  clamp_enabled_power_bounds value limits false h hi = (0, refl, λ e. refl, λ e. cc)
  clamp_enabled_power_bounds value limits true h hi =
      let (x, done, a, b) = clamp_between value limits.min_power limits.max_power h in
      (
        truncate (add x (literal 5 1)),
        rw done,
        λ e. cc,
        λ e. half_up_between limits.min_power limits.max_power x hi h a b,
      )
