-- ===== src/Safety.antt =====
-- safety/limits.py: output-limit primitives.
pub mod Bounds
use jebao_flow_engine.Base.{ℕ, Bool, true, false, leb, if◌then◌else◌}
use jebao_flow_engine.Base.Result.{Result, ok, err, ◌>>=◌, ◌>>◌, ensure, value_error}
use jebao_flow_engine.Floats.{Floats}

pub record PowerLimits : Type 0 where
  pub min_power : ℕ
  pub max_power : ℕ

-- The field constraints and `validate_range`.
unfoldable pub power_limits : ℕ → ℕ → Result PowerLimits
power_limits min_power max_power = do
  ensure (leb min_power 100) value_error
  ensure (leb max_power 100) value_error
  ensure (leb min_power max_power) value_error
  ok (record { min_power = min_power; max_power = max_power })

module _ (F : Floats) where
  open F use {Float, of_nat, literal, add, lt, truncate}

  -- `min(a, b)` and `max(a, b)` return the first argument unless the second is strictly better.
  unfoldable pub min_float : Float → Float → Float
  min_float a b = if lt b a then b else a

  unfoldable pub max_float : Float → Float → Float
  max_float a b = if lt a b then b else a

  unfoldable pub clamp : Float → Float → Float → Result Float
  unfolding min_float max_float
  clamp value lower upper =
      if lt upper lower then err value_error else ok (max_float lower (min_float value upper))

  unfoldable pub clamp_enabled_power : Float → PowerLimits → Bool → Result ℕ
  unfolding clamp
  clamp_enabled_power value limits false = ok 0
  clamp_enabled_power value limits true = do
    bounded ← clamp value (of_nat limits.min_power) (of_nat limits.max_power)
    ok (truncate (add bounded (literal 5 1)))
