-- ===== src/Floats.antt =====
-- Python's floats and the functions of `math` and `hashlib` that the patterns call: parameters of
-- the model, with the documented facts about them that it relies on.
use jebao_flow_engine.Base.{ℕ, ◌+◌, ◌≤◌, ◌<◌, ◌≡◌, Bool, true, false, String, if◌then◌else◌}
use jebao_flow_engine.Base.Int.{ℤ}
use jebao_flow_engine.Base.Result.{Result, ok, err, zero_division_error}

pub record Floats : Type 1 where
  pub Float : Type 0
  -- `float(n)`
  pub of_nat : ℕ → Float
  -- the literal with these digits, the second number of them behind the point
  pub literal : ℕ → ℕ → Float
  pub add : Float → Float → Float
  pub sub : Float → Float → Float
  pub mul : Float → Float → Float
  -- the quotient of IEEE 754, where the divisor is not 0
  pub div : Float → Float → Float
  -- `m / n` of whole numbers, where `n` is not 0
  pub ratio : ℕ → ℕ → Float
  -- `x == 0` and `math.isfinite(x)`
  pub is_zero : Float → Bool
  pub is_finite : Float → Bool
  -- `x % 1`
  pub mod_one : Float → Float
  -- `math.floor(x)`, which raises on an infinity and on a NaN
  pub floor : Float → Result ℤ
  -- `x < y` and `x <= y`
  pub lt : Float → Float → Bool
  pub le : Float → Float → Bool
  -- `int(x)` for a number that is not negative
  pub truncate : Float → ℕ
  -- `math.sin(x)`, which raises on an infinity
  pub sin : Float → Result Float
  pub abs : Float → Float
  pub tau : Float
  -- the first eight bytes of `hashlib.sha256(f"{seed}:{step}".encode())`, as a number
  pub digest : String → ℤ → ℕ

-- `x / y`
unfoldable pub divide : (F : Floats) → F.Float → F.Float → Result F.Float
divide F x y = if F.is_zero y then err zero_division_error else ok (F.div x y)

-- What IEEE 754 and Python promise of whole numbers up to 100, halves, rounding to nearest, zero and infinities.
pub record FloatLaws (F : Floats) : Type 0 where
  pub of_nat_le : (m n : ℕ) → m ≤ n → F.le (F.of_nat m) (F.of_nat n) ≡ true
  pub not_lt_of_nat : (m n : ℕ) → m ≤ n → F.lt (F.of_nat n) (F.of_nat m) ≡ false
  pub le_of_lt : (x y : F.Float) → F.lt x y ≡ true → F.le x y ≡ true
  -- a number that compares above a whole number is no NaN, so it compares with any other
  pub le_of_not_lt :
      (m n : ℕ) (x : F.Float)
      → F.lt (F.of_nat m) x ≡ true
      → F.lt (F.of_nat n) x ≡ false
      → F.le x (F.of_nat n) ≡ true
  pub le_trans : (x y z : F.Float) → F.le x y ≡ true → F.le y z ≡ true → F.le x z ≡ true
  pub add_half_mono :
      (x y : F.Float)
      → F.le x y ≡ true
      → F.le (F.add x (F.literal 5 1)) (F.add y (F.literal 5 1)) ≡ true
  pub half_le :
      (n : ℕ) → n ≤ 100 → F.le (F.add (F.of_nat n) (F.literal 5 1)) (F.of_nat (n + 1)) ≡ true
  -- `int()` keeps the order of numbers that are no infinity
  pub truncate_mono :
      (n : ℕ) (x y : F.Float)
      → F.le x y ≡ true
      → F.le y (F.of_nat n) ≡ true
      → F.truncate x ≤ F.truncate y
  pub truncate_half : (n : ℕ) → n ≤ 100 → F.truncate (F.add (F.of_nat n) (F.literal 5 1)) ≡ n
  -- a whole number and a literal with digits are not 0
  pub of_nat_ne_zero : (n : ℕ) → 0 < n → F.is_zero (F.of_nat n) ≡ false
  pub tenths_ne_zero : (n : ℕ) → 0 < n → F.is_zero (F.literal n 1) ≡ false
  pub floor_finite : (x : F.Float) → F.is_finite x ≡ true → (n : ℤ) × (F.floor x ≡ ok n)
  -- `x % 1` that compares below 0.4 is a number from 0 to 0.4
  pub sin_mod_one :
      (x : F.Float)
      → F.lt (F.mod_one x) (F.literal 4 1) ≡ true
      → (y : F.Float) × (F.sin (F.mul (F.mul (F.mod_one x) F.tau) (F.of_nat 5)) ≡ ok y)
