-- ===== src/Runs/Numbers.antt =====
-- Numbers with two decimal digits that stand for Python's floats in the runs, and their laws.
use jebao_flow_engine.Base.{
  ℕ, ◌+◌, ◌-◌, ◌*◌, ◌/◌, ◌%◌, ◌^◌, arith, ltb, true, ◌==◌, refl, leb, leb→le,
}
use jebao_flow_engine.Base.Int.{pos}
use jebao_flow_engine.Base.Result.{ok}
use jebao_flow_engine.Floats.{Floats, FloatLaws}

abbrev pub hundredths : Floats
hundredths = record {
  Float = ℕ;
  of_nat = λ n. n * 100;
  literal = λ digits decimals. digits * 100 / 10 ^ decimals;
  add = λ x y. x + y;
  sub = λ x y. x - y;
  mul = λ x y. x * y / 100;
  div = λ x y. x * 100 / y;
  ratio = λ m n. m * 100 / n;
  is_zero = λ x. x == 0;
  is_finite = λ x. true;
  mod_one = λ x. x % 100;
  floor = λ x. ok (pos (x / 100));
  lt = ltb;
  le = leb;
  truncate = λ x. x / 100;
  sin = λ x. ok x;
  abs = λ x. x;
  tau = 628;
  digest = λ seed step. 0;
}

pub hundredths_laws : FloatLaws hundredths
hundredths_laws = record {
  of_nat_le = λ m n h. ground arith;
  not_lt_of_nat = λ m n h. ground arith;
  le_of_lt = λ x y h. ground arith;
  le_of_not_lt = λ m n x h k. ground arith;
  le_trans = λ x y z h k. ground arith;
  add_half_mono = λ x y h. ground arith;
  half_le = λ n h. ground arith;
  truncate_mono = λ n x y h k. omega (arith, leb→le x y h);
  truncate_half = λ n h. omega arith;
  of_nat_ne_zero = λ n h. ground arith;
  tenths_ne_zero = λ n h. ground arith;
  floor_finite = λ x h. (pos (x / 100), refl);
  sin_mod_one = λ x h. (x % 100 * 628 / 100 * 500 / 100, refl);
}
