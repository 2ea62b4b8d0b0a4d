-- ===== src/Base/Bits.antt =====
-- Binary digits: `bit n i` is digit `i` of `n`. The bitwise operators of Python are described
-- by the digits of their results, so that an equation between masks is proved digit by digit.
pub mod Fields
use Prim.Native.Nat.{
  ℕ, zero, suc, ◌+◌, ◌*◌, ◌/◌, ◌%◌, ◌^◌, ◌≤◌, min, max, bit_and, bit_or, bit_xor, digits, bitwise,
  differ, bit_and-bitwise, bit_or-bitwise, bit_xor-bitwise,
}
use mathlib.Core.Path.{◌≡◌, refl, sym, ap, ◌∙◌}
use native.Mathlib.Omega.{arith}

-- `x << k` and `x >> k`
abbrev pub shl : ℕ → ℕ → ℕ
shl x k = x * 2 ^ k

abbrev pub shr : ℕ → ℕ → ℕ
shr x k = x / 2 ^ k

unfoldable pub bit : ℕ → ℕ → ℕ
bit n zero = n % 2
bit n (suc i) = bit (n / 2) i

pub bit_le_one : (n i : ℕ) → bit n i ≤ 1
unfolding bit
bit_le_one n zero = omega arith
bit_le_one n (suc i) = bit_le_one (n / 2) i

-- The library computes an operation with fuel; any fuel that is at least the first number serves.
module _ (z : ℕ → ℕ) (f : ℕ → ℕ → ℕ) where
  any_fuel : (n m a b : ℕ) → a ≤ n → a ≤ m → digits z f n a b ≡ digits z f m a b
  any_fuel zero zero zero b hn hm = refl
  any_fuel zero (suc m) zero b hn hm = refl
  any_fuel (suc n) zero zero b hn hm = refl
  any_fuel (suc n) (suc m) zero b hn hm = refl
  any_fuel zero m (suc a) b hn hm = absurd (omega arith)
  any_fuel (suc n) zero (suc a) b hn hm = absurd (omega arith)
  any_fuel (suc n) (suc m) (suc a) b hn hm =
      ap (λ (t : ℕ). t * 2 + f (suc a % 2) (b % 2))
        (any_fuel n m (suc a / 2) (b / 2) (omega arith) (omega arith))

  bitwise_unfold :
      (a b : ℕ)
      → bitwise z f (suc a) b ≡ bitwise z f (suc a / 2) (b / 2) * 2 + f (suc a % 2) (b % 2)
  bitwise_unfold a b =
      ap (λ (t : ℕ). t * 2 + f (suc a % 2) (b % 2))
        (any_fuel a (suc a / 2) (suc a / 2) (b / 2) (omega arith) (omega arith))

pub bit_and_lowest : (a b : ℕ) → bit_and a b ≡ bit_and (a / 2) (b / 2) * 2 + min (a % 2) (b % 2)
bit_and_lowest zero b = omega (arith, bit_and-bitwise 0 b, bit_and-bitwise 0 (b / 2))
bit_and_lowest (suc a) b =
    bit_and-bitwise (suc a) b
    ∙ bitwise_unfold (λ y. 0) min a b
    ∙ ap (λ (t : ℕ). t * 2 + min (suc a % 2) (b % 2)) (sym (bit_and-bitwise (suc a / 2) (b / 2)))

pub bit_or_lowest : (a b : ℕ) → bit_or a b ≡ bit_or (a / 2) (b / 2) * 2 + max (a % 2) (b % 2)
bit_or_lowest zero b = omega (arith, bit_or-bitwise 0 b, bit_or-bitwise 0 (b / 2))
bit_or_lowest (suc a) b =
    bit_or-bitwise (suc a) b
    ∙ bitwise_unfold (λ y. y) max a b
    ∙ ap (λ (t : ℕ). t * 2 + max (suc a % 2) (b % 2)) (sym (bit_or-bitwise (suc a / 2) (b / 2)))

pub bit_xor_lowest : (a b : ℕ) → bit_xor a b ≡ bit_xor (a / 2) (b / 2) * 2 + differ (a % 2) (b % 2)
bit_xor_lowest zero b = omega (arith, bit_xor-bitwise 0 b, bit_xor-bitwise 0 (b / 2))
bit_xor_lowest (suc a) b =
    bit_xor-bitwise (suc a) b
    ∙ bitwise_unfold (λ y. y) differ a b
    ∙ ap (λ (t : ℕ). t * 2 + differ (suc a % 2) (b % 2)) (sym (bit_xor-bitwise (suc a / 2) (b / 2)))

-- Digit `i` of a bitwise operation is the operation on digits `i`.
pub bit-bit_and : (a b i : ℕ) → bit (bit_and a b) i ≡ min (bit a i) (bit b i)
unfolding bit
bit-bit_and a b zero = omega (arith, bit_and_lowest a b)
bit-bit_and a b (suc i) =
    let half : bit_and a b / 2 ≡ bit_and (a / 2) (b / 2) = omega (arith, bit_and_lowest a b) in
    rw half (bit-bit_and (a / 2) (b / 2) i)

pub bit-bit_or : (a b i : ℕ) → bit (bit_or a b) i ≡ max (bit a i) (bit b i)
unfolding bit
bit-bit_or a b zero = omega (arith, bit_or_lowest a b)
bit-bit_or a b (suc i) =
    let half : bit_or a b / 2 ≡ bit_or (a / 2) (b / 2) = omega (arith, bit_or_lowest a b) in
    rw half (bit-bit_or (a / 2) (b / 2) i)

differ_le_one : (x y : ℕ) → x ≤ 1 → y ≤ 1 → differ x y ≤ 1
differ_le_one zero y hx hy = hy
differ_le_one (suc zero) zero hx hy = omega arith
differ_le_one (suc zero) (suc zero) hx hy = omega arith
differ_le_one (suc zero) (suc (suc y)) hx hy = absurd (omega arith)
differ_le_one (suc (suc x)) y hx hy = absurd (omega arith)

pub bit-bit_xor : (a b i : ℕ) → bit (bit_xor a b) i ≡ differ (bit a i) (bit b i)
unfolding bit
bit-bit_xor a b zero =
    omega (arith, bit_xor_lowest a b, differ_le_one (a % 2) (b % 2) (omega arith) (omega arith))
bit-bit_xor a b (suc i) =
    let half : bit_xor a b / 2 ≡ bit_xor (a / 2) (b / 2) =
      omega
        (arith, bit_xor_lowest a b, differ_le_one (a % 2) (b % 2) (omega arith) (omega arith)) in
    rw half (bit-bit_xor (a / 2) (b / 2) i)

bit_ext_below : (k a b : ℕ) → a ≤ k → b ≤ k → ((i : ℕ) → bit a i ≡ bit b i) → a ≡ b
unfolding bit
bit_ext_below zero a b ha hb h = omega arith
bit_ext_below (suc k) a b ha hb h =
    let halves : a / 2 ≡ b / 2 =
      bit_ext_below k (a / 2) (b / 2) (omega arith) (omega arith) (λ i. h (suc i)) in
    omega (arith, h 0, halves)

-- Numbers with the same digits are equal.
pub bit_ext : (a b : ℕ) → ((i : ℕ) → bit a i ≡ bit b i) → a ≡ b
bit_ext a b h = bit_ext_below (a + b) a b (omega arith) (omega arith) h

-- `x & ~mask`, which Python computes with a negative mask: the digits of `x` that `mask` lacks.
unfoldable pub and_not : ℕ → ℕ → ℕ
and_not x mask = bit_xor x (bit_and x mask)
