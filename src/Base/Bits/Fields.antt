-- ===== src/Base/Bits/Fields.antt =====
-- Shifts, masks and fields of a number, by their digits and as arithmetic.
use jebao_flow_engine.Base.Bits.{
  bit, shl, shr, bit_le_one, bit_ext, bit-bit_and, bit-bit_xor, bit_and_lowest, bit_or_lowest,
  and_not,
}
use jebao_flow_engine.Base.Tests.{ltb, ◌==◌, if◌then◌else◌}
use Prim.Native.Nat.{
  ℕ, zero, suc, ◌+◌, ◌-◌, ◌*◌, ◌/◌, ◌%◌, ◌^◌, ◌≤◌, ◌<◌, bit_and, bit_or, bit_or-bitwise, min,
  differ,
}
use mathlib.Core.Path.{◌≡◌, refl, sym, ap, ap₂, ◌∙◌}
use native.Mathlib.Nat.{
  pow-suc, div-div-eq-div-mul, one-le-pow, div-add-mod, mod-lt, mod-eq_of_lt, mul-add-mod_self_left,
}
use native.Mathlib.Omega.{arith}

pub bit-zero : (i : ℕ) → bit 0 i ≡ 0
unfolding bit
bit-zero zero = refl
bit-zero (suc i) = bit-zero i

shift_none : (x : ℕ) → shl x 0 ≡ x
shift_none x = omega arith

shl-suc : (x k : ℕ) → shl x (suc k) ≡ 2 * shl x k
shl-suc x k = omega (arith, ap (λ (t : ℕ). x * t) (pow-suc 2 k))

shr-suc : (x k : ℕ) → shr x (suc k) ≡ shr (x / 2) k
shr-suc x k =
    sym (div-div-eq-div-mul x 2 (2 ^ k) ∙ ap (λ (t : ℕ). x / t) (omega (arith, pow-suc 2 k)))

add_suc : (k i : ℕ) → suc k + i ≡ suc (k + i)
add_suc k i = omega arith

zero_of_lt_one : (n : ℕ) → n < 1 → n ≡ 0
zero_of_lt_one n h = omega arith

pub bit-shl : (x k i : ℕ) → bit (shl x k) i ≡ (if ltb i k then 0 else bit x (i - k))
unfolding bit
bit-shl x zero i = ground (arith, ap (λ (t : ℕ). bit t i) (shift_none x))
bit-shl x (suc k) zero = ground (arith, shl-suc x k)
bit-shl x (suc k) (suc i) =
    let half : shl x (suc k) / 2 ≡ shl x k = omega (arith, shl-suc x k) in
    rw half (ground (arith, bit-shl x k i))

pub bit-shr : (x k i : ℕ) → bit (shr x k) i ≡ bit x (k + i)
unfolding bit
bit-shr x zero i = ap₂ bit {x = shr x 0} {y = x} {u = i} {v = 0 + i} (omega arith) (omega arith)
bit-shr x (suc k) i = rw (shr-suc x k) (bit-shr (x / 2) k i ∙ sym (ap (bit x) (add_suc k i)))

-- The digits of a number below `2 ^ k` end at `k`.
pub bit_of_lt : (n k i : ℕ) → n < 2 ^ k → k ≤ i → bit n i ≡ 0
unfolding bit
bit_of_lt n zero i h le = ap (λ (t : ℕ). bit t i) (zero_of_lt_one n h) ∙ bit-zero i
bit_of_lt n (suc k) zero h le = absurd (omega arith)
bit_of_lt n (suc k) (suc i) h le = bit_of_lt (n / 2) k i (omega (arith, pow-suc 2 k)) (omega arith)

pub lt_of_bits : (n k : ℕ) → ((i : ℕ) → k ≤ i → bit n i ≡ 0) → n < 2 ^ k
unfolding bit
lt_of_bits n zero h = omega (arith, bit_ext n 0 (λ i. h i (omega arith) ∙ sym (bit-zero i)))
lt_of_bits n (suc k) h =
    omega (arith, pow-suc 2 k, lt_of_bits (n / 2) k (λ i le. h (suc i) (omega arith)))

-- `(1 << k) - 1`
pub bit-mask : (k i : ℕ) → bit (2 ^ k - 1) i ≡ (if ltb i k then 1 else 0)
unfolding bit
bit-mask zero i = ground (arith, bit-zero i)
bit-mask (suc k) zero = ground (arith, pow-suc 2 k, one-le-pow k 2)
bit-mask (suc k) (suc i) =
    let half : (2 ^ suc k - 1) / 2 ≡ 2 ^ k - 1 = omega (arith, pow-suc 2 k, one-le-pow k 2) in
    rw half (ground (arith, bit-mask k i))

-- A field of `k` digits below a shifted number: `|` is the sum.
pub bit_or-shl : (a b k : ℕ) → a < 2 ^ k → bit_or a (shl b k) ≡ a + shl b k
bit_or-shl a b zero h = rw (zero_of_lt_one a h) (omega (arith, bit_or-bitwise 0 (shl b 0)))
bit_or-shl a b (suc k) h =
    let half : shl b (suc k) / 2 ≡ shl b k = omega (arith, shl-suc b k) in
    let fits : a / 2 < 2 ^ k = omega (arith, pow-suc 2 k) in
    let upper : bit_or (a / 2) (shl b (suc k) / 2) ≡ a / 2 + shl b k =
      rw half (bit_or-shl (a / 2) b k fits) in
    omega (arith, shl-suc b k, bit_or_lowest a (shl b (suc k)), upper)

mod_pow_suc : (x k : ℕ) → x % 2 ^ suc k ≡ 2 * (x / 2 % 2 ^ k) + x % 2
mod_pow_suc x k =
    let q = x / 2 / 2 ^ k in
    let r = 2 * (x / 2 % 2 ^ k) + x % 2 in
    let split : x ≡ 2 ^ suc k * q + r =
      omega
        (arith, pow-suc 2 k, div-add-mod (x / 2) (2 ^ k), ap (λ (t : ℕ). t * q) (pow-suc 2 k)) in
    let fits : r < 2 ^ suc k =
      omega (arith, pow-suc 2 k, one-le-pow k 2, mod-lt (x / 2) (one-le-pow k 2 (omega arith))) in
    ap (λ (t : ℕ). t % 2 ^ suc k) split ∙ mul-add-mod_self_left (2 ^ suc k) q r ∙ mod-eq_of_lt fits

-- `x & ((1 << k) - 1)` is the remainder.
pub bit_and-mask : (x k : ℕ) → bit_and x (2 ^ k - 1) ≡ x % 2 ^ k
bit_and-mask x zero =
    bit_ext (bit_and x 0) 0 (λ i. bit-bit_and x 0 i ∙ omega (arith, bit-zero i)) ∙ omega arith
bit_and-mask x (suc k) =
    let half : (2 ^ suc k - 1) / 2 ≡ 2 ^ k - 1 = omega (arith, pow-suc 2 k, one-le-pow k 2) in
    let upper : bit_and (x / 2) ((2 ^ suc k - 1) / 2) ≡ x / 2 % 2 ^ k =
      rw half (bit_and-mask (x / 2) k) in
    omega
      (arith, pow-suc 2 k, one-le-pow k 2, bit_and_lowest x (2 ^ suc k - 1), mod_pow_suc x k, upper)

-- `x & (1 << k)` keeps digit `k` alone.
pub bit_and-single : (x k : ℕ) → bit_and x (2 ^ k) ≡ bit x k * 2 ^ k
unfolding bit
bit_and-single x zero = omega (arith, bit_and-mask x 1)
bit_and-single x (suc k) =
    let half : 2 ^ suc k / 2 ≡ 2 ^ k = omega (arith, pow-suc 2 k) in
    let upper : bit_and (x / 2) (2 ^ suc k / 2) ≡ bit (x / 2) k * 2 ^ k =
      rw half (bit_and-single (x / 2) k) in
    omega (
      arith,
      pow-suc 2 k,
      bit_and_lowest x (2 ^ suc k),
      upper,
      ap (λ (t : ℕ). bit (x / 2) k * t) (pow-suc 2 k),
    )

bit_one : (i : ℕ) → bit 1 i ≡ (if i == 0 then 1 else 0)
unfolding bit
bit_one zero = refl
bit_one (suc i) = ground (arith, bit-zero i)

-- `1 << k` has digit `k` alone.
pub bit-one_shl : (k i : ℕ) → bit (shl 1 k) i ≡ (if i == k then 1 else 0)
bit-one_shl k i = ground (arith, bit-shl 1 k i, bit_one (i - k))

-- The digits of the operators with their right operand a mask of one or several digits.
pub bit-and_not : (x mask i : ℕ) → bit (and_not x mask) i ≡ (if bit mask i == 1 then 0 else bit x i)
unfolding and_not
bit-and_not x mask i =
    bit-bit_xor x (bit_and x mask) i
    ∙ ap (differ (bit x i)) (bit-bit_and x mask i)
    ∙ clear (bit x i) (bit mask i) (bit_le_one x i) (bit_le_one mask i)
  where
    clear : (a m : ℕ) → a ≤ 1 → m ≤ 1 → differ a (min a m) ≡ (if m == 1 then 0 else a)
    clear zero zero ha hm = refl
    clear zero (suc m) ha hm = ground arith
    clear (suc zero) zero ha hm = refl
    clear (suc zero) (suc zero) ha hm = refl
    clear (suc zero) (suc (suc m)) ha hm = absurd (omega arith)
    clear (suc (suc a)) m ha hm = absurd (omega arith)
