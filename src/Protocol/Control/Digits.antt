-- ===== src/Protocol/Control/Digits.antt =====
-- Single digits of a byte buffer: what the loops of `_read_bits` and `_place_bits` read and write.
use jebao_flow_engine.Base.{
  ℕ, zero, suc, ◌+◌, ◌*◌, ◌-◌, ◌/◌, ◌%◌, ◌^◌, ◌≤◌, ◌<◌, ◌≡◌, refl, sym, ap, ◌∙◌, Bool, true, false,
  not, ◌&&◌, some, [], ◌∷◌, ℕ_discrete, arith, ltb, leb, ◌==◌, if◌then◌else◌, length, get_elem?,
  get_or, set, length-set, get_or-set_self, get_or-set_ne,
}
use jebao_flow_engine.Base.Bits.{bit, shl, shr, bit_le_one, and_not, bit-bit_and, bit-bit_or}
use jebao_flow_engine.Base.Bits.Fields.{
  bit-one_shl, bit-and_not, bit-mask, bit-shl, bit-shr, bit_of_lt, bit-zero, bit_or-shl,
  bit_and-mask,
}
use jebao_flow_engine.Base.Bytes.{Bytes}
use jebao_flow_engine.Base.Result.{ok}
use jebao_flow_engine.Protocol.Schema.{byte_at, read_bits_loop}
use jebao_flow_engine.Protocol.Control.{place_digit, place_bits_loop}
use Prim.Native.Nat.{bit_and, bit_or}
use native.Mathlib.Nat.{add-zero, pow-suc}
use native.Mathlib.Numerals.{towards_suc}

-- Digit `k` of a buffer, lowest digit of the first byte first.
pub digit_at : Bytes → ℕ → ℕ
digit_at bytes k = bit (get_or bytes (k / 8) 0) (k % 8)

-- Digit `t` of a byte is written, the other seven are kept.
abbrev written : ℕ → ℕ → Bool → ℕ
written b t digit = if digit then bit_or b (shl 1 t) else bit_and b (and_not 0xff (shl 1 t))

digit_of : Bool → ℕ
digit_of d = if d then 1 else 0

bit-written :
    (b t j : ℕ) (digit : Bool)
    → j < 8
    → bit (written b t digit) j ≡ (if j == t then digit_of digit else bit b j)
unfolding digit_of
bit-written b t j true h = ground (arith, bit-bit_or b (shl 1 t) j, bit-one_shl t j, bit_le_one b j)
bit-written b t j false h = ground (
  arith,
  bit-bit_and b (and_not 0xff (shl 1 t)) j,
  bit-and_not 0xff (shl 1 t) j,
  bit-one_shl t j,
  bit-mask 8 j,
  bit_le_one b j,
)

byte_at-get_or :
    (bytes : Bytes) (i : ℕ) → i < length bytes → get_elem? bytes i ≡ some (get_or bytes i 0)
byte_at-get_or [] i h = elim h [ ]
byte_at-get_or (b ∷ bytes) zero h = refl
byte_at-get_or (b ∷ bytes) (suc i) h = byte_at-get_or bytes i (omega arith)

byte_at-in_range :
    (bytes : Bytes) (i : ℕ) → i < length bytes → byte_at bytes i ≡ ok (get_or bytes i 0)
unfolding byte_at
byte_at-in_range bytes i h = rw (byte_at-get_or bytes i h, byte_at)

place_digit-written :
    (bytes : Bytes) (i t : ℕ) (digit : Bool)
    → i < length bytes
    → place_digit bytes i (shl 1 t) digit ≡ ok (set bytes i (written (get_or bytes i 0) t digit))
unfolding place_digit byte_at
place_digit-written bytes i t digit h = rw (byte_at-get_or bytes i h, place_digit, byte_at)

digit_at-set :
    (bytes : Bytes) (i t k : ℕ) (digit : Bool)
    → i < length bytes
    → t < 8
    → digit_at (set bytes i (written (get_or bytes i 0) t digit)) k
      ≡ (if k == 8 * i + t then digit_of digit else digit_at bytes k)
unfolding digit_at
digit_at-set bytes i t k digit h ht =
    let w = written (get_or bytes i 0) t digit in
    elim (ℕ_discrete (k / 8) i) [
      | yes e ↦ ground (
        arith,
        ap (λ (n : ℕ). bit (get_or (set bytes i w) n 0) (k % 8)) e,
        ap (λ (n : ℕ). bit n (k % 8)) (get_or-set_self bytes i w 0 h),
        ap (λ (n : ℕ). bit (get_or bytes n 0) (k % 8)) e,
        bit-written (get_or bytes i 0) t (k % 8) digit (omega arith),
      )
      | no ne ↦ ground (
        arith,
        ap (λ (n : ℕ). bit n (k % 8)) (get_or-set_ne bytes i (k / 8) w 0 (λ e. ne (sym e))),
      )
    ]

-- `(x >> i) & 1`
low_digit : (x i : ℕ) → bit_and (shr x i) 1 ≡ bit x i
unfolding bit
low_digit x i = omega (arith, bit_and-mask (shr x i) 1, bit-shr x i 0, ap (bit x) (add-zero i))

low_digit_at :
    (bytes : Bytes) (k : ℕ) → bit_and (shr (get_or bytes (k / 8) 0) (k % 8)) 1 ≡ digit_at bytes k
unfolding digit_at
low_digit_at bytes k = low_digit (get_or bytes (k / 8) 0) (k % 8)

digit_at_le_one : (bytes : Bytes) (k : ℕ) → digit_at bytes k ≤ 1
unfolding digit_at
digit_at_le_one bytes k = bit_le_one (get_or bytes (k / 8) 0) (k % 8)

digit_of_value :
    (value index : ℕ) → digit_of (not (bit_and (shr value index) 1 == 0)) ≡ bit value index
unfolding digit_of
digit_of_value value index = ground (arith, low_digit value index, bit_le_one value index)

-- The loop writes the digits of the value from `start` on and keeps all other digits.
pub place_bits_loop_digits :
    (rounds index : ℕ) (before : Bytes) (byte_offset bit_offset value : ℕ)
    → byte_offset * 8 + bit_offset + index + rounds ≤ 8 * length before
    → (after : Bytes) × (place_bits_loop rounds index before byte_offset bit_offset value
        ≡ ok after)
      × (length after ≡ length before)
      × ((k : ℕ)
          → digit_at after k ≡ (
              if leb (byte_offset * 8 + bit_offset + index) k
                && ltb k (byte_offset * 8 + bit_offset + index + rounds)
              then bit value (k - (byte_offset * 8 + bit_offset))
              else digit_at before k))
unfolding place_bits_loop
place_bits_loop_digits zero index before byte_offset bit_offset value h =
    (before, refl, refl, λ k. ground arith)
place_bits_loop_digits (suc rounds) index before byte_offset bit_offset value h =
    let local_bit = bit_offset + index in
    let i = byte_offset + local_bit / 8 in
    let t = local_bit % 8 in
    let digit = not (bit_and (shr value index) 1 == 0) in
    let w = written (get_or before i 0) t digit in
    let fits : i < length before = omega arith in
    let (after, done, same, digits) =
      place_bits_loop_digits rounds (index + 1) (set before i w) byte_offset bit_offset value
        (omega (arith, length-set before i w)) in
    (
      after,
      rw (place_digit-written before i t digit fits) done,
      same ∙ length-set before i w,
      λ k. ground (
        arith,
        digits k,
        digit_at-set before i t k digit fits (omega arith),
        digit_of_value value index,
        ap (bit value) (own_place),
      ),
    )
  where
    own_place : index ≡ byte_offset * 8 + bit_offset + index - (byte_offset * 8 + bit_offset)
    own_place = omega arith

bit_of_digit : (d i : ℕ) → d ≤ 1 → bit d i ≡ (if i == 0 then d else 0)
bit_of_digit zero i h = ground (arith, bit-zero i)
bit_of_digit (suc zero) i h = ground (arith, bit-mask 1 i)
bit_of_digit (suc (suc d)) i h = absurd (omega arith)

-- The number read so far, with one more digit on top.
bit_above :
    (value d index i : ℕ)
    → value < 2 ^ index
    → d ≤ 1
    → bit (bit_or value (shl d index)) i
      ≡ (if ltb i index then bit value i else if i == index then d else 0)
bit_above value d index i h hd = ground (
  arith,
  bit-bit_or value (shl d index) i,
  bit-shl d index i,
  bit_of_digit d (i - index) hd,
  bit_of_lt value index i h,
  bit_le_one value i,
)

below_next :
    (value d index : ℕ) → value < 2 ^ index → d ≤ 1 → bit_or value (shl d index) < 2 ^ (index + 1)
below_next value d index h hd =
    rw (bit_or-shl value d index h) (simp towards_suc (rw (pow-suc 2 index) (grind arith)))

-- The loop reads the digits from `start` on.
pub read_bits_loop_digits :
    (rounds index : ℕ) (raw : Bytes) (start value : ℕ)
    → start + index + rounds ≤ 8 * length raw
    → value < 2 ^ index
    → (r : ℕ) × (read_bits_loop rounds index raw start value ≡ ok r)
      × ((i : ℕ)
          → bit r i ≡ (
              if ltb i index
              then bit value i
              else if ltb i (index + rounds)
              then digit_at raw (start + i)
              else 0))
unfolding read_bits_loop
read_bits_loop_digits zero index raw start value h hv =
    (value, refl, λ i. ground (arith, bit_of_lt value index i hv))
read_bits_loop_digits (suc rounds) index raw start value h hv =
    let k = start + index in
    let b = get_or raw (k / 8) 0 in
    let d = bit_and (shr b (k % 8)) 1 in
    let digit : d ≡ digit_at raw k = low_digit_at raw k in
    let small : d ≤ 1 = omega (arith, digit, digit_at_le_one raw k) in
    let (r, done, digits) =
      read_bits_loop_digits rounds (index + 1) raw start (bit_or value (shl d index)) (omega arith)
        (below_next value d index hv small) in
    (
      r,
      rw (byte_at-in_range raw (k / 8) (omega arith)) done,
      λ i. ground (arith, digits i, bit_above value d index i hv small, digit),
    )
