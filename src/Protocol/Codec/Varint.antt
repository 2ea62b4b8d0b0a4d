-- ===== src/Protocol/Codec/Varint.antt =====
-- The length varint of protocol/codec.py: `encode_varint` in plain arithmetic, and `decode_varint`
-- against it.
use jebao_flow_engine.Base.{
  ℕ, zero, suc, ◌+◌, ◌*◌, ◌/◌, ◌%◌, ◌^◌, ◌≤◌, ◌<◌, ◌≡◌, refl, ap, ◌∙◌, [], ◌∷◌, ◌++◌, arith, ltb,
  ◌==◌, drop, drop-append_length, dec_lt, ◌⊎◌, inl, inr, if◌then◌else◌, length, get_elem?,
  append_assoc, some, none, All,
}
use jebao_flow_engine.Base.Bits.{bit, shl}
use jebao_flow_engine.Base.Bits.Fields.{bit_and-mask, bit_and-single, bit_or-shl}
use jebao_flow_engine.Base.Bytes.{Bytes, IsByte}
use jebao_flow_engine.Base.Int.{ℤ, pos, negsuc}
use jebao_flow_engine.Base.Order.{lt_wf}
use jebao_flow_engine.Base.Result.{
  Result, ok, err, value_error, protocol_decode_error, incomplete_frame_error,
}
use jebao_flow_engine.Protocol.Codec.{
  encode_varint_loop, encode_varint, decode_varint_loop, decode_varint,
}
use Prim.Native.Nat.{bit_and, bit_or}
use native.Mathlib.Nat.{div-add-mod, pow-suc}
use native.Mathlib.Numerals.{towards_suc}
use mathlib.Core.WellFounded.{Acc}

-- Groups of seven bits, lowest first, the top bit set on all but the last: `k + 1` groups at most.
pub groups : ℕ → ℕ → Bytes
groups zero v = v ∷ []
groups (suc k) v =
    let rest = groups k (v / 128) in if ltb v 128 then v ∷ [] else (v % 128 + 128) ∷ rest

low_group : (v : ℕ) → bit_and v 0x7f ≡ v % 128
low_group v = bit_and-mask v 7

continued : (g : ℕ) → g < 128 → bit_or g 0x80 ≡ g + 128
continued g h = bit_or-shl g 1 7 h

encode_varint_loop-groups :
    (k : ℕ) (encoded : Bytes) (v : ℕ) (w : Acc ◌<◌ v)
    → v < 128 ^ suc k
    → encode_varint_loop encoded v w ≡ encoded ++ groups k v
unfolding encode_varint_loop groups
encode_varint_loop-groups zero encoded v (Acc.intro _ smaller) h = ground (arith, low_group v)
encode_varint_loop-groups (suc k) encoded v (Acc.intro _ smaller) h = grind (
  arith,
  low_group v,
  continued (v % 128) (omega arith),
  λ (w : Acc ◌<◌ (v / 128)).
      encode_varint_loop-groups k (encoded ++ ((v % 128 + 128) ∷ [])) (v / 128) w (omega arith),
  append_assoc encoded ((v % 128 + 128) ∷ []) (groups k (v / 128)),
)

pub encode_varint-groups : (v : ℕ) → v < 2 ^ 28 → encode_varint (pos v) ≡ ok (groups 3 v)
unfolding encode_varint
encode_varint-groups v h =
    ground (arith, encode_varint_loop-groups 3 [] v (lt_wf.apply v) (omega arith))

-- `decode_varint_loop` over the list of the bytes that it has not read yet.
unfoldable pub scan : ℕ → Bytes → ℕ → ℕ → Result (ℕ × ℕ)
scan zero bytes index value = err protocol_decode_error
scan (suc rounds) [] index value = err incomplete_frame_error
scan (suc rounds) (byte ∷ bytes) index value =
    let value' = bit_or value (shl (bit_and byte 0x7f) (7 * index)) in
    let more = scan rounds bytes (index + 1) value' in
    if bit_and byte 0x80 == 0 then ok (value', index + 1) else more

drop-none : (bytes : Bytes) (n : ℕ) → drop n bytes ≡ [] → get_elem? bytes n ≡ none
drop-none [] zero h = refl
drop-none [] (suc n) h = refl
drop-none (b ∷ bytes) zero h = cc
drop-none (b ∷ bytes) (suc n) h = drop-none bytes n h

drop-some :
    (bytes : Bytes) (n : ℕ) {b : ℕ} {rest : Bytes}
    → drop n bytes ≡ b ∷ rest
    → (get_elem? bytes n ≡ some b) × (drop (suc n) bytes ≡ rest)
drop-some [] zero h = cc
drop-some [] (suc n) h = cc
drop-some (b ∷ bytes) zero h = (cc, cc)
drop-some (b ∷ bytes) (suc n) h = drop-some bytes n h

decode_varint_loop-scan :
    (rounds : ℕ) (bytes rest : Bytes) (offset index value : ℕ)
    → drop (offset + index) bytes ≡ rest
    → decode_varint_loop rounds bytes offset index value ≡ scan rounds rest index value
unfolding decode_varint_loop scan
decode_varint_loop-scan zero bytes rest offset index value h = refl
decode_varint_loop-scan (suc rounds) bytes [] offset index value h =
    rw (drop-none bytes (offset + index) h, decode_varint_loop)
decode_varint_loop-scan (suc rounds) bytes (b ∷ rest) offset index value h =
    let (found, after) = drop-some bytes (offset + index) h in
    let next : drop (offset + (index + 1)) bytes ≡ rest =
      ap (λ (n : ℕ). drop n bytes) {y = suc (offset + index)} (omega arith) ∙ after in
    let value' = bit_or value (shl (bit_and b 0x7f) (7 * index)) in
    rw (found, decode_varint_loop)
      (ap (λ t. if bit_and b 0x80 == 0 then ok (value', index + 1) else t)
        (decode_varint_loop-scan rounds bytes rest offset (index + 1) value' next))

pub decode_varint-scan :
    (front rest : Bytes) → decode_varint (front ++ rest) (pos (length front)) ≡ scan 4 rest 0 0
unfolding decode_varint
decode_varint-scan front rest = decode_varint_loop-scan 4 (front ++ rest) rest (length front) 0 0 (
    ap (λ (n : ℕ). drop n (front ++ rest)) {y = length front} (omega arith)
    ∙ drop-append_length front rest)

-- The test of `byte & 0x80` on a byte: whether it is at least 128.
pub top_bit : (b : ℕ) → b < 256 → bit_and b 0x80 ≡ b / 128 * 128
top_bit b h = bit_and-single b 7 ∙ unfold bit in omega arith

pow-seven_suc : (index : ℕ) → 2 ^ (7 * (index + 1)) ≡ 128 * 2 ^ (7 * index)
pow-seven_suc index = ap (λ (n : ℕ). 2 ^ n) exponent ∙ simp towards_suc (omega arith)
  where
    exponent : 7 * (index + 1) ≡ 7 * index + 7
    exponent = omega arith

-- One byte of the encoding: its low seven bits go above the digits that were read before.
accumulate :
    (b index value : ℕ)
    → value < 2 ^ (7 * index)
    → bit_or value (shl (bit_and b 0x7f) (7 * index)) ≡ value + b % 128 * 2 ^ (7 * index)
accumulate b index value h = bit_or-shl value (bit_and b 0x7f) (7 * index) h ∙ rw (low_group b)

scan_last :
    (rounds w index value : ℕ) (rest : Bytes)
    → w < 128
    → value < 2 ^ (7 * index)
    → scan (suc rounds) (w ∷ rest) index value ≡ ok (value + w * 2 ^ (7 * index), index + 1)
unfolding scan
scan_last rounds w index value rest hw hv =
    ground (arith, accumulate w index value hv, top_bit w (omega arith))

scan_inner :
    (rounds g index value : ℕ) (rest : Bytes)
    → g < 128
    → value < 2 ^ (7 * index)
    → scan (suc rounds) ((g + 128) ∷ rest) index value
      ≡ scan rounds rest (index + 1) (value + g * 2 ^ (7 * index))
unfolding scan
scan_inner rounds g index value rest hg hv =
    ground (arith, accumulate (g + 128) index value hv, top_bit (g + 128) (omega arith))

split_group :
    (w index : ℕ)
    → w * 2 ^ (7 * index) ≡ w % 128 * 2 ^ (7 * index) + w / 128 * 2 ^ (7 * (index + 1))
split_group w index = omega (
  arith,
  ap (λ (t : ℕ). t * 2 ^ (7 * index)) (div-add-mod w 128),
  ap (λ (t : ℕ). w / 128 * t) (pow-seven_suc index),
)

room_above :
    (g index value : ℕ)
    → g < 128
    → value < 2 ^ (7 * index)
    → value + g * 2 ^ (7 * index) < 2 ^ (7 * (index + 1))
room_above g index value hg hv = rw (pow-seven_suc index) (grind arith)

scan-groups :
    (k w index value : ℕ) (rest : Bytes)
    → w < 128 ^ suc k
    → value < 2 ^ (7 * index)
    → scan (suc k) (groups k w ++ rest) index value
      ≡ ok (value + w * 2 ^ (7 * index), index + length (groups k w))
unfolding groups
scan-groups zero w index value rest hw hv = scan_last 0 w index value rest (omega arith) hv
scan-groups (suc k) w index value rest hw hv = ground (
  arith,
  scan_last (suc k) w index value rest,
  scan_inner (suc k) (w % 128) index value (groups k (w / 128) ++ rest),
  split_group w index,
  room_above (w % 128) index value,
  scan-groups k (w / 128) (index + 1) (value + w % 128 * 2 ^ (7 * index)) rest
      (omega (arith, pow-suc 128 (suc k))),
)

encode_varint_groups_of_ok :
    (v : ℕ) (encoded : Bytes)
    → encode_varint (pos v) ≡ ok encoded
    → (v < 2 ^ 28) × (encoded ≡ groups 3 v)
encode_varint_groups_of_ok v encoded h = elim (dec_lt v (2 ^ 28)) [
  | yes lt ↦ (lt, cc (encode_varint-groups v lt))
  | no ge ↦ absurd (unfold encode_varint in ground arith)
]

pos_injective : (m n : ℕ) → pos m ≡ pos n → m ≡ n
pos_injective m n e = cc

-- Where `encode_varint` wrote a value between any other bytes, `decode_varint` returns that value
-- and the number of bytes that were written.
pub decode_varint-encode_varint :
    (value : ℕ) (front rest encoded : Bytes)
    → encode_varint (pos value) ≡ ok encoded
    → decode_varint (front ++ (encoded ++ rest)) (pos (length front)) ≡ ok (value, length encoded)
decode_varint-encode_varint value front rest encoded h =
    let (small, same) = encode_varint_groups_of_ok value encoded h in
    decode_varint-scan front (encoded ++ rest)
    ∙ rw same (scan-groups 3 value 0 0 rest small (omega arith) ∙ ground arith)

groups_shape :
    (k v : ℕ)
    → v < 128 ^ suc k
    → All IsByte (groups k v) × (1 ≤ length (groups k v)) × (length (groups k v) ≤ k + 1)
unfolding groups
groups_shape zero v h = omega arith
groups_shape (suc k) v h =
    ground (arith, groups_shape k (v / 128) (omega (arith, pow-suc 128 (suc k))))

-- `encode_varint` accepts exactly the integers from 0 to 2 ^ 28 - 1. It raises `ValueError` on the
-- others, and writes one to four bytes for these.
pub encode_varint_range :
    (value : ℤ)
    → ((encode_varint value ≡ err value_error) × ((v : ℕ) → value ≡ pos v → 2 ^ 28 ≤ v))
      ⊎ ((v : ℕ) × (encoded : Bytes) × (value ≡ pos v)
          × (v < 2 ^ 28)
          × (encode_varint value ≡ ok encoded)
          × All IsByte encoded
          × (1 ≤ length encoded)
          × (length encoded ≤ 4))
encode_varint_range (negsuc n) = inl (unfold encode_varint in refl, λ v e. cc)
encode_varint_range (pos v) = elim (dec_lt v (2 ^ 28)) [
  | yes lt ↦
      let (bytes, lo, hi) = groups_shape 3 v lt in
      inr (v, groups 3 v, refl, lt, encode_varint-groups v lt, bytes, lo, hi)
  | no ge ↦ inl (unfold encode_varint in ground arith, λ u e. omega (arith, pos_injective v u e))
]
