-- ===== src/Protocol/Control/Bits.antt =====
-- `_place_bits` of protocol/control.py against `_read_bits` of protocol/schema.py, both in the group
-- of the first bytes and byte by byte.
use jebao_flow_engine.Base.{
  ℕ, zero, suc, ◌+◌, ◌*◌, ◌-◌, ◌^◌, ◌≤◌, ◌<◌, ◌≡◌, refl, sym, ap, ◌∙◌, Bool, true, false, ◌&&◌, inl,
  inr, ◌++◌, arith, ltb, leb, ◌==◌, if◌then◌else◌, length, take, drop, length-append, length-take,
  All, All-take, length-drop, take-append_length, Bool-cases,
}
use jebao_flow_engine.Base.Bits.{
  bit, shl, shr, and_not, bit-bit_and, bit-bit_or, bit_ext, bit_le_one,
}
use jebao_flow_engine.Base.Bits.Fields.{
  bit-and_not, bit-mask, bit-shl, bit-shr, bit_of_lt, lt_of_bits,
}
use jebao_flow_engine.Base.Bytes.{
  Bytes, IsByte, from_bytes, to_bytes, length-to_bytes, from_bytes-to_bytes, from_bytes-lt,
}
use jebao_flow_engine.Base.Result.{ok}
use jebao_flow_engine.Protocol.Schema.{Position, ProductSchema, read_bits}
use jebao_flow_engine.Protocol.Control.{place_group, place_bits}
use jebao_flow_engine.Protocol.Control.Digits.{place_bits_loop_digits, read_bits_loop_digits}
use Prim.Native.Nat.{bit_and, bit_or}
use native.Mathlib.Nat.{pow-suc}
use native.Mathlib.Numerals.{towards_suc}

-- The new group, and the digits of it.
new_group : ℕ → ℕ → ℕ → ℕ → ℕ
new_group group bit_offset size value =
    let mask = shl (shl 1 size - 1) bit_offset in
    bit_or (and_not group mask) (bit_and (shl value bit_offset) mask)

one_shl : (k : ℕ) → shl 1 k ≡ 2 ^ k
one_shl k = omega arith

bit-field_mask :
    (bit_offset size i : ℕ)
    → bit (shl (shl 1 size - 1) bit_offset) i
      ≡ (if leb bit_offset i && ltb i (bit_offset + size) then 1 else 0)
bit-field_mask bit_offset size i =
    bit-shl (shl 1 size - 1) bit_offset i
    ∙ ground (
      arith,
      ap (λ (n : ℕ). bit (n - 1) (i - bit_offset)) (one_shl size),
      bit-mask size (i - bit_offset),
    )

bit-new_group :
    (group bit_offset size value i : ℕ)
    → bit (new_group group bit_offset size value) i ≡ (
        if leb bit_offset i && ltb i (bit_offset + size)
        then bit value (i - bit_offset)
        else bit group i)
unfolding new_group
bit-new_group group bit_offset size value i =
    let mask = shl (shl 1 size - 1) bit_offset in
    ground (
      arith,
      bit-bit_or (and_not group mask) (bit_and (shl value bit_offset) mask) i,
      bit-and_not group mask i,
      bit-bit_and (shl value bit_offset) mask i,
      bit-field_mask bit_offset size i,
      bit-shl value bit_offset i,
      bit_le_one value (i - bit_offset),
      bit_le_one group i,
    )

-- The digits that a datapoint of the group reads.
bit-read_group :
    (group bit_offset size i : ℕ)
    → bit (bit_and (shr group bit_offset) (shl 1 size - 1)) i
      ≡ (if ltb i size then bit group (bit_offset + i) else 0)
bit-read_group group bit_offset size i = ground (
  arith,
  bit-bit_and (shr group bit_offset) (shl 1 size - 1) i,
  ap (λ (n : ℕ). bit (n - 1) i) (one_shl size),
  bit-mask size i,
  bit-shr group bit_offset i,
  bit_le_one group (bit_offset + i),
)

pow-byte : (width : ℕ) → 256 ^ width ≡ 2 ^ (8 * width)
pow-byte zero = refl
pow-byte (suc width) =
    let more : 8 * suc width ≡ 8 * width + 8 = omega arith in
    rw more (simp towards_suc (omega (arith, pow-suc 256 width, pow-byte width)))

new_group_fits :
    (width group bit_offset size value : ℕ)
    → group < 256 ^ width
    → bit_offset + size ≤ 8 * width
    → new_group group bit_offset size value < 256 ^ width
new_group_fits width group bit_offset size value hg h = rw (pow-byte width) (
    lt_of_bits (new_group group bit_offset size value) (8 * width) λ i le. ground (
      arith,
      bit-new_group group bit_offset size value i,
      bit_of_lt group (8 * width) i (rw (pow-byte width) at hg) le,
    ))

take-to_bytes :
    (width value : ℕ) (rest : Bytes)
    → take width (to_bytes width value ++ rest) ≡ to_bytes width value
take-to_bytes width value rest =
    ap (λ (n : ℕ). take n (to_bytes width value ++ rest)) (sym (length-to_bytes width value))
    ∙ take-append_length (to_bytes width value) rest

-- Whether a datapoint of bits lies in the group of the first bytes.
abbrev pub is_grouped : ProductSchema → Position → Bool
is_grouped s p = p.byte_offset == 0 && ltb 1 s.bit_group_width

-- The digits that it takes lie in the buffer.
abbrev pub InBuffer : ProductSchema → Bytes → Position → Type 0
InBuffer s buffer p =
    if is_grouped s p
    then (p.bit_offset + p.width ≤ 8 * s.bit_group_width) × (s.bit_group_width ≤ length buffer)
    else p.byte_offset * 8 + p.bit_offset + p.width ≤ 8 * length buffer

-- The outcome of placing `value` in `before`: `after` is as long, and reads the value back.
record Written (s : ProductSchema) (before : Bytes) (p : Position) (value : ℕ) : Type 0 where
  after : Bytes
  placed : place_bits s before p value ≡ ok after
  same_length : length after ≡ length before
  reads_back : read_bits s after p ≡ ok value

module _ (before : Bytes) (width bit_offset size value : ℕ) (bytes : All IsByte before)
    (in_group : bit_offset + size ≤ 8 * width) (in_buffer : width ≤ length before) where
  abbrev group : ℕ
  group = from_bytes (take width before)

  abbrev group' : ℕ
  group' = new_group group bit_offset size value

  group_small : group < 256 ^ width
  group_small =
      let n : length (take width before) ≡ width = omega (arith, length-take width before) in
      rw n at (from_bytes-lt (take width before) (All-take IsByte width before bytes))

  abbrev after_group : Bytes
  after_group = to_bytes width group' ++ drop width before

  place_group-after : place_group width before bit_offset size value ≡ ok after_group
  unfolding place_group new_group
  place_group-after =
      ground (arith, new_group_fits width group bit_offset size value group_small in_group)

  length-after_group : length after_group ≡ length before
  length-after_group = omega (
    arith,
    length-append (to_bytes width group') (drop width before),
    length-to_bytes width group',
    length-drop width before,
  )

  read_after_group : from_bytes (take width after_group) ≡ group'
  read_after_group =
      ap from_bytes (take-to_bytes width group' (drop width before))
      ∙ from_bytes-to_bytes width group'
          (new_group_fits width group bit_offset size value group_small in_group)

  value_back : value < 2 ^ size → bit_and (shr group' bit_offset) (shl 1 size - 1) ≡ value
  value_back small = bit_ext (bit_and (shr group' bit_offset) (shl 1 size - 1)) value λ i. ground (
    arith,
    bit-read_group group' bit_offset size i,
    bit-new_group group bit_offset size value (bit_offset + i),
    ap (bit value) (back i),
    bit_of_lt value size i small,
  )
    where
      back : (i : ℕ) → bit_offset + i - bit_offset ≡ i
      back i = omega arith

place_bits_grouped :
    (s : ProductSchema) (before : Bytes) (p : Position) (value : ℕ)
    → is_grouped s p ≡ true
    → All IsByte before
    → p.bit_offset + p.width ≤ 8 * s.bit_group_width
    → s.bit_group_width ≤ length before
    → value < 2 ^ p.width
    → Written s before p value
unfolding place_bits read_bits
place_bits_grouped s before p value g bytes hg hb small = record {
  after = after_group before s.bit_group_width p.bit_offset p.width value bytes hg hb;
  placed = rw g (place_group-after before s.bit_group_width p.bit_offset p.width value bytes hg hb);
  same_length = length-after_group before s.bit_group_width p.bit_offset p.width value bytes hg hb;
  reads_back =
      rw (g, read_after_group before s.bit_group_width p.bit_offset p.width value bytes hg hb)
        (ap ok (value_back before s.bit_group_width p.bit_offset p.width value bytes hg hb small));
}

place_bits_loose :
    (s : ProductSchema) (before : Bytes) (p : Position) (value : ℕ)
    → is_grouped s p ≡ false
    → p.byte_offset * 8 + p.bit_offset + p.width ≤ 8 * length before
    → value < 2 ^ p.width
    → Written s before p value
unfolding place_bits read_bits
place_bits_loose s before p value g hb small =
    let start = p.byte_offset * 8 + p.bit_offset in
    let (after, done, same, digits) =
      place_bits_loop_digits p.width 0 before p.byte_offset p.bit_offset value (omega arith) in
    let (r, read, read_digits) =
      read_bits_loop_digits p.width 0 after start 0 (omega (arith, same)) (omega arith) in
    record {
      after = after;
      placed = rw g done;
      same_length = same;
      reads_back = rw g (
          read
          ∙ ap ok (
              bit_ext r value λ i. ground (
                arith,
                read_digits i,
                digits (start + i),
                ap (bit value) (back start i),
                bit_of_lt value p.width i small,
              )));
    }
  where
    back : (start i : ℕ) → start + i - start ≡ i
    back start i = omega arith

-- A value that fits the datapoint's width can be placed in any buffer of bytes that holds the
-- datapoint. The buffer keeps its length, and `_read_bits` then returns the value.
pub read_bits-place_bits :
    (s : ProductSchema) (before : Bytes) (p : Position) (value : ℕ)
    → All IsByte before
    → InBuffer s before p
    → value < 2 ^ p.width
    → (after : Bytes) × (place_bits s before p value ≡ ok after)
      × (length after ≡ length before)
      × (read_bits s after p ≡ ok value)
read_bits-place_bits s before p value bytes h small = elim (Bool-cases (is_grouped s p)) [
  | inl g ↦
      let (hg, hb) = (let fit = h in rw g at fit) in
      let w = place_bits_grouped s before p value g bytes hg hb small in
      (w.after, w.placed, w.same_length, w.reads_back)
  | inr g ↦
      let w = place_bits_loose s before p value g (rw g at h) small in
      (w.after, w.placed, w.same_length, w.reads_back)
]
