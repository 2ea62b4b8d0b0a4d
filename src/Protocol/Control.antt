-- ===== src/Protocol/Control.antt =====
-- protocol/control.py: offline construction of control payloads. A requested number is an integer;
-- `float_text` is what `float()` makes of a text, where that is a whole number.
pub mod Digits
pub mod Bits
use jebao_flow_engine.Base.{
  ℕ, zero, suc, ◌+◌, ◌-◌, ◌/◌, ◌%◌, ◌^◌, Bool, true, false, not, ◌&&◌, Option, none, some, List, [],
  ◌∷◌, ◌++◌, String, str_eq, ltb, leb, ◌==◌, if◌then◌else◌, length, take, drop, set, replicate,
}
use jebao_flow_engine.Base.Bits.{shl, shr, and_not}
use jebao_flow_engine.Base.Bytes.{Bytes, from_bytes, to_bytes}
use jebao_flow_engine.Base.Dict.{Dict}
use jebao_flow_engine.Base.Int.{ℤ, pos, negsuc}
use jebao_flow_engine.Base.Result.{
  Result, ok, err, ◌>>=◌, ◌>>◌, ensure, value_error, type_error, assertion_error, overflow_error,
}
use jebao_flow_engine.Protocol.Value.{Value, of_bool, of_int, of_text, of_bytes, int_of_bool}
use jebao_flow_engine.Protocol.Schema.{
  DataType, bool, enum, uint8, uint16, binary, Position, NumericSpec, Datapoint, ProductSchema,
  is_writable_kind, is_bit_unit, is_empty, by_name, byte_at,
}
use Prim.Native.Nat.{bit_and, bit_or}
use mathlib.Core.List.{reverse}

abbrev pub control_action : ℕ
control_action = 0x01

-- `values.index(requested)`, from `i` on
unfoldable pub index_of : List String → String → ℕ → Result ℕ
index_of [] requested i = err value_error
index_of (v ∷ values) requested i =
    let rest = index_of values requested (i + 1) in if str_eq v requested then ok i else rest

unfoldable pub encode_bit_value : DataType → List String → Value → Result ℤ
unfolding index_of
encode_bit_value bool names (of_bool b) = ok (int_of_bool b)
encode_bit_value bool names _ = err type_error
encode_bit_value enum names (of_text t) = do i ← index_of names t 0; ok (pos i)
encode_bit_value _ names (of_int n) = ok n
encode_bit_value _ names _ = err type_error

-- `destination[i] |= mask` and `destination[i] &= ~mask & 0xFF`
unfoldable pub place_digit : Bytes → ℕ → ℕ → Bool → Result Bytes
unfolding byte_at and_not
place_digit destination target_byte mask digit = do
  b ← byte_at destination target_byte
  ok (set destination target_byte (if digit then bit_or b mask else bit_and b (and_not 0xff mask)))

-- The `for` loop of `_place_bits`, from `index` on, with `rounds` left.
unfoldable pub place_bits_loop : ℕ → ℕ → Bytes → ℕ → ℕ → ℕ → Result Bytes
place_bits_loop zero index destination byte_offset bit_offset value = ok destination
place_bits_loop (suc rounds) index destination byte_offset bit_offset value = do
  let local_bit = bit_offset + index
  destination' ←
      place_digit destination (byte_offset + local_bit / 8) (shl 1 (local_bit % 8))
        (not (bit_and (shr value index) 1 == 0))
  place_bits_loop rounds (index + 1) destination' byte_offset bit_offset value

-- The group of the first bytes, read as one big-endian number.
unfoldable pub place_group : ℕ → Bytes → ℕ → ℕ → ℕ → Result Bytes
unfolding and_not
place_group width destination bit_offset size value = do
  let group = from_bytes (take width destination)
  let mask = shl (shl 1 size - 1) bit_offset
  let group' = bit_or (and_not group mask) (bit_and (shl value bit_offset) mask)
  ensure (ltb group' (256 ^ width)) overflow_error
  ok (to_bytes width group' ++ drop width destination)

unfoldable pub place_bits : ProductSchema → Bytes → Position → ℕ → Result Bytes
unfolding place_bits_loop place_digit place_group
place_bits s destination p value =
    if p.byte_offset == 0 && ltb 1 s.bit_group_width
    then place_group s.bit_group_width destination p.bit_offset p.width value
    else place_bits_loop p.width 0 destination p.byte_offset p.bit_offset value

unfoldable pub place_bit_value : ProductSchema → Bytes → Position → ℤ → Result Bytes
unfolding place_bits
place_bit_value s destination p (negsuc n) = err value_error
place_bit_value s destination p (pos raw_value) = do
  ensure (leb raw_value (shl 1 p.width - 1)) value_error
  place_bits s destination p raw_value

-- `destination[start : start + size] = chunk`
abbrev pub place_chunk : Bytes → ℕ → ℕ → Bytes → Bytes
place_chunk destination start size chunk =
    take start destination ++ (chunk ++ drop (start + size) destination)

-- `(requested - addition) / ratio`, which must be whole and in range
unfoldable pub raw_number : NumericSpec → ℤ → Result ℕ
raw_number n (negsuc requested) = err value_error
raw_number n (pos requested) = do
  ensure (leb n.addition requested) value_error
  ensure ((requested - n.addition) % n.ratio == 0) value_error
  let raw_value = (requested - n.addition) / n.ratio
  ensure (leb n.minimum raw_value && leb raw_value n.maximum) value_error
  ok raw_value

-- `bytes(requested)`: an integer gives that many zero bytes.
unfoldable pub as_bytes : Value → Result Bytes
as_bytes (of_bytes bytes) = ok bytes
as_bytes (of_int (pos n)) = ok (replicate n 0)
as_bytes (of_int (negsuc n)) = err value_error
as_bytes (of_bool true) = ok (0 ∷ [])
as_bytes (of_bool false) = ok []
as_bytes (of_text t) = err type_error

unfoldable pub place_binary : Bytes → Position → Value → Result Bytes
unfolding as_bytes
place_binary destination p requested = do
  raw_bytes ← as_bytes requested
  ensure (length raw_bytes == p.width) value_error
  ok (place_chunk destination p.byte_offset p.width raw_bytes)

-- `flags[attribute.id // 8] |= 1 << (attribute.id % 8)`
unfoldable pub place_flag : Bytes → ℕ → Result Bytes
unfolding byte_at
place_flag flags id = do
  b ← byte_at flags (id / 8)
  ok (set flags (id / 8) (bit_or b (shl 1 (id % 8))))

module _ (float_text : String → Option ℤ) where
  -- `float(requested)`, and the index of an enum name
  unfoldable pub requested_number : List String → Value → Result ℤ
  unfolding index_of
  requested_number names (of_bool b) = ok (int_of_bool b)
  requested_number names (of_int n) = ok n
  requested_number names (of_bytes bytes) = err type_error
  requested_number [] (of_text t) = elim (float_text t) [ none ↦ err value_error | some n ↦ ok n ]
  requested_number (name ∷ names) (of_text t) = do i ← index_of (name ∷ names) t 0; ok (pos i)

  unfoldable pub place_number : Bytes → Datapoint → Value → Result Bytes
  unfolding requested_number raw_number
  place_number destination d requested = elim d.numeric [
    | none ↦ err assertion_error
    | some n ↦ do
      number ← requested_number d.enum_values requested
      raw_value ← raw_number n number
      ensure (ltb raw_value (256 ^ d.position.width)) overflow_error
      ok (
          place_chunk destination d.position.byte_offset d.position.width
            (to_bytes d.position.width raw_value))
  ]

  unfoldable pub place_bytes : Bytes → Datapoint → DataType → Value → Result Bytes
  unfolding place_number place_binary
  place_bytes destination d binary requested = place_binary destination d.position requested
  place_bytes destination d uint8 requested = place_number destination d requested
  place_bytes destination d uint16 requested = place_number destination d requested
  place_bytes destination d _ requested = err value_error

  unfoldable pub place_value : ProductSchema → Bytes → Datapoint → Value → Result Bytes
  unfolding place_bit_value place_bytes encode_bit_value
  place_value s destination d requested =
      if is_bit_unit d.position.unit
      then (do
        raw_value ← encode_bit_value d.data_type d.enum_values requested
        place_bit_value s destination d.position raw_value)
      else place_bytes destination d d.data_type requested

  unfoldable pub place_changes : ProductSchema → Dict Value → Bytes → Bytes → Result (Bytes × Bytes)
  unfolding place_flag place_value
  place_changes s [] flags values = ok (flags, values)
  place_changes s ((name, requested) ∷ changes) flags values = do
    attribute ← by_name s name
    ensure (is_writable_kind attribute.kind) value_error
    flags' ← place_flag flags attribute.id
    values' ← place_value s values attribute requested
    place_changes s changes flags' values'

  -- The flags go out in reverse order.
  unfoldable pub build_control_payload : ProductSchema → Dict Value → Result Bytes
  unfolding place_changes
  build_control_payload s changes = do
    ensure s.control_supported value_error
    ensure (not (is_empty changes)) value_error
    (flags, values) ←
        place_changes s changes (replicate s.attribute_flags_size 0)
          (replicate s.attribute_values_size 0)
    ok (control_action ∷ (reverse flags ++ values))
