-- ===== src/Protocol/Schema/Decoding.antt =====
-- Which status buffers `decode_status` of protocol/schema.py accepts.
use jebao_flow_engine.Base.{
  ℕ, ◌+◌, ◌*◌, ◌/◌, ◌≤◌, ◌≡◌, ◌≢◌, refl, ap, Bool, true, false, not, ◌&&◌, ◌||◌, Bool-cases,
  Option-cases, inl, inr, List, [], ◌∷◌, String, str_eq, arith, ltb, leb, ◌==◌, length, map,
  is_some, slice, take, All, ◌-◌, ◌⊎◌, ℕ_discrete,
}
use jebao_flow_engine.Base.Bits.{shl, shr}
use jebao_flow_engine.Base.Bytes.{Bytes, from_bytes}
use jebao_flow_engine.Base.Dict.{Dict, lookup, insert, lookup-insert, lookup-insert_self}
use jebao_flow_engine.Base.Result.{Error, ok, err, ensure, ensure-eq-ok, value_error}
use jebao_flow_engine.Protocol.Control.Digits.{read_bits_loop_digits}
use jebao_flow_engine.Protocol.Schema.{
  DataType, Datapoint, Position, ProductSchema, is_bit_unit, is_numeric_type, is_enum_type,
  is_empty, is_known, is_writable_kind, has_duplicate, check_datapoint, end_of, check_attributes,
  check_schema, read_bits, bit_value, enum_or_number, number_value, byte_value, decode_attribute,
  decode_attributes, decode_status, bool, enum, uint8, uint16, binary,
}
use Prim.Native.Nat.{bit_and}
use mathlib.Core.Bool.{false≢true}
use jebao_flow_engine.Protocol.Value.{Value, of_bytes}

abbrev pub is_byte_type : DataType → Bool
is_byte_type bool = false
is_byte_type enum = false
is_byte_type _ = true

-- A datapoint of whole bytes is a number or binary.
abbrev pub is_decodable : Datapoint → Bool
is_decodable d = is_bit_unit d.position.unit || is_byte_type d.data_type

ensure-ok : (test : Bool) (e : Error) → ensure test e ≡ ok tt → test ≡ true
ensure-ok true e h = refl
ensure-ok false e h = cc

read_bits_ok :
    (s : ProductSchema) (raw : Bytes) (p : Position)
    → is_bit_unit p.unit ≡ true
    → end_of p ≤ length raw
    → (value : ℕ) × (read_bits s raw p ≡ ok value)
unfolding read_bits end_of
read_bits_ok s raw p unit fits = elim (Bool-cases (p.byte_offset == 0 && ltb 1 s.bit_group_width)) [
  | inl grouped ↦ (
    bit_and (shr (from_bytes (take s.bit_group_width raw)) p.bit_offset) (shl 1 p.width - 1),
    rw grouped refl,
  )
  | inr apart ↦
      let inside : p.byte_offset + (p.bit_offset + p.width + 7) / 8 ≤ length raw =
        rw unit at fits in
      let (value, done, _) =
        read_bits_loop_digits p.width 0 raw (p.byte_offset * 8 + p.bit_offset) 0
          (omega (arith, inside)) (omega arith) in
      (value, rw apart done)
]

number_value_ok :
    (d : Datapoint) (raw_value : ℕ)
    → is_numeric_type d.data_type ≡ true
    → check_datapoint d ≡ ok tt
    → (value : Value) × (number_value d.numeric d.enum_values raw_value ≡ ok value)
unfolding number_value check_datapoint
number_value_ok d raw_value numeric valid =
    let (_, h1) = ensure-eq-ok (not (str_eq d.name "")) value_error _ valid in
    let (_, h2) =
      ensure-eq-ok (not (is_enum_type d.data_type && is_empty d.enum_values)) value_error _ h1 in
    elim (Option-cases d.numeric) [
      | inl missing ↦ absurd (false≢true (rw (numeric, missing) at (ensure-ok _ value_error h2)))
      | inr (n, found) ↦
          (enum_or_number d.enum_values raw_value (raw_value * n.ratio + n.addition), rw found refl)
    ]

byte_value_ok :
    (d : Datapoint) (type : DataType) (chunk : Bytes)
    → d.data_type ≡ type
    → is_byte_type type ≡ true
    → check_datapoint d ≡ ok tt
    → (value : Value) × (byte_value d type chunk ≡ ok value)
unfolding byte_value
byte_value_ok d binary chunk same is_byte valid = (of_bytes chunk, refl)
byte_value_ok d uint8 chunk same is_byte valid =
    number_value_ok d (from_bytes chunk) (ap is_numeric_type same) valid
byte_value_ok d uint16 chunk same is_byte valid =
    number_value_ok d (from_bytes chunk) (ap is_numeric_type same) valid
byte_value_ok d bool chunk same is_byte valid = absurd (false≢true is_byte)
byte_value_ok d enum chunk same is_byte valid = absurd (false≢true is_byte)

decode_attribute_ok :
    (s : ProductSchema) (raw : Bytes) (d : Datapoint)
    → end_of d.position ≤ length raw
    → is_decodable d ≡ true
    → check_datapoint d ≡ ok tt
    → (value : Value) × (decode_attribute s raw d ≡ ok value)
unfolding decode_attribute
decode_attribute_ok s raw d fits decodable valid = elim (Bool-cases (is_bit_unit d.position.unit)) [
  | inl unit ↦
      let (value, done) = read_bits_ok s raw d.position unit fits in
      (bit_value d.data_type d.enum_values value, rw (unit, done) refl)
  | inr unit ↦
      let (value, done) =
        byte_value_ok d d.data_type (slice raw d.position.byte_offset d.position.width) refl
          (rw unit at decodable) valid in
      (value, rw unit done)
]

-- What the decoding of a schema's datapoints relies on.
unfoldable pub IsDecodable : ProductSchema → Datapoint → Type 0
IsDecodable s d = (is_decodable d ≡ true) × (check_datapoint d ≡ ok tt)

decode_attributes_ok :
    (s : ProductSchema) (raw : Bytes) (attributes : List Datapoint) (values : Dict Value)
    → length raw ≡ s.raw_status_size
    → check_attributes s attributes ≡ ok tt
    → All (IsDecodable s) attributes
    → (result : Dict Value) × (decode_attributes s raw attributes values ≡ ok result)
      × ((name : String)
          → is_some (lookup name values) ≡ true
          → is_some (lookup name result) ≡ true)
      × All (λ d. is_some (lookup d.name result) ≡ true) attributes
unfolding decode_attributes check_attributes IsDecodable
decode_attributes_ok s raw [] values size valid decodable = (values, refl, λ name h. h, tt)
decode_attributes_ok s raw (d ∷ rest) values size valid decodable =
    let (fits, h1) = ensure-eq-ok (leb (end_of d.position) s.raw_status_size) value_error _ valid in
    let (_, h2) =
      ensure-eq-ok (not (is_writable_kind d.kind) || ltb d.id (s.attribute_flags_size * 8))
        value_error _ h1 in
    let (_, h3) =
      ensure-eq-ok
        (not (is_writable_kind d.kind) || leb (end_of d.position) s.attribute_values_size)
        value_error _ h2 in
    let (value, done) =
      decode_attribute_ok s raw d (ground (arith, fits, size)) decodable.0.0 decodable.0.1 in
    let (result, looped, kept, found) =
      decode_attributes_ok s raw rest (insert d.name value values) size h3 decodable.1 in
    (
      result,
      rw done looped,
      λ name h. kept name (rw lookup-insert (ground (arith, h))),
      (kept d.name (ap is_some (lookup-insert_self d.name value values)), found),
    )

check_schema-attributes :
    (s : ProductSchema) → check_schema s ≡ ok tt → check_attributes s s.attributes ≡ ok tt
unfolding check_schema
check_schema-attributes s h =
    let names = map (λ (d : Datapoint). d.name) s.attributes in
    let (_, h1) =
      ensure-eq-ok (not (str_eq s.name "" || str_eq s.product_key "")) value_error _ h in
    let (_, h2) = ensure-eq-ok (ltb 0 s.raw_status_size) value_error _ h1 in
    let (_, h3) =
      ensure-eq-ok (ltb 0 s.attribute_flags_size && ltb 0 s.attribute_values_size) value_error _
        h2 in
    let (_, h4) =
      ensure-eq-ok
        (not (
          has_duplicate ◌==◌ (map (λ (d : Datapoint). d.id) s.attributes)
          || has_duplicate str_eq names))
        value_error _ h3 in
    let (_, h5) =
      ensure-eq-ok
        (is_known names s.enabled_attribute
          && is_known names s.power_attribute
          && is_known names s.mode_attribute
          && is_known names s.frequency_attribute)
        value_error _ h4 in
    h5

-- For a valid schema with valid datapoints, of which those in whole bytes are numbers or binary, `decode_status`
-- accepts exactly the buffers of the schema's size: it returns a value for each datapoint, and raises `ValueError` on a
-- buffer of another size.
pub decode_status_accepts :
    (s : ProductSchema) (raw : Bytes)
    → check_schema s ≡ ok tt
    → All (IsDecodable s) s.attributes
    → ((length raw ≡ s.raw_status_size)
        × ((values : Dict Value) × (decode_status s raw ≡ ok values)
            × All (λ d. is_some (lookup d.name values) ≡ true) s.attributes))
      ⊎ ((length raw ≢ s.raw_status_size) × (decode_status s raw ≡ err value_error))
unfolding decode_status
decode_status_accepts s raw valid decodable = elim (ℕ_discrete (length raw) s.raw_status_size) [
  | yes same ↦
      let (values, done, _, found) =
        decode_attributes_ok s raw s.attributes [] same (check_schema-attributes s valid)
          decodable in
      inl (same, (values, ground (arith, same, done), found))
  | no other ↦ inr (other, ground (arith, other))
]
