-- ===== src/Protocol/Schema.antt =====
-- protocol/schema.py: product datapoints and strict status decoding. Offsets, ids and sizes are
-- natural numbers, so the tests of `__post_init__` for negative values have no counterpart.
-- `ratio` and `addition` are whole numbers: every audited profile keeps their defaults, 1 and 0.
pub mod Decoding
use jebao_flow_engine.Base.{
  ℕ, zero, suc, ◌+◌, ◌*◌, ◌-◌, ◌/◌, ◌%◌, Bool, true, false, not, ◌&&◌, ◌||◌, Option, none, some,
  List, [], ◌∷◌, String, str_eq, map, ltb, leb, ◌==◌, if◌then◌else◌, length, get_elem?, slice, take,
  any, is_some, keep,
}
use jebao_flow_engine.Base.Bits.{shl, shr}
use jebao_flow_engine.Base.Bytes.{Bytes, from_bytes}
use jebao_flow_engine.Base.Dict.{Dict, lookup, insert}
use jebao_flow_engine.Base.Int.{pos}
use jebao_flow_engine.Base.Result.{
  Result, ok, err, ◌>>=◌, ◌>>◌, ensure, value_error, key_error, index_error, assertion_error,
}
use jebao_flow_engine.Protocol.Value.{Value, of_bool, of_int, of_text, of_bytes, truthy}
use Prim.Native.Nat.{bit_and, bit_or}

pub data DataType : Type 0 where
  bool enum uint8 uint16 binary : DataType

pub data DatapointKind : Type 0 where
  writable read_only fault alert : DatapointKind

pub data PositionUnit : Type 0 where
  bit byte : PositionUnit

pub record Position : Type 0 where
  pub byte_offset : ℕ
  pub bit_offset : ℕ
  pub width : ℕ
  pub unit : PositionUnit

pub record NumericSpec : Type 0 where
  pub minimum : ℕ
  pub maximum : ℕ
  pub addition : ℕ
  pub ratio : ℕ

pub record Datapoint : Type 0 where
  pub id : ℕ
  pub name : String
  pub data_type : DataType
  pub kind : DatapointKind
  pub position : Position
  pub enum_values : List String
  pub numeric : Option NumericSpec

pub record ProductSchema : Type 0 where
  pub name : String
  pub product_key : String
  pub raw_status_size : ℕ
  pub attribute_flags_size : ℕ
  pub attribute_values_size : ℕ
  pub bit_group_width : ℕ
  pub attributes : List Datapoint
  pub enabled_attribute : Option String
  pub power_attribute : Option String
  pub mode_attribute : Option String
  pub frequency_attribute : Option String
  pub control_supported : Bool

abbrev pub is_writable_kind : DatapointKind → Bool
is_writable_kind writable = true
is_writable_kind _ = false

abbrev pub is_problem_kind : DatapointKind → Bool
is_problem_kind fault = true
is_problem_kind alert = true
is_problem_kind _ = false

abbrev pub is_numeric_type : DataType → Bool
is_numeric_type uint8 = true
is_numeric_type uint16 = true
is_numeric_type _ = false

abbrev pub is_enum_type : DataType → Bool
is_enum_type enum = true
is_enum_type _ = false

abbrev pub is_bit_unit : PositionUnit → Bool
is_bit_unit bit = true
is_bit_unit byte = false

-- `not xs`
abbrev pub is_empty {ℓ} : {A : Type ℓ} → List A → Bool
is_empty [] = true
is_empty (x ∷ xs) = false

unfoldable pub check_position : Position → Result (Unit {0})
check_position p = ensure (ltb 0 p.width) value_error

unfoldable pub check_numeric : NumericSpec → Result (Unit {0})
check_numeric n = do
  ensure (leb n.minimum n.maximum) value_error
  ensure (not (n.ratio == 0)) value_error

unfoldable pub check_datapoint : Datapoint → Result (Unit {0})
check_datapoint d = do
  ensure (not (str_eq d.name "")) value_error
  ensure (not (is_enum_type d.data_type && is_empty d.enum_values)) value_error
  ensure (not (is_numeric_type d.data_type && not (is_some d.numeric))) value_error

-- The first byte behind a datapoint.
unfoldable pub end_of : Position → ℕ
end_of p =
    p.byte_offset + (if is_bit_unit p.unit then (p.bit_offset + p.width + 7) / 8 else p.width)

-- `len(xs) != len(set(xs))`, for numbers and for texts
abbrev pub has_duplicate {ℓ} : {A : Type ℓ} → (A → A → Bool) → List A → Bool
has_duplicate eq [] = false
has_duplicate eq (x ∷ xs) = any (eq x) xs || has_duplicate eq xs

abbrev pub is_known : List String → Option String → Bool
is_known names none = true
is_known names (some logical_name) = any (str_eq logical_name) names

unfoldable pub check_attributes : ProductSchema → List Datapoint → Result (Unit {0})
check_attributes s [] = ok tt
check_attributes s (d ∷ rest) = do
  ensure (leb (end_of d.position) s.raw_status_size) value_error
  ensure (not (is_writable_kind d.kind) || ltb d.id (s.attribute_flags_size * 8)) value_error
  ensure (not (is_writable_kind d.kind) || leb (end_of d.position) s.attribute_values_size)
      value_error
  check_attributes s rest

unfoldable pub check_schema : ProductSchema → Result (Unit {0})
unfolding check_attributes end_of
check_schema s = do
  ensure (not (str_eq s.name "" || str_eq s.product_key "")) value_error
  ensure (ltb 0 s.raw_status_size) value_error
  ensure (ltb 0 s.attribute_flags_size && ltb 0 s.attribute_values_size) value_error
  let names = map (λ (d : Datapoint). d.name) s.attributes
  ensure
      (not (
        has_duplicate ◌==◌ (map (λ (d : Datapoint). d.id) s.attributes)
        || has_duplicate str_eq names))
      value_error
  ensure
      (is_known names s.enabled_attribute
        && is_known names s.power_attribute
        && is_known names s.mode_attribute
        && is_known names s.frequency_attribute)
      value_error
  check_attributes s s.attributes

-- `{attribute.name: attribute for attribute in self.attributes}`
unfoldable pub index_attributes : Dict Datapoint → List Datapoint → Dict Datapoint
index_attributes d [] = d
index_attributes d (a ∷ rest) = index_attributes (insert a.name a d) rest

unfoldable pub by_name : ProductSchema → String → Result Datapoint
unfolding index_attributes lookup insert
by_name s name = elim (lookup name (index_attributes [] s.attributes)) [
  | none ↦ err key_error
  | some attribute ↦ ok attribute
]

unfoldable pub byte_at : Bytes → ℕ → Result ℕ
byte_at bytes i = elim (get_elem? bytes i) [ none ↦ err index_error | some b ↦ ok b ]

-- The `for` loop of `_read_bits`, from `index` on, with `rounds` left.
unfoldable pub read_bits_loop : ℕ → ℕ → Bytes → ℕ → ℕ → Result ℕ
read_bits_loop zero index raw start value = ok value
read_bits_loop (suc rounds) index raw start value = do
  let absolute_bit = start + index
  b ← byte_at raw (absolute_bit / 8)
  let digit = bit_and (shr b (absolute_bit % 8)) 1
  read_bits_loop rounds (index + 1) raw start (bit_or value (shl digit index))

unfoldable pub read_bits : ProductSchema → Bytes → Position → Result ℕ
unfolding read_bits_loop byte_at
read_bits s raw p =
    if p.byte_offset == 0 && ltb 1 s.bit_group_width
    then ok
        (bit_and (shr (from_bytes (take s.bit_group_width raw)) p.bit_offset) (shl 1 p.width - 1))
    else read_bits_loop p.width 0 raw (p.byte_offset * 8 + p.bit_offset) 0

-- `enum_values[value]` if there is one, the number itself if there is none
unfoldable pub enum_or_number : List String → ℕ → ℕ → Value
enum_or_number names index number = elim (get_elem? names index) [
  | none ↦ of_int (pos number)
  | some name ↦ of_text name
]

unfoldable pub bit_value : DataType → List String → ℕ → Value
unfolding enum_or_number
bit_value bool names value = of_bool (not (value == 0))
bit_value enum names value = enum_or_number names value value
bit_value _ names value = of_int (pos value)

unfoldable pub number_value : Option NumericSpec → List String → ℕ → Result Value
unfolding enum_or_number
number_value none names raw_value = err assertion_error
number_value (some n) names raw_value =
    ok (enum_or_number names raw_value (raw_value * n.ratio + n.addition))

unfoldable pub byte_value : Datapoint → DataType → Bytes → Result Value
unfolding number_value
byte_value d binary chunk = ok (of_bytes chunk)
byte_value d uint8 chunk = number_value d.numeric d.enum_values (from_bytes chunk)
byte_value d uint16 chunk = number_value d.numeric d.enum_values (from_bytes chunk)
byte_value d bool chunk = err value_error
byte_value d enum chunk = err value_error

unfoldable pub decode_attribute : ProductSchema → Bytes → Datapoint → Result Value
unfolding bit_value byte_value
decode_attribute s raw d =
    if is_bit_unit d.position.unit
    then (do value ← read_bits s raw d.position; ok (bit_value d.data_type d.enum_values value))
    else byte_value d d.data_type (slice raw d.position.byte_offset d.position.width)

unfoldable pub decode_attributes :
    ProductSchema → Bytes → List Datapoint → Dict Value → Result (Dict Value)
decode_attributes s raw [] values = ok values
decode_attributes s raw (d ∷ rest) values = do
  value ← decode_attribute s raw d
  decode_attributes s raw rest (insert d.name value values)

unfoldable pub decode_status : ProductSchema → Bytes → Result (Dict Value)
unfolding decode_attributes
decode_status s raw = do
  ensure (length raw == s.raw_status_size) value_error
  decode_attributes s raw s.attributes []

-- `bool(values.get(name))`
unfoldable pub is_set : Dict Value → String → Bool
is_set values name = elim (lookup name values) [ none ↦ false | some v ↦ truthy v ]

unfoldable pub active_problems : ProductSchema → Dict Value → List String
unfolding is_set
active_problems s values =
    map (λ (d : Datapoint). d.name)
      (keep (λ (d : Datapoint). is_problem_kind d.kind && is_set values d.name) s.attributes)
