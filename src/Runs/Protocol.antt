-- ===== src/Runs/Protocol.antt =====
-- Frames, datapoints and limits at concrete values.
use jebao_flow_engine.Base.Dict.{Dict, lookup, insert}
use jebao_flow_engine.Protocol.Profiles.{
  get_product_schema, dosing_pump, dc_pump_pro, local_wavemaker, aquarium_pump, local_wavemaker_pro,
}
use jebao_flow_engine.Protocol.Profiles.Valid.{IsValid, get_product_schema-IsValid}
use jebao_flow_engine.Protocol.Schema.Decoding.{IsDecodable, decode_status_accepts}
use jebao_flow_engine.Protocol.Value.{Value}
use jebao_flow_engine.Base.{
  String, replicate, is_some, ◌≢◌, ℕ, ◌≤◌, ◌<◌, ◌^◌, ◌≡◌, refl, true, false, [], ◌∷◌, ◌++◌, length,
  arith, All, none, ◌⊎◌,
}
use jebao_flow_engine.Base.Bytes.{Bytes, IsByte, to_bytes, from_bytes}
use jebao_flow_engine.Base.Int.{pos}
use jebao_flow_engine.Base.Result.{ok, err, value_error}
use jebao_flow_engine.Protocol.Codec.{
  GizwitsFrame, encode_varint, decode_varint, encode_frame, decode_frame, unsigned,
}
use jebao_flow_engine.Protocol.Codec.Frame.{decode_frame-encode_frame}
use jebao_flow_engine.Protocol.Codec.Reader.{read_frame}
use jebao_flow_engine.Protocol.Codec.Stream.{read_frame-decode_frame}
use jebao_flow_engine.Protocol.Codec.Varint.{decode_varint-encode_varint, encode_varint_range}
use jebao_flow_engine.Protocol.Control.{place_bits}
use jebao_flow_engine.Protocol.Control.Bits.{read_bits-place_bits}
use jebao_flow_engine.Protocol.Schema.{
  Position, PositionUnit, ProductSchema, read_bits, check_schema, decode_status,
}
use jebao_flow_engine.Runs.Numbers.{hundredths, hundredths_laws}
use jebao_flow_engine.Safety.{PowerLimits, clamp_enabled_power}
use jebao_flow_engine.Safety.Bounds.{clamp_enabled_power_bounds}

-- 300 takes two bytes.
abbrev three_hundred : Bytes
three_hundred = 172 ∷ 2 ∷ []

encodes_three_hundred : encode_varint (pos 300) ≡ ok three_hundred
unfolding encode_varint
encodes_three_hundred = refl

decode_varint-encode_varint_example : decode_varint (7 ∷ 172 ∷ 2 ∷ 9 ∷ []) (pos 1) ≡ ok (300, 2)
decode_varint-encode_varint_example =
    decode_varint-encode_varint 300 (7 ∷ []) (9 ∷ []) three_hundred encodes_three_hundred

-- The read command 0x93 with flag 0 and the payload 2.
abbrev read_wire : Bytes
read_wire = 0 ∷ 0 ∷ 0 ∷ 3 ∷ 4 ∷ 0 ∷ 0 ∷ 0x93 ∷ 2 ∷ []

abbrev read_request : GizwitsFrame
read_request = record { command = 0x93; payload = 2 ∷ []; flag = 0 }

encodes_read : encode_frame (pos 0x93) (2 ∷ []) (pos 0) 1024 ≡ ok read_wire
unfolding encode_frame to_bytes encode_varint
encodes_read = refl

decode_frame-encode_frame_example : decode_frame read_wire 1024 ≡ ok read_request
unfolding unsigned
decode_frame-encode_frame_example =
    decode_frame-encode_frame (pos 0x93) (2 ∷ []) (pos 0) 1024 read_wire encodes_read

decodes_read : decode_frame read_wire 1024 ≡ ok read_request
unfolding decode_frame decode_varint from_bytes
decodes_read = refl

read_frame-decode_frame_example :
    read_frame 1024 (read_wire ++ (5 ∷ 6 ∷ [])) ≡ (ok read_request, 5 ∷ 6 ∷ [])
read_frame-decode_frame_example =
    read_frame-decode_frame read_wire (5 ∷ 6 ∷ []) 1024 read_request decodes_read

-- A schema with a group of sixteen bits in front.
abbrev small_schema : ProductSchema
small_schema = record {
  name = "small";
  product_key = "key";
  raw_status_size = 4;
  attribute_flags_size = 1;
  attribute_values_size = 4;
  bit_group_width = 2;
  attributes = [];
  enabled_attribute = none;
  power_attribute = none;
  mode_attribute = none;
  frequency_attribute = none;
  control_supported = true;
}

abbrev mode_position : Position
mode_position = record { byte_offset = 0; bit_offset = 7; width = 3; unit = PositionUnit.bit }

abbrev four_bytes : Bytes
four_bytes = 255 ∷ 0 ∷ 1 ∷ 2 ∷ []

four_are_bytes : All IsByte four_bytes
unfolding IsByte
four_are_bytes = (omega arith, (omega arith, (omega arith, (omega arith, tt))))

read_bits-place_bits_example :
    (after : Bytes) × (place_bits small_schema four_bytes mode_position 5 ≡ ok after)
    × (length after ≡ 4)
    × (read_bits small_schema after mode_position ≡ ok 5)
read_bits-place_bits_example =
    read_bits-place_bits small_schema four_bytes mode_position 5 four_are_bytes
      (omega arith, omega arith) (omega arith)

abbrev pump_limits : PowerLimits
pump_limits = record { min_power = 30; max_power = 80 }

clamp_enabled_power_bounds_example :
    (power : ℕ) × (clamp_enabled_power hundredths 9950 pump_limits true ≡ ok power)
    × (true ≡ false → power ≡ 0)
    × (true ≡ true → (30 ≤ power) × (power ≤ 80))
clamp_enabled_power_bounds_example =
    clamp_enabled_power_bounds hundredths hundredths_laws 9950 pump_limits true (omega arith)
      (omega arith)

encode_varint_range_example :
    ((encode_varint (pos 300) ≡ err value_error) × ((v : ℕ) → pos 300 ≡ pos v → 2 ^ 28 ≤ v))
    ⊎ ((v : ℕ) × (encoded : Bytes) × (pos 300 ≡ pos v)
        × (v < 2 ^ 28)
        × (encode_varint (pos 300) ≡ ok encoded)
        × All IsByte encoded
        × (1 ≤ length encoded)
        × (length encoded ≤ 4))
encode_varint_range_example = encode_varint_range (pos 300)

abbrev dosing_key : String
dosing_key = "5b3c136fd4b74f3fb2a366a254c76c9a"

gets_dosing_pump : get_product_schema dosing_key ≡ ok dosing_pump
unfolding get_product_schema dosing_pump dc_pump_pro local_wavemaker aquarium_pump
    local_wavemaker_pro lookup insert
gets_dosing_pump = refl

get_product_schema-IsValid_example : (dosing_pump.product_key ≡ dosing_key) × IsValid dosing_pump
get_product_schema-IsValid_example =
    get_product_schema-IsValid dosing_key dosing_pump gets_dosing_pump

dosing_is_checked : check_schema dosing_pump ≡ ok tt
unfolding IsValid
dosing_is_checked = (get_product_schema-IsValid dosing_key dosing_pump gets_dosing_pump).1.0

dosing_attributes : All (IsDecodable dosing_pump) dosing_pump.attributes
unfolding IsValid
dosing_attributes = (get_product_schema-IsValid dosing_key dosing_pump gets_dosing_pump).1.1

abbrev dosing_status : Bytes
dosing_status = replicate 394 1

decode_status_accepts_example :
    ((length dosing_status ≡ dosing_pump.raw_status_size)
      × ((values : Dict Value) × (decode_status dosing_pump dosing_status ≡ ok values)
          × All (λ d. is_some (lookup d.name values) ≡ true) dosing_pump.attributes))
    ⊎ ((length dosing_status ≢ dosing_pump.raw_status_size)
        × (decode_status dosing_pump dosing_status ≡ err value_error))
decode_status_accepts_example =
    decode_status_accepts dosing_pump dosing_status dosing_is_checked dosing_attributes
