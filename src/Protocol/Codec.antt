-- ===== src/Protocol/Codec.antt =====
-- protocol/codec.py: the GAgent frame envelope, its length varint, and the stream reader.
-- A byte string is a list of numbers; an integer argument that Python checks for its sign is a ℤ.
pub mod Varint
pub mod Frame
pub mod Reader
pub mod Stream
use jebao_flow_engine.Base.{
  ℕ, zero, suc, ◌+◌, ◌*◌, ◌-◌, ◌^◌, ◌<◌, ◌≡◌, refl, Bool, true, false, ◌&&◌, ◌||◌, Option, none,
  some, List, [], ◌∷◌, ◌++◌, arith, ltb, leb, ◌==◌, if◌then◌else◌, length, get_elem?, get_or, take,
  drop, slice, dec_lt,
}
use jebao_flow_engine.Base.Bits.{shl, shr}
use jebao_flow_engine.Base.Bytes.{Bytes, from_bytes, to_bytes}
use jebao_flow_engine.Base.Int.{ℤ, pos, negsuc}
use jebao_flow_engine.Base.Order.{lt_wf}
use jebao_flow_engine.Base.Result.{
  Result, Error, ok, err, ◌>>=◌, ◌>>◌, ensure, value_error, protocol_decode_error,
  incomplete_frame_error, frame_too_large_error, protocol_connection_error,
}
use Prim.Native.Nat.{bit_and, bit_or}
use mathlib.Core.Logic.{dite}
use mathlib.Core.WellFounded.{Acc}

abbrev pub magic : Bytes
magic = 0 ∷ 0 ∷ 0 ∷ 3 ∷ []

abbrev pub max_varint_bytes : ℕ
max_varint_bytes = 4

abbrev pub default_max_frame_body_size : ℕ
default_max_frame_body_size = 1024 * 1024

-- flag + 16-bit command
abbrev pub min_frame_body_size : ℕ
min_frame_body_size = 3

pub data GizwitsCommand : Type 0 where
  onboard_request onboard_response discover_request discover_response : GizwitsCommand
  startup_broadcast passcode_request passcode_response login_request : GizwitsCommand
  login_response heartbeat_request heartbeat_response : GizwitsCommand
  serial_transmit_request serial_transmit_response : GizwitsCommand
  serial_control_request serial_control_response : GizwitsCommand

unfoldable pub command_code : GizwitsCommand → ℕ
command_code onboard_request = 0x0001
command_code onboard_response = 0x0002
command_code discover_request = 0x0003
command_code discover_response = 0x0004
command_code startup_broadcast = 0x0005
command_code passcode_request = 0x0006
command_code passcode_response = 0x0007
command_code login_request = 0x0008
command_code login_response = 0x0009
command_code heartbeat_request = 0x0015
command_code heartbeat_response = 0x0016
command_code serial_transmit_request = 0x0090
command_code serial_transmit_response = 0x0091
command_code serial_control_request = 0x0093
command_code serial_control_response = 0x0094

pub record GizwitsFrame : Type 0 where
  pub command : ℕ
  pub payload : Bytes
  pub flag : ℕ

pub shift_falls : (value : ℕ) → 0 < shr value 7 → shr value 7 < value
shift_falls value h = omega arith

-- The `while True` loop: it goes on while `value >> 7` is not 0.
unfoldable pub encode_varint_loop : Bytes → (value : ℕ) → Acc ◌<◌ value → Bytes
encode_varint_loop encoded value (Acc.intro _ smaller) =
    let byte = bit_and value 0x7f in
    dite (dec_lt 0 (shr value 7))
      (λ more.
        encode_varint_loop (encoded ++ (bit_or byte 0x80 ∷ [])) (shr value 7)
          (smaller _ (shift_falls value more)))
      (λ _. encoded ++ (byte ∷ []))

unfoldable pub encode_varint : ℤ → Result Bytes
unfolding encode_varint_loop lt_wf dec_lt
encode_varint (negsuc n) = err value_error
encode_varint (pos value) =
    if leb (shl 1 (7 * max_varint_bytes)) value
    then err value_error
    else ok (encode_varint_loop [] value (lt_wf.apply value))

-- `rounds` is what `range(MAX_VARINT_BYTES)` has left.
unfoldable pub decode_varint_loop : ℕ → Bytes → ℕ → ℕ → ℕ → Result (ℕ × ℕ)
decode_varint_loop zero bytes offset index value = err protocol_decode_error
decode_varint_loop (suc rounds) bytes offset index value = elim (get_elem? bytes (offset + index)) [
  | none ↦ err incomplete_frame_error
  | some byte ↦
      let value' = bit_or value (shl (bit_and byte 0x7f) (7 * index)) in
      let more = decode_varint_loop rounds bytes offset (index + 1) value' in
      if bit_and byte 0x80 == 0 then ok (value', index + 1) else more
]

-- The value and the number of bytes that it took.
unfoldable pub decode_varint : Bytes → ℤ → Result (ℕ × ℕ)
unfolding decode_varint_loop
decode_varint bytes (negsuc n) = err value_error
decode_varint bytes (pos offset) = decode_varint_loop max_varint_bytes bytes offset 0 0

-- `0 <= value <= bound`
unfoldable pub fits : ℤ → ℕ → Bool
fits (negsuc n) bound = false
fits (pos n) bound = leb n bound

unfoldable pub unsigned : ℤ → ℕ
unsigned (pos n) = n
unsigned (negsuc n) = 0

unfoldable pub encode_frame : ℤ → Bytes → ℤ → ℕ → Result Bytes
unfolding fits unsigned
encode_frame command payload flag max_body_size = do
  ensure (fits command 0xffff) value_error
  ensure (fits flag 0xff) value_error
  let body = unsigned flag ∷ (to_bytes 2 (unsigned command) ++ payload)
  ensure (leb (length body) max_body_size) frame_too_large_error
  size ← encode_varint (pos (length body))
  ok (magic ++ (size ++ body))

-- `data.startswith(prefix)`
unfoldable pub starts_with : Bytes → Bytes → Bool
starts_with bytes [] = true
starts_with [] (p ∷ prefix) = false
starts_with (b ∷ bytes) (p ∷ prefix) = b == p && starts_with bytes prefix

-- `body[0]`, `body[1:3]` and `body[3:]`, for a body of three bytes at least.
unfoldable pub parse_body : Bytes → GizwitsFrame
parse_body body = record {
  command = from_bytes (slice body 1 2);
  payload = drop 3 body;
  flag = get_or body 0 0;
}

unfoldable pub decode_frame : Bytes → ℕ → Result GizwitsFrame
unfolding starts_with parse_body
decode_frame bytes max_body_size = do
  ensure (starts_with bytes magic) protocol_decode_error
  (body_size, varint_size) ← decode_varint bytes (pos (length magic))
  ensure (leb min_frame_body_size body_size) protocol_decode_error
  ensure (leb body_size max_body_size) frame_too_large_error
  let body_start = length magic + varint_size
  let body_end = body_start + body_size
  ensure (leb body_end (length bytes)) incomplete_frame_error
  ensure (leb (length bytes) body_end) protocol_decode_error
  ok (parse_body (slice bytes body_start body_size))
