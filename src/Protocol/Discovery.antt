-- ===== src/Protocol/Discovery.antt =====
-- protocol/discovery.py: the answers of devices to a discovery broadcast. A cursor is the list of the
-- bytes that it has not read yet.
pub mod Answers
pub mod Errors
use jebao_flow_engine.Base.{
  ℕ, zero, suc, Bool, true, false, not, ◌&&◌, ◌||◌, Option, none, some, List, [], ◌∷◌, String,
  str_eq, all, leb, ltb, ◌==◌, length, take, drop, if◌then◌else◌, map,
}
use jebao_flow_engine.Base.Action.{Action, ◌>>=◌, ◌>>◌, lift, check}
use jebao_flow_engine.Base.Bytes.{Bytes, from_bytes}
use jebao_flow_engine.Base.Result.{Result, Error, ok, err, is_decode_error, protocol_decode_error}
use jebao_flow_engine.Protocol.Codec.{
  GizwitsFrame, command_code, decode_frame, default_max_frame_body_size, discover_response,
}
use jebao_flow_engine.Protocol.Models.{DiscoveredDevice}
use Prim.Native.String.{compare}
use text.Mathlib.Text.{is_lt}

-- `raw.decode("ascii")` of bytes below 128, `raw.hex()` and `raw.hex(":")`
pub record Spelling : Type 0 where
  pub ascii : Bytes → String
  pub hex : Bytes → String
  pub colon_hex : Bytes → String

unfoldable pub read_exactly : ℕ → Action Bytes Bytes
read_exactly size rest =
    if leb size (length rest)
    then (ok (take size rest), drop size rest)
    else (err protocol_decode_error, rest)

unfoldable pub read_length_prefixed : Action Bytes Bytes
unfolding read_exactly
read_length_prefixed = do size ← read_exactly 2; read_exactly (from_bytes size)

-- The bytes before the first 0, and those behind it.
unfoldable pub split_zero : Bytes → Option (Bytes × Bytes)
split_zero [] = none
split_zero (zero ∷ bytes) = some ([], bytes)
split_zero (suc b ∷ bytes) = elim (split_zero bytes) [
  | none ↦ none
  | some parts ↦ some (suc b ∷ parts.0, parts.1)
]

unfoldable pub until_zero : Action Bytes Bytes
unfolding split_zero
until_zero rest = elim (split_zero rest) [
  | none ↦ (err protocol_decode_error, rest)
  | some parts ↦ (ok parts.0, parts.1)
]

unfoldable pub remaining : Action Bytes Bytes
remaining rest = (ok rest, [])

-- `text or None`
abbrev pub or_none : String → Option String
or_none text = if str_eq text "" then none else some text

unfoldable pub is_ascii : Bytes → Bool
is_ascii raw = all (λ b. ltb b 128) raw

module _ (spelling : Spelling) where
  unfoldable pub decode_ascii : Bytes → Action Bytes String
  unfolding is_ascii
  decode_ascii raw = do check (is_ascii raw) protocol_decode_error; lift (ok (spelling.ascii raw))

  unfoldable pub read_ascii : Action Bytes String
  unfolding read_length_prefixed decode_ascii
  read_ascii = do raw ← read_length_prefixed; decode_ascii raw

  unfoldable pub read_c_string : Action Bytes String
  unfolding until_zero decode_ascii
  read_c_string = do raw ← until_zero; decode_ascii raw

  -- The part of `parse_discovery_response` that reads the payload.
  unfoldable pub read_device : String → Action Bytes DiscoveredDevice
  unfolding read_ascii read_c_string remaining
  read_device address = do
    device_id ← read_ascii
    check (not (str_eq device_id "")) protocol_decode_error
    mac ← read_length_prefixed
    wifi_firmware ← read_ascii
    product_key ← read_ascii
    mcu_attributes ← read_exactly 8
    api_server ← read_c_string
    gizwits_version ← read_c_string
    extra ← remaining
    lift (
        ok (record {
          address = address;
          device_id = device_id;
          mac_address = some (spelling.colon_hex mac);
          product_key = or_none product_key;
          model = "unknown";
          wifi_firmware_version = or_none wifi_firmware;
          api_server = or_none api_server;
          gizwits_version = or_none gizwits_version;
          mcu_attributes_hex = spelling.hex mcu_attributes;
          extra_hex = spelling.hex extra;
        }))

  unfoldable pub parse_frame : String → Result GizwitsFrame → Result DiscoveredDevice
  unfolding read_device
  parse_frame address (err raised) = err raised
  parse_frame address (ok frame) =
      if frame.command == command_code discover_response
      then (read_device address frame.payload).0
      else err protocol_decode_error

  unfoldable pub parse_discovery_response : String → Bytes → Result DiscoveredDevice
  unfolding parse_frame
  parse_discovery_response address datagram =
      parse_frame address (decode_frame datagram default_max_frame_body_size)

  -- `self.devices[(device.device_id, device.address)] = device`
  unfoldable pub put_device : DiscoveredDevice → List DiscoveredDevice → List DiscoveredDevice
  put_device device [] = device ∷ []
  put_device device (d ∷ devices) =
      if str_eq d.device_id device.device_id && str_eq d.address device.address
      then device ∷ devices
      else d ∷ put_device device devices

  -- An answer that does not parse is ignored; another exception would leave the callback.
  unfoldable pub receive_parsed :
      Result DiscoveredDevice → List DiscoveredDevice → Result (List DiscoveredDevice)
  unfolding put_device
  receive_parsed (ok device) devices = ok (put_device device devices)
  receive_parsed (err raised) devices = if is_decode_error raised then ok devices else err raised

  unfoldable pub datagram_received :
      Bytes → String → List DiscoveredDevice → Result (List DiscoveredDevice)
  unfolding parse_discovery_response receive_parsed
  datagram_received datagram address devices =
      receive_parsed (parse_discovery_response address datagram) devices

  -- `sorted(devices, key=lambda device: (device.address, device.device_id))`
  unfoldable pub comes_before : DiscoveredDevice → DiscoveredDevice → Bool
  comes_before d e =
      is_lt (compare d.address e.address)
      || str_eq d.address e.address && is_lt (compare d.device_id e.device_id)

  unfoldable pub insert_device : DiscoveredDevice → List DiscoveredDevice → List DiscoveredDevice
  unfolding comes_before
  insert_device d [] = d ∷ []
  insert_device d (e ∷ devices) =
      if comes_before e d then e ∷ insert_device d devices else d ∷ e ∷ devices

  unfoldable pub sorted : List DiscoveredDevice → List DiscoveredDevice
  unfolding insert_device
  sorted [] = []
  sorted (d ∷ devices) = insert_device d (sorted devices)

  unfoldable pub receive_all :
      List (Bytes × String) → List DiscoveredDevice → Result (List DiscoveredDevice)
  unfolding datagram_received
  receive_all [] devices = ok devices
  receive_all ((datagram, address) ∷ datagrams) devices =
      elim (datagram_received datagram address devices) [
        | err raised ↦ err raised
        | ok updated ↦ receive_all datagrams updated
      ]

  -- What `discover` makes of the datagrams that arrive before its timeout.
  unfoldable pub discovered : List (Bytes × String) → Result (List DiscoveredDevice)
  unfolding receive_all sorted
  discovered datagrams = elim (receive_all datagrams []) [
    | err raised ↦ err raised
    | ok devices ↦ ok (sorted devices)
  ]
