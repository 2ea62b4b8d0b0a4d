-- ===== src/Protocol/Discovery/Answers.antt =====
-- What protocol/discovery.py reads in an answer.
use jebao_flow_engine.Base.{
  ℕ, zero, suc, ◌<◌, ◌≡◌, refl, sym, ◌∙◌, true, false, some, [], ◌∷◌, ◌++◌, String, str_eq, length,
  arith, All, length-append, take-append_length, drop-append_length,
}
use jebao_flow_engine.Base.Action.{continue}
use jebao_flow_engine.Base.Bytes.{Bytes, to_bytes, from_bytes-to_bytes, length-to_bytes}
use jebao_flow_engine.Base.Int.{pos}
use jebao_flow_engine.Base.Result.{ok}
use jebao_flow_engine.Protocol.Discovery.{
  Spelling, decode_ascii, is_ascii, or_none, parse_discovery_response, parse_frame, read_ascii,
  read_c_string, read_device, read_exactly, read_length_prefixed, remaining, split_zero, until_zero,
}
use jebao_flow_engine.Protocol.Codec.{
  command_code, default_max_frame_body_size, discover_response, encode_frame, unsigned,
}
use jebao_flow_engine.Protocol.Codec.Frame.{decode_frame-encode_frame}
use jebao_flow_engine.Protocol.Models.{DiscoveredDevice}

read_exactly-append :
    (xs rest : Bytes) (size : ℕ) → length xs ≡ size → read_exactly size (xs ++ rest) ≡ (ok xs, rest)
unfolding read_exactly
read_exactly-append xs rest size h =
    rw (sym h) (
      ground (arith, length-append xs rest, take-append_length xs rest, drop-append_length xs rest))

-- The bytes of a field behind their length.
abbrev pub prefixed : Bytes → Bytes → Bytes
prefixed raw rest = to_bytes 2 (length raw) ++ (raw ++ rest)

split_zero-append :
    (raw rest : Bytes) → All (λ b. 0 < b) raw → split_zero (raw ++ (0 ∷ rest)) ≡ some (raw, rest)
unfolding split_zero
split_zero-append [] rest h = refl
split_zero-append (zero ∷ raw) rest h = absurd (omega (arith, h.0))
split_zero-append (suc b ∷ raw) rest h = rw (split_zero-append raw rest h.1) refl

read_length_prefixed-prefixed :
    (raw rest : Bytes)
    → length raw < 65536
    → read_length_prefixed (prefixed raw rest) ≡ (ok raw, rest)
unfolding read_length_prefixed
read_length_prefixed-prefixed raw rest short =
    rw
      (
        read_exactly-append (to_bytes 2 (length raw)) (raw ++ rest) 2
            (length-to_bytes 2 (length raw)),
        continue,
        from_bytes-to_bytes 2 (length raw) short,
      )
      (read_exactly-append raw rest (length raw) refl)

-- The fields of an answer.
pub record Answer : Type 0 where
  pub device_id : Bytes
  pub mac : Bytes
  pub wifi_firmware : Bytes
  pub product_key : Bytes
  pub mcu_attributes : Bytes
  pub api_server : Bytes
  pub gizwits_version : Bytes
  pub extra : Bytes

unfoldable pub payload_of : Answer → Bytes
payload_of a = prefixed a.device_id (
    prefixed a.mac (
      prefixed a.wifi_firmware (
        prefixed a.product_key
          (a.mcu_attributes ++ (a.api_server ++ (0 ∷ (a.gizwits_version ++ (0 ∷ a.extra))))))))

-- A text of at most 65535 ASCII characters, and one without a 0.
abbrev pub IsField : Bytes → Type 0
IsField raw = (length raw < 65536) × (is_ascii raw ≡ true)

abbrev pub IsCString : Bytes → Type 0
IsCString raw = All (λ b. 0 < b) raw × (is_ascii raw ≡ true)

module _ (spelling : Spelling) where
  decode_ascii-ok :
      (raw rest : Bytes)
      → is_ascii raw ≡ true
      → decode_ascii spelling raw rest ≡ (ok (spelling.ascii raw), rest)
  unfolding decode_ascii
  decode_ascii-ok raw rest h = rw h refl

  read_ascii-prefixed :
      (raw rest : Bytes)
      → IsField raw
      → read_ascii spelling (prefixed raw rest) ≡ (ok (spelling.ascii raw), rest)
  unfolding read_ascii
  read_ascii-prefixed raw rest (short, h) =
      rw (read_length_prefixed-prefixed raw rest short, continue) (decode_ascii-ok raw rest h)

  until_zero-append :
      (raw rest : Bytes) → All (λ b. 0 < b) raw → until_zero (raw ++ (0 ∷ rest)) ≡ (ok raw, rest)
  unfolding until_zero
  until_zero-append raw rest nonzero = rw (until_zero, split_zero-append raw rest nonzero) refl

  read_c_string-append :
      (raw rest : Bytes)
      → IsCString raw
      → read_c_string spelling (raw ++ (0 ∷ rest)) ≡ (ok (spelling.ascii raw), rest)
  unfolding read_c_string
  read_c_string-append raw rest (nonzero, h) =
      rw (until_zero-append raw rest nonzero, continue) (decode_ascii-ok raw rest h)

  pub record IsAnswer (a : Answer) : Type 0 where
    pub device_id : IsField a.device_id
    pub named : str_eq (spelling.ascii a.device_id) "" ≡ false
    pub mac : length a.mac < 65536
    pub wifi_firmware : IsField a.wifi_firmware
    pub product_key : IsField a.product_key
    pub mcu_attributes : length a.mcu_attributes ≡ 8
    pub api_server : IsCString a.api_server
    pub gizwits_version : IsCString a.gizwits_version

  abbrev pub device_of : String → Answer → DiscoveredDevice
  device_of address a = record {
    address = address;
    device_id = spelling.ascii a.device_id;
    mac_address = some (spelling.colon_hex a.mac);
    product_key = or_none (spelling.ascii a.product_key);
    model = "unknown";
    wifi_firmware_version = or_none (spelling.ascii a.wifi_firmware);
    api_server = or_none (spelling.ascii a.api_server);
    gizwits_version = or_none (spelling.ascii a.gizwits_version);
    mcu_attributes_hex = spelling.hex a.mcu_attributes;
    extra_hex = spelling.hex a.extra;
  }

  read_device-payload_of :
      (address : String) (a : Answer)
      → IsAnswer a
      → (read_device spelling address (payload_of a)).0 ≡ ok (device_of address a)
  unfolding read_device payload_of remaining
  read_device-payload_of address a h =
      let ending = a.gizwits_version ++ (0 ∷ a.extra) in
      let strings = a.api_server ++ (0 ∷ ending) in
      let tail = a.mcu_attributes ++ strings in
      rw
        (
          read_ascii-prefixed a.device_id
              (prefixed a.mac (prefixed a.wifi_firmware (prefixed a.product_key tail))) h.device_id,
          continue,
          h.named,
          read_length_prefixed-prefixed a.mac
              (prefixed a.wifi_firmware (prefixed a.product_key tail)) h.mac,
          read_ascii-prefixed a.wifi_firmware (prefixed a.product_key tail) h.wifi_firmware,
          read_ascii-prefixed a.product_key tail h.product_key,
          read_exactly-append a.mcu_attributes strings 8 h.mcu_attributes,
          read_c_string-append a.api_server ending h.api_server,
          read_c_string-append a.gizwits_version a.extra h.gizwits_version,
        )
        refl

  parse_frame-ok :
      (address : String) (payload : Bytes) (flag : ℕ)
      → parse_frame spelling address (ok (record { command = 4; payload = payload; flag = flag }))
        ≡ (read_device spelling address payload).0
  unfolding parse_frame command_code
  parse_frame-ok address payload flag = refl

  -- An answer that a device sends as a frame parses: the fields that `parse_discovery_response` returns are the device's,
  -- where an empty text becomes None.
  pub parse_discovery_response-payload_of :
      (address : String) (a : Answer) (wire : Bytes)
      → IsAnswer a
      → encode_frame
          (pos (command_code discover_response))
          (payload_of a)
          (pos 0)
          default_max_frame_body_size
        ≡ ok wire
      → parse_discovery_response spelling address wire ≡ ok (device_of address a)
  unfolding parse_discovery_response unsigned command_code
  parse_discovery_response-payload_of address a wire h encoded =
      let decoded =
        decode_frame-encode_frame (pos (command_code discover_response)) (payload_of a) (pos 0)
          default_max_frame_body_size wire encoded in
      rw decoded (parse_frame-ok address (payload_of a) 0 ∙ read_device-payload_of address a h)
