-- ===== src/Runs/Session.antt =====
-- Exchanges of a session, and answers to a discovery, at concrete bytes.
use jebao_flow_engine.Base.{
  ℕ, ◌+◌, ◌%◌, ◌^◌, ◌≡◌, refl, true, false, some, List, [], ◌∷◌, ◌++◌, arith, length, ◌⊎◌, All,
}
use jebao_flow_engine.Base.Bytes.{Bytes, to_bytes, from_bytes}
use jebao_flow_engine.Base.Int.{pos}
use jebao_flow_engine.Base.Result.{Error, ok, err, unexpected_response_error}
use jebao_flow_engine.Protocol.Codec.{
  command_code, decode_frame, default_max_frame_body_size, discover_response, encode_frame,
  encode_varint, decode_varint, heartbeat_request, serial_control_request,
}
use jebao_flow_engine.Protocol.Codec.Reader.{read_frame, read_exactly, read_length}
use jebao_flow_engine.Protocol.Discovery.{
  Spelling, parse_discovery_response, datagram_received, put_device, is_ascii,
}
use jebao_flow_engine.Protocol.Discovery.Answers.{
  Answer, IsAnswer, device_of, parse_discovery_response-payload_of, payload_of,
}
use jebao_flow_engine.Protocol.Discovery.Errors.{datagram_received-ok}
use jebao_flow_engine.Protocol.Models.{DiscoveredDevice}
use jebao_flow_engine.Protocol.Session.{
  Session, authenticate, authenticated, exchange, is_expected, send_raw_control,
}
use jebao_flow_engine.Protocol.Session.Answers.{is_control}
use jebao_flow_engine.Protocol.Session.Control.{
  HasLoggedIn, IsRequest, authenticate-HasLoggedIn, sent-send_raw_control,
}
use jebao_flow_engine.Protocol.Session.Frames.{
  IsBusy, IsSkipped, IsWire, answered, exchange-exhausted, exchange-found, stream_of,
}

-- A frame with flag 0 of a command below 256 and a short payload.
abbrev frame_of : ℕ → Bytes → Bytes
frame_of code payload = 0 ∷ 0 ∷ 0 ∷ 3 ∷ (3 + length payload) ∷ 0 ∷ 0 ∷ code ∷ payload

abbrev report : Bytes
report = frame_of 0x91 (4 ∷ [])

abbrev beat : Bytes
beat = frame_of 0x16 []

abbrev session_with : Bytes → Session
session_with bytes = record {
  max_skipped_frames = 1;
  incoming = some bytes;
  is_closing = false;
  sequence = 7;
  is_authenticated = true;
  sent = [];
  openings = [];
}

report_frame : IsWire report (record { command = 0x91; payload = 4 ∷ []; flag = 0 })
unfolding decode_frame decode_varint from_bytes
report_frame = refl

beat_frame : IsWire beat (record { command = 0x16; payload = []; flag = 0 })
unfolding decode_frame decode_varint from_bytes
beat_frame = refl

unexpected : is_expected (0x16 ∷ []) (record { command = 0x91; payload = 4 ∷ []; flag = 0 }) ≡ false
unfolding is_expected
unexpected = refl

expected : is_expected (0x16 ∷ []) (record { command = 0x16; payload = []; flag = 0 }) ≡ true
unfolding is_expected
expected = refl

early_report : IsSkipped (0x16 ∷ []) report
early_report = (record { command = 0x91; payload = 4 ∷ []; flag = 0 }, report_frame, unexpected)

encodes_beat :
    encode_frame (pos (command_code heartbeat_request)) [] (pos 0) default_max_frame_body_size
    ≡ ok (frame_of 0x15 [])
unfolding encode_frame to_bytes encode_varint command_code
encodes_beat = refl

busy :
    (wires : List Bytes) (rest : Bytes)
    → All (IsSkipped (0x16 ∷ [])) wires
    → IsBusy
        (session_with (stream_of wires rest))
        heartbeat_request
        []
        (0x16 ∷ [])
        (frame_of 0x15 [])
        wires
        rest
busy wires rest skipped = record {
  is_open = refl;
  holds = refl;
  skipped = skipped;
  encodes = encodes_beat;
}

exchange-found_example :
    exchange heartbeat_request []
      (0x16 ∷ [])
      (session_with (stream_of (report ∷ []) (beat ++ (9 ∷ []))))
    ≡ (
      ok (record { command = 0x16; payload = []; flag = 0 }),
      answered
          (session_with (stream_of (report ∷ []) (beat ++ (9 ∷ []))))
          (frame_of 0x15 [])
          (9 ∷ []),
    )
exchange-found_example =
    exchange-found (session_with (stream_of (report ∷ []) (beat ++ (9 ∷ [])))) heartbeat_request []
      (0x16 ∷ []) (frame_of 0x15 []) (report ∷ []) beat (9 ∷ [])
      (record { command = 0x16; payload = []; flag = 0 })
      (busy (report ∷ []) (beat ++ (9 ∷ [])) (early_report, tt)) (omega arith) beat_frame expected

exchange-exhausted_example :
    exchange heartbeat_request [] (0x16 ∷ []) (session_with (stream_of (report ∷ report ∷ []) beat))
    ≡ (
      err unexpected_response_error,
      answered (session_with (stream_of (report ∷ report ∷ []) beat)) (frame_of 0x15 []) beat,
    )
exchange-exhausted_example =
    exchange-exhausted (session_with (stream_of (report ∷ report ∷ []) beat)) heartbeat_request []
      (0x16 ∷ []) (frame_of 0x15 []) (report ∷ report ∷ []) beat
      (busy (report ∷ report ∷ []) beat (early_report, (early_report, tt))) refl

-- A session whose peer acknowledges the next control request.
abbrev acknowledging : Session
acknowledging = session_with (frame_of 0x94 (0 ∷ 0 ∷ 0 ∷ 8 ∷ []))

sent-send_raw_control_example :
    ((send_raw_control (1 ∷ 0 ∷ []) acknowledging).1.sent ≡ [])
    ⊎ ((authenticated acknowledging ≡ true)
        × (is_control (1 ∷ 0 ∷ []) ≡ true)
        × ((request : Bytes) × IsRequest serial_control_request
              (to_bytes 4 ((7 + 1) % 2 ^ 32) ++ (1 ∷ 0 ∷ []))
              request
            × ((send_raw_control (1 ∷ 0 ∷ []) acknowledging).1.sent ≡ [] ++ request)))
sent-send_raw_control_example = sent-send_raw_control (1 ∷ 0 ∷ []) acknowledging

-- A session whose peer tells the passcode 65 66 and accepts it.
abbrev asking : Session
asking = session_with (frame_of 0x07 (0 ∷ 2 ∷ 65 ∷ 66 ∷ []) ++ frame_of 0x09 (0 ∷ []))

unfoldable logged_in : Session
unfolding authenticate
logged_in = (authenticate asking).1

logs_in : authenticate asking ≡ (ok (65 ∷ 66 ∷ []), logged_in)
unfolding authenticate logged_in encode_frame to_bytes encode_varint command_code from_bytes
    read_frame decode_frame decode_varint read_exactly read_length
logs_in = refl

authenticate-HasLoggedIn_example : HasLoggedIn asking logged_in (65 ∷ 66 ∷ [])
authenticate-HasLoggedIn_example = authenticate-HasLoggedIn asking logged_in (65 ∷ 66 ∷ []) logs_in

-- A spelling that is enough for a run.
abbrev spelling : Spelling
spelling = record {
  ascii = λ bytes. elim bytes [ [] ↦ "" | b ∷ bs ↦ "text" ];
  hex = λ bytes. "hex";
  colon_hex = λ bytes. "hex";
}

abbrev answer : Answer
answer = record {
  device_id = 65 ∷ [];
  mac = 1 ∷ 2 ∷ [];
  wifi_firmware = [];
  product_key = 66 ∷ [];
  mcu_attributes = 0 ∷ 0 ∷ 0 ∷ 0 ∷ 0 ∷ 0 ∷ 0 ∷ 0 ∷ [];
  api_server = 67 ∷ [];
  gizwits_version = [];
  extra = 5 ∷ [];
}

answer-IsAnswer : IsAnswer spelling answer
unfolding is_ascii
answer-IsAnswer = record {
  device_id = (omega arith, refl);
  named = refl;
  mac = omega arith;
  wifi_firmware = (omega arith, refl);
  product_key = (omega arith, refl);
  mcu_attributes = refl;
  api_server = ((omega arith, tt), refl);
  gizwits_version = (tt, refl);
}

unfoldable answer_wire : Bytes
unfolding payload_of to_bytes
answer_wire = frame_of 0x04 (payload_of answer)

encodes_answer :
    encode_frame
      (pos (command_code discover_response))
      (payload_of answer)
      (pos 0)
      default_max_frame_body_size
    ≡ ok answer_wire
unfolding encode_frame to_bytes encode_varint command_code payload_of answer_wire
encodes_answer = refl

parse_discovery_response-payload_of_example :
    parse_discovery_response spelling "192.168.1.7" answer_wire
    ≡ ok (device_of spelling "192.168.1.7" answer)
parse_discovery_response-payload_of_example =
    parse_discovery_response-payload_of spelling "192.168.1.7" answer answer_wire answer-IsAnswer
      encodes_answer

datagram_received-ok_example :
    ((device : DiscoveredDevice) × (parse_discovery_response spelling "192.168.1.7" answer_wire
        ≡ ok device)
      × (datagram_received spelling answer_wire "192.168.1.7" []
          ≡ ok (put_device spelling device [])))
    ⊎ ((raised : Error) × (parse_discovery_response spelling "192.168.1.7" answer_wire ≡ err raised)
        × (datagram_received spelling answer_wire "192.168.1.7" [] ≡ ok []))
datagram_received-ok_example = datagram_received-ok spelling answer_wire "192.168.1.7" []
