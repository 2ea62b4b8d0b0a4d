-- ===== src/Protocol/Session/Answers.antt =====
-- The payloads of protocol/session.py: what the answers of a device have to hold.
use jebao_flow_engine.Base.{
  ℕ, Bool, not, ◌&&◌, ◌||◌, [], ◌∷◌, ◌++◌, leb, ◌==◌, length, take, drop, get_or,
}
use jebao_flow_engine.Base.Bytes.{Bytes, from_bytes, to_bytes}
use jebao_flow_engine.Base.Result.{
  Result, ok, ensure, ◌>>◌, unexpected_response_error, authentication_error,
}
use jebao_flow_engine.Protocol.Codec.{GizwitsFrame}

abbrev pub control_action : ℕ
control_action = 0x01

abbrev pub state_reply_action : ℕ
state_reply_action = 0x03

abbrev pub state_report_action : ℕ
state_report_action = 0x04

-- `payload[-1] != 0`, for a payload that is not empty
unfoldable pub last_byte : Bytes → ℕ
last_byte [] = 0
last_byte (b ∷ []) = b
last_byte (b ∷ bs) = last_byte bs

-- The passcode in the answer to a passcode request.
unfoldable pub passcode_of : GizwitsFrame → Result Bytes
passcode_of answer = do
  ensure (leb 2 (length answer.payload)) authentication_error
  let passcode_size = from_bytes (take 2 answer.payload)
  let passcode = take passcode_size (drop 2 answer.payload)
  ensure (not (length passcode == 0) && length passcode == passcode_size) authentication_error
  ok passcode

unfoldable pub is_login_accepted : GizwitsFrame → Bool
unfolding last_byte
is_login_accepted login = not (length login.payload == 0) && last_byte login.payload == 0

unfoldable pub login_payload : Bytes → Bytes
login_payload passcode = to_bytes 2 (length passcode) ++ passcode

-- The status in the answer to a read.
unfoldable pub status_of : GizwitsFrame → Result Bytes
status_of answer = do
  ensure (not (length answer.payload == 0)) unexpected_response_error
  let action = get_or answer.payload 0 0
  ensure (action == state_reply_action || action == state_report_action) unexpected_response_error
  ok (drop 1 answer.payload)

unfoldable pub is_control : Bytes → Bool
is_control control_payload =
    not (length control_payload == 0) && get_or control_payload 0 0 == control_action

-- The body of an acknowledgement, behind the sequence number that it has to repeat.
unfoldable pub acknowledged : ℕ → GizwitsFrame → Result Bytes
acknowledged sequence answer = do
  ensure (leb 4 (length answer.payload)) unexpected_response_error
  ensure (from_bytes (take 4 answer.payload) == sequence) unexpected_response_error
  ok (drop 4 answer.payload)
