-- ===== src/Protocol/Session.antt =====
-- protocol/session.py: an authenticated session over one TCP connection. A connection is the list of
-- the bytes that the peer sends before it closes it.
pub mod Answers
pub mod Frames
pub mod Control
use jebao_flow_engine.Base.{
  ℕ, zero, suc, ◌+◌, ◌%◌, ◌^◌, Bool, true, false, not, ◌&&◌, ◌||◌, Option, none, some, List, [],
  ◌∷◌, ◌++◌, any, leb, ◌==◌, if◌then◌else◌, length, take, drop, get_or, is_some,
}
use jebao_flow_engine.Base.Action.{Action, ◌>>=◌, ◌>>◌, lift, check, gets, modify}
use jebao_flow_engine.Base.Bytes.{Bytes, from_bytes, to_bytes}
use jebao_flow_engine.Base.Int.{pos}
use jebao_flow_engine.Base.Result.{
  Result, ok, err, value_error, protocol_connection_error, protocol_timeout_error,
  unexpected_response_error, authentication_error,
}
use jebao_flow_engine.Protocol.Codec.{
  GizwitsCommand, GizwitsFrame, command_code, encode_frame, default_max_frame_body_size,
  passcode_request, passcode_response, login_request, login_response, heartbeat_request,
  heartbeat_response, serial_transmit_request, serial_transmit_response, serial_control_request,
  serial_control_response,
}
use jebao_flow_engine.Protocol.Codec.Reader.{read_frame}
use Answers.{passcode_of, is_login_accepted, login_payload, status_of, is_control, acknowledged}

abbrev pub read_state_action : ℕ
read_state_action = 0x02

-- What `asyncio.open_connection` does: it opens a connection on which the peer sends some bytes, it raises
-- `TimeoutError`, or it raises `OSError`.
pub data Opening : Type 0 where
  opened : Bytes → Opening
  timed_out refused : Opening

-- `incoming` is the reader and the writer, which are set together; `sent` are the bytes written so far, and
-- `openings` what the next calls of `open_connection` do.
pub record Session : Type 0 where
  pub max_skipped_frames : ℕ
  pub incoming : Option Bytes
  pub is_closing : Bool
  pub sequence : ℕ
  pub is_authenticated : Bool
  pub sent : Bytes
  pub openings : List Opening

unfoldable pub connected : Session → Bool
connected s = is_some s.incoming && not s.is_closing

unfoldable pub authenticated : Session → Bool
unfolding connected
authenticated s = connected s && s.is_authenticated

unfoldable pub open_connection : List Opening → Action Session (Unit {0})
open_connection [] s = (err protocol_connection_error, s)
open_connection (timed_out ∷ rest) s = (err protocol_timeout_error, record s { openings = rest })
open_connection (refused ∷ rest) s = (err protocol_connection_error, record s { openings = rest })
open_connection (opened bytes ∷ rest) s = (
  ok tt,
  record s { incoming = some bytes; is_closing = false; is_authenticated = false; openings = rest },
)

unfoldable pub connect : Action Session (Unit {0})
unfolding connected open_connection
connect s = if connected s then (ok tt, s) else open_connection s.openings s

unfoldable pub disconnect : Action Session (Unit {0})
disconnect s = (ok tt, record s { incoming = none; is_closing = false; is_authenticated = false })

unfoldable pub require_connection : Action Session (Unit {0})
unfolding connected
require_connection s = check (connected s) protocol_connection_error s

unfoldable pub require_authenticated : Action Session (Unit {0})
unfolding require_connection
require_authenticated = do
  require_connection
  is_authenticated ← gets (λ (s : Session). s.is_authenticated)
  check is_authenticated authentication_error

-- `writer.write(data)`
unfoldable pub write : Bytes → Action Session (Unit {0})
write bytes = modify (λ s. record s { sent = s.sent ++ bytes })

-- `await read_frame(reader)`
unfoldable pub receive : Action Session GizwitsFrame
receive s = elim s.incoming [
  | none ↦ (err protocol_connection_error, s)
  | some bytes ↦
      let (frame, rest) = read_frame default_max_frame_body_size bytes in
      (frame, record s { incoming = some rest })
]

-- `frame.command in expected_values`
unfoldable pub is_expected : List ℕ → GizwitsFrame → Bool
is_expected expected frame = any (λ command. frame.command == command) expected

-- The `for` loop, with `rounds` rounds left, and the error behind it.
unfoldable pub await_frame : ℕ → List ℕ → Action Session GizwitsFrame
unfolding receive is_expected
await_frame zero expected = lift (err unexpected_response_error)
await_frame (suc rounds) expected = receive >>= λ frame. elim (is_expected expected frame) [
  | true ↦ lift (ok frame)
  | false ↦ await_frame rounds expected
]

unfoldable pub exchange : GizwitsCommand → Bytes → List ℕ → Action Session GizwitsFrame
unfolding require_connection write await_frame
exchange command payload expected = do
  require_connection
  wire ←
      lift (encode_frame (pos (command_code command)) payload (pos 0) default_max_frame_body_size)
  write wire
  max_skipped_frames ← gets (λ (s : Session). s.max_skipped_frames)
  await_frame (max_skipped_frames + 1) expected

unfoldable pub authenticate : Action Session Bytes
unfolding exchange passcode_of is_login_accepted login_payload
authenticate = do
  answer ← exchange passcode_request [] (command_code passcode_response ∷ [])
  passcode ← lift (passcode_of answer)
  login ← exchange login_request (login_payload passcode) (command_code login_response ∷ [])
  check (is_login_accepted login) authentication_error
  modify (λ s. record s { is_authenticated = true })
  lift (ok passcode)

unfoldable pub heartbeat : Action Session (Unit {0})
unfolding require_authenticated exchange
heartbeat = do
  require_authenticated
  answer ← exchange heartbeat_request [] (command_code heartbeat_response ∷ [])
  lift (ok tt)

unfoldable pub read_raw_state : Action Session Bytes
unfolding require_authenticated exchange status_of
read_raw_state = do
  require_authenticated
  answer ←
      exchange serial_transmit_request (read_state_action ∷ [])
        (command_code serial_transmit_response ∷ [])
  lift (status_of answer)

unfoldable pub next_sequence : Session → Session
next_sequence s = record s { sequence = (s.sequence + 1) % 2 ^ 32 }

unfoldable pub send_raw_control : Bytes → Action Session Bytes
unfolding require_authenticated exchange next_sequence is_control acknowledged
send_raw_control control_payload = do
  require_authenticated
  check (is_control control_payload) value_error
  modify next_sequence
  sequence ← gets (λ (s : Session). s.sequence)
  answer ←
      exchange serial_control_request (to_bytes 4 sequence ++ control_payload)
        (command_code serial_control_response ∷ [])
  lift (acknowledged sequence answer)
