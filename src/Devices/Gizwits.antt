-- ===== src/Devices/Gizwits.antt =====
-- `GizwitsSession` of protocol/session.py as the session of an adapter (`session_factory` of
-- devices/lan.py), and what its calls but `send_raw_control` leave alone.
use jebao_flow_engine.Base.{
  ℕ, ◌≡◌, refl, ◌∙◌, ap, Bool, true, false, Bool-cases, inl, inr, List, [], ◌∷◌,
}
use jebao_flow_engine.Base.Action.{Keeps, >>=-Keeps, lift, check}
use jebao_flow_engine.Base.Bytes.{Bytes}
use jebao_flow_engine.Base.Result.{authentication_error}
use jebao_flow_engine.Devices.Lan.Locked.{IsKept}
use jebao_flow_engine.Devices.RawSession.{RawSession}
use jebao_flow_engine.Protocol.Codec.{
  GizwitsCommand, command_code, passcode_request, passcode_response, login_request, login_response,
  serial_transmit_request, serial_transmit_response,
}
use jebao_flow_engine.Protocol.Session.{
  Opening, Session, opened, timed_out, refused, authenticate, connect, connected, disconnect,
  exchange, open_connection, read_raw_state, read_state_action, require_authenticated,
  send_raw_control,
}
use jebao_flow_engine.Protocol.Session.Answers.{is_login_accepted, login_payload, passcode_of}
use jebao_flow_engine.Protocol.Session.Control.{require_authenticated-cases}
use jebao_flow_engine.Protocol.Session.Frames.{exchange_lem}

unfoldable pub gizwits_session : RawSession Session
unfolding connected connect disconnect authenticate read_raw_state send_raw_control
gizwits_session = record {
  connected = connected;
  connect = connect;
  disconnect = disconnect;
  authenticate = authenticate;
  read_raw_state = read_raw_state;
  send_raw_control = send_raw_control;
}

-- The sequence number counts the control requests.
abbrev SameSequence : Session → Session → Type 0
SameSequence s t = t.sequence ≡ s.sequence

SameSequence-trans : (s t u : Session) → SameSequence s t → SameSequence t u → SameSequence s u
SameSequence-trans s t u h k = k ∙ h

exchange-SameSequence :
    (command : GizwitsCommand) (payload : Bytes) (expected : List ℕ)
    → Keeps SameSequence (exchange command payload expected)
exchange-SameSequence command payload expected s = elim (exchange_lem command payload expected s) [
  | inl (e, failed) ↦ ap (λ p. p.1.sequence) failed
  | inr (request, _, (i, read, _)) ↦ ap (λ (u : Session). u.sequence) read
]

check-SameSequence : (test : Bool) → Keeps SameSequence (check test authentication_error)
check-SameSequence true s = refl
check-SameSequence false s = refl

authenticate-SameSequence : Keeps SameSequence authenticate
unfolding authenticate
authenticate-SameSequence s =
    >>=-Keeps SameSequence (exchange passcode_request [] (command_code passcode_response ∷ [])) _
      SameSequence-trans (exchange-SameSequence _ _ _)
      (λ answer.
        >>=-Keeps SameSequence (lift (passcode_of answer)) _ SameSequence-trans (λ t. refl)
          (λ passcode.
            >>=-Keeps SameSequence
              (exchange login_request (login_payload passcode) (command_code login_response ∷ [])) _
              SameSequence-trans (exchange-SameSequence _ _ _)
              (λ login.
                >>=-Keeps SameSequence (check (is_login_accepted login) authentication_error) _
                  SameSequence-trans (check-SameSequence (is_login_accepted login)) (λ u t. refl))))
      s

require_authenticated-SameSequence : Keeps SameSequence require_authenticated
require_authenticated-SameSequence s = elim (require_authenticated-cases s) [
  | inl (_, permitted) ↦ ap (λ p. p.1.sequence) permitted
  | inr (_, (e, denied)) ↦ ap (λ p. p.1.sequence) denied
]

read_raw_state-SameSequence : Keeps SameSequence read_raw_state
unfolding read_raw_state
read_raw_state-SameSequence s =
    >>=-Keeps SameSequence require_authenticated _ SameSequence-trans
      require_authenticated-SameSequence
      (λ u.
        >>=-Keeps SameSequence
          (exchange serial_transmit_request (read_state_action ∷ [])
            (command_code serial_transmit_response ∷ []))
          _ SameSequence-trans (exchange-SameSequence _ _ _) (λ answer t. refl))
      s

open_connection-SameSequence :
    (openings : List Opening) → Keeps SameSequence (open_connection openings)
unfolding open_connection
open_connection-SameSequence [] s = refl
open_connection-SameSequence (timed_out ∷ rest) s = refl
open_connection-SameSequence (refused ∷ rest) s = refl
open_connection-SameSequence (opened bytes ∷ rest) s = refl

connect-SameSequence : Keeps SameSequence connect
unfolding connect
connect-SameSequence s = elim (Bool-cases (connected s)) [
  | inl linked ↦ simp linked
  | inr apart ↦ rw apart (open_connection-SameSequence s.openings s)
]

-- All calls of a session but `send_raw_control` leave its sequence number alone, whether they raise or not.
pub gizwits_session-IsKept : (n : ℕ) → IsKept gizwits_session (λ (s : Session). s.sequence ≡ n)
unfolding gizwits_session disconnect
gizwits_session-IsKept n = record {
  by_connect = λ s h. connect-SameSequence s ∙ h;
  by_authenticate = λ s h. authenticate-SameSequence s ∙ h;
  by_disconnect = λ s h. h;
  by_read = λ s h. read_raw_state-SameSequence s ∙ h;
}
