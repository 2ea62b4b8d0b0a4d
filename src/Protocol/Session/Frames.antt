-- ===== src/Protocol/Session/Frames.antt =====
-- The exchanges of protocol/session.py: which frames `_exchange` skips, and what it changes.
use jebao_flow_engine.Base.{
  ℕ, zero, suc, ◌+◌, ◌≤◌, ◌≡◌, refl, ◌∙◌, ap, subst, true, false, Option, none, some, List, [], ◌∷◌,
  ◌++◌, arith, ◌⊎◌, inl, inr, Bool-cases, Option-cases, length, All, is_some,
}
use jebao_flow_engine.Base.Action.{Action, lift, continue, Keeps, >>=-Keeps}
use jebao_flow_engine.Base.Bytes.{Bytes}
use jebao_flow_engine.Base.Int.{pos}
use jebao_flow_engine.Base.Result.{
  Error, Result-cases, ok, err, unexpected_response_error, protocol_connection_error,
}
use jebao_flow_engine.Protocol.Codec.{
  GizwitsCommand, GizwitsFrame, command_code, encode_frame, decode_frame,
  default_max_frame_body_size,
}
use jebao_flow_engine.Protocol.Codec.Reader.{read_frame}
use jebao_flow_engine.Protocol.Codec.Stream.{read_frame-decode_frame}
use jebao_flow_engine.Protocol.Session.{
  Session, connected, receive, write, require_connection, is_expected, await_frame, exchange,
}

-- A frame on the wire, and one that an exchange is not waiting for.
abbrev pub IsWire : Bytes → GizwitsFrame → Type 0
IsWire wire frame = decode_frame wire default_max_frame_body_size ≡ ok frame

abbrev pub IsSkipped : List ℕ → Bytes → Type 0
IsSkipped expected wire =
    (frame : GizwitsFrame) × IsWire wire frame × (is_expected expected frame ≡ false)

-- The bytes of some frames, and of what follows them.
unfoldable pub stream_of : List Bytes → Bytes → Bytes
stream_of [] rest = rest
stream_of (wire ∷ wires) rest = wire ++ stream_of wires rest

receive_lem :
    (s : Session) (wire rest : Bytes) (frame : GizwitsFrame)
    → s.incoming ≡ some (wire ++ rest)
    → IsWire wire frame
    → receive s ≡ (ok frame, record s { incoming = some rest })
unfolding receive
receive_lem s wire rest frame incoming is_wire =
    rw (incoming, read_frame-decode_frame wire rest default_max_frame_body_size frame is_wire) refl

await_frame-found :
    (rounds : ℕ) (expected : List ℕ) (s : Session) (wires : List Bytes) (wire rest : Bytes)
    (frame : GizwitsFrame)
    → s.incoming ≡ some (stream_of wires (wire ++ rest))
    → All (IsSkipped expected) wires
    → length wires + 1 ≤ rounds
    → IsWire wire frame
    → is_expected expected frame ≡ true
    → await_frame rounds expected s ≡ (ok frame, record s { incoming = some rest })
unfolding await_frame stream_of
await_frame-found zero expected s wires wire rest frame incoming skipped few is_wire wanted =
    absurd (omega (arith, few))
await_frame-found (suc rounds) expected s [] wire rest frame incoming skipped few is_wire wanted =
    rw (receive_lem s wire rest frame incoming is_wire, continue, wanted) refl
await_frame-found (suc rounds) expected s (w ∷ wires) wire rest frame incoming skipped few is_wire
      wanted =
    let (other, other_wire, unwanted) = skipped.0 in
    rw
      (
        receive_lem s w (stream_of wires (wire ++ rest)) other incoming other_wire,
        continue,
        unwanted,
      )
      (await_frame-found rounds expected
        (record s { incoming = some (stream_of wires (wire ++ rest)) }) wires wire rest frame refl
        skipped.1 (omega (arith, few)) is_wire wanted)

await_frame-exhausted :
    (expected : List ℕ) (s : Session) (wires : List Bytes) (rest : Bytes)
    → s.incoming ≡ some (stream_of wires rest)
    → All (IsSkipped expected) wires
    → await_frame (length wires) expected s
      ≡ (err unexpected_response_error, record s { incoming = some rest })
unfolding await_frame stream_of
await_frame-exhausted expected s [] rest incoming skipped =
    ap (λ i. (err unexpected_response_error, record s { incoming = i })) incoming
await_frame-exhausted expected s (w ∷ wires) rest incoming skipped =
    let (other, other_wire, unwanted) = skipped.0 in
    rw (receive_lem s w (stream_of wires rest) other incoming other_wire, continue, unwanted)
      (await_frame-exhausted expected (record s { incoming = some (stream_of wires rest) }) wires
        rest refl skipped.1)

-- The state once a request is written and the answers up to `rest` are read.
abbrev pub answered : Session → Bytes → Bytes → Session
answered s request rest = record s { incoming = some rest; sent = s.sent ++ request }

-- A connection with a session's request and the frames that it does not wait for.
pub record IsBusy (s : Session) (command : GizwitsCommand) (payload : Bytes) (expected : List ℕ)
    (request : Bytes) (wires : List Bytes) (rest : Bytes) : Type 0 where
  pub is_open : s.is_closing ≡ false
  pub holds : s.incoming ≡ some (stream_of wires rest)
  pub skipped : All (IsSkipped expected) wires
  pub encodes :
      encode_frame (pos (command_code command)) payload (pos 0) default_max_frame_body_size
      ≡ ok request

exchange-await_frame :
    (s : Session) (command : GizwitsCommand) (payload : Bytes) (expected : List ℕ) (request : Bytes)
    (wires : List Bytes) (rest : Bytes)
    → IsBusy s command payload expected request wires rest
    → exchange command payload expected s
      ≡ await_frame (s.max_skipped_frames + 1) expected (record s { sent = s.sent ++ request })
unfolding exchange require_connection connected write
exchange-await_frame s command payload expected request wires rest b =
    rw (b.holds, b.is_open, b.encodes) refl

-- On an open connection with at most `max_skipped_frames` frames of other commands in front of an expected one,
-- `_exchange` writes the request, returns the expected frame, and leaves exactly the bytes behind it.
pub exchange-found :
    (s : Session) (command : GizwitsCommand) (payload : Bytes) (expected : List ℕ) (request : Bytes)
    (wires : List Bytes) (wire rest : Bytes) (frame : GizwitsFrame)
    → IsBusy s command payload expected request wires (wire ++ rest)
    → length wires ≤ s.max_skipped_frames
    → IsWire wire frame
    → is_expected expected frame ≡ true
    → exchange command payload expected s ≡ (ok frame, answered s request rest)
exchange-found s command payload expected request wires wire rest frame b few is_wire wanted =
    exchange-await_frame s command payload expected request wires (wire ++ rest) b
    ∙ await_frame-found (s.max_skipped_frames + 1) expected (record s { sent = s.sent ++ request })
        wires wire rest frame b.holds b.skipped (omega (arith, few)) is_wire wanted

-- After one frame more than `max_skipped_frames` of other commands `_exchange` stops reading: it raises
-- `UnexpectedResponseError`, and whatever follows stays unread.
pub exchange-exhausted :
    (s : Session) (command : GizwitsCommand) (payload : Bytes) (expected : List ℕ) (request : Bytes)
    (wires : List Bytes) (rest : Bytes)
    → IsBusy s command payload expected request wires rest
    → length wires ≡ s.max_skipped_frames + 1
    → exchange command payload expected s ≡ (err unexpected_response_error, answered s request rest)
exchange-exhausted s command payload expected request wires rest b many =
    exchange-await_frame s command payload expected request wires rest b
    ∙ subst
        (λ n.
          await_frame n expected (record s { sent = s.sent ++ request })
          ≡ (err unexpected_response_error, answered s request rest))
        many
        (await_frame-exhausted expected (record s { sent = s.sent ++ request }) wires rest b.holds
          b.skipped)

-- Two states that differ in what is left to read at most.
abbrev pub HasRead : Session → Session → Type 0
HasRead s t =
    (i : Option Bytes) × (t ≡ record s { incoming = i }) × (is_some i ≡ is_some s.incoming)

HasRead-trans : (s t u : Session) → HasRead s t → HasRead t u → HasRead s u
HasRead-trans s t u (i, e, h) (j, f, k) = (
  j,
  f ∙ ap (λ (v : Session). record v { incoming = j }) e,
  k ∙ ap (λ (v : Session). is_some v.incoming) e ∙ h,
)

receive-HasRead : Keeps HasRead receive
unfolding receive
receive-HasRead s = elim (Option-cases s.incoming) [
  | inl closed ↦ rw closed (none, refl, refl)
  | inr (bytes, present) ↦
      rw present (some (read_frame default_max_frame_body_size bytes).1, refl, refl)
]

await_frame-HasRead : (rounds : ℕ) (expected : List ℕ) → Keeps HasRead (await_frame rounds expected)
unfolding await_frame
await_frame-HasRead zero expected s = (s.incoming, refl, refl)
await_frame-HasRead (suc rounds) expected s =
    >>=-Keeps HasRead receive _ HasRead-trans receive-HasRead
      (λ frame.
        elim (is_expected expected frame)
          as (λ b. Keeps HasRead (elim b as (λ x. Action Session GizwitsFrame) [
            | true ↦ lift (ok frame)
            | false ↦ await_frame rounds expected
          ])) [
            | true ↦ λ s. (s.incoming, refl, refl)
            | false ↦ await_frame-HasRead rounds expected
          ])
      s

-- What an exchange does: it raises and changes nothing, or one frame is written and frames are read.
pub exchange_lem :
    (command : GizwitsCommand) (payload : Bytes) (expected : List ℕ) (s : Session)
    → ((e : Error) × (exchange command payload expected s ≡ (err e, s)))
      ⊎ ((request : Bytes) × (encode_frame
              (pos (command_code command))
              payload
              (pos 0)
              default_max_frame_body_size
            ≡ ok request)
          × HasRead (record s { sent = s.sent ++ request }) (exchange command payload expected s).1)
unfolding exchange require_connection write
exchange_lem command payload expected s = elim (Bool-cases (connected s)) [
  | inr apart ↦ inl (protocol_connection_error, rw apart refl)
  | inl linked ↦
      elim (Result-cases
        (encode_frame (pos (command_code command)) payload (pos 0) default_max_frame_body_size)) [
          | inr (raised, failed) ↦ inl (raised, rw (linked, failed) refl)
          | inl (request, encoded) ↦ inr (
            request,
            encoded,
            rw (linked, encoded)
                (await_frame-HasRead (s.max_skipped_frames + 1) expected
                  (record s { sent = s.sent ++ request })),
          )
        ]
]
