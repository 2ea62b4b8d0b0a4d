-- ===== src/Protocol/Session/Control.antt =====
-- What `authenticate` and `send_raw_control` of protocol/session.py write.
use jebao_flow_engine.Base.{
  ℕ, ◌+◌, ◌%◌, ◌^◌, ◌<◌, ◌≡◌, refl, sym, ◌∙◌, ap, subst, true, false, List, [], ◌∷◌, ◌++◌, arith,
  ◌⊎◌, inl, inr, Bool-cases, length, take, drop, not, ◌&&◌, ◌==◌, leb,
}
use jebao_flow_engine.Base.Action.{continue, lift, >>=-eq-ok, check-eq-ok}
use jebao_flow_engine.Base.Bytes.{Bytes, from_bytes, to_bytes}
use jebao_flow_engine.Base.Int.{pos}
use jebao_flow_engine.Base.Result.{
  Error, Result, ok, err, ok-injective, ensure-eq-ok, protocol_connection_error,
  authentication_error,
}
use jebao_flow_engine.Protocol.Codec.{
  GizwitsCommand, GizwitsFrame, command_code, encode_frame, default_max_frame_body_size,
  passcode_request, passcode_response, login_request, login_response, serial_control_request,
  serial_control_response,
}
use jebao_flow_engine.Protocol.Session.{
  Session, connected, authenticated, require_connection, require_authenticated, exchange,
  next_sequence, send_raw_control, authenticate,
}
use jebao_flow_engine.Protocol.Session.Answers.{
  is_control, acknowledged, passcode_of, login_payload, is_login_accepted,
}
use jebao_flow_engine.Protocol.Session.Frames.{exchange_lem}

-- The bytes of a request.
abbrev pub IsRequest : GizwitsCommand → Bytes → Bytes → Type 0
IsRequest command payload request =
    encode_frame (pos (command_code command)) payload (pos 0) default_max_frame_body_size
    ≡ ok request

lift-state :
    {A B : Type 0} (r : Result A) (f : A → Result B) (s : Session)
    → (continue r (λ a. lift (f a)) s).1 ≡ s
lift-state (ok a) f s = refl
lift-state (err e) f s = refl

pub require_authenticated-cases :
    (s : Session)
    → ((authenticated s ≡ true) × (require_authenticated s ≡ (ok tt, s)))
      ⊎ ((authenticated s ≡ false) × ((e : Error) × (require_authenticated s ≡ (err e, s))))
unfolding require_authenticated require_connection authenticated
require_authenticated-cases s = elim (Bool-cases (connected s)) [
  | inr apart ↦ inr (rw apart refl, (protocol_connection_error, simp apart))
  | inl linked ↦ elim (Bool-cases s.is_authenticated) [
    | inr unknown ↦ inr (rw (linked, unknown) refl, (authentication_error, simp (linked, unknown)))
    | inl known ↦ inl (rw (linked, known) refl, simp (linked, known))
  ]
]

-- `send_raw_control` writes nothing, or exactly one control frame: then the session is authenticated, the payload is a
-- control payload, and the frame carries the next sequence number in front of it.
pub sent-send_raw_control :
    (control_payload : Bytes) (s : Session)
    → ((send_raw_control control_payload s).1.sent ≡ s.sent)
      ⊎ ((authenticated s ≡ true)
          × (is_control control_payload ≡ true)
          × ((request : Bytes) × IsRequest serial_control_request
                (to_bytes 4 ((s.sequence + 1) % 2 ^ 32) ++ control_payload)
                request
              × ((send_raw_control control_payload s).1.sent ≡ s.sent ++ request)))
unfolding send_raw_control
sent-send_raw_control control_payload s = elim (require_authenticated-cases s) [
  | inr (_, (e, denied)) ↦ inl (rw denied refl)
  | inl (known, permitted) ↦ elim (Bool-cases (is_control control_payload)) [
    | inr other ↦ inl (rw (permitted, other) refl)
    | inl control ↦
        let t : Session = next_sequence s in
        let payload = to_bytes 4 t.sequence ++ control_payload in
        let expected = command_code serial_control_response ∷ [] in
        let unchanged =
          lift-state (exchange serial_control_request payload expected t).0
            (acknowledged t.sequence) (exchange serial_control_request payload expected t).1 in
        elim (exchange_lem serial_control_request payload expected t) [
          | inl (e, idle) ↦ inl (
              rw (permitted, control)
                (ap (λ (u : Session). u.sent) (unchanged ∙ ap (λ p. p.1) idle)))
          | inr (request, encoded, (i, read, _)) ↦ inr (
            known,
            control,
            (
              request,
              encoded,
              rw (permitted, control) (ap (λ (u : Session). u.sent) (unchanged ∙ read)),
            ),
          )
        ]
  ]
]

exchange-sent :
    (command : GizwitsCommand) (payload : Bytes) (expected : List ℕ) (s t : Session)
    (answer : GizwitsFrame)
    → exchange command payload expected s ≡ (ok answer, t)
    → (request : Bytes) × IsRequest command payload request × (t.sent ≡ s.sent ++ request)
exchange-sent command payload expected s t answer done =
    elim (exchange_lem command payload expected s) [
      | inl (e, failed) ↦ cc
      | inr (request, encoded, (i, read, _)) ↦
          (request, encoded, ap (λ (u : Session). u.sent) (sym (ap (λ p. p.1) done) ∙ read))
    ]

passcode_of-not_empty :
    (answer : GizwitsFrame) (passcode : Bytes)
    → passcode_of answer ≡ ok passcode
    → 0 < length passcode
unfolding passcode_of
passcode_of-not_empty answer passcode h =
    let (_, h1) = ensure-eq-ok (leb 2 (length answer.payload)) authentication_error _ h in
    let size = from_bytes (take 2 answer.payload) in
    let found = take size (drop 2 answer.payload) in
    let (filled, h2) =
      ensure-eq-ok (not (length found == 0) && length found == size) authentication_error _ h1 in
    subst (λ (p : Bytes). 0 < length p) (ok-injective h2) (ground (arith, filled))

module _ (s t : Session) (passcode : Bytes) where
  -- What a successful `authenticate` has done.
  pub record HasLoggedIn : Type 0 where
    pub flagged : t.is_authenticated ≡ true
    pub not_empty : 0 < length passcode
    pub request : Bytes
    pub login : Bytes
    pub asked : IsRequest passcode_request [] request
    pub answered : IsRequest login_request (to_bytes 2 (length passcode) ++ passcode) login
    pub written : t.sent ≡ (s.sent ++ request) ++ login

  -- A successful `authenticate` returns a passcode that is not empty and has written two frames: the request for the
  -- passcode, and a login that carries this passcode behind its length. The session is then authenticated.
  pub authenticate-HasLoggedIn : authenticate s ≡ (ok passcode, t) → HasLoggedIn
  unfolding authenticate login_payload
  authenticate-HasLoggedIn h =
      let (answer, s1, e1, k1) =
        >>=-eq-ok (exchange passcode_request [] (command_code passcode_response ∷ [])) _ s h in
      let (found, s2, e2, k2) = >>=-eq-ok (lift (passcode_of answer)) _ s1 k1 in
      let (login, s3, e3, k3) =
        >>=-eq-ok (exchange login_request (login_payload found) (command_code login_response ∷ []))
          _ s2 k2 in
      let (accepted, k4) = check-eq-ok (is_login_accepted login) authentication_error _ s3 k3 in
      let same : found ≡ passcode = ok-injective (ap (λ p. p.0) k4) in
      let (request, asked, sent1) = exchange-sent _ _ _ s s1 answer e1 in
      let (request2, asked2, sent2) = exchange-sent _ _ _ s2 s3 login e3 in
      record {
        flagged = ap (λ p. p.1.is_authenticated) (sym k4);
        not_empty =
            subst (λ (p : Bytes). 0 < length p) same
              (passcode_of-not_empty answer found (ap (λ p. p.0) e2));
        request = request;
        login = request2;
        asked = asked;
        answered =
            subst (λ p. IsRequest login_request (to_bytes 2 (length p) ++ p) request2) same asked2;
        written =
            ap (λ p. p.1.sent) (sym k4)
            ∙ (sent2 ∙ ap (λ (b : Bytes). b ++ request2) (ap (λ p. p.1.sent) (sym e2) ∙ sent1));
      }
