-- ===== src/Protocol/Codec/Frame.antt =====
-- The frame envelope of protocol/codec.py: `decode_frame` against `encode_frame`.
use jebao_flow_engine.Base.{
  ℕ, suc, ◌+◌, ◌≤◌, ◌<◌, ◌≡◌, refl, ap, ◌∙◌, [], ◌∷◌, ◌++◌, arith, true, leb, leb→le, length,
  length-append, drop-append_length, take_all, slice,
}
use jebao_flow_engine.Base.Bytes.{Bytes, to_bytes, length-to_bytes, from_bytes-to_bytes}
use jebao_flow_engine.Base.Int.{ℤ, pos, negsuc}
use jebao_flow_engine.Base.Result.{ok, ensure-eq-ok, >>=-eq-ok}
use jebao_flow_engine.Protocol.Codec.{
  magic, encode_varint, decode_varint, fits, unsigned, encode_frame, parse_body, decode_frame,
  starts_with,
}
use jebao_flow_engine.Protocol.Codec.Varint.{decode_varint-encode_varint}

pub body_of : ℤ → Bytes → ℤ → Bytes
body_of command payload flag = unsigned flag ∷ (to_bytes 2 (unsigned command) ++ payload)

-- What a successful `encode_frame` has checked and written.
pub record Encoded (command : ℤ) (payload : Bytes) (flag : ℤ) (max_body_size : ℕ) (wire : Bytes)
    : Type 0 where
  pub size : Bytes
  pub command_fits : fits command 0xffff ≡ true
  pub flag_fits : fits flag 0xff ≡ true
  pub body_fits : length (body_of command payload flag) ≤ max_body_size
  pub size_encodes : encode_varint (pos (length (body_of command payload flag))) ≡ ok size
  pub layout : wire ≡ magic ++ (size ++ body_of command payload flag)

pub encode_frame_inversion :
    (command : ℤ) (payload : Bytes) (flag : ℤ) (max_body_size : ℕ) (wire : Bytes)
    → encode_frame command payload flag max_body_size ≡ ok wire
    → Encoded command payload flag max_body_size wire
unfolding encode_frame body_of
encode_frame_inversion command payload flag max_body_size wire h =
    let (c, h1) = ensure-eq-ok (fits command 0xffff) _ _ h in
    let (f, h2) = ensure-eq-ok (fits flag 0xff) _ _ h1 in
    let (b, h3) = ensure-eq-ok (leb (length (body_of command payload flag)) max_body_size) _ _ h2 in
    let (size, e, h4) =
      >>=-eq-ok (encode_varint (pos (length (body_of command payload flag)))) _ h3 in
    record {
      size = size;
      command_fits = c;
      flag_fits = f;
      body_fits = leb→le _ _ b;
      size_encodes = e;
      layout = cc;
    }

starts_with-append : (prefix rest : Bytes) → starts_with (prefix ++ rest) prefix ≡ true
unfolding starts_with
starts_with-append [] [] = refl
starts_with-append [] (r ∷ rest) = refl
starts_with-append (p ∷ prefix) rest = ground (arith, starts_with-append prefix rest)

slice_body :
    (size body : Bytes) → slice (magic ++ (size ++ body)) (4 + length size) (length body) ≡ body
slice_body size body =
    let start : 4 + length size ≡ suc (suc (suc (suc (length size)))) = omega arith in
    rw (start, drop-append_length size body) (take_all body (length body) (omega arith))

-- A frame laid out with a length that `decode_varint` reads as the body's is decoded.
pub decode_frame-layout :
    (size body : Bytes) (max_body_size : ℕ)
    → decode_varint (magic ++ (size ++ body)) (pos (length magic)) ≡ ok (length body, length size)
    → 3 ≤ length body
    → length body ≤ max_body_size
    → decode_frame (magic ++ (size ++ body)) max_body_size ≡ ok (parse_body body)
unfolding decode_frame
decode_frame-layout size body max_body_size d lo hi = rw d (
    ground (
      arith,
      slice_body size body,
      length-append size body,
      starts_with-append magic (size ++ body),
    ))

fits_bound : (value : ℤ) (bound : ℕ) → fits value bound ≡ true → unsigned value < suc bound
unfolding fits unsigned
fits_bound (pos n) bound h = ground arith
fits_bound (negsuc n) bound h = cc

pub length-body_of :
    (command : ℤ) (payload : Bytes) (flag : ℤ) → 3 ≤ length (body_of command payload flag)
unfolding body_of
length-body_of command payload flag = omega (
  arith,
  length-append (to_bytes 2 (unsigned command)) payload,
  length-to_bytes 2 (unsigned command),
)

parse_body_of :
    (command : ℤ) (payload : Bytes) (flag : ℤ)
    → fits command 0xffff ≡ true
    → parse_body (body_of command payload flag)
      ≡ record { command = unsigned command; payload = payload; flag = unsigned flag }
unfolding parse_body body_of to_bytes
parse_body_of command payload flag h =
    ap (λ c. record { command = c; payload = payload; flag = unsigned flag })
      (from_bytes-to_bytes 2 (unsigned command) (fits_bound command 0xffff h))

-- `decode_frame` returns the command, the payload and the flag of every frame that `encode_frame`
-- wrote under the same size limit.
pub decode_frame-encode_frame :
    (command : ℤ) (payload : Bytes) (flag : ℤ) (max_body_size : ℕ) (wire : Bytes)
    → encode_frame command payload flag max_body_size ≡ ok wire
    → decode_frame wire max_body_size
      ≡ ok (record { command = unsigned command; payload = payload; flag = unsigned flag })
decode_frame-encode_frame command payload flag max_body_size wire h =
    let e = encode_frame_inversion command payload flag max_body_size wire h in
    let body = body_of command payload flag in
    rw e.layout (
      decode_frame-layout e.size body max_body_size
        (decode_varint-encode_varint (length body) magic body e.size e.size_encodes)
        (length-body_of command payload flag) e.body_fits
      ∙ ap ok (parse_body_of command payload flag e.command_fits))
