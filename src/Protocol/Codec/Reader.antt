-- ===== src/Protocol/Codec/Reader.antt =====
-- `read_frame` of protocol/codec.py over an `asyncio.StreamReader`: the stream is the list of the
-- bytes that the peer sends before it closes the connection.
use jebao_flow_engine.Base.{
  ℕ, zero, suc, ◌==◌, Bool, true, false, [], ◌++◌, leb, if◌then◌else◌, length, take, drop, get_or,
}
use jebao_flow_engine.Base.Bytes.{Bytes}
use jebao_flow_engine.Base.Int.{pos}
use jebao_flow_engine.Base.Result.{
  Result, Error, ok, err, protocol_decode_error, frame_too_large_error, protocol_connection_error,
}
use jebao_flow_engine.Protocol.Codec.{
  magic, max_varint_bytes, min_frame_body_size, GizwitsFrame, decode_varint, decode_frame,
  starts_with,
}
use Prim.Native.Nat.{bit_and}

-- What was read before an exception stays read, so the rest of the stream comes back beside it.
abbrev pub Reader : Type 0 → Type 0
Reader A = Bytes → Result A × Bytes

abbrev pub continue : {A B : Type 0} → Result A → (A → Reader B) → Reader B
continue (ok a) f s = f a s
continue (err e) f s = (err e, s)

infixl 10 ◌>>=◌ ◌>>◌
unfoldable pub ◌>>=◌ : {A B : Type 0} → Reader A → (A → Reader B) → Reader B
◌>>=◌ m f s = let (r, s') = m s in continue r f s'

abbrev pub ◌>>◌ : {B : Type 0} → Reader (Unit {0}) → Reader B → Reader B
m >> k = m >>= λ _. k

unfoldable pub lift : {A : Type 0} → Result A → Reader A
lift r s = (r, s)

abbrev pub check : Bool → Error → Reader (Unit {0})
check true e s = (ok tt, s)
check false e s = (err e, s)

-- `IncompleteReadError`, which empties the buffer, is re-raised as `ProtocolConnectionError`.
unfoldable pub read_exactly : ℕ → Reader Bytes
read_exactly n s =
    if leb n (length s) then (ok (take n s), drop n s) else (err protocol_connection_error, [])

-- The `for` loop over at most four length bytes, and its `else`.
unfoldable pub read_length : ℕ → Bytes → Reader Bytes
unfolding read_exactly lift ◌>>=◌
read_length zero encoded_length = lift (err protocol_decode_error)
read_length (suc rounds) encoded_length = do
  byte ← read_exactly 1
  let encoded = encoded_length ++ byte
  let more = read_length rounds encoded
  if bit_and (get_or byte 0 0) 0x80 == 0 then lift (ok encoded) else more

-- `magic != MAGIC` for four bytes
unfoldable pub is_magic : Bytes → Bool
unfolding starts_with
is_magic bytes = starts_with bytes magic

unfoldable pub read_frame : ℕ → Reader GizwitsFrame
unfolding lift ◌>>=◌ is_magic
read_frame max_body_size = do
  first ← read_exactly (length magic)
  check (is_magic first) protocol_decode_error
  encoded_length ← read_length max_varint_bytes []
  (body_size, _) ← lift (decode_varint encoded_length (pos 0))
  check (leb min_frame_body_size body_size) protocol_decode_error
  check (leb body_size max_body_size) frame_too_large_error
  body ← read_exactly body_size
  lift (decode_frame (first ++ (encoded_length ++ body)) max_body_size)
