-- ===== src/Protocol/Codec/Stream.antt =====
-- `read_frame` on a stream against `decode_frame` on a whole frame.
use jebao_flow_engine.Base.{
  ℕ, zero, suc, ◌+◌, ◌*◌, ◌≡◌, refl, sym, ap, ◌∙◌, [], ◌∷◌, ◌++◌, arith, true, false, leb, leb→le,
  ◌==◌, length, length-append, drop-append_length, take-append_length, append_assoc, append-nil,
  Bool-cases, inl, inr,
}
use jebao_flow_engine.Base.Bits.{shl}
use jebao_flow_engine.Base.Bytes.{Bytes}
use jebao_flow_engine.Base.Int.{pos}
use jebao_flow_engine.Base.Result.{ok, ensure-eq-ok, >>=-eq-ok}
use jebao_flow_engine.Protocol.Codec.{
  magic, min_frame_body_size, GizwitsFrame, decode_varint, decode_frame, starts_with,
}
use jebao_flow_engine.Protocol.Codec.Varint.{scan, decode_varint-scan}
use jebao_flow_engine.Protocol.Codec.Reader.{read_exactly, read_length, read_frame}
use Prim.Native.Nat.{bit_and, bit_or}

-- The bytes of one length: the top bit is set on all but the last, and there are `rounds` at most.
data IsVarint : ℕ → Bytes → Type 0 where
  last : {rounds b : ℕ} → (bit_and b 0x80 == 0) ≡ true → IsVarint (suc rounds) (b ∷ [])
  more :
      {rounds b : ℕ} {bs : Bytes}
      → (bit_and b 0x80 == 0) ≡ false
      → IsVarint rounds bs
      → IsVarint (suc rounds) (b ∷ bs)

-- A successful scan has read such bytes, and does not depend on what follows them.
record Scanned (rounds : ℕ) (bytes : Bytes) (index value x m : ℕ) : Type 0 where
  encoded : Bytes
  rest : Bytes
  split : bytes ≡ encoded ++ rest
  shape : IsVarint rounds encoded
  count : m ≡ index + length encoded
  again : (t : Bytes) → scan rounds (encoded ++ t) index value ≡ ok (x, m)

scan-Scanned :
    (rounds : ℕ) (bytes : Bytes) (index value x m : ℕ)
    → scan rounds bytes index value ≡ ok (x, m)
    → Scanned rounds bytes index value x m
unfolding scan
scan-Scanned zero bytes index value x m h = cc
scan-Scanned (suc rounds) [] index value x m h = cc
scan-Scanned (suc rounds) (b ∷ bytes) index value x m h = elim (Bool-cases (bit_and b 0x80 == 0)) [
  | inl e ↦ record {
    encoded = b ∷ [];
    rest = bytes;
    split = refl;
    shape = last e;
    count = ground arith;
    again = λ t. ground arith;
  }
  | inr e ↦
      let r =
        scan-Scanned rounds bytes (index + 1) (bit_or value (shl (bit_and b 0x7f) (7 * index))) x m
          (ground arith) in
      record {
        encoded = b ∷ r.encoded;
        rest = r.rest;
        split = ap (λ t. b ∷ t) r.split;
        shape = more e r.shape;
        count = omega (arith, r.count);
        again = λ t. ground (arith, r.again t);
      }
]

read_length-IsVarint :
    {rounds : ℕ} {encoded : Bytes} (acc t : Bytes)
    → IsVarint rounds encoded
    → read_length rounds acc (encoded ++ t) ≡ (ok (acc ++ encoded), t)
unfolding read_length
read_length-IsVarint acc t (last e) = ground arith
read_length-IsVarint acc t (more {rounds} {b} {bs} e v) =
    ground (arith, read_length-IsVarint (acc ++ (b ∷ [])) t v, append_assoc acc (b ∷ []) bs)

read_exactly-append :
    (bytes t : Bytes) (n : ℕ) → n ≡ length bytes → read_exactly n (bytes ++ t) ≡ (ok bytes, t)
unfolding read_exactly
read_exactly-append bytes t n h =
    rw h (
      ground (arith, length-append bytes t, take-append_length bytes t, drop-append_length bytes t))

starts_with-eq :
    (bytes prefix : Bytes) → starts_with bytes prefix ≡ true → (t : Bytes) × (bytes ≡ prefix ++ t)
unfolding starts_with
starts_with-eq bytes [] h = (bytes, refl)
starts_with-eq [] (p ∷ prefix) h = cc
starts_with-eq (b ∷ bytes) (p ∷ prefix) h =
    let (t, e) = starts_with-eq bytes prefix (ground arith) in (t, ground arith)

-- The layout of a frame that `decode_frame` accepts.
record Accepted (wire : Bytes) (max_body_size : ℕ) : Type 0 where
  encoded : Bytes
  body : Bytes
  layout : wire ≡ magic ++ (encoded ++ body)
  shape : IsVarint 4 encoded
  again : (t : Bytes) → scan 4 (encoded ++ t) 0 0 ≡ ok (length body, length encoded)
  lo : leb min_frame_body_size (length body) ≡ true
  hi : leb (length body) max_body_size ≡ true

Accepted-layout :
    (bytes : Bytes) (size used max_body_size : ℕ)
    → scan 4 bytes 0 0 ≡ ok (size, used)
    → leb min_frame_body_size size ≡ true
    → leb size max_body_size ≡ true
    → length bytes ≡ used + size
    → Accepted (magic ++ bytes) max_body_size
Accepted-layout bytes size used max_body_size h lo hi total =
    let r = scan-Scanned 4 bytes 0 0 size used h in
    let n : size ≡ length r.rest =
      omega (arith, ap length r.split, length-append r.encoded r.rest, r.count) in
    let k : used ≡ length r.encoded = omega (arith, r.count) in
    record {
      encoded = r.encoded;
      body = r.rest;
      layout = ap (λ t. magic ++ t) r.split;
      shape = r.shape;
      again = λ t. r.again t ∙ cc;
      lo = rw n at lo;
      hi = rw n at hi;
    }

decode_frame-Accepted :
    (wire : Bytes) (max_body_size : ℕ) (frame : GizwitsFrame)
    → decode_frame wire max_body_size ≡ ok frame
    → Accepted wire max_body_size
unfolding decode_frame
decode_frame-Accepted wire max_body_size frame h =
    let (m, h1) = ensure-eq-ok (starts_with wire magic) _ _ h in
    let (bytes, layout) = starts_with-eq wire magic m in
    let ((size, used), d, h2) = >>=-eq-ok (decode_varint wire (pos 4)) _ h1 in
    let (lo, h3) = ensure-eq-ok (leb min_frame_body_size size) _ _ h2 in
    let (hi, h4) = ensure-eq-ok (leb size max_body_size) _ _ h3 in
    let (le, h5) = ensure-eq-ok (leb (4 + used + size) (length wire)) _ _ h4 in
    let (ge, h6) = ensure-eq-ok (leb (length wire) (4 + used + size)) _ _ h5 in
    let scanned : scan 4 bytes 0 0 ≡ ok (size, used) =
      sym (decode_varint-scan magic bytes) ∙ (rw layout at d) in
    let total : length bytes ≡ used + size =
      omega (arith, ap length layout, leb→le _ _ le, leb→le _ _ ge) in
    rw layout (Accepted-layout bytes size used max_body_size scanned lo hi total)

-- On any stream that begins with a frame that `decode_frame` accepts, `read_frame` returns the same
-- frame and leaves exactly the bytes behind it.
pub read_frame-decode_frame :
    (wire rest : Bytes) (max_body_size : ℕ) (frame : GizwitsFrame)
    → decode_frame wire max_body_size ≡ ok frame
    → read_frame max_body_size (wire ++ rest) ≡ (ok frame, rest)
unfolding read_frame starts_with
read_frame-decode_frame wire rest max_body_size frame h =
    let a = decode_frame-Accepted wire max_body_size frame h in
    let whole : decode_frame (magic ++ (a.encoded ++ a.body)) max_body_size ≡ ok frame =
      rw a.layout at h in
    let scanned : scan 4 a.encoded 0 0 ≡ ok (length a.body, length a.encoded) =
      rw (append-nil a.encoded) at (a.again []) in
    rw (a.layout, append_assoc a.encoded a.body rest)
      (simp (
        read_exactly-append magic (a.encoded ++ (a.body ++ rest)) 4 refl,
        read_length-IsVarint [] (a.body ++ rest) a.shape,
        decode_varint-scan [] a.encoded,
        scanned,
        a.lo,
        a.hi,
        read_exactly-append a.body rest (length a.body) refl,
        whole,
      ))
