-- ===== src/Protocol/Discovery/Errors.antt =====
-- The exceptions of protocol/discovery.py: what a datagram can make its parser raise.
use jebao_flow_engine.Base.{
  ℕ, zero, suc, ◌+◌, ◌*◌, ◌≡◌, refl, subst, Bool, true, false, not, List, String, str_eq, leb, ◌==◌,
  length, get_elem?, Bool-cases, Option-cases, inl, inr, ◌⊎◌,
}
use jebao_flow_engine.Base.Action.{Action, continue, check, ◌>>=◌}
use jebao_flow_engine.Base.Bytes.{Bytes, from_bytes}
use jebao_flow_engine.Base.Int.{pos}
use jebao_flow_engine.Base.Result.{◌>>=◌ as ◌R>>=◌}
use jebao_flow_engine.Base.Result.{
  Error, Result, ok, err, is_decode_error, ensure, protocol_decode_error, frame_too_large_error,
  incomplete_frame_error,
}
use jebao_flow_engine.Protocol.Codec.{
  GizwitsFrame, command_code, decode_frame, decode_varint, decode_varint_loop,
  default_max_frame_body_size, discover_response, starts_with, magic, min_frame_body_size,
  max_varint_bytes,
}
use jebao_flow_engine.Protocol.Discovery.{
  Spelling, datagram_received, decode_ascii, is_ascii, parse_discovery_response, parse_frame,
  read_ascii, read_c_string, read_device, read_exactly, read_length_prefixed, receive_parsed,
  remaining, split_zero, until_zero, put_device,
}
use jebao_flow_engine.Protocol.Models.{DiscoveredDevice}
use Prim.Native.Nat.{bit_and, bit_or}
use jebao_flow_engine.Base.Bits.{shl}

-- A result that is no exception but a `ProtocolDecodeError`.
abbrev IsDecoding : {A : Type 0} → Result A → Type 0
IsDecoding r = (e : Error) → r ≡ err e → is_decode_error e ≡ true

ok-IsDecoding : {A : Type 0} (a : A) → IsDecoding (ok a)
ok-IsDecoding a e h = cc

err-injective : {A : Type 0} {x y : Error} → ◌≡◌ {A = Result A} (err x) (err y) → x ≡ y
err-injective h = cc

err-IsDecoding :
    {A : Type 0} (raised : Error) → is_decode_error raised ≡ true → IsDecoding {A = A} (err raised)
err-IsDecoding raised known e h = subst (λ x. is_decode_error x ≡ true) (err-injective h) known

-- The steps of a cursor, and of its blocks.
abbrev IsReader : {A : Type 0} → Action Bytes A → Type 0
IsReader m = (rest : Bytes) → IsDecoding (m rest).0

continue-IsReader :
    {A B : Type 0} (r : Result A) (f : A → Action Bytes B) (rest : Bytes)
    → IsDecoding r
    → ((a : A) → IsReader (f a))
    → IsDecoding (continue r f rest).0
continue-IsReader (ok a) f rest hr hf = hf a rest
continue-IsReader (err e) f rest hr hf = λ x h. hr x (cc)

both :
    {A B : Type 0} (m : Action Bytes A) (f : A → Action Bytes B)
    → IsReader m
    → ((a : A) → IsReader (f a))
    → IsReader (m >>= f)
both m f hm hf rest = continue-IsReader (m rest).0 f (m rest).1 (hm rest) hf

check-IsReader : (test : Bool) → IsReader (check test protocol_decode_error)
unfolding is_decode_error
check-IsReader true rest = ok-IsDecoding tt
check-IsReader false rest = err-IsDecoding protocol_decode_error refl

read_exactly-IsReader : (size : ℕ) → IsReader (read_exactly size)
unfolding read_exactly is_decode_error
read_exactly-IsReader size rest = elim (Bool-cases (leb size (length rest))) [
  | inl enough ↦ rw enough (ok-IsDecoding _)
  | inr short ↦ rw short (err-IsDecoding protocol_decode_error refl)
]

read_length_prefixed-IsReader : IsReader read_length_prefixed
unfolding read_length_prefixed
read_length_prefixed-IsReader rest =
    both (read_exactly 2) _ (read_exactly-IsReader 2)
      (λ size. read_exactly-IsReader (from_bytes size)) rest

until_zero-IsReader : IsReader until_zero
unfolding until_zero is_decode_error
until_zero-IsReader rest = elim (Option-cases (split_zero rest)) [
  | inl missing ↦ rw (until_zero, missing) (err-IsDecoding protocol_decode_error refl)
  | inr (parts, found) ↦ rw (until_zero, found) (ok-IsDecoding parts.0)
]

module _ (spelling : Spelling) where
  decode_ascii-IsReader : (raw : Bytes) → IsReader (decode_ascii spelling raw)
  unfolding decode_ascii
  decode_ascii-IsReader raw rest =
      both (check (is_ascii raw) protocol_decode_error) _ (check-IsReader (is_ascii raw))
        (λ u s. ok-IsDecoding (spelling.ascii raw)) rest

  read_ascii-IsReader : IsReader (read_ascii spelling)
  unfolding read_ascii
  read_ascii-IsReader rest =
      both read_length_prefixed _ read_length_prefixed-IsReader decode_ascii-IsReader rest

  read_c_string-IsReader : IsReader (read_c_string spelling)
  unfolding read_c_string
  read_c_string-IsReader rest = both until_zero _ until_zero-IsReader decode_ascii-IsReader rest

  read_device-IsReader : (address : String) → IsReader (read_device spelling address)
  unfolding read_device remaining
  read_device-IsReader address rest =
      both (read_ascii spelling) _ read_ascii-IsReader
        (λ device_id.
          both (check (not (str_eq device_id "")) protocol_decode_error) _
            (check-IsReader (not (str_eq device_id "")))
            (λ u. both read_length_prefixed _ read_length_prefixed-IsReader (λ mac.
              both (read_ascii spelling) _ read_ascii-IsReader (λ wifi_firmware.
                both (read_ascii spelling) _ read_ascii-IsReader (λ product_key.
                  both (read_exactly 8) _ (read_exactly-IsReader 8) (λ mcu_attributes.
                    both (read_c_string spelling) _ read_c_string-IsReader (λ api_server.
                      both (read_c_string spelling) _ read_c_string-IsReader
                        (λ gizwits_version s. ok-IsDecoding _))))))))
        rest

decode_varint_loop-IsDecoding :
    (rounds offset index value : ℕ) (bytes : Bytes)
    → IsDecoding (decode_varint_loop rounds bytes offset index value)
unfolding decode_varint_loop is_decode_error
decode_varint_loop-IsDecoding zero offset index value bytes =
    err-IsDecoding protocol_decode_error refl
decode_varint_loop-IsDecoding (suc rounds) offset index value bytes =
    elim (Option-cases (get_elem? bytes (offset + index))) [
      | inl missing ↦ rw (decode_varint_loop, missing) (err-IsDecoding incomplete_frame_error refl)
      | inr (byte, found) ↦
          rw (decode_varint_loop, found)
            (elim (Bool-cases (bit_and byte 0x80 == 0)) [
              | inl last ↦ rw last (ok-IsDecoding _)
              | inr more ↦ rw more (
                  decode_varint_loop-IsDecoding rounds offset (index + 1)
                    (bit_or value (shl (bit_and byte 0x7f) (7 * index))) bytes)
            ])
    ]

then_IsDecoding :
    {A B : Type 0} (r : Result A) (f : A → Result B)
    → IsDecoding r
    → ((a : A) → IsDecoding (f a))
    → IsDecoding (r R>>= f)
then_IsDecoding (ok a) f hr hf = hf a
then_IsDecoding (err raised) f hr hf = λ e h. hr e (cc)

ensure-IsDecoding :
    (test : Bool) (e : Error) → is_decode_error e ≡ true → IsDecoding (ensure test e)
ensure-IsDecoding true e known = ok-IsDecoding tt
ensure-IsDecoding false e known = err-IsDecoding e known

decode_frame-IsDecoding :
    (bytes : Bytes) (max_body_size : ℕ) → IsDecoding (decode_frame bytes max_body_size)
unfolding decode_frame decode_varint is_decode_error
decode_frame-IsDecoding bytes max_body_size =
    then_IsDecoding (ensure (starts_with bytes magic) protocol_decode_error) _
      (ensure-IsDecoding _ protocol_decode_error refl)
      λ u.
        then_IsDecoding (decode_varint bytes (pos (length magic))) _
          (decode_varint_loop-IsDecoding max_varint_bytes (length magic) 0 0 bytes)
          λ v.
            then_IsDecoding (ensure (leb min_frame_body_size v.0) protocol_decode_error) _
              (ensure-IsDecoding _ protocol_decode_error refl)
              λ u.
                then_IsDecoding (ensure (leb v.0 max_body_size) frame_too_large_error) _
                  (ensure-IsDecoding _ frame_too_large_error refl)
                  λ u.
                    then_IsDecoding
                      (ensure (leb (length magic + v.1 + v.0) (length bytes))
                        incomplete_frame_error)
                      _ (ensure-IsDecoding _ incomplete_frame_error refl)
                      λ u.
                        then_IsDecoding
                          (ensure (leb (length bytes) (length magic + v.1 + v.0))
                            protocol_decode_error)
                          _ (ensure-IsDecoding _ protocol_decode_error refl) λ u. ok-IsDecoding _

module _ (spelling : Spelling) where
  parse_frame-IsDecoding :
      (address : String) (r : Result GizwitsFrame)
      → IsDecoding r
      → IsDecoding (parse_frame spelling address r)
  unfolding parse_frame is_decode_error
  parse_frame-IsDecoding address (err raised) h = λ e same. h e (cc)
  parse_frame-IsDecoding address (ok frame) h =
      elim (Bool-cases (frame.command == command_code discover_response)) [
        | inl answer ↦ rw answer (read_device-IsReader spelling address frame.payload)
        | inr other ↦ rw other (err-IsDecoding protocol_decode_error refl)
      ]

  receive_parsed-ok :
      (r : Result DiscoveredDevice) (devices : List DiscoveredDevice)
      → IsDecoding r
      → ((device : DiscoveredDevice) × (r ≡ ok device)
          × (receive_parsed spelling r devices ≡ ok (put_device spelling device devices)))
        ⊎ ((raised : Error) × (r ≡ err raised) × (receive_parsed spelling r devices ≡ ok devices))
  unfolding receive_parsed
  receive_parsed-ok (ok device) devices h = inl (device, refl, refl)
  receive_parsed-ok (err raised) devices h = inr (raised, refl, rw (h raised refl) refl)

  -- No datagram makes the receiver raise, whatever bytes it holds: one that parses puts its device among the answers, and
  -- one that does not is ignored.
  pub datagram_received-ok :
      (datagram : Bytes) (address : String) (devices : List DiscoveredDevice)
      → ((device : DiscoveredDevice) × (parse_discovery_response spelling address datagram
            ≡ ok device)
          × (datagram_received spelling datagram address devices
              ≡ ok (put_device spelling device devices)))
        ⊎ ((raised : Error) × (parse_discovery_response spelling address datagram ≡ err raised)
            × (datagram_received spelling datagram address devices ≡ ok devices))
  unfolding datagram_received parse_discovery_response
  datagram_received-ok datagram address devices =
      receive_parsed-ok (parse_discovery_response spelling address datagram) devices (
        parse_frame-IsDecoding address (decode_frame datagram default_max_frame_body_size)
          (decode_frame-IsDecoding datagram default_max_frame_body_size))
