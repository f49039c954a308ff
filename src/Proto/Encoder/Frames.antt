-- ===== src/Proto/Encoder/Frames.antt =====
-- encode_frame of proto/frame_encoder.hpp: what is on the wire.
use sensor_link.Prelude.{
  ℕ, ◌+◌, ◌-◌, ◌/◌, ◌%◌, ◌≤◌, ◌<◌, ◌≡◌, ◌≢◌, ◌∙◌, refl, ap, ap₂, sym, arith, bit_and,
}
use sensor_link.Prelude.{
  [], ◌∷◌, ◌++◌, append_assoc, length, length-append, set, set-append, set-append_right, take,
  take-append, drop, replicate, length-replicate, length-drop, drop_uncons,
}
use sensor_link.Prelude.Masks.{bit_and_byte}
use sensor_link.Proto.Messages.{Bytes, MessageType}
use sensor_link.Proto.Crc.{crc16}
use sensor_link.Proto.Crc.Residue.{crc16-lt}
use sensor_link.Proto.Cobs.{cobs_encode, CobsResult, failed}
use sensor_link.Proto.Cobs
use native.Mathlib.Decide.{ℕ_discrete}
use sensor_link.Proto.Cobs.Blocks.{encoded, length-blocks}
use sensor_link.Proto.Cobs.Encode.{cobs_encode_lem}
use sensor_link.Proto.Encoder.{
  copy_from, header_and_payload, with_crc, terminate, encode_frame, sent, refused, EncodeResult,
  payload_too_large, output_overflow, max_encoded_frame_size,
}

-- type | length | payload
abbrev pub body : MessageType → Bytes → Bytes
body type payload = type ∷ length payload ∷ payload

-- type | length | payload | crc16, high byte first
unfoldable pub frame_blob : MessageType → Bytes → Bytes
frame_blob type payload =
    body type payload ++ crc16 (body type payload) / 256 ∷ crc16 (body type payload) % 256 ∷ []

-- The frame without its delimiter.
abbrev pub wire : MessageType → Bytes → Bytes
wire type payload = encoded (frame_blob type payload)

copy_from-append :
    (front back payload : Bytes)
    → length payload ≤ length back
    → copy_from (front ++ back) (length front) payload
      ≡ front ++ (payload ++ drop (length payload) back)
unfolding copy_from
copy_from-append front back [] h = refl
copy_from-append front [] (b ∷ bs) h = absurd (omega arith)
copy_from-append front (x ∷ back) (b ∷ bs) h =
    ap₂ (λ (l : Bytes) (n : ℕ). copy_from l n bs)
      (set-append front x back b ∙ sym (append_assoc front (b ∷ []) back))
      (sym (length-append front (b ∷ [])))
    ∙ copy_from-append (front ++ b ∷ []) back bs (omega arith)
    ∙ append_assoc front (b ∷ []) (bs ++ drop (length bs) back)

header_and_payload_lem :
    (type : MessageType) (payload : Bytes)
    → length payload ≤ 255
    → header_and_payload type payload ≡ body type payload ++ drop (length payload) (replicate 257 0)
unfolding header_and_payload
header_and_payload_lem type payload h =
    ap (λ (n : ℕ). copy_from (type ∷ n ∷ replicate 257 0) 2 payload) small
    ∙ copy_from-append (type ∷ length payload ∷ []) (replicate 257 0) payload
        (omega (arith, length-replicate {A = ℕ} 257 0))
  where
    small : length payload % 256 ≡ length payload
    small = omega arith

with_crc_lem :
    (front back : Bytes)
    → 2 ≤ length back
    → with_crc (front ++ back) (length front)
      ≡ front ++ crc16 front / 256 ∷ crc16 front % 256 ∷ drop 2 back
unfolding with_crc
with_crc_lem front [] h = absurd (omega arith)
with_crc_lem front (x ∷ []) h = absurd (omega arith)
with_crc_lem front (x ∷ y ∷ back) h = rw (take-append front (x ∷ y ∷ back)) (
    ap₂ (λ (l : Bytes) (c : ℕ). set l (length front + 1) c) (set-append front x (y ∷ back) _) low
    ∙ set-append_right front _ 1 _
    ∙ ap (λ (c : ℕ). front ++ c ∷ crc16 front % 256 ∷ back) high)
  where
    high : crc16 front / 256 % 256 ≡ crc16 front / 256
    high = omega (arith, crc16-lt front)

    low : bit_and (crc16 front) 0xff % 256 ≡ crc16 front % 256
    low = omega (arith, bit_and_byte (crc16 front))

length-body :
    (type : MessageType) (payload : Bytes) → length (body type payload) ≡ 2 + length payload
length-body type payload = omega arith

pub length-frame_blob :
    (type : MessageType) (payload : Bytes) → length (frame_blob type payload) ≡ length payload + 4
unfolding frame_blob
length-frame_blob type payload = omega (
  arith,
  length-append payload (crc16 (body type payload) / 256 ∷ crc16 (body type payload) % 256 ∷ []),
)

-- The array that is handed to COBS holds the frame.
laid_out :
    (type : MessageType) (payload : Bytes)
    → length payload ≤ 255
    → take
        (2 + length payload + 2)
        (with_crc (header_and_payload type payload) (2 + length payload))
      ≡ frame_blob type payload
unfolding frame_blob
laid_out type payload h =
    ap₂ (λ (l : Bytes) (n : ℕ). take (n + 2) (with_crc l n)) (header_and_payload_lem type payload h)
      (sym (length-body type payload))
    ∙ ap (λ (l : Bytes). take (length (body type payload) + 2) l)
        (with_crc_lem (body type payload) (drop (length payload) (replicate 257 0)) (
          omega (
            arith,
            length-drop (length payload) (replicate {A = ℕ} 257 0),
            length-replicate {A = ℕ} 257 0,
          )))
    ∙ ap₂ take (sym (length-append (body type payload) two))
        (sym (append_assoc (body type payload) two _))
    ∙ take-append (body type payload ++ two) _
  where
    two : Bytes
    two = crc16 (body type payload) / 256 ∷ crc16 (body type payload) % 256 ∷ []

frame_fits :
    (e out : Bytes)
    → length e < length out
    → set (e ++ drop (length e) out) (length e) 0 ≡ e ++ 0 ∷ drop (length e + 1) out
frame_fits e out h =
    let (y, p) = drop_uncons (length e) out h in
    ap (λ (l : Bytes). set (e ++ l) (length e) 0) p ∙ set-append e y (drop (length e + 1) out) 0

encode_frame-terminate :
    (type : MessageType) (payload out : Bytes) (capacity : ℕ)
    → length payload ≤ 255
    → capacity ≢ 0
    → encode_frame type payload out capacity
      ≡ terminate (cobs_encode (frame_blob type payload) out (capacity - 1))
encode_frame-terminate type payload out capacity h k =
    unfold encode_frame in
    ground (
      arith,
      ap (λ (l : Bytes). terminate (cobs_encode l out (capacity - 1))) (laid_out type payload h),
    )

terminate_full :
    (r : CobsResult × Bytes)
    → r.0 ≡ failed Cobs.output_overflow
    → (terminate r).0 ≡ refused output_overflow
unfolding terminate
terminate_full (c, l) e = ap (λ c. (terminate (c, l)).0) e

-- What `encode_frame` does, with room for the capacity in `out`. A payload above 255 bytes is
-- refused. Any other is sent when the encoding of type, length, payload and CRC fits together with
-- the delimiter: `out` then begins with the encoding and a zero byte, is as before behind them, and
-- the result is their number. When it does not fit, the result is an overflow.
pub encode_frame_lem :
    (type : MessageType) (payload out : Bytes) (capacity : ℕ)
    → capacity ≤ length out
    → (255 < length payload
        → encode_frame type payload out capacity ≡ (refused payload_too_large, out))
      × (length payload ≤ 255
          → length (wire type payload) + 1 ≤ capacity
          → encode_frame type payload out capacity ≡ (
            sent (length (wire type payload) + 1),
            wire type payload ++ 0 ∷ drop (length (wire type payload) + 1) out,
          ))
      × (length payload ≤ 255
          → capacity ≤ length (wire type payload)
          → (encode_frame type payload out capacity).0 ≡ refused output_overflow)
encode_frame_lem type payload out capacity h = (
  (λ p. unfold encode_frame in ground arith),
  (λ p q.
      encode_frame-terminate type payload out capacity p (omega arith)
      ∙ ap terminate (
          (cobs_encode_lem (frame_blob type payload) out (capacity - 1) (omega arith)).0
            (omega arith))
      ∙ (unfold terminate in
          ap (λ (l : Bytes). (sent (length (wire type payload) + 1), l))
            (frame_fits (wire type payload) out (omega arith)))),
  (λ p q. elim (ℕ_discrete capacity 0) [
    | yes z ↦ unfold encode_frame in ground arith
    | no z ↦
        ap (λ (r : EncodeResult × Bytes). r.0)
          (encode_frame-terminate type payload out capacity p z)
        ∙ terminate_full (cobs_encode (frame_blob type payload) out (capacity - 1)) (
            (cobs_encode_lem (frame_blob type payload) out (capacity - 1) (omega arith)).1
              (omega arith))
  ]),
)

-- The bound that callers size their buffers by is enough.
pub length-wire :
    (type : MessageType) (payload : Bytes)
    → length (wire type payload) + 1 ≤ max_encoded_frame_size (length payload)
length-wire type payload = omega (
  arith,
  length-blocks [] (frame_blob type payload) (omega arith),
  length-frame_blob type payload,
)
