-- ===== src/Proto/Encoder.antt =====
-- proto/frame_encoder.hpp. A caller's `payload` and `payload_size` are one list; `out` is a list that
-- is returned as the function leaves it, beside its capacity.
pub mod Frames
use sensor_link.Prelude.{ℕ, suc, ◌+◌, ◌-◌, ◌/◌, ◌%◌, bit_and, ltb, ◌==◌, if◌then◌else◌, [], ◌∷◌}
use sensor_link.Prelude.{length, set, take, replicate}
use sensor_link.Proto.Messages.{
  Bytes, MessageType, frame_header_size, frame_crc_size, max_payload_size,
}
use sensor_link.Proto.Crc.{crc16}
use sensor_link.Proto.Cobs
use sensor_link.Proto.Cobs.{CobsResult, cobs_encode, cobs_encoded_max_size}

pub data EncodeStatus : Type 0 where
  ok payload_too_large output_overflow : EncodeStatus

pub record EncodeResult : Type 0 where
  pub status : EncodeStatus
  pub size : ℕ

abbrev pub sent : ℕ → EncodeResult
sent n = record { status = ok; size = n }

abbrev pub refused : EncodeStatus → EncodeResult
refused s = record { status = s; size = 0 }

abbrev pub max_frame_before_cobs : ℕ
max_frame_before_cobs = frame_header_size + max_payload_size + frame_crc_size

abbrev pub max_encoded_frame_size : ℕ → ℕ
max_encoded_frame_size payload_size =
    cobs_encoded_max_size (frame_header_size + payload_size + frame_crc_size) + 1

-- The loop that copies the payload, from index `at` on.
pub copy_from : Bytes → ℕ → Bytes → Bytes
copy_from blob at [] = blob
copy_from blob at (b ∷ bs) = copy_from (set blob at b) (at + 1) bs

-- `blob` when the header and the payload are laid out, and when the CRC stands behind them.
pub header_and_payload : MessageType → Bytes → Bytes
header_and_payload type payload =
    let blob = replicate max_frame_before_cobs 0 in
    let blob = set blob 0 type in
    let blob = set blob 1 (length payload % 256) in copy_from blob frame_header_size payload

pub with_crc : Bytes → ℕ → Bytes
with_crc blob crc_offset =
    let crc = crc16 (take crc_offset blob) in
    let blob = set blob crc_offset (crc / 256 % 256) in
    set blob (crc_offset + 1) (bit_and crc 0xff % 256)

-- The tail of `encode_frame`, on what `cobs_encode` returned.
pub terminate : CobsResult × Bytes → EncodeResult × Bytes
terminate (cobs, out) = elim cobs.status [
  | Cobs.ok ↦ (sent (cobs.size + 1), set out cobs.size 0)
  | _ ↦ (refused output_overflow, out)
]

unfoldable pub encode_frame : MessageType → Bytes → Bytes → ℕ → EncodeResult × Bytes
encode_frame type payload out out_capacity =
    let crc_offset = frame_header_size + length payload in
    let blob = with_crc (header_and_payload type payload) crc_offset in
    let blob_size = crc_offset + frame_crc_size in
    if ltb max_payload_size (length payload)
    then (refused payload_too_large, out)
    else if out_capacity == 0
    then (refused output_overflow, out)
    else terminate (cobs_encode (take blob_size blob) out (out_capacity - 1))
