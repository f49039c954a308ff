-- ===== src/Proto/Tests.antt =====
-- Runs of proto/ on small inputs, and each theorem about it applied to one of them.
use sensor_link.Prelude.{
  ℕ, ◌+◌, ◌/◌, ◌%◌, ◌≤◌, ◌<◌, ◌≡◌, ◌≢◌, refl, arith, [], ◌∷◌, ◌++◌, length, take, drop, replicate,
  some, All, false,
}
use sensor_link.Prelude.Int.{negsuc}
use sensor_link.Proto.Messages.{
  sample, Bytes, HelloPayload, SamplePayload, hello_to_bytes, hello_of_bytes, sample_to_bytes,
  sample_of_bytes,
}
use sensor_link.Proto.Messages.RoundTrip.{hello_round_trip, sample_round_trip}
use sensor_link.Prelude.{inr}
use sensor_link.Proto.Ring.{Ring, push, pop}
use sensor_link.Proto.Ring.Holds.{elements, Holds}
use sensor_link.Proto.Ring.Queue.{Pushed, Popped, push-Pushed, pop-Popped}
use sensor_link.Proto.StaticVector.{StaticVector, push_back}
use sensor_link.Proto.StaticVector.Contents.{Appended, push_back-Appended}
use sensor_link.Proto.Crc.{crc16, crc16_from, crc16_update}
use sensor_link.Proto.Crc.Residue.{crc16_residue_unique}
use sensor_link.Proto.Crc.Detect.{crc16_detects_byte}
use sensor_link.Proto.Cobs
use sensor_link.Proto.Cobs.{cobs_encode, cobs_decode, cobs_encoded_max_size, succeeded, failed}
use sensor_link.Proto.Cobs.Blocks.{encoded, IsStuffed}
use sensor_link.Proto.Cobs.Encode.{cobs_encode_lem}
use sensor_link.Proto.Cobs.Bytewise.{bytewise, cobs_decode-bytewise}
use sensor_link.Proto.Cobs.Decode.{decoded, Decodes, cobs_decode-Decodes}
use sensor_link.Proto.Cobs.RoundTrip.{cobs_round_trip}
use sensor_link.Proto.Encoder
use sensor_link.Proto.Encoder.{
  encode_frame, sent, refused, payload_too_large, max_encoded_frame_size,
}
use sensor_link.Proto.Encoder.Frames.{wire, encode_frame_lem, length-wire}

-- The check value of CRC-16/CCITT-FALSE, the CRC of the digits 1 to 9.
check_value : crc16 (49 ∷ 50 ∷ 51 ∷ 52 ∷ 53 ∷ 54 ∷ 55 ∷ 56 ∷ 57 ∷ []) ≡ 0x29b1
unfolding crc16 crc16_from crc16_update
check_value = refl

crc16_detects_byte_example : crc16 ((7 ∷ []) ++ 1 ∷ 9 ∷ []) ≢ crc16 ((7 ∷ []) ++ 2 ∷ 9 ∷ [])
crc16_detects_byte_example =
    crc16_detects_byte (7 ∷ []) (9 ∷ []) 1 2 (omega arith, _) (omega arith) (omega arith)
      (omega arith)

crc_of_nothing : crc16 (0xff ∷ 0xff ∷ []) ≡ 0
unfolding crc16 crc16_from crc16_update
crc_of_nothing = refl

crc16_residue_unique_test : (0xff ≡ crc16 [] / 256) × (0xff ≡ crc16 [] % 256)
crc16_residue_unique_test =
    crc16_residue_unique [] 0xff 0xff (omega arith) (omega arith) crc_of_nothing

abbrev with_zero : Bytes
with_zero = 5 ∷ 0 ∷ 6 ∷ []

abbrev room : Bytes
room = replicate 8 0

cobs_encode_lem_example :
    (length (encoded with_zero) ≤ 8
      → cobs_encode with_zero room 8 ≡ (
        succeeded (length (encoded with_zero)),
        encoded with_zero ++ drop (length (encoded with_zero)) room,
      ))
    × (8 < length (encoded with_zero)
        → (cobs_encode with_zero room 8).0 ≡ failed Cobs.output_overflow)
cobs_encode_lem_example = cobs_encode_lem with_zero room 8 (omega arith)

cobs_decode-bytewise_example :
    cobs_decode (3 ∷ 5 ∷ 6 ∷ 1 ∷ []) room 8 ≡ bytewise 8 0 false (3 ∷ 5 ∷ 6 ∷ 1 ∷ []) room 0
cobs_decode-bytewise_example = cobs_decode-bytewise (3 ∷ 5 ∷ 6 ∷ 1 ∷ []) room 8

cobs_decode-Decodes_example :
    Decodes 8 [] room (decoded (2 ∷ 5 ∷ 2 ∷ 6 ∷ [])) (cobs_decode (2 ∷ 5 ∷ 2 ∷ 6 ∷ []) room 8)
cobs_decode-Decodes_example = cobs_decode-Decodes (2 ∷ 5 ∷ 2 ∷ 6 ∷ []) room 8 (omega arith)

cobs_round_trip_example :
    (n : ℕ) × ((cobs_encode with_zero room 8).0 ≡ succeeded n)
    × (n ≤ cobs_encoded_max_size (length with_zero))
    × All IsStuffed (take n (cobs_encode with_zero room 8).1)
    × (cobs_decode (take n (cobs_encode with_zero room 8).1) room 3
        ≡ (succeeded (length with_zero), with_zero ++ drop (length with_zero) room))
cobs_round_trip_example =
    cobs_round_trip with_zero room room 8 3 (omega arith, (omega arith, (omega arith, _)))
      (omega arith) (omega arith) (omega arith) (omega arith)

abbrev send_buffer : Bytes
send_buffer = replicate 16 0

encode_frame_lem_example :
    (255 < length with_zero
      → encode_frame sample with_zero send_buffer 16 ≡ (refused payload_too_large, send_buffer))
    × (length with_zero ≤ 255
        → length (wire sample with_zero) + 1 ≤ 16
        → encode_frame sample with_zero send_buffer 16 ≡ (
          sent (length (wire sample with_zero) + 1),
          wire sample with_zero ++ 0 ∷ drop (length (wire sample with_zero) + 1) send_buffer,
        ))
    × (length with_zero ≤ 255
        → 16 ≤ length (wire sample with_zero)
        → (encode_frame sample with_zero send_buffer 16).0 ≡ refused Encoder.output_overflow)
encode_frame_lem_example = encode_frame_lem sample with_zero send_buffer 16 (omega arith)

length-wire_test : length (wire sample with_zero) + 1 ≤ max_encoded_frame_size (length with_zero)
length-wire_test = length-wire sample with_zero

abbrev reading : SamplePayload
reading = record { session_id = 7; timestamp_ms = 70000; value_milli = negsuc 999; metric_id = 1 }

sample_round_trip_test : sample_of_bytes (sample_to_bytes reading) ≡ some reading
sample_round_trip_test = sample_round_trip reading (record {
  session = omega arith;
  time = omega arith;
  value = omega arith;
  metric = omega arith;
})

abbrev greeting : HelloPayload
greeting = record { device_id = 300; fw_version = 2; metric_count = 2; offered_rate_hz = 20 }

hello_round_trip_test : hello_of_bytes (hello_to_bytes greeting) ≡ some greeting
hello_round_trip_test = hello_round_trip greeting (record {
  device = omega arith;
  version = omega arith;
  count = omega arith;
  rate = omega arith;
})

-- A ring of four slots that has wrapped: it holds 8 and then 9.
abbrev wrapped : Ring ℕ
wrapped = record { buffer = 9 ∷ 0 ∷ 0 ∷ 8 ∷ []; head = 3; tail = 1 }

wrapped-Holds : Holds 4 0 wrapped (8 ∷ 9 ∷ [])
unfolding elements
wrapped-Holds = record {
  two = omega arith;
  slots = refl;
  head_inside = omega arith;
  tail_inside = omega arith;
  room = omega arith;
  place = inr refl;
  contents = refl;
}

push-Pushed_example : Pushed 4 0 7 wrapped (8 ∷ 9 ∷ []) (push 4 0 7 wrapped)
push-Pushed_example = push-Pushed 4 0 7 wrapped (8 ∷ 9 ∷ []) wrapped-Holds

pop-Popped_example : Popped 4 0 5 wrapped (8 ∷ 9 ∷ []) (pop 4 0 5 wrapped)
pop-Popped_example = pop-Popped 4 0 5 wrapped (8 ∷ 9 ∷ []) wrapped-Holds

abbrev one_of_two : StaticVector ℕ
one_of_two = record { array = 5 ∷ 0 ∷ []; count = 1 }

push_back-Appended_test : Appended 2 0 6 one_of_two (5 ∷ []) (push_back 2 0 6 one_of_two)
push_back-Appended_test =
    push_back-Appended 2 0 6 one_of_two (5 ∷ [])
      (record { slots = refl; fits = omega arith; counted = refl; contents = refl })
