-- ===== src/Proto/Parser/Tests.antt =====
-- The parser's theorems, each at a concrete stream.
use sensor_link.Prelude.{
  ℕ, ◌≤◌, ◌≡◌, ◌≢◌, ◌↔◌, refl, arith, List, [], ◌∷◌, ◌++◌, ◌-◌, length, length-append, replicate,
  none, some,
}
use sensor_link.Proto.Messages.{Bytes, MessageType, sample}
use sensor_link.Proto.Cobs.Decode.{decoded, plain}
use sensor_link.Proto.Crc.{crc16, crc16_from, crc16_update}
use sensor_link.Proto.Encoder.Frames.{frame_blob}
use sensor_link.Proto.Parser.{
  ParsedFrame, Parser, in_frame, buffer_size, fresh, push_byte, push_bytes,
}
use sensor_link.Proto.Parser.Inv.{IsValid, fresh-IsValid, push_byte-IsValid}
use sensor_link.Proto.Parser.Phases.{phase, event, step, judge, delivered, between}
use sensor_link.Proto.Parser.Refine.{push_byte-step}
use sensor_link.Proto.Parser.Count.{counters, counted, push_byte_counts}
use sensor_link.Proto.Parser.Judge.{message, judge_iff, judge_corrupt}
use sensor_link.Proto.Parser.Verdict.{delimiter_iff, delimiter_corrupt}
use sensor_link.Proto.Parser.Stream.{Received, push_bytes-Received, feed}
use sensor_link.Proto.Parser.Deliver.{
  IsSendable, transmitted, stream, messages, frame_after_delimiter, stream_round_trip,
}

-- A sink that keeps what it is handed.
abbrev keep : ParsedFrame → List ParsedFrame → List ParsedFrame
keep f fs = fs ++ f ∷ []

abbrev two_bytes : Bytes
two_bytes = 0 ∷ 9 ∷ []

two_bytes-IsSendable : (type : ℕ) → type ≡ 3 → IsSendable 4 type two_bytes
two_bytes-IsSendable type h = record {
  type_byte = omega arith;
  payload_bytes = (omega arith, (omega arith, _));
  fits_format = omega arith;
  fits_parser = omega arith;
}

abbrev sent_messages : List (MessageType × Bytes)
sent_messages = (sample, two_bytes) ∷ (sample, two_bytes) ∷ []

stream_round_trip_example :
    (push_bytes 4 keep (stream sent_messages) [] (fresh 4)).0
    ≡ feed keep (messages sent_messages) []
stream_round_trip_example =
    stream_round_trip 4 keep [] (fresh 4) sent_messages (fresh-IsValid 4) refl
      (two_bytes-IsSendable 3 refl, (two_bytes-IsSendable 3 refl, _))

frame_after_delimiter_example :
    ((push_bytes 4 keep
        ((7 ∷ 7 ∷ []) ++ 0 ∷ [] ++ transmitted sample two_bytes (replicate 16 0) 16)
        []
        (fresh 4)).0
      ≡ keep (message sample two_bytes) (push_bytes 4 keep ((7 ∷ 7 ∷ []) ++ 0 ∷ []) [] (fresh 4)).0)
    × (phase
          (push_bytes 4 keep
            ((7 ∷ 7 ∷ []) ++ 0 ∷ [] ++ transmitted sample two_bytes (replicate 16 0) 16)
            []
            (fresh 4)).1
        ≡ between)
frame_after_delimiter_example =
    frame_after_delimiter 4 keep [] (fresh 4) (7 ∷ 7 ∷ []) sample two_bytes (replicate 16 0) 16
      (fresh-IsValid 4) (two_bytes-IsSendable 3 refl) (omega arith) (omega arith)

push_byte-step_example :
    (event (push_byte 4 (fresh 4) 6), phase (push_byte 4 (fresh 4) 6).1)
    ≡ step 4 (phase (fresh 4)) 6
push_byte-step_example = push_byte-step 4 (fresh 4) 6 (fresh-IsValid 4)

push_byte-IsValid_example : IsValid 4 (push_byte 4 (fresh 4) 6).1
push_byte-IsValid_example = push_byte-IsValid 4 (fresh 4) 6 (fresh-IsValid 4)

push_byte_counts_test :
    counters (push_byte 4 (fresh 4) 0).1 ≡ counted (event (push_byte 4 (fresh 4) 0)) 0 0
push_byte_counts_test = push_byte_counts 4 (fresh 4) 0

push_bytes-Received_example :
    Received 4 keep (phase (fresh 4)) (5 ∷ 0 ∷ []) [] (push_bytes 4 keep (5 ∷ 0 ∷ []) [] (fresh 4))
push_bytes-Received_example = push_bytes-Received 4 keep (5 ∷ 0 ∷ []) [] (fresh 4) (fresh-IsValid 4)

judge_iff_test : (judge 4 (2 ∷ 5 ∷ []) ≡ delivered (message sample [])) ↔ (
    (decoded (2 ∷ 5 ∷ []) ≡ some (frame_blob sample []))
    × (message sample [] ≡ message sample [])
    × (length {A = ℕ} [] ≤ 4))
judge_iff_test = judge_iff 4 (2 ∷ 5 ∷ []) (message sample []) (omega arith, (omega arith, _))

-- A sample frame without payload, and what arrives when its last byte is changed to 1.
empty_frame : frame_blob sample [] ≡ (3 ∷ 0 ∷ 72 ∷ []) ++ 92 ∷ []
unfolding frame_blob crc16 crc16_from crc16_update
empty_frame = refl

changed_frame : decoded (2 ∷ 3 ∷ 3 ∷ 72 ∷ 1 ∷ []) ≡ some ((3 ∷ 0 ∷ 72 ∷ []) ++ 1 ∷ [])
unfolding plain
changed_frame = refl

judge_corrupt_test : judge 4 (2 ∷ 3 ∷ 3 ∷ 72 ∷ 1 ∷ []) ≢ delivered (message sample [])
judge_corrupt_test =
    judge_corrupt 4 (2 ∷ 3 ∷ 3 ∷ 72 ∷ 1 ∷ []) sample [] (3 ∷ 0 ∷ 72 ∷ []) [] 92 1
      (message sample []) _ (omega arith) (omega arith) (omega arith) empty_frame changed_frame

-- A parser that has collected what is left of an empty frame, and one with the changed byte.
abbrev holding : Bytes → Parser
holding xs = record (fresh 4) {
  state = in_frame;
  buffered = 5;
  buffer = xs ++ replicate (buffer_size 4 - 5) 0;
}

abbrev whole_bytes : Bytes
whole_bytes = 2 ∷ 3 ∷ 3 ∷ 72 ∷ 92 ∷ []

holding-IsValid : (xs : Bytes) → length xs ≡ 5 → IsValid 4 (holding xs)
holding-IsValid xs h = record {
  buffer_length = omega (arith, h, length-append xs (replicate (buffer_size 4 - 5) 0));
  blob_length = (fresh-IsValid 4).blob_length;
  in_buffer = omega arith;
}

delimiter_iff_example : ((push_byte 4 (holding whole_bytes) 0).0 ≡ some (message sample [])) ↔ (
    (decoded whole_bytes ≡ some (frame_blob sample []))
    × (message sample [] ≡ message sample [])
    × (length {A = ℕ} [] ≤ 4))
delimiter_iff_example =
    delimiter_iff 4 (holding whole_bytes) whole_bytes (holding-IsValid whole_bytes refl) refl
      (message sample [])
      (omega arith, (omega arith, (omega arith, (omega arith, (omega arith, _)))))

delimiter_corrupt_example : (push_byte 4 (holding (2 ∷ 3 ∷ 3 ∷ 72 ∷ 1 ∷ [])) 0).0 ≡ none
delimiter_corrupt_example =
    delimiter_corrupt 4 (holding (2 ∷ 3 ∷ 3 ∷ 72 ∷ 1 ∷ [])) (2 ∷ 3 ∷ 3 ∷ 72 ∷ 1 ∷ [])
      (holding-IsValid (2 ∷ 3 ∷ 3 ∷ 72 ∷ 1 ∷ []) refl) refl sample [] (3 ∷ 0 ∷ 72 ∷ []) [] 92 1 _
      (omega arith) (omega arith) (omega arith) empty_frame changed_frame
