-- ===== src/Proto/Parser/Phases.antt =====
-- What `frame_parser` (proto/frame_parser.hpp) promises, over lists and with no buffers: the phase
-- that the receiver is in, and the event that each byte causes.
use sensor_link.Prelude.{
  ℕ, ◌+◌, ltb, ◌==◌, if◌then◌else◌, not, [], ◌∷◌, ◌++◌, length, take, drop, get_or, Option, none,
  some,
}
use sensor_link.Proto.Messages.{Bytes}
use sensor_link.Proto.Crc.{crc16}
use sensor_link.Proto.Cobs.Decode.{decoded}
use sensor_link.Proto.Parser.{
  ParsedFrame, ParseError, no_error, cobs_error, bad_length, bad_crc, frame_too_long, max_blob,
  buffer_size, Parser, State, hunting, in_frame, skip_to_delimiter,
}

pub data Event : Type 0 where
  silent : Event
  dropped : ParseError → Event
  delivered : ParsedFrame → Event

-- `collecting xs`: the bytes since the last delimiter are `xs`.
pub data Phase : Type 0 where
  between : Phase
  collecting : Bytes → Phase
  skipping : Phase

abbrev pub frame_of : Bytes → ParsedFrame
frame_of ys = record {
  type = get_or ys 0 0;
  payload = take (get_or ys 1 0) (drop 2 ys);
  payload_size = get_or ys 1 0;
}

-- The verdict on a decoded blob, and on the bytes between two delimiters.
unfoldable pub judge_blob : ℕ → Bytes → Event
judge_blob max_payload ys =
    if ltb (max_blob max_payload) (length ys)
    then dropped cobs_error
    else if ltb (length ys) 4
    then dropped bad_length
    else if not (length ys == 2 + get_or ys 1 0 + 2)
    then dropped bad_length
    else if not (crc16 ys == 0)
    then dropped bad_crc
    else delivered (frame_of ys)

unfoldable pub judge : ℕ → Bytes → Event
judge max_payload xs = elim (decoded xs) [
  | none ↦ dropped cobs_error
  | some ys ↦ judge_blob max_payload ys
]

unfoldable pub step : ℕ → Phase → ℕ → Event × Phase
step max_payload between b = (silent, if b == 0 then between else collecting (b ∷ []))
step max_payload skipping b = (silent, if b == 0 then between else skipping)
step max_payload (collecting xs) b =
    if b == 0
    then (judge max_payload xs, between)
    else if length xs == buffer_size max_payload
    then (dropped frame_too_long, skipping)
    else (silent, collecting (xs ++ b ∷ []))

-- The phase and the event as the parser's state and results show them.
abbrev pub phase_of : State → Bytes → Phase
phase_of hunting xs = between
phase_of in_frame xs = collecting xs
phase_of skip_to_delimiter xs = skipping

abbrev pub phase : Parser → Phase
phase p = phase_of p.state (take p.buffered p.buffer)

abbrev pub error_event : ParseError → Event
error_event no_error = silent
error_event cobs_error = dropped cobs_error
error_event bad_length = dropped bad_length
error_event bad_crc = dropped bad_crc
error_event frame_too_long = dropped frame_too_long

abbrev pub event : Option ParsedFrame × Parser → Event
event (none, p) = error_event p.last_error
event (some f, p) = delivered f
