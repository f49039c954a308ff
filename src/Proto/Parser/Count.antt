-- ===== src/Proto/Parser/Count.antt =====
-- The counters of `frame_parser` in proto/frame_parser.hpp.
use sensor_link.Prelude.{ℕ, ◌+◌, ◌≡◌, refl, arith, Option, none, some}
use sensor_link.Proto.Messages.{Bytes}
use sensor_link.Proto.Cobs
use sensor_link.Proto.Cobs.{CobsResult, CobsStatus}
use sensor_link.Proto.Parser.{
  ParsedFrame, Parser, State, Action, no_error, fail, check_blob, decode_into, finish_frame, act,
  push_byte, ignore, start, append, complete,
}
use sensor_link.Proto.Parser.Phases.{Event, silent, dropped, delivered, event}

-- The two counters behind an event.
abbrev pub counted : Event → ℕ → ℕ → ℕ × ℕ
counted silent good bad = (good, bad)
counted (dropped e) good bad = (good, bad + 1)
counted (delivered f) good bad = (good + 1, bad)

abbrev pub counters : Parser → ℕ × ℕ
counters p = (p.frames_ok, p.frames_dropped)

check_blob_counts :
    (r : CobsResult) (p : Parser)
    → counters (check_blob r p).1 ≡ counted (event (check_blob r p)) p.frames_ok p.frames_dropped
unfolding check_blob fail
check_blob_counts r p = ground arith

decode_into_counts :
    (s : CobsStatus) (n : ℕ) (l : Bytes) (p : Parser)
    → let r = decode_into (record { status = s; size = n }, l) p in
      counters r.1 ≡ counted (event r) p.frames_ok p.frames_dropped
unfolding decode_into fail
decode_into_counts Cobs.ok n l p =
    check_blob_counts (record { status = Cobs.ok; size = n }) (record p { blob = l })
decode_into_counts Cobs.output_overflow n l p = refl
decode_into_counts Cobs.invalid_input n l p = refl

settled :
    (r : Option ParsedFrame × Parser) (next : State) (good bad : ℕ)
    → counters r.1 ≡ counted (event r) good bad
    → counters r.1 ≡ counted (event (r.0, record (r.1) { buffered = 0; state = next })) good bad
settled (none, q) next good bad h = h
settled (some f, q) next good bad h = h

act_counts :
    (m : ℕ) (a : Action) (next : State) (b : ℕ) (p : Parser)
    → p.last_error ≡ no_error
    → counters (act m a next b p).1
      ≡ counted (event (act m a next b p)) p.frames_ok p.frames_dropped
unfolding act fail
act_counts m ignore next b p h = rw h
act_counts m start next b p h = rw h
act_counts m append next b p h = ground arith
act_counts m complete next b p h =
    unfold finish_frame in settled _ next p.frames_ok p.frames_dropped (decode_into_counts _ _ _ p)

-- Every byte counts once for what it caused: a delivered frame as good, a drop as dropped, and any
-- other byte as neither.
pub push_byte_counts :
    (m : ℕ) (p : Parser) (b : ℕ)
    → counters (push_byte m p b).1 ≡ counted (event (push_byte m p b)) p.frames_ok p.frames_dropped
unfolding push_byte
push_byte_counts m p b = act_counts m _ _ b (record p { last_error = no_error }) refl
