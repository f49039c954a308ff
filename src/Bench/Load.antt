-- ===== src/Bench/Load.antt =====
-- bench/load_generator.cpp. `clock n` is the count of nanoseconds that steady_clock shows when it is read
-- for the time number `n`, and `interval` the count between two frames, which the program computes in
-- floating point from the rate. What the kernel answers to the calls of send is a list.
pub mod Stream
use sensor_link.Prelude.{
  ℕ, suc, ◌+◌, ◌-◌, ◌*◌, ◌/◌, ◌%◌, ◌^◌, ltb, leb, ◌==◌, if◌then◌else◌, List, [], ◌∷◌, ◌++◌, length,
  take, replicate, Option, none, some,
}
use sensor_link.Prelude.Int.{ℤ, pos, negsuc, pos_part}
use sensor_link.Prelude.Text.{Text, codes, text_eq}
use sensor_link.Proto.Messages
use sensor_link.Proto.Messages.{
  Bytes, MessageType, HelloPayload, SamplePayload, protocol_version, hello_to_bytes,
  sample_to_bytes,
}
use sensor_link.Proto.Encoder
use sensor_link.Proto.Encoder.{
  EncodeStatus, payload_too_large, output_overflow, EncodeResult, encode_frame,
  max_encoded_frame_size,
}
use sensor_link.Scan.Convert.{atoi_unsigned, strtoul_unsigned, strtol, cast_int, cut_at}
use sensor_link.Sockets.{Descriptors, close, Connecting, connect_to_server}

-- What the kernel does with the bytes handed to send: takes them all, takes the first `n`, which are
-- not all, or reports an error.
pub data Accepted : Type 0 where
  whole refused : Accepted
  part : ℕ → Accepted

-- The variables of the loop; `out` is what the kernel has taken, `tried` the samples whose frames were
-- handed to it, and `naps` the seconds and nanoseconds of the pauses.
pub record Generator : Type 0 where
  pub clock_reads : ℕ
  pub next_send : ℕ
  pub sent : ℕ
  pub value_milli : ℕ
  pub out : Bytes
  pub tried : List SamplePayload
  pub naps : List (ℕ × ℕ)

unfoldable pub accept : Accepted → Bytes → Generator → Generator
accept whole frame g = record g { out = g.out ++ frame }
accept refused frame g = g
accept (part n) frame g = record g { out = g.out ++ take n frame }

-- A frame from a buffer of the size for its payload, when the encoder has written one.
unfoldable pub accept_ok : EncodeStatus → Accepted → Bytes → Generator → Generator
accept_ok Encoder.ok answer frame g = accept answer frame g
accept_ok payload_too_large answer frame g = g
accept_ok output_overflow answer frame g = g

unfoldable pub send_frame : EncodeResult × Bytes → Accepted → Generator → Generator
send_frame (result, frame) answer g = accept_ok result.status answer (take result.size frame) g

unfoldable pub encoded : MessageType → Bytes → EncodeResult × Bytes
encoded type payload =
    let room = max_encoded_frame_size (length payload) in
    encode_frame type payload (replicate room 0) room

-- The steady clock in milliseconds, cut to 32 bits.
unfoldable pub now_ms : ℕ → ℕ
now_ms ns = ns / 10 ^ 6 % 2 ^ 32

-- The pause of `sleep_until`, when the deadline is still to come.
unfoldable pub nap_until : ℕ → ℕ → Option (ℕ × ℕ)
nap_until deadline now =
    if leb deadline now then none else some ((deadline - now) / 10 ^ 9, (deadline - now) % 10 ^ 9)

unfoldable pub take_nap : Option (ℕ × ℕ) → Generator → Generator
take_nap none g = g
take_nap (some nap) g = record g { naps = g.naps ++ nap ∷ [] }

unfoldable pub sleep_until : ℕ → ℕ → Generator → Generator
sleep_until deadline now g =
    take_nap (nap_until deadline now) (record g { clock_reads = g.clock_reads + 1 })

unfoldable pub count_sent : EncodeStatus → Accepted → ℕ → ℕ
count_sent Encoder.ok whole sent = sent + 1
count_sent Encoder.ok refused sent = sent
count_sent Encoder.ok (part n) sent = sent
count_sent payload_too_large answer sent = sent
count_sent output_overflow answer sent = sent

-- `value_milli` is kept as the 32 bits of the int32_t. Past the largest int32_t the increment, which C++
-- leaves undefined, is taken to wrap.
unfoldable pub next_value : ℕ → ℕ
next_value bits = (bits + 1) % 2 ^ 32

unfoldable pub value_of : ℕ → ℤ
value_of bits = if ltb bits (2 ^ 31) then pos bits else negsuc (2 ^ 32 - 1 - bits)

module _ (clock : ℕ → ℕ) (interval metric_id rate_hz : ℕ) where
  -- The wait at the top of the loop's body.
  unfoldable pub pace : Generator → Generator
  pace g =
      if ltb 0 rate_hz
      then record (sleep_until g.next_send (clock g.clock_reads) g) {
        next_send = g.next_send + interval;
      }
      else g

  -- The rest of the body.
  unfoldable pub send_sample : Accepted → Generator → Generator
  send_sample answer g =
      let sample : SamplePayload = record {
        session_id = 0;
        timestamp_ms = now_ms (clock g.clock_reads);
        value_milli = value_of g.value_milli;
        metric_id = metric_id;
      } in
      let r = encoded Messages.sample (sample_to_bytes sample) in
      record (send_frame r answer g) {
        clock_reads = g.clock_reads + 1;
        sent = count_sent r.0.status answer g.sent;
        value_milli = next_value g.value_milli;
        tried = g.tried ++ sample ∷ [];
      }

  -- The reading of the clock that the loop's condition makes.
  abbrev pub looked : Generator → Generator
  looked g = record g { clock_reads = g.clock_reads + 1 }

  -- `none`: the deadline has not come after the last of the answers.
  unfoldable pub load_loop : ℕ → List Accepted → Generator → Option Generator
  load_loop deadline [] g = if ltb (clock g.clock_reads) deadline then none else some (looked g)
  load_loop deadline (answer ∷ answers) g =
      let more = load_loop deadline answers (send_sample answer (pace (looked g))) in
      if ltb (clock g.clock_reads) deadline then more else some (looked g)

  -- `hello_answer` is the answer to the first send.
  unfoldable pub run_load : ℕ → ℕ → Accepted → List Accepted → Option Generator
  run_load device_id duration hello_answer answers =
      let hello : HelloPayload = record {
        device_id = device_id;
        fw_version = protocol_version;
        metric_count = 1;
        offered_rate_hz = 100;
      } in
      let start : Generator = record {
        clock_reads = 2;
        next_send = clock 1;
        sent = 0;
        value_milli = 0;
        out = [];
        tried = [];
        naps = [];
      } in
      load_loop (clock 0 + duration * 10 ^ 9) answers
        (send_frame (encoded Messages.hello (hello_to_bytes hello)) hello_answer start)

pub record Options : Type 0 where
  pub host : Text
  pub port : ℕ
  pub device_id : ℕ
  pub metric_id : ℕ
  pub duration : ℕ
  pub rate_hz : ℕ

abbrev pub defaults : Options
defaults = record {
  host = codes "127.0.0.1";
  port = 6000;
  device_id = 999;
  metric_id = 1;
  duration = 5;
  rate_hz = 10;
}

unfoldable pub set_endpoint : Text → Options → Options
set_endpoint endpoint o = elim (cut_at 58 endpoint) [
  | none ↦ o
  | some (host, port) ↦ record o { host = host; port = atoi_unsigned 16 port }
]

-- What one option with its value sets, and `none` for what is no option. A negative duration ends the
-- run at once, as 0 does.
unfoldable pub set_option : Text → Text → Options → Option Options
set_option arg value o =
    if text_eq arg (codes "--connect")
    then some (set_endpoint value o)
    else if text_eq arg (codes "--device-id")
    then some (record o { device_id = strtoul_unsigned 32 value })
    else if text_eq arg (codes "--metric")
    then some (record o { metric_id = atoi_unsigned 8 value })
    else if text_eq arg (codes "--seconds")
    then some (record o { duration = pos_part (cast_int (strtol value)) })
    else if text_eq arg (codes "--rate-hz")
    then some (record o { rate_hz = strtoul_unsigned 32 value })
    else none

unfoldable pub parse_options : List Text → Options → Options
parse_options [] o = o
parse_options (arg ∷ []) o = o
parse_options (arg ∷ value ∷ args) o =
    let skipped = parse_options (value ∷ args) o in
    elim (set_option arg value o) [ none ↦ skipped | some o' ↦ parse_options args o' ]

-- The exit code, what is printed behind SENT, and the descriptors that are open.
unfoldable pub load_main :
    (ℕ → ℕ)
    → (ℕ → ℕ)
    → List Text
    → Connecting
    → Accepted
    → List Accepted
    → Descriptors
    → Option (ℕ × Option ℕ × Descriptors)
load_main clock interval_of args connecting hello_answer answers open_fds =
    let o = parse_options args defaults in
    let (fd, open_fds') = connect_to_server o.host o.port connecting open_fds in
    elim fd [
      | none ↦ some (1, none, open_fds')
      | some fd ↦
          (elim (run_load clock (interval_of o.rate_hz) o.metric_id o.rate_hz o.device_id o.duration
            hello_answer answers) [
              | none ↦ none
              | some g ↦ some (0, some g.sent, close fd open_fds')
            ])
    ]
