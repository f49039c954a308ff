-- ===== src/Node.antt =====
-- The firmware, node/: the three tasks over their shared state. The UART's output is the list of the
-- bytes written so far; ticks are milliseconds (configTICK_RATE_HZ is 1000) and wrap at 32 bits.
pub mod Reading
pub mod Handshake
pub mod Backpressure
pub mod Tests
use sensor_link.Prelude.{
  ℕ, suc, ◌+◌, ◌-◌, ◌*◌, ◌/◌, ◌%◌, ◌^◌, ltb, leb, ◌==◌, if◌then◌else◌, ◌&&◌, Bool, true, false,
}
use sensor_link.Prelude.{List, [], ◌∷◌, ◌++◌, length, take, replicate, Option, none, some}
use sensor_link.Prelude.Int.{ℤ, pos}
use sensor_link.Proto.Messages
use sensor_link.Proto.Messages.{
  Bytes, MessageType, ConfigPayload, SlowDownPayload, protocol_version, hello_to_bytes,
  heartbeat_to_bytes, sample_to_bytes, config_of_bytes, slow_down_of_bytes, max_payload_size,
}
use sensor_link.Proto.Encoder
use sensor_link.Proto.Encoder.{EncodeResult, encode_frame, max_encoded_frame_size}
use sensor_link.Proto.Parser.{Parser, ParsedFrame, push_byte}

pub record Measurement : Type 0 where
  pub value_milli : ℤ
  pub timestamp_ms : ℕ

abbrev pub queue_capacity : ℕ
queue_capacity = 8

pub record Pipeline : Type 0 where
  pub sample_rate_hz : ℕ
  pub session_id : ℕ
  pub connected : Bool
  pub reading_queue : List Measurement
  pub uart : Bytes

-- As it is constructed.
abbrev pub powered_up : Pipeline
powered_up = record {
  sample_rate_hz = 2;
  session_id = 0;
  connected = false;
  reading_queue = [];
  uart = [];
}

-- The triangle wave of the fake sensor; every value of its signed arithmetic is at least 0.
unfoldable pub fake_reading_milli : ℕ → ℕ
fake_reading_milli sample_index =
    let position = sample_index % 20 in
    let triangle = if leb position (20 / 2) then position else 20 - position in
    4000 - 3000 + triangle * 4 * 3000 / 20

-- The pause behind a reading, in milliseconds.
unfoldable pub sample_delay : ℕ → ℕ
sample_delay rate_hz = 1000 / (if rate_hz == 0 then 1 else rate_hz)

-- `++sample_index`, of a uint32_t.
unfoldable pub next_index : ℕ → ℕ
next_index sample_index = (sample_index + 1) % 2 ^ 32

-- One round of `SensorTask`, with the next index: `none` while the queue is full, where the send
-- waits.
pub sensor_round : ℕ → ℕ → Pipeline → Option (ℕ × Pipeline)
sensor_round sample_index now p =
    if ltb (length p.reading_queue) queue_capacity
    then some (
      next_index sample_index,
      record p {
        reading_queue =
            p.reading_queue
            ++ record { value_milli = pos (fake_reading_milli sample_index); timestamp_ms = now }
              ∷ [];
      },
    )
    else none

pub write_frame : EncodeResult × Bytes → Pipeline → Pipeline
write_frame (result, frame) p = elim result.status [
  | Encoder.ok ↦ record p { uart = p.uart ++ take result.size frame }
  | _ ↦ p
]

-- `SendMessage`, whose buffer has the size for the payload.
unfoldable pub send_message : MessageType → Bytes → Pipeline → Pipeline
send_message type payload p =
    let room = max_encoded_frame_size (length payload) in
    write_frame (encode_frame type payload (replicate room 0) room) p

unfoldable pub send_hello : Pipeline → Pipeline
send_hello p =
    send_message Messages.hello
      (hello_to_bytes (record {
        device_id = 1;
        fw_version = protocol_version;
        metric_count = 1;
        offered_rate_hz = p.sample_rate_hz;
      }))
      p

unfoldable pub send_heartbeat : ℕ → Pipeline → Pipeline
send_heartbeat now p =
    send_message Messages.heartbeat
      (heartbeat_to_bytes (record { session_id = p.session_id; uptime_ms = now })) p

-- One round of `TelemetryTask`, which waits while the queue is empty.
pub telemetry_found : List Measurement → Pipeline → Pipeline
telemetry_found [] p = p
telemetry_found (r ∷ rest) p =
    send_message Messages.sample
      (sample_to_bytes (record {
        session_id = p.session_id;
        timestamp_ms = r.timestamp_ms;
        value_milli = r.value_milli;
        metric_id = 0;
      }))
      (record p { reading_queue = rest })

pub telemetry_round : Pipeline → Pipeline
telemetry_round p = telemetry_found p.reading_queue p

-- What `CommandTask` does with a completed frame.
unfoldable pub obey : ParsedFrame → Pipeline → Pipeline
obey frame p =
    if frame.type == Messages.config && frame.payload_size == 4
    then (elim (config_of_bytes frame.payload) [
      | none ↦ p
      | some c ↦ record p {
        sample_rate_hz = c.sample_rate_hz;
        session_id = c.session_id;
        connected = true;
      }
    ])
    else if frame.type == Messages.slow_down && frame.payload_size == 3
    then (elim (slow_down_of_bytes frame.payload) [
      | none ↦ p
      | some s ↦ record p { sample_rate_hz = s.new_rate_hz }
    ])
    else p

-- One byte from the UART, and a run of them.
pub command_byte : ℕ → Pipeline × Parser → Pipeline × Parser
command_byte byte (p, parser) =
    let (completed, parser') = push_byte max_payload_size parser byte in
    ((elim completed [ none ↦ p | some frame ↦ obey frame p ]), parser')

pub command_bytes : Bytes → Pipeline × Parser → Pipeline × Parser
command_bytes [] s = s
command_bytes (b ∷ bs) s = command_bytes bs (command_byte b s)

-- A round in which nothing waits on the UART: the two readings of the tick count are parameters.
pub command_idle : ℕ → ℕ → Pipeline × ℕ → Pipeline × ℕ
command_idle now then_now (p, last_heartbeat) =
    if leb 2000 ((now + 2 ^ 32 - last_heartbeat) % 2 ^ 32)
    then (send_heartbeat now p, then_now)
    else (p, last_heartbeat)
