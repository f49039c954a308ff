-- ===== src/Server/Ingest.antt =====
-- server/ingest.cpp and .hpp: one device. The connection and the store, which the class refers to, are
-- passed on; `clock n` is what steady_clock shows when the frame number `n` of a callback is handled.
pub mod Stream
pub mod Keeps
use sensor_link.Prelude.{
  ℕ, ◌+◌, ◌==◌, if◌then◌else◌, [], ◌∷◌, length, take, replicate, Option, none, some,
}
use sensor_link.Proto.Messages
use sensor_link.Proto.Messages.{
  Bytes, MessageType, HelloPayload, HeartbeatPayload, SamplePayload, max_payload_size,
  config_to_bytes, slow_down_to_bytes, hello_of_bytes, heartbeat_of_bytes, sample_of_bytes,
}
use sensor_link.Proto.Encoder
use sensor_link.Proto.Encoder.{EncodeResult, encode_frame, max_encoded_frame_size}
use sensor_link.Proto.Parser.{Parser, ParsedFrame, push_bytes, fresh}
use sensor_link.Server.Connection.{Connection, enqueue_write, consume}
use sensor_link.Server.Session.{
  Session, open_session, note_activity, note_uptime, answer_hello, lower_rate,
}
use sensor_link.Server.Store.{Store, record_sample}

pub record Ingest : Type 0 where
  pub conn : Connection
  pub session_id : ℕ
  pub session : Option Session

-- Everything that a completed frame can change, and how many there were.
pub record Reach : Type 0 where
  pub device : Ingest
  pub store : Store
  pub handled : ℕ

abbrev pub ingest_on : Connection → ℕ → Ingest
ingest_on conn session_id = record { conn = conn; session_id = session_id; session = none }

pub enqueue_frame : EncodeResult × Bytes → Ingest → Ingest
enqueue_frame (result, out) i = elim result.status [
  | Encoder.ok ↦ record i { conn = enqueue_write (take result.size out) i.conn }
  | _ ↦ i
]

unfoldable pub send_frame : MessageType → Bytes → Ingest → Ingest
send_frame type payload i =
    let room = max_encoded_frame_size max_payload_size in
    enqueue_frame (encode_frame type payload (replicate room 0) room) i

pub handle_heartbeat : ℕ → HeartbeatPayload → Ingest → Ingest
handle_heartbeat now payload i = elim i.session [
  | none ↦ i
  | some s ↦ record i { session = some (note_uptime payload.uptime_ms (note_activity now s)) }
]

pub handle_sample : ℕ → SamplePayload → Ingest → Store → Ingest × Store
handle_sample now payload i store = elim i.session [
  | none ↦ (i, store)
  | some s ↦ (
    record i { session = some (note_uptime payload.timestamp_ms (note_activity now s)) },
    record_sample s.session_id payload.metric_id payload.value_milli payload.timestamp_ms now store,
  )
]

pub handle_hello : ℕ → HelloPayload → Ingest → Ingest
handle_hello now payload i =
    let (config, s) = answer_hello payload (open_session i.session_id now) in
    send_frame Messages.config (config_to_bytes config) (record i { session = some s })

-- A payload of another size than the struct's is ignored, as is any other type of message.
pub dispatch : ℕ → ParsedFrame → Ingest → Store → Ingest × Store
dispatch now frame i store =
    if frame.type == Messages.hello
    then (elim (hello_of_bytes frame.payload) [
      | none ↦ (i, store)
      | some payload ↦ (handle_hello now payload i, store)
    ])
    else if frame.type == Messages.heartbeat
    then (elim (heartbeat_of_bytes frame.payload) [
      | none ↦ (i, store)
      | some payload ↦ (handle_heartbeat now payload i, store)
    ])
    else if frame.type == Messages.sample
    then (elim (sample_of_bytes frame.payload) [
      | none ↦ (i, store)
      | some payload ↦ handle_sample now payload i store
    ])
    else (i, store)

unfoldable pub handle_frame : (ℕ → ℕ) → ParsedFrame → Reach → Reach
handle_frame clock frame r =
    let (i, store) = dispatch (clock r.handled) frame r.device r.store in
    record { device = i; store = store; handled = r.handled + 1 }

-- `on_readable` on the bytes of the read buffer: it returns at once when there are none.
pub on_bytes : (ℕ → ℕ) → Bytes → Ingest → Parser → Store → Reach × Parser
on_bytes clock [] i parser store = (record { device = i; store = store; handled = 0 }, parser)
on_bytes clock (b ∷ bs) i parser store =
    let start : Reach = record { device = i; store = store; handled = 0 } in
    let (r, parser') = push_bytes max_payload_size (handle_frame clock) (b ∷ bs) start parser in
    (
      record r { device = record (r.device) { conn = consume (length (b ∷ bs)) r.device.conn } },
      parser',
    )

pub on_readable : (ℕ → ℕ) → Ingest → Parser → Store → Reach × Parser
on_readable clock i parser store = on_bytes clock i.conn.read_buffer i parser store

unfoldable pub send_slow_down : ℕ → Ingest → Ingest
send_slow_down new_rate_hz i = elim i.session [
  | none ↦ i
  | some s ↦
      send_frame Messages.slow_down (slow_down_to_bytes ((lower_rate new_rate_hz s).0))
        (record i { session = some ((lower_rate new_rate_hz s).1) })
]
