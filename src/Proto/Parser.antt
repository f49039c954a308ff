-- ===== src/Proto/Parser.antt =====
-- proto/frame_parser.hpp: the receiving machine, one byte at a time. A frame's payload pointer is
-- modelled by the bytes that it points to when the frame is handed over. The counters are size_t in
-- the source and do not wrap here.
pub mod Inv
pub mod Phases
pub mod Refine
pub mod Count
pub mod Judge
pub mod Verdict
pub mod Stream
pub mod Deliver
pub mod Tests
use sensor_link.Prelude.{ℕ, ◌+◌, ltb, ◌==◌, if◌then◌else◌, not, Bool, true, false, [], ◌∷◌, length}
use sensor_link.Prelude.{set, take, drop, get_or, replicate, Option, none, some}
use sensor_link.Proto.Messages.{Bytes, MessageType, frame_header_size, frame_crc_size}
use sensor_link.Proto.Crc.{crc16}
use sensor_link.Proto.Cobs
use sensor_link.Proto.Cobs.{CobsResult, CobsStatus, cobs_decode, cobs_encoded_max_size}

pub data ParseError : Type 0 where
  no_error cobs_error bad_length bad_crc frame_too_long : ParseError

pub record ParsedFrame : Type 0 where
  pub type : MessageType
  pub payload : Bytes
  pub payload_size : ℕ

pub data State : Type 0 where
  hunting in_frame skip_to_delimiter : State

pub data Action : Type 0 where
  ignore start append complete : Action

pub record Transition : Type 0 where
  pub next : State
  pub action : Action

-- kTable[state][is_delimiter]
pub table : State → Bool → Transition
table hunting false = record { next = in_frame; action = start }
table hunting true = record { next = hunting; action = ignore }
table in_frame false = record { next = in_frame; action = append }
table in_frame true = record { next = hunting; action = complete }
table skip_to_delimiter false = record { next = skip_to_delimiter; action = ignore }
table skip_to_delimiter true = record { next = hunting; action = ignore }

pub record Parser : Type 0 where
  pub state : State
  pub buffered : ℕ
  pub buffer : Bytes
  pub blob : Bytes
  pub frame : ParsedFrame
  pub last_error : ParseError
  pub frames_ok : ℕ
  pub frames_dropped : ℕ

abbrev pub max_blob : ℕ → ℕ
max_blob max_payload = frame_header_size + max_payload + frame_crc_size

abbrev pub buffer_size : ℕ → ℕ
buffer_size max_payload = cobs_encoded_max_size (max_blob max_payload)

-- A parser as it is constructed.
abbrev pub fresh : ℕ → Parser
fresh max_payload = record {
  state = hunting;
  buffered = 0;
  buffer = replicate (buffer_size max_payload) 0;
  blob = replicate (max_blob max_payload) 0;
  frame = record { type = 0; payload = []; payload_size = 0 };
  last_error = no_error;
  frames_ok = 0;
  frames_dropped = 0;
}

pub fail : ParseError → Parser → Parser
fail error p = record p { last_error = error; frames_dropped = p.frames_dropped + 1 }

-- `finish_frame` behind the call of `cobs_decode`, which left `blob` in `p`.
pub check_blob : CobsResult → Parser → Option ParsedFrame × Parser
check_blob result p =
    let declared = get_or p.blob 1 0 in
    let frame : ParsedFrame = record {
      type = get_or p.blob 0 0;
      payload = take declared (drop frame_header_size p.blob);
      payload_size = declared;
    } in
    if ltb result.size (frame_header_size + frame_crc_size)
    then (none, fail bad_length p)
    else if not (result.size == frame_header_size + declared + frame_crc_size)
    then (none, fail bad_length p)
    else if not (crc16 (take result.size p.blob) == 0)
    then (none, fail bad_crc p)
    else (some frame, record p { frame = frame; frames_ok = p.frames_ok + 1 })

pub decode_into : CobsResult × Bytes → Parser → Option ParsedFrame × Parser
decode_into (result, blob) p = elim result.status [
  | Cobs.ok ↦ check_blob result (record p { blob = blob })
  | _ ↦ (none, fail cobs_error (record p { blob = blob }))
]

module _ (max_payload : ℕ) where
  pub finish_frame : Parser → Option ParsedFrame × Parser
  finish_frame p =
      decode_into (cobs_decode (take p.buffered p.buffer) p.blob (max_blob max_payload)) p

  -- The cases of the switch. The state is set behind it, except on an overlong frame.
  pub act : Action → State → ℕ → Parser → Option ParsedFrame × Parser
  act ignore next byte p = (none, record p { state = next })
  act start next byte p =
      (none, record p { state = next; buffer = set p.buffer 0 byte; buffered = 1 })
  act append next byte p =
      if p.buffered == buffer_size max_payload
      then (none, record (fail frame_too_long p) { buffered = 0; state = skip_to_delimiter })
      else (
        none,
        record p { state = next; buffer = set p.buffer p.buffered byte; buffered = p.buffered + 1 },
      )
  act complete next byte p =
      let (completed, p') = finish_frame p in (completed, record p' { buffered = 0; state = next })

  pub push_byte : Parser → ℕ → Option ParsedFrame × Parser
  push_byte p byte =
      let step = table p.state (byte == 0) in
      act step.action step.next byte (record p { last_error = no_error })

  -- The sink is a callable with a state of its own.
  unfoldable pub push_bytes {ℓ} :
      {S : Type ℓ} → (ParsedFrame → S → S) → Bytes → S → Parser → S × Parser
  push_bytes sink [] s p = (s, p)
  push_bytes sink (b ∷ bs) s p =
      let (completed, p') = push_byte p b in
      push_bytes sink bs (elim completed [ none ↦ s | some frame ↦ sink frame s ]) p'
