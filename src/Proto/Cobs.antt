-- ===== src/Proto/Cobs.antt =====
-- proto/cobs.hpp. A caller's buffer is a list, which the functions return as they leave it; the
-- capacity is passed beside it, as in the source. Sizes stay at or below the capacity, so `size_t`
-- does not wrap.
pub mod Blocks
pub mod Step
pub mod Encode
pub mod Bytewise
pub mod Decode
pub mod RoundTrip
use sensor_link.Prelude.{ℕ, zero, suc, ◌+◌, ◌-◌, ◌/◌, ◌%◌, ◌==◌, leb, if◌then◌else◌, not, ◌&&◌}
use sensor_link.Prelude.{Bool, true, false, [], ◌∷◌, set, length}
use sensor_link.Proto.Messages.{Bytes}

pub data CobsStatus : Type 0 where
  ok output_overflow invalid_input : CobsStatus

pub record CobsResult : Type 0 where
  pub status : CobsStatus
  pub size : ℕ

abbrev pub succeeded : ℕ → CobsResult
succeeded n = record { status = ok; size = n }

abbrev pub failed : CobsStatus → CobsResult
failed s = record { status = s; size = 0 }

abbrev pub cobs_encoded_max_size : ℕ → ℕ
cobs_encoded_max_size raw_size = raw_size + raw_size / 254 + 1

-- The local variables of `cobs_encode`, with the destination.
pub record EncodeState : Type 0 where
  pub dst : Bytes
  pub write : ℕ
  pub code_index : ℕ
  pub code : ℕ

-- One round goes on from a new state, or returns the overflow.
pub data EncodeStep : Type 0 where
  go_on : EncodeState → EncodeStep
  full : Bytes → EncodeStep

-- Writes the code byte of the current block and starts another block.
pub close_block : ℕ → EncodeState → EncodeStep
close_block limit s =
    let dst = set s.dst s.code_index s.code in
    if leb limit s.write
    then full dst
    else go_on (record { dst = dst; write = s.write + 1; code_index = s.write; code = 1 })

-- One round of the loop of `cobs_encode`. `++code` is on a uint8_t.
pub encode_byte : ℕ → EncodeState → ℕ → EncodeStep
encode_byte limit s byte =
    let s' = record s {
      dst = set s.dst s.write byte;
      write = s.write + 1;
      code = (s.code + 1) % 256;
    } in
    if byte == 0
    then close_block limit s
    else if leb limit s.write
    then full s.dst
    else if s'.code == 0xff
    then close_block limit s'
    else go_on s'

pub encode_loop : ℕ → Bytes → EncodeState → CobsResult × Bytes
encode_loop limit [] s = (succeeded s.write, set s.dst s.code_index s.code)
encode_loop limit (b ∷ bs) s = elim (encode_byte limit s b) [
  | go_on s' ↦ encode_loop limit bs s'
  | full dst ↦ (failed output_overflow, dst)
]

unfoldable pub cobs_encode : Bytes → Bytes → ℕ → CobsResult × Bytes
cobs_encode src dst limit =
    if limit == 0
    then (failed output_overflow, dst)
    else encode_loop limit src (record { dst = dst; write = 1; code_index = 0; code = 1 })

-- What the decoder has when a block ends: the unread input, the destination and `write`; or the
-- failure that it returns.
pub data BlockResult : Type 0 where
  done : Bytes → Bytes → ℕ → BlockResult
  stopped : CobsStatus → Bytes → BlockResult

-- The inner loop of `cobs_decode`, with `left` rounds to go.
pub decode_block : ℕ → ℕ → Bytes → Bytes → ℕ → BlockResult
decode_block limit zero src dst write = done src dst write
decode_block limit (suc left) [] dst write = stopped invalid_input dst
decode_block limit (suc left) (b ∷ bs) dst write =
    let rest = decode_block limit left bs (set dst write b) (write + 1) in
    if b == 0
    then stopped invalid_input dst
    else if leb limit write
    then stopped output_overflow dst
    else rest

abbrev pub has_more : Bytes → Bool
has_more [] = false
has_more (b ∷ bs) = true

-- The implied zero behind a block, which a full block and the last one do not have.
pub implied_zero : ℕ → ℕ → BlockResult → BlockResult
implied_zero limit code (stopped s dst) = stopped s dst
implied_zero limit code (done src dst write) =
    if not (code == 0xff) && has_more src
    then (if leb limit write
        then stopped output_overflow dst
        else done src (set dst write 0) (write + 1))
    else done src dst write

-- The outer loop of `cobs_decode`. Every round reads a byte at least, so that as much fuel as there
-- are bytes is enough: `Bytewise` gives the same results with no fuel.
pub decode_loop : ℕ → ℕ → Bytes → Bytes → ℕ → CobsResult × Bytes
decode_loop limit fuel [] dst write = (succeeded write, dst)
decode_loop limit zero (code ∷ rest) dst write = (failed invalid_input, dst)
decode_loop limit (suc fuel) (code ∷ rest) dst write =
    let block = implied_zero limit code (decode_block limit (code - 1) rest dst write) in
    let next : CobsResult × Bytes = (elim block [
      | done src dst' write' ↦ decode_loop limit fuel src dst' write'
      | stopped s dst' ↦ (failed s, dst')
    ]) in
    if code == 0 then (failed invalid_input, dst) else next

unfoldable pub cobs_decode : Bytes → Bytes → ℕ → CobsResult × Bytes
cobs_decode src dst limit = decode_loop limit (length src) src dst 0
