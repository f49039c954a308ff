-- ===== src/Proto/Parser/Inv.antt =====
-- The invariant of `frame_parser` in proto/frame_parser.hpp.
use sensor_link.Prelude.{ℕ, ◌≤◌, ◌≡◌, arith, length, length-set, length-replicate, take, ◌==◌}
use sensor_link.Proto.Cobs.Bytewise.{length-cobs_decode}
use sensor_link.Proto.Parser.{
  Parser, State, Action, no_error, fail, check_blob, decode_into, finish_frame, act, push_byte,
  table, fresh, max_blob, buffer_size, ignore, start, append, complete,
}

-- The arrays have their declared sizes, and `buffered` counts bytes inside the buffer.
pub record IsValid (max_payload : ℕ) (p : Parser) : Type 0 where
  pub buffer_length : length p.buffer ≡ buffer_size max_payload
  pub blob_length : length p.blob ≡ max_blob max_payload
  pub in_buffer : p.buffered ≤ buffer_size max_payload

pub fresh-IsValid : (max_payload : ℕ) → IsValid max_payload (fresh max_payload)
fresh-IsValid m = record {
  buffer_length = length-replicate (buffer_size m) 0;
  blob_length = length-replicate (max_blob m) 0;
  in_buffer = omega arith;
}

module _ (max_payload : ℕ) where
  act-IsValid :
      (a : Action) (next : State) (byte : ℕ) (p : Parser)
      → IsValid max_payload p
      → IsValid max_payload (act max_payload a next byte p).1
  unfolding act finish_frame decode_into check_blob fail
  act-IsValid ignore next byte p v = ground arith
  act-IsValid start next byte p v = ground (arith, length-set p.buffer 0 byte)
  act-IsValid append next byte p v = ground (arith, length-set p.buffer p.buffered byte)
  act-IsValid complete next byte p v =
      ground (arith, length-cobs_decode (take p.buffered p.buffer) p.blob (max_blob max_payload))

  pub push_byte-IsValid :
      (p : Parser) (byte : ℕ)
      → IsValid max_payload p
      → IsValid max_payload (push_byte max_payload p byte).1
  unfolding push_byte
  push_byte-IsValid p byte v =
      act-IsValid (table p.state (byte == 0)).action (table p.state (byte == 0)).next byte
        (record p { last_error = no_error }) (ground arith)
