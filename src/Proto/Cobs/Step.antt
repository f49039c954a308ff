-- ===== src/Proto/Cobs/Step.antt =====
-- One round of `cobs_encode` in proto/cobs.hpp, for a buffer whose parts are known.
use sensor_link.Prelude.{ℕ, suc, ◌+◌, ◌%◌, ◌≤◌, ◌<◌, ◌≡◌, ◌∙◌, ap, sym, arith, ◌==◌}
use sensor_link.Prelude.{
  true, false, [], ◌∷◌, ◌++◌, append_assoc, length, length-append, set, set-append,
  set-append_right, set-append,
}
use native.Mathlib.Decide.{dec_lt}
use sensor_link.Proto.Messages.{Bytes}
use sensor_link.Proto.Cobs.{EncodeState, go_on, full, close_block, encode_byte}

-- The variables of the encoder when `out` is finished, `hole` is kept for the code byte of the
-- block being filled, and `tail` is the unused rest of the buffer.
abbrev pub state : Bytes → ℕ → Bytes → Bytes → EncodeState
state out hole block tail = record {
  dst = out ++ hole ∷ (block ++ tail);
  write = length out + suc (length block);
  code_index = length out;
  code = suc (length block);
}

write_block :
    (out : Bytes) (hole : ℕ) (block : Bytes) (x : ℕ) (tail : Bytes) (b : ℕ)
    → set (out ++ hole ∷ (block ++ x ∷ tail)) (length out + suc (length block)) b
      ≡ out ++ hole ∷ ((block ++ b ∷ []) ++ tail)
write_block out hole block x tail b =
    set-append_right out (hole ∷ (block ++ x ∷ tail)) (suc (length block)) b
    ∙ ap (λ (l : Bytes). out ++ hole ∷ l)
        (set-append block x tail b ∙ sym (append_assoc block (b ∷ []) tail))

close_fits :
    (limit : ℕ) (out : Bytes) (hole : ℕ) (block : Bytes) (x : ℕ) (tail : Bytes)
    → length out + suc (length block) < limit
    → close_block limit (state out hole block (x ∷ tail))
      ≡ go_on (state (out ++ suc (length block) ∷ block) x [] tail)
unfolding close_block
close_fits limit out hole block x tail h = ground (
  arith,
  set-append out hole (block ++ x ∷ tail) (suc (length block)),
  append_assoc out (suc (length block) ∷ block) (x ∷ tail),
  length-append out (suc (length block) ∷ block),
)

close_full :
    (limit : ℕ) (s : EncodeState)
    → limit ≤ s.write
    → close_block limit s ≡ full (set s.dst s.code_index s.code)
unfolding close_block
close_full limit s h = ground arith

-- The variables with `byte` stored and counted.
abbrev advanced : EncodeState → ℕ → EncodeState
advanced s byte = record s {
  dst = set s.dst s.write byte;
  write = s.write + 1;
  code = (s.code + 1) % 256;
}

advanced-state :
    (out : Bytes) (hole : ℕ) (block : Bytes) (x : ℕ) (tail : Bytes) (b : ℕ)
    → length block ≤ 253
    → advanced (state out hole block (x ∷ tail)) b ≡ state out hole (block ++ b ∷ []) tail
advanced-state out hole block x tail b h =
    ground (arith, write_block out hole block x tail b, length-append block (b ∷ []))

encode_byte_zero :
    (limit : ℕ) (s : EncodeState) (b : ℕ)
    → (b == 0) ≡ true
    → encode_byte limit s b ≡ close_block limit s
unfolding encode_byte
encode_byte_zero limit s b z = rw z

encode_byte_last :
    (limit : ℕ) (s : EncodeState) (b : ℕ)
    → (b == 0) ≡ false
    → s.write < limit
    → s.code ≡ 254
    → encode_byte limit s b ≡ close_block limit (advanced s b)
unfolding encode_byte
encode_byte_last limit s b z h e = ground arith

encode_byte_more :
    (limit : ℕ) (s : EncodeState) (b : ℕ)
    → (b == 0) ≡ false
    → s.write < limit
    → s.code < 254
    → encode_byte limit s b ≡ go_on (advanced s b)
unfolding encode_byte
encode_byte_more limit s b z h e = ground arith

encode_byte_full :
    (limit : ℕ) (s : EncodeState) (b : ℕ)
    → (b == 0) ≡ false
    → limit ≤ s.write
    → encode_byte limit s b ≡ full s.dst
unfolding encode_byte
encode_byte_full limit s b z h = ground arith

module _ (limit : ℕ) (out : Bytes) (hole : ℕ) (block : Bytes) where
  -- A zero ends the block.
  pub zero_fits :
      (x : ℕ) (tail : Bytes) (b : ℕ)
      → (b == 0) ≡ true
      → length out + suc (length block) < limit
      → encode_byte limit (state out hole block (x ∷ tail)) b
        ≡ go_on (state (out ++ suc (length block) ∷ block) x [] tail)
  zero_fits x tail b z h =
      encode_byte_zero limit (state out hole block (x ∷ tail)) b z
      ∙ close_fits limit out hole block x tail h

  pub zero_full :
      (tail : Bytes) (b : ℕ)
      → (b == 0) ≡ true
      → limit ≤ length out + suc (length block)
      → (dst : Bytes) × (encode_byte limit (state out hole block tail) b ≡ full dst)
  zero_full tail b z h = (
    _,
    encode_byte_zero limit (state out hole block tail) b z
        ∙ close_full limit (state out hole block tail) h,
  )

  pub byte_full :
      (tail : Bytes) (b : ℕ)
      → (b == 0) ≡ false
      → limit ≤ length out + suc (length block)
      → (dst : Bytes) × (encode_byte limit (state out hole block tail) b ≡ full dst)
  byte_full tail b z h =
      ((state out hole block tail).dst, encode_byte_full limit (state out hole block tail) b z h)

  -- A byte that does not fill the block.
  pub byte_fits :
      (x : ℕ) (tail : Bytes) (b : ℕ)
      → (b == 0) ≡ false
      → length block < 253
      → length out + suc (length block) < limit
      → encode_byte limit (state out hole block (x ∷ tail)) b
        ≡ go_on (state out hole (block ++ b ∷ []) tail)
  byte_fits x tail b z n h =
      encode_byte_more limit (state out hole block (x ∷ tail)) b z h (omega arith)
      ∙ ap go_on (advanced-state out hole block x tail b (omega arith))

  -- A byte that fills the block.
  pub last_fits :
      (x y : ℕ) (tail : Bytes) (b : ℕ)
      → (b == 0) ≡ false
      → length block ≡ 253
      → length out + suc (length block) + 1 < limit
      → encode_byte limit (state out hole block (x ∷ y ∷ tail)) b
        ≡ go_on (state (out ++ 255 ∷ (block ++ b ∷ [])) y [] tail)
  last_fits x y tail b z n h =
      encode_byte_last limit (state out hole block (x ∷ y ∷ tail)) b z (omega arith) (omega arith)
      ∙ ap (close_block limit) (advanced-state out hole block x (y ∷ tail) b (omega arith))
      ∙ close_fits limit out hole (block ++ b ∷ []) y tail
          (omega (arith, length-append block (b ∷ [])))
      ∙ ap (λ (c : ℕ). go_on (state (out ++ c ∷ (block ++ b ∷ [])) y [] tail))
          (omega (arith, length-append block (b ∷ [])))

  pub last_full :
      (x : ℕ) (tail : Bytes) (b : ℕ)
      → (b == 0) ≡ false
      → length block ≡ 253
      → limit ≤ length out + suc (length block) + 1
      → (dst : Bytes) × (encode_byte limit (state out hole block (x ∷ tail)) b ≡ full dst)
  last_full x tail b z n h = elim (dec_lt (length out + suc (length block)) limit) [
    | yes p ↦ (
      _,
      encode_byte_last limit (state out hole block (x ∷ tail)) b z p (omega arith)
          ∙ close_full limit (advanced (state out hole block (x ∷ tail)) b) (omega arith),
    )
    | no p ↦ byte_full (x ∷ tail) b z (omega arith)
  ]
