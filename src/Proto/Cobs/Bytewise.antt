-- ===== src/Proto/Cobs/Bytewise.antt =====
-- cobs_decode of proto/cobs.hpp as one loop over the input: the two nested loops, with the fuel
-- that they are given, do the same.
use sensor_link.Prelude.{
  ℕ, zero, suc, ◌+◌, ◌-◌, ◌≤◌, ◌≡◌, ◌∙◌, refl, ap, arith, ◌==◌, leb, if◌then◌else◌,
}
use sensor_link.Prelude.{Bool, false, not, ◌&&◌, [], ◌∷◌, length, set, length-set}
use sensor_link.Proto.Messages.{Bytes}
use sensor_link.Proto.Cobs.{
  CobsResult, BlockResult, done, stopped, decode_block, implied_zero, decode_loop, cobs_decode,
  succeeded, failed, output_overflow, invalid_input,
}

-- `left` bytes of the block are still to be copied, and `pending` says that a zero follows it if
-- any input does.
unfoldable pub bytewise : ℕ → ℕ → Bool → Bytes → Bytes → ℕ → CobsResult × Bytes
bytewise limit zero pending [] dst write = (succeeded write, dst)
bytewise limit (suc left) pending [] dst write = (failed invalid_input, dst)
bytewise limit zero pending (c ∷ cs) dst write =
    let dst' = if pending then set dst write 0 else dst in
    let write' = if pending then write + 1 else write in
    let rest = bytewise limit (c - 1) (not (c == 0xff)) cs dst' write' in
    if pending && leb limit write
    then (failed output_overflow, dst)
    else if c == 0
    then (failed invalid_input, dst')
    else rest
bytewise limit (suc left) pending (b ∷ bs) dst write =
    let rest = bytewise limit left pending bs (set dst write b) (write + 1) in
    if b == 0
    then (failed invalid_input, dst)
    else if leb limit write
    then (failed output_overflow, dst)
    else rest

-- What the outer loop does once the inner one has ended.
resume : ℕ → ℕ → BlockResult → CobsResult × Bytes
resume limit fuel (done src dst write) = decode_loop limit fuel src dst write
resume limit fuel (stopped s dst) = (failed s, dst)

decode_loop-resume :
    (limit fuel c : ℕ) (cs dst : Bytes) (write : ℕ)
    → decode_loop limit (suc fuel) (c ∷ cs) dst write ≡ (
        if c == 0
        then (failed invalid_input, dst)
        else resume limit fuel (implied_zero limit c (decode_block limit (c - 1) cs dst write)))
unfolding decode_loop resume
decode_loop-resume limit fuel c cs dst write = ground arith

-- The step from one block to the next.
next_block :
    (limit fuel code : ℕ) (c : ℕ) (cs dst : Bytes) (write : ℕ)
    → ((dst' : Bytes) (write' : ℕ)
        → bytewise limit (c - 1) (not (c == 0xff)) cs dst' write'
          ≡ resume limit fuel (implied_zero limit c (decode_block limit (c - 1) cs dst' write')))
    → bytewise limit 0 (not (code == 0xff)) (c ∷ cs) dst write
      ≡ resume limit (suc fuel) (implied_zero limit code (done (c ∷ cs) dst write))
unfolding bytewise implied_zero resume
next_block limit fuel code c cs dst write ih = ground (
  arith,
  decode_loop-resume limit fuel c cs dst write,
  decode_loop-resume limit fuel c cs (set dst write 0) (write + 1),
  ih dst write,
  ih (set dst write 0) (write + 1),
)

-- A byte inside a block.
copy_byte :
    (limit fuel code left b : ℕ) (bs dst : Bytes) (write : ℕ)
    → bytewise limit left (not (code == 0xff)) bs (set dst write b) (write + 1)
      ≡ resume limit fuel
          (implied_zero limit code (decode_block limit left bs (set dst write b) (write + 1)))
    → bytewise limit (suc left) (not (code == 0xff)) (b ∷ bs) dst write
      ≡ resume limit fuel
          (implied_zero limit code (decode_block limit (suc left) (b ∷ bs) dst write))
unfolding bytewise implied_zero resume decode_block
copy_byte limit fuel code left b bs dst write ih = ground arith

bytewise-resume :
    (limit fuel code left : ℕ) (src dst : Bytes) (write : ℕ)
    → length src ≤ fuel
    → bytewise limit left (not (code == 0xff)) src dst write
      ≡ resume limit fuel (implied_zero limit code (decode_block limit left src dst write))
unfolding decode_block
bytewise-resume limit fuel code zero [] dst write h =
    unfold bytewise implied_zero resume decode_loop in ground arith
bytewise-resume limit fuel code (suc left) [] dst write h =
    unfold bytewise implied_zero resume in refl
bytewise-resume limit zero code left (c ∷ cs) dst write h = absurd (omega arith)
bytewise-resume limit (suc fuel) code zero (c ∷ cs) dst write h =
    next_block limit fuel code c cs dst write
      (λ dst' write'. bytewise-resume limit fuel c (c - 1) cs dst' write' (omega arith))
bytewise-resume limit (suc fuel) code (suc left) (b ∷ bs) dst write h =
    copy_byte limit (suc fuel) code left b bs dst write
      (bytewise-resume limit (suc fuel) code left bs (set dst write b) (write + 1) (omega arith))

first_block :
    (limit fuel c : ℕ) (cs dst : Bytes)
    → bytewise limit (c - 1) (not (c == 0xff)) cs dst 0
      ≡ resume limit fuel (implied_zero limit c (decode_block limit (c - 1) cs dst 0))
    → (if c == 0
        then (failed invalid_input, dst)
        else resume limit fuel (implied_zero limit c (decode_block limit (c - 1) cs dst 0)))
      ≡ bytewise limit 0 false (c ∷ cs) dst 0
unfolding bytewise
first_block limit fuel c cs dst ih = ground arith

-- With a unit of fuel for each byte the nested loops are the single one, on every input: the fuel
-- never runs out.
pub cobs_decode-bytewise :
    (src dst : Bytes) (limit : ℕ) → cobs_decode src dst limit ≡ bytewise limit 0 false src dst 0
unfolding cobs_decode
cobs_decode-bytewise [] dst limit = unfold decode_loop bytewise in refl
cobs_decode-bytewise (c ∷ cs) dst limit =
    decode_loop-resume limit (length cs) c cs dst 0
    ∙ first_block limit (length cs) c cs dst
        (bytewise-resume limit (length cs) c (c - 1) cs dst 0 (omega arith))

length-bytewise :
    (limit left : ℕ) (pending : Bool) (src dst : Bytes) (write : ℕ)
    → length (bytewise limit left pending src dst write).1 ≡ length dst
unfolding bytewise
length-bytewise limit zero pending [] dst write = refl
length-bytewise limit (suc left) pending [] dst write = refl
length-bytewise limit zero pending (c ∷ cs) dst write = ground (
  arith,
  length-set dst write 0,
  length-bytewise limit (c - 1) (not (c == 0xff)) cs dst write,
  length-bytewise limit (c - 1) (not (c == 0xff)) cs (set dst write 0) (write + 1),
)
length-bytewise limit (suc left) pending (b ∷ bs) dst write = ground (
  arith,
  length-set dst write b,
  length-bytewise limit left pending bs (set dst write b) (write + 1),
)

-- The destination keeps its length, whatever the input.
pub length-cobs_decode :
    (src dst : Bytes) (limit : ℕ) → length (cobs_decode src dst limit).1 ≡ length dst
length-cobs_decode src dst limit =
    ap (λ (r : CobsResult × Bytes). length r.1) (cobs_decode-bytewise src dst limit)
    ∙ length-bytewise limit 0 false src dst 0
