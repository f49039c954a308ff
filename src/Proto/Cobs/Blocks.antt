-- ===== src/Proto/Cobs/Blocks.antt =====
-- Consistent overhead byte stuffing on lists: what the buffers of proto/cobs.hpp hold.
use sensor_link.Prelude.{ℕ, suc, ◌+◌, ◌≤◌, ◌<◌, ◌≡◌, ◌≢◌, arith, ◌==◌, if◌then◌else◌}
use sensor_link.Prelude.{
  [], ◌∷◌, ◌++◌, length, length-append, All, All-append, Bool-cases, inl, inr, append_assoc, true,
  false,
}
use sensor_link.Proto.Messages.{Bytes, AllBytes}
use sensor_link.Proto.Cobs.{cobs_encoded_max_size}

-- The encoding of `src`, where `block` holds the bytes of the block that is being filled.
unfoldable pub blocks : Bytes → Bytes → Bytes
blocks block [] = suc (length block) ∷ block
blocks block (b ∷ bs) =
    let ended = suc (length block) ∷ (block ++ blocks [] bs) in
    let filled = 255 ∷ (block ++ b ∷ blocks [] bs) in
    let longer = blocks (block ++ b ∷ []) bs in
    if b == 0 then ended else if length block == 253 then filled else longer

abbrev pub encoded : Bytes → Bytes
encoded src = blocks [] src

-- One step for each kind of byte.
pub blocks_zero :
    (block : Bytes) (b : ℕ) (bs : Bytes)
    → (b == 0) ≡ true
    → blocks block (b ∷ bs) ≡ suc (length block) ∷ (block ++ encoded bs)
unfolding blocks
blocks_zero block b bs z = rw z

pub blocks_more :
    (block : Bytes) (b : ℕ) (bs : Bytes)
    → (b == 0) ≡ false
    → length block < 253
    → blocks block (b ∷ bs) ≡ blocks (block ++ b ∷ []) bs
unfolding blocks
blocks_more block b bs z h = ground arith

pub blocks_last :
    (block : Bytes) (b : ℕ) (bs : Bytes)
    → (b == 0) ≡ false
    → length block ≡ 253
    → blocks block (b ∷ bs) ≡ 255 ∷ ((block ++ b ∷ []) ++ encoded bs)
unfolding blocks
blocks_last block b bs z h = ground (arith, append_assoc block (b ∷ []) (encoded bs))

pub length-blocks_lower : (block src : Bytes) → suc (length block) ≤ length (blocks block src)
unfolding blocks
length-blocks_lower block [] = omega arith
length-blocks_lower block (b ∷ bs) = ground (
  arith,
  length-append block (blocks [] bs),
  length-append block (b ∷ blocks [] bs),
  length-append block (b ∷ []),
  length-blocks_lower (block ++ b ∷ []) bs,
)

pub length-blocks :
    (block src : Bytes)
    → length block ≤ 253
    → length (blocks block src) ≤ cobs_encoded_max_size (length block + length src)
unfolding blocks
length-blocks block [] h = omega arith
length-blocks block (b ∷ bs) h = ground (
  arith,
  length-append block (blocks [] bs),
  length-append block (b ∷ blocks [] bs),
  length-append block (b ∷ []),
  length-blocks [] bs,
  length-blocks (block ++ b ∷ []) bs,
)

-- No byte of an encoding is the delimiter, and every one is a byte.
abbrev pub IsStuffed : ℕ → Type 0
IsStuffed b = (b ≢ 0) × (b < 256)

pub blocks-IsStuffed :
    (block src : Bytes)
    → length block ≤ 253
    → All IsStuffed block
    → AllBytes src
    → All IsStuffed (blocks block src)
unfolding blocks
blocks-IsStuffed block [] n h hs = ((omega arith, omega arith), h)
blocks-IsStuffed block (b ∷ bs) n h hs = elim (Bool-cases (b == 0)) [
  | inl z ↦ rw z (
    (omega arith, omega arith),
    All-append IsStuffed block _ h (blocks-IsStuffed [] bs (omega arith) tt hs.1),
  )
  | inr nz ↦ rw nz (elim (Bool-cases (length block == 253)) [
    | inl e ↦ rw e (
      (omega arith, omega arith),
      All-append IsStuffed block _ h
          ((ground arith, hs.0), blocks-IsStuffed [] bs (omega arith) tt hs.1),
    )
    | inr e ↦ rw e (
        blocks-IsStuffed (block ++ b ∷ []) bs (ground (arith, length-append block (b ∷ [])))
          (All-append IsStuffed block _ h ((ground arith, hs.0), tt)) hs.1)
  ])
]
