-- ===== src/Proto/Cobs/RoundTrip.antt =====
-- cobs_decode undoes cobs_encode (proto/cobs.hpp).
use sensor_link.Prelude.{
  ℕ, suc, ◌-◌, ◌≤◌, ◌≡◌, ◌≢◌, ◌∙◌, refl, ap, sym, subst, arith, ◌==◌, if◌then◌else◌,
}
use sensor_link.Prelude.{
  Bool, true, false, not, Bool-cases, inl, inr, [], ◌∷◌, ◌++◌, append_assoc, append-nil, length,
  length-append, All, All-append, Option, none, some, drop, take, take-append,
}
use mathlib.Core.Option
use native.Mathlib.Decide.{dec_lt}
use sensor_link.Proto.Messages.{Bytes, AllBytes}
use sensor_link.Proto.Cobs.{CobsResult, cobs_encode, cobs_decode, succeeded, cobs_encoded_max_size}
use sensor_link.Proto.Cobs.Encode.{cobs_encode_lem}
use sensor_link.Proto.Cobs.Blocks.{
  blocks, encoded, blocks_zero, blocks_more, blocks_last, IsStuffed, length-blocks,
  blocks-IsStuffed,
}
use sensor_link.Proto.Cobs.Decode.{plain, decoded, cobs_decode-fits}

abbrev NonZero : Bytes → Type 0
NonZero = All (λ b. b ≢ 0)

prepend : Bytes → Option Bytes → Option Bytes
prepend xs o = Option.map (λ ys. xs ++ ys) o

prepend-cons :
    (b : ℕ) (xs : Bytes) (o : Option Bytes)
    → Option.map (λ ys. b ∷ ys) (prepend xs o) ≡ prepend (b ∷ xs) o
unfolding prepend
prepend-cons b xs none = refl
prepend-cons b xs (some ys) = refl

prepend-nil : (o : Option Bytes) → o ≡ prepend [] o
unfolding prepend
prepend-nil none = refl
prepend-nil (some ys) = refl

-- The bytes of a block are copied.
plain-block :
    (block rest : Bytes) (pending : Bool)
    → NonZero block
    → plain (length block) pending (block ++ rest) ≡ prepend block (plain 0 pending rest)
unfolding plain
plain-block [] rest pending h = prepend-nil (plain 0 pending rest)
plain-block (b ∷ block) rest pending h =
    ground (arith, plain-block block rest pending h.1, prepend-cons b block (plain 0 pending rest))

-- What stands before a block.
abbrev behind : Bool → Bytes → Bytes
behind pending ys = if pending then 0 ∷ ys else ys

plain-code :
    (pending : Bool) (n : ℕ) (cs ys : Bytes)
    → plain n (not (suc n == 0xff)) cs ≡ some ys
    → plain 0 pending (suc n ∷ cs) ≡ some (behind pending ys)
unfolding plain
plain-code pending n cs ys h = let e : suc n - 1 ≡ n = omega arith in rw e (ground arith)

blocks_end : (block : Bytes) → blocks block [] ≡ suc (length block) ∷ block
unfolding blocks
blocks_end block = refl

ends_with_zero :
    (block : Bytes) (b : ℕ) (bs : Bytes)
    → (b == 0) ≡ true
    → length block ≤ 253
    → plain 0 true (encoded bs) ≡ some (0 ∷ bs)
    → plain 0 (not (suc (length block) == 0xff)) (encoded bs) ≡ some (b ∷ bs)
ends_with_zero block b bs z h e = ground arith

prepend-some :
    (block ys : Bytes) {o : Option Bytes} → o ≡ some ys → prepend block o ≡ some (block ++ ys)
unfolding prepend
prepend-some block ys e = rw e

plain_full :
    (block bs : Bytes)
    → length block ≡ 254
    → NonZero block
    → plain 0 false (encoded bs) ≡ some bs
    → plain 254 (not (suc 254 == 0xff)) (block ++ encoded bs) ≡ some (block ++ bs)
plain_full block bs n nz e =
    subst (λ (k : ℕ). plain k false (block ++ encoded bs) ≡ some (block ++ bs)) n
      (plain-block block (encoded bs) false nz ∙ prepend-some block bs e)

plain-blocks :
    (src block : Bytes) (pending : Bool)
    → length block ≤ 253
    → NonZero block
    → plain 0 pending (blocks block src) ≡ some (behind pending (block ++ src))
plain-blocks [] block pending h nz = rw (blocks_end block) (
    plain-code pending (length block) block (block ++ []) (
      ap (plain (length block) _) (sym (append-nil block))
      ∙ plain-block block [] _ nz
      ∙ unfold plain prepend in refl))
plain-blocks (b ∷ bs) block pending h nz = elim (Bool-cases (b == 0)) [
  | inl z ↦
      ap (plain 0 pending) (blocks_zero block b bs z)
      ∙ plain-code pending (length block) (block ++ encoded bs) (block ++ b ∷ bs) (
          plain-block block (encoded bs) _ nz
          ∙ prepend-some block (b ∷ bs)
              (ends_with_zero block b bs z h (plain-blocks bs [] true (omega arith) tt)))
  | inr z ↦ elim (dec_lt (length block) 253) [
    | yes q ↦
        ap (plain 0 pending) (blocks_more block b bs z q)
        ∙ plain-blocks bs (block ++ b ∷ []) pending (omega (arith, length-append block (b ∷ [])))
            (All-append (λ c. c ≢ 0) block (b ∷ []) nz (ground arith, tt))
        ∙ ap (λ (l : Bytes). some (behind pending l)) (append_assoc block (b ∷ []) bs)
    | no q ↦
        ap (plain 0 pending) (blocks_last block b bs z (omega arith))
        ∙ plain-code pending 254 ((block ++ b ∷ []) ++ encoded bs) ((block ++ b ∷ []) ++ bs) (
            plain_full (block ++ b ∷ []) bs (omega (arith, length-append block (b ∷ [])))
              (All-append (λ c. c ≢ 0) block (b ∷ []) nz (ground arith, tt))
              (plain-blocks bs [] false (omega arith) tt))
        ∙ ap (λ (l : Bytes). some (behind pending l)) (append_assoc block (b ∷ []) bs)
  ]
]

-- The bytes that an encoding stands for are those that were encoded.
pub decoded-encoded : (src : Bytes) → decoded (encoded src) ≡ some src
decoded-encoded src = plain-blocks src [] false (omega arith) tt

-- A buffer of `cobs_encoded_max_size` bytes is enough for `cobs_encode`. What it writes are bytes
-- other than the delimiter, and `cobs_decode` gives the input back from them, into any buffer that
-- has room for it.
pub cobs_round_trip :
    (src buf dst : Bytes) (limit room : ℕ)
    → AllBytes src
    → cobs_encoded_max_size (length src) ≤ limit
    → limit ≤ length buf
    → length src ≤ room
    → room ≤ length dst
    → (n : ℕ) × ((cobs_encode src buf limit).0 ≡ succeeded n)
      × (n ≤ cobs_encoded_max_size (length src))
      × All IsStuffed (take n (cobs_encode src buf limit).1)
      × (cobs_decode (take n (cobs_encode src buf limit).1) dst room
          ≡ (succeeded (length src), src ++ drop (length src) dst))
cobs_round_trip src buf dst limit room bytes fits lb hs ld = (
  length (encoded src),
  ap (λ (r : CobsResult × Bytes). r.0) run,
  bound,
  rw sent (blocks-IsStuffed [] src (omega arith) tt bytes),
  rw sent (cobs_decode-fits (encoded src) dst src room ld (decoded-encoded src) hs),
)
  where
    bound : length (encoded src) ≤ cobs_encoded_max_size (length src)
    bound = omega (arith, length-blocks [] src (omega arith))

    run :
        cobs_encode src buf limit
        ≡ (succeeded (length (encoded src)), encoded src ++ drop (length (encoded src)) buf)
    run = (cobs_encode_lem src buf limit lb).0 (omega (arith, bound))

    sent : take (length (encoded src)) (cobs_encode src buf limit).1 ≡ encoded src
    sent =
        ap (λ (r : CobsResult × Bytes). take (length (encoded src)) r.1) run
        ∙ take-append (encoded src) (drop (length (encoded src)) buf)
