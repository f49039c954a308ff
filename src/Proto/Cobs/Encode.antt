-- ===== src/Proto/Cobs/Encode.antt =====
-- cobs_encode of proto/cobs.hpp writes the encoding of its input, or reports that it does not fit.
use sensor_link.Prelude.{
  ℕ, zero, suc, ◌+◌, ◌-◌, ◌≤◌, ◌<◌, ◌≡◌, ◌∙◌, refl, subst₂, ap, ap₂, sym, arith, ◌==◌, false,
}
use sensor_link.Prelude.{
  [], ◌∷◌, ◌++◌, append_assoc, length, length-append, set-append, drop, drop_pos, Bool-cases, inl,
  inr, cons_of_lt,
}
use native.Mathlib.Decide.{dec_lt}
use sensor_link.Proto.Messages.{Bytes}
use sensor_link.Proto.Cobs.{
  CobsResult, encode_loop, encode_byte, go_on, full, EncodeState, cobs_encode, succeeded, failed,
  output_overflow,
}
use sensor_link.Proto.Cobs.Blocks.{
  blocks, encoded, length-blocks_lower, blocks_zero, blocks_more, blocks_last,
}
use sensor_link.Proto.Cobs.Step.{
  state, zero_fits, zero_full, byte_fits, byte_full, last_fits, last_full,
}

-- The result `r` of the loop, started with `out` finished: where `enc` fits it stands behind `out`,
-- before what the buffer held there; where it does not fit, the result is the overflow.
abbrev Encodes : ℕ → Bytes → Bytes → Bytes → Bytes → CobsResult × Bytes → Type 0
Encodes limit out block tail enc r =
    (length out + length enc ≤ limit
      → r ≡ (
        succeeded (length out + length enc),
        out ++ (enc ++ drop (length enc - suc (length block)) tail),
      ))
    × (limit < length out + length enc → r.0 ≡ failed output_overflow)

module _ (limit : ℕ) (out block : Bytes) (r : CobsResult × Bytes) where
  Encodes-full :
      (tail enc : Bytes)
      → r.0 ≡ failed output_overflow
      → limit < length out + length enc
      → Encodes limit out block tail enc r
  Encodes-full tail enc e h = ((λ p. absurd (omega arith)), λ p. e)

  Encodes-grow :
      (b x : ℕ) (tail enc : Bytes)
      → suc (suc (length block)) ≤ length enc
      → Encodes limit out (block ++ b ∷ []) tail enc r
      → Encodes limit out block (x ∷ tail) enc r
  Encodes-grow b x tail enc h e = (
    (λ p.
        e.0 p ∙ ap (λ (l : Bytes). (succeeded (length out + length enc), out ++ (enc ++ l))) same),
    e.1,
  )
    where
      same :
          drop (length enc - suc (length (block ++ b ∷ []))) tail
          ≡ drop (length enc - suc (length block)) (x ∷ tail)
      same =
          ap (λ (k : ℕ). drop k tail) (omega (arith, length-append block (b ∷ [])))
          ∙ sym (drop_pos (length enc - suc (length block)) x tail (omega arith))

  Encodes-next :
      (c x : ℕ) (tail enc : Bytes)
      → 1 ≤ length enc
      → Encodes limit (out ++ c ∷ block) [] tail enc r
      → Encodes limit out block (x ∷ tail) (c ∷ (block ++ enc)) r
  Encodes-next c x tail enc h e = (
    (λ p.
        e.0 (omega (arith, lengths)) ∙ ap₂ (λ (n : ℕ) (l : Bytes). (succeeded n, l)) lengths same),
    (λ p. e.1 (omega (arith, lengths))),
  )
    where
      lengths : length (out ++ c ∷ block) + length enc ≡ length out + suc (length (block ++ enc))
      lengths = omega (arith, length-append out (c ∷ block), length-append block enc)

      rest :
          drop (length enc - 1) tail
          ≡ drop (suc (length (block ++ enc)) - suc (length block)) (x ∷ tail)
      rest =
          sym (drop_pos (length enc) x tail h)
          ∙ ap (λ (k : ℕ). drop k (x ∷ tail)) (omega (arith, length-append block enc))

      same :
          (out ++ c ∷ block) ++ (enc ++ drop (length enc - 1) tail)
          ≡ out
            ++ c
              ∷ ((block ++ enc)
                  ++ drop (suc (length (block ++ enc)) - suc (length block)) (x ∷ tail))
      same =
          append_assoc out (c ∷ block) (enc ++ drop (length enc - 1) tail)
          ∙ ap (λ (l : Bytes). out ++ c ∷ l)
              (sym (append_assoc block enc (drop (length enc - 1) tail))
                ∙ ap (λ (l : Bytes). (block ++ enc) ++ l) rest)

module _ (limit b : ℕ) (bs : Bytes) (s : EncodeState) where
  encode_loop-go :
      {t : EncodeState}
      → encode_byte limit s b ≡ go_on t
      → encode_loop limit (b ∷ bs) s ≡ encode_loop limit bs t
  unfolding encode_loop
  encode_loop-go e = rw (e, encode_loop)

  encode_loop-full :
      (dst : Bytes) × (encode_byte limit s b ≡ full dst)
      → (encode_loop limit (b ∷ bs) s).0 ≡ failed output_overflow
  unfolding encode_loop
  encode_loop-full (dst, e) = rw (e, encode_loop)

length-blocks_cons :
    (block : Bytes) (b : ℕ) (bs : Bytes)
    → length block ≤ 253
    → suc (suc (length block)) ≤ length (blocks block (b ∷ bs))
unfolding blocks
length-blocks_cons block b bs h = ground (
  arith,
  length-append block (encoded bs),
  length-append block (b ∷ encoded bs),
  length-append block (b ∷ []),
  length-blocks_lower [] bs,
  length-blocks_lower (block ++ b ∷ []) bs,
)

-- The rounds that overflow.
overflows :
    (limit : ℕ) (out : Bytes) (hole : ℕ) (block tail : Bytes) (b : ℕ) (bs : Bytes)
    → length block ≤ 253
    → limit ≤ length out + suc (length block)
    → Encodes limit out block tail
        (blocks block (b ∷ bs))
        (encode_loop limit (b ∷ bs) (state out hole block tail))
overflows limit out hole block tail b bs h f = elim (Bool-cases (b == 0)) [
  | inl z ↦
      Encodes-full limit out block _ tail _
        (encode_loop-full limit b bs _ (zero_full limit out hole block tail b z f))
        (omega (arith, length-blocks_cons block b bs h))
  | inr z ↦
      Encodes-full limit out block _ tail _
        (encode_loop-full limit b bs _ (byte_full limit out hole block tail b z f))
        (omega (arith, length-blocks_cons block b bs h))
]

-- The result of the loop carried over to an equal one, for an equal encoding.
Encodes-eq :
    (limit : ℕ) (out block tail : Bytes) {enc enc' : Bytes} {r r' : CobsResult × Bytes}
    → enc ≡ enc'
    → r ≡ r'
    → Encodes limit out block tail enc' r'
    → Encodes limit out block tail enc r
Encodes-eq limit out block tail p q h = subst₂ (Encodes limit out block tail) (sym p) (sym q) h

-- The input has ended: the last block is closed.
ends :
    (limit : ℕ) (out : Bytes) (hole : ℕ) (block tail : Bytes)
    → length out + suc (length block) ≤ limit
    → Encodes limit out block tail
        (blocks block [])
        (encode_loop limit [] (state out hole block tail))
unfolding blocks encode_loop
ends limit out hole block tail lo = (
  (λ p.
      ap (λ (l : Bytes). (succeeded (length out + suc (length block)), l))
        (set-append out hole (block ++ tail) (suc (length block))
          ∙ ap (λ (l : Bytes). out ++ suc (length block) ∷ (block ++ l)) unused)),
  (λ p. absurd (omega arith)),
)
  where
    unused : tail ≡ drop (suc (length block) - suc (length block)) tail
    unused =
        let none_dropped : 0 ≡ suc (length block) - suc (length block) = omega arith in
        ap (λ (k : ℕ). drop k tail) none_dropped

out_lengths :
    (out block : Bytes) (b : ℕ)
    → length (out ++ 255 ∷ (block ++ b ∷ [])) ≡ length out + suc (suc (length block))
out_lengths out block b =
    omega (arith, length-append out (255 ∷ (block ++ b ∷ [])), length-append block (b ∷ []))

long_enough :
    (limit : ℕ) (out block : Bytes) (b : ℕ) (bs : Bytes)
    → (b == 0) ≡ false
    → length block ≡ 253
    → limit ≤ length out + suc (length block) + 1
    → limit < length out + length (blocks block (b ∷ bs))
long_enough limit out block b bs z h g = omega (
  arith,
  ap (λ (l : Bytes). length l) (blocks_last block b bs z h),
  length-append (block ++ b ∷ []) (encoded bs),
  length-append block (b ∷ []),
  length-blocks_lower [] bs,
)

-- The byte that fills the block, with room for the next code byte.
fills :
    (limit : ℕ) (out : Bytes) (hole : ℕ) (block : Bytes) (x y : ℕ) (tail ts : Bytes) (b : ℕ)
    (bs : Bytes)
    → (b == 0) ≡ false
    → length block ≡ 253
    → length out + suc (length block) + 1 < limit
    → tail ≡ y ∷ ts
    → Encodes limit
        (out ++ 255 ∷ (block ++ b ∷ []))
        []
        ts
        (encoded bs)
        (encode_loop limit bs (state (out ++ 255 ∷ (block ++ b ∷ [])) y [] ts))
    → Encodes limit out block
        (x ∷ tail)
        (blocks block (b ∷ bs))
        (encode_loop limit (b ∷ bs) (state out hole block (x ∷ tail)))
fills limit out hole block x y tail ts b bs z h g e ih = rw e (
    Encodes-eq limit out block (x ∷ y ∷ ts) (blocks_last block b bs z h)
      (encode_loop-go limit b bs _ (last_fits limit out hole block x y ts b z h g))
      (Encodes-grow limit out block _ b x (y ∷ ts) (255 ∷ ((block ++ b ∷ []) ++ encoded bs))
        (omega (
          arith,
          length-append (block ++ b ∷ []) (encoded bs),
          length-append block (b ∷ []),
          length-blocks_lower [] bs,
        ))
        (Encodes-next limit out (block ++ b ∷ []) _ 255 y ts (encoded bs)
          (length-blocks_lower [] bs) ih)))

-- From every state whose parts are known, the loop encodes what is left of the input.
encode_loop-Encodes :
    (limit : ℕ) (src out : Bytes) (hole : ℕ) (block tail : Bytes)
    → length block ≤ 253
    → length out + suc (length block) ≤ limit
    → limit ≤ length out + suc (length block) + length tail
    → Encodes limit out block tail
        (blocks block src)
        (encode_loop limit src (state out hole block tail))
encode_loop-Encodes limit [] out hole block tail h lo hi = ends limit out hole block tail lo
encode_loop-Encodes limit (b ∷ bs) out hole block [] h lo hi =
    overflows limit out hole block [] b bs h (omega arith)
encode_loop-Encodes limit (b ∷ bs) out hole block (x ∷ tail) h lo hi =
    elim (dec_lt (length out + suc (length block)) limit) [
      | no f ↦ overflows limit out hole block (x ∷ tail) b bs h (omega arith)
      | yes f ↦ elim (Bool-cases (b == 0)) [
        | inl z ↦
            Encodes-eq limit out block (x ∷ tail) (blocks_zero block b bs z)
              (encode_loop-go limit b bs _ (zero_fits limit out hole block x tail b z f))
              (Encodes-next limit out block _ (suc (length block)) x tail (encoded bs)
                (length-blocks_lower [] bs)
                (encode_loop-Encodes limit bs (out ++ suc (length block) ∷ block) x [] tail
                  (omega arith) (omega (arith, length-append out (suc (length block) ∷ block)))
                  (omega (arith, length-append out (suc (length block) ∷ block)))))
        | inr z ↦ elim (dec_lt (length block) 253) [
          | yes q ↦
              Encodes-eq limit out block (x ∷ tail) (blocks_more block b bs z q)
                (encode_loop-go limit b bs _ (byte_fits limit out hole block x tail b z q f))
                (Encodes-grow limit out block _ b x tail _
                  (omega
                    (arith, length-append block (b ∷ []), length-blocks_lower (block ++ b ∷ []) bs))
                  (encode_loop-Encodes limit bs out hole (block ++ b ∷ []) tail
                    (omega (arith, length-append block (b ∷ [])))
                    (omega (arith, length-append block (b ∷ [])))
                    (omega (arith, length-append block (b ∷ [])))))
          | no q ↦ elim (dec_lt (length out + suc (length block) + 1) limit) [
            | no g ↦
                Encodes-full limit out block _ (x ∷ tail) _
                  (encode_loop-full limit b bs _
                    (last_full limit out hole block x tail b z (omega arith) (omega arith)))
                  (long_enough limit out block b bs z (omega arith) (omega arith))
            | yes g ↦
                let (y, ts, e) = cons_of_lt tail 0 (omega arith) in
                fills limit out hole block x y tail ts b bs z (omega arith) g e (
                  encode_loop-Encodes limit bs (out ++ 255 ∷ (block ++ b ∷ [])) y [] ts
                    (omega arith) (omega (arith, out_lengths out block b))
                    (omega (arith, out_lengths out block b, ap (λ (l : Bytes). length l) e)))
          ]
        ]
      ]
    ]

-- With room for the capacity in the destination, `cobs_encode` succeeds exactly when the encoding
-- fits the capacity; it then writes the encoding and nothing behind it, and returns its length.
pub cobs_encode_lem :
    (src dst : Bytes) (limit : ℕ)
    → limit ≤ length dst
    → (length (encoded src) ≤ limit
        → cobs_encode src dst limit
          ≡ (succeeded (length (encoded src)), encoded src ++ drop (length (encoded src)) dst))
      × (limit < length (encoded src) → (cobs_encode src dst limit).0 ≡ failed output_overflow)
cobs_encode_lem src dst zero h =
    ((λ p. absurd (omega (arith, length-blocks_lower [] src))), (λ p. unfold cobs_encode in refl))
cobs_encode_lem src [] (suc n) h = absurd (omega arith)
cobs_encode_lem src (d ∷ ds) (suc n) h = (
  (λ p.
      starts
      ∙ e.0 (omega arith)
      ∙ ap₂ (λ (k : ℕ) (l : Bytes). (succeeded k, encoded src ++ l)) size rest),
  (λ p. ap (λ (r : CobsResult × Bytes). r.0) starts ∙ e.1 (omega arith)),
)
  where
    e : Encodes (suc n) [] [] ds (encoded src) (encode_loop (suc n) src (state [] d [] ds))
    e = encode_loop-Encodes (suc n) src [] d [] ds (omega arith) (omega arith) (omega arith)

    starts : cobs_encode src (d ∷ ds) (suc n) ≡ encode_loop (suc n) src (state [] d [] ds)
    starts = unfold cobs_encode in ground arith

    size : 0 + length (encoded src) ≡ length (encoded src)
    size = omega arith

    rest : drop (length (encoded src) - 1) ds ≡ drop (length (encoded src)) (d ∷ ds)
    rest = sym (drop_pos (length (encoded src)) d ds (length-blocks_lower [] src))
