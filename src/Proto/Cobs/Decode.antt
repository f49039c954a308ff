-- ===== src/Proto/Cobs/Decode.antt =====
-- cobs_decode of proto/cobs.hpp on any input: it writes the list that the input stands for, or it
-- reports why it does not.
use sensor_link.Prelude.{
  ℕ, zero, suc, ◌+◌, ◌-◌, ◌≤◌, ◌<◌, ◌≡◌, ◌∙◌, refl, ap, ap₂, sym, subst, arith, ◌==◌, if◌then◌else◌,
  ◌⊎◌,
}
use sensor_link.Prelude.{
  Bool, true, false, not, Bool-cases, inl, inr, [], ◌∷◌, ◌++◌, append_assoc, length, length-append,
  set, set-append, drop, Option, none, some,
}
use mathlib.Core.Option
use native.Mathlib.Decide.{dec_lt}
use sensor_link.Proto.Messages.{Bytes}
use sensor_link.Proto.Cobs.{
  CobsResult, cobs_decode, succeeded, failed, output_overflow, invalid_input,
}
use sensor_link.Proto.Cobs.Bytewise.{bytewise, cobs_decode-bytewise}

-- The bytes that an input stands for, `none` where it is malformed.
unfoldable pub plain : ℕ → Bool → Bytes → Option Bytes
plain zero pending [] = some []
plain (suc left) pending [] = none
plain zero pending (c ∷ cs) =
    let rest = plain (c - 1) (not (c == 0xff)) cs in
    if c == 0 then none else if pending then Option.map (λ ys. 0 ∷ ys) rest else rest
plain (suc left) pending (b ∷ bs) =
    if b == 0 then none else Option.map (λ ys. b ∷ ys) (plain left pending bs)

abbrev pub decoded : Bytes → Option Bytes
decoded src = plain 0 false src

-- The result `r` of decoding behind `out` an input that stands for `o`.
abbrev pub Decodes : ℕ → Bytes → Bytes → Option Bytes → CobsResult × Bytes → Type 0
Decodes limit out tail none r = (r.0 ≡ failed invalid_input) ⊎ (r.0 ≡ failed output_overflow)
Decodes limit out tail (some ys) r =
    (length out + length ys ≤ limit
      → r ≡ (succeeded (length out + length ys), out ++ (ys ++ drop (length ys) tail)))
    × (limit < length out + length ys → r.0 ≡ failed output_overflow)

nothing_before : (n : ℕ) → 0 + n ≡ n
nothing_before n = omega arith

add_nothing : (n : ℕ) → n ≡ n + 0
add_nothing n = omega arith

Decodes-overflow :
    (limit : ℕ) (out tail : Bytes) (y : ℕ) (o : Option Bytes) (r : CobsResult × Bytes)
    → limit ≤ length out
    → r.0 ≡ failed output_overflow
    → Decodes limit out tail (Option.map (λ ys. y ∷ ys) o) r
Decodes-overflow limit out tail y none r h e = inr e
Decodes-overflow limit out tail y (some ys) r h e = ((λ p. absurd (omega arith)), λ p. e)

Decodes-byte :
    (limit : ℕ) (out : Bytes) (x : ℕ) (tail : Bytes) (y : ℕ) (o : Option Bytes)
    (r : CobsResult × Bytes)
    → Decodes limit (out ++ y ∷ []) tail o r
    → Decodes limit out (x ∷ tail) (Option.map (λ ys. y ∷ ys) o) r
Decodes-byte limit out x tail y none r h = h
Decodes-byte limit out x tail y (some ys) r h = (
  (λ p.
      h.0 (omega (arith, lengths))
      ∙ ap₂ (λ (n : ℕ) (l : Bytes). (succeeded n, l)) lengths
          (append_assoc out (y ∷ []) (ys ++ drop (length ys) tail))),
  (λ p. h.1 (omega (arith, lengths))),
)
  where
    lengths : length (out ++ y ∷ []) + length ys ≡ length out + suc (length ys)
    lengths = omega (arith, length-append out (y ∷ []))

-- The rounds of the loop.
module _ (limit left : ℕ) (pending : Bool) (b : ℕ) (bs dst : Bytes) (write : ℕ) where
  copies :
      (b == 0) ≡ false
      → write < limit
      → bytewise limit (suc left) pending (b ∷ bs) dst write
        ≡ bytewise limit left pending bs (set dst write b) (write + 1)
  unfolding bytewise
  copies z h = ground arith

  copies_zero :
      (b == 0) ≡ true
      → (bytewise limit (suc left) pending (b ∷ bs) dst write).0 ≡ failed invalid_input
  unfolding bytewise
  copies_zero z = ground arith

  copies_full :
      (b == 0) ≡ false
      → limit ≤ write
      → (bytewise limit (suc left) pending (b ∷ bs) dst write).0 ≡ failed output_overflow
  unfolding bytewise
  copies_full z h = ground arith

module _ (limit c : ℕ) (cs dst : Bytes) (write : ℕ) where
  opens :
      (c == 0) ≡ false
      → bytewise limit 0 false (c ∷ cs) dst write
        ≡ bytewise limit (c - 1) (not (c == 0xff)) cs dst write
  unfolding bytewise
  opens z = ground arith

  opens_behind_zero :
      (c == 0) ≡ false
      → write < limit
      → bytewise limit 0 true (c ∷ cs) dst write
        ≡ bytewise limit (c - 1) (not (c == 0xff)) cs (set dst write 0) (write + 1)
  unfolding bytewise
  opens_behind_zero z h = ground arith

  opens_full : limit ≤ write → (bytewise limit 0 true (c ∷ cs) dst write).0 ≡ failed output_overflow
  unfolding bytewise
  opens_full h = ground arith

  opens_zero :
      (pending : Bool)
      → (c == 0) ≡ true
      → ((bytewise limit 0 pending (c ∷ cs) dst write).0 ≡ failed invalid_input)
        ⊎ ((bytewise limit 0 pending (c ∷ cs) dst write).0 ≡ failed output_overflow)
  unfolding bytewise
  opens_zero pending z = ground arith

-- A byte stored behind `out`, and the loop from there.
stores :
    (limit left : ℕ) (pending : Bool) (src out tail : Bytes) (b : ℕ) (o : Option Bytes)
    → length out < limit
    → limit ≤ length out + length tail
    → ((x : ℕ) (rest : Bytes)
        → tail ≡ x ∷ rest
        → Decodes limit
            (out ++ b ∷ [])
            rest
            o
            (bytewise limit left pending src ((out ++ b ∷ []) ++ rest) (length (out ++ b ∷ []))))
    → Decodes limit out tail
        (Option.map (λ ys. b ∷ ys) o)
        (bytewise limit left pending src (set (out ++ tail) (length out) b) (length out + 1))
stores limit left pending src out [] b o h k ih = absurd (omega arith)
stores limit left pending src out (x ∷ tail) b o h k ih =
    rw (set-append out x tail b ∙ sym (append_assoc out (b ∷ []) tail))
      (rw (sym (length-append out (b ∷ []))) (Decodes-byte limit out x tail b o _ (ih x tail refl)))

bytewise-Decodes :
    (limit left : ℕ) (pending : Bool) (src out tail : Bytes)
    → length out ≤ limit
    → limit ≤ length out + length tail
    → Decodes limit out tail
        (plain left pending src)
        (bytewise limit left pending src (out ++ tail) (length out))
unfolding plain
bytewise-Decodes limit zero pending [] out tail h k = (
  (λ p. unfold bytewise in ap (λ (n : ℕ). (succeeded n, out ++ tail)) (add_nothing (length out))),
  (λ p. absurd (omega arith)),
)
bytewise-Decodes limit (suc left) pending [] out tail h k = unfold bytewise in inl refl
bytewise-Decodes limit zero true (c ∷ cs) out tail h k = elim (Bool-cases (c == 0)) [
  | inl z ↦ rw z (opens_zero limit c cs (out ++ tail) (length out) true z)
  | inr z ↦ rw z (elim (dec_lt (length out) limit) [
    | no f ↦
        Decodes-overflow limit out tail 0 (plain (c - 1) (not (c == 0xff)) cs) _ (omega arith)
          (opens_full limit c cs (out ++ tail) (length out) (omega arith))
    | yes f ↦
        subst (Decodes limit out tail _)
          (sym (opens_behind_zero limit c cs (out ++ tail) (length out) z f))
          (stores limit (c - 1) (not (c == 0xff)) cs out tail 0 _ f k (λ x rest e.
            bytewise-Decodes limit (c - 1) (not (c == 0xff)) cs (out ++ 0 ∷ []) rest
              (omega (arith, length-append out (0 ∷ [])))
              (omega (arith, length-append out (0 ∷ []), ap (λ (l : Bytes). length l) e))))
  ])
]
bytewise-Decodes limit zero false (c ∷ cs) out tail h k = elim (Bool-cases (c == 0)) [
  | inl z ↦ rw z (opens_zero limit c cs (out ++ tail) (length out) false z)
  | inr z ↦ rw z (
      subst (Decodes limit out tail _) (sym (opens limit c cs (out ++ tail) (length out) z))
        (bytewise-Decodes limit (c - 1) (not (c == 0xff)) cs out tail h k))
]
bytewise-Decodes limit (suc left) pending (b ∷ bs) out tail h k = elim (Bool-cases (b == 0)) [
  | inl z ↦ rw z (inl (copies_zero limit left pending b bs (out ++ tail) (length out) z))
  | inr z ↦ rw z (elim (dec_lt (length out) limit) [
    | no f ↦
        Decodes-overflow limit out tail b (plain left pending bs) _ (omega arith)
          (copies_full limit left pending b bs (out ++ tail) (length out) z (omega arith))
    | yes f ↦
        subst (Decodes limit out tail _)
          (sym (copies limit left pending b bs (out ++ tail) (length out) z f))
          (stores limit left pending bs out tail b _ f k (λ x rest e.
            bytewise-Decodes limit left pending bs (out ++ b ∷ []) rest
              (omega (arith, length-append out (b ∷ [])))
              (omega (arith, length-append out (b ∷ []), ap (λ (l : Bytes). length l) e))))
  ])
]

-- With room for the capacity in the destination, `cobs_decode` returns the bytes that a well-formed
-- input stands for, and writes nothing behind them, if they fit the capacity; if they do not, it
-- reports an overflow; on a malformed input it reports a failure.
pub cobs_decode-Decodes :
    (src dst : Bytes) (limit : ℕ)
    → limit ≤ length dst
    → Decodes limit [] dst (decoded src) (cobs_decode src dst limit)
cobs_decode-Decodes src dst limit h =
    rw (cobs_decode-bytewise src dst limit)
      (bytewise-Decodes limit 0 false src [] dst (omega arith) (omega arith))

-- The case of a well-formed input that fits.
pub cobs_decode-fits :
    (src dst ys : Bytes) (limit : ℕ)
    → limit ≤ length dst
    → decoded src ≡ some ys
    → length ys ≤ limit
    → cobs_decode src dst limit ≡ (succeeded (length ys), ys ++ drop (length ys) dst)
cobs_decode-fits src dst ys limit h e k =
    (subst (λ o. Decodes limit [] dst o (cobs_decode src dst limit)) e
        (cobs_decode-Decodes src dst limit h)).0
      (omega arith)
    ∙ ap (λ (n : ℕ). (succeeded n, ys ++ drop (length ys) dst)) (nothing_before (length ys))
