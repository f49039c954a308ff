-- ===== src/Proto/Crc/Residue.antt =====
-- crc16 of proto/crc16.hpp over a message followed by its own CRC, high byte first.
use sensor_link.Prelude.{
  ℕ, ◌*◌, ◌/◌, ◌%◌, ◌^◌, ◌<◌, ◌+◌, ◌≡◌, ◌∙◌, ap, sym, refl, arith, [], ◌∷◌, ◌++◌,
}
use sensor_link.Prelude.{bit_xor}
use sensor_link.Prelude.Bits.{bit_xor_self}
use sensor_link.Prelude.Iter.{iterate}
use sensor_link.Proto.Messages.{Bytes}
use sensor_link.Proto.Crc.{round, crc16_update, crc16_from, crc16}
use sensor_link.Proto.Crc.Rounds.{
  crc16_update-lt, rounds_low, xor_high_byte, update_to_zero, update_to_high,
}

pub crc16_from-append :
    (c : ℕ) (xs ys : Bytes) → crc16_from c (xs ++ ys) ≡ crc16_from (crc16_from c xs) ys
unfolding crc16_from
crc16_from-append c [] ys = refl
crc16_from-append c (x ∷ xs) ys = crc16_from-append (crc16_update c x) xs ys

pub crc16_from-lt : (c : ℕ) (xs : Bytes) → c < 65536 → crc16_from c xs < 65536
unfolding crc16_from
crc16_from-lt c [] h = h
crc16_from-lt c (x ∷ xs) h = crc16_from-lt (crc16_update c x) xs (crc16_update-lt c x)

pub crc16-lt : (xs : Bytes) → crc16 xs < 65536
unfolding crc16
crc16-lt xs = crc16_from-lt 0xffff xs (omega arith)

own_high : (c : ℕ) → c < 65536 → crc16_update c (c / 256) ≡ c % 256 * 256
unfolding crc16_update
own_high c h =
    let e : bit_xor c (c / 256 * 2 ^ 8) % 2 ^ 16 ≡ c % 256 = omega (arith, xor_high_byte c) in
    ap (λ (t : ℕ). iterate round 8 t) e ∙ rounds_low (c % 256) (omega arith)

own_low : (x : ℕ) → x < 256 → crc16_update (x * 256) x ≡ 0
unfolding crc16_update
own_low x h =
    let e : bit_xor (x * 256) (x * 2 ^ 8) % 2 ^ 16 ≡ 0 = omega (arith, bit_xor_self (x * 256)) in
    ap (λ (t : ℕ). iterate round 8 t) e ∙ rounds_low 0 (omega arith)

last_two : (c : ℕ) → c < 65536 → crc16_from c (c / 256 ∷ c % 256 ∷ []) ≡ 0
unfolding crc16_from
last_two c h =
    ap (λ (t : ℕ). crc16_update t (c % 256)) (own_high c h) ∙ own_low (c % 256) (omega arith)

-- Running the CRC on over its own two bytes, high byte first, ends at zero.
pub crc16_residue : (xs : Bytes) → crc16 (xs ++ crc16 xs / 256 ∷ crc16 xs % 256 ∷ []) ≡ 0
unfolding crc16
crc16_residue xs =
    crc16_from-append 0xffff xs _
    ∙ last_two (crc16_from 0xffff xs) (crc16_from-lt 0xffff xs (omega arith))

-- No other two bytes end at zero.
pub crc16_residue_unique :
    (xs : Bytes) (a b : ℕ)
    → a < 256
    → b < 256
    → crc16 (xs ++ a ∷ b ∷ []) ≡ 0
    → (a ≡ crc16 xs / 256) × (b ≡ crc16 xs % 256)
unfolding crc16 crc16_from
crc16_residue_unique xs a b ha hb e = (omega (arith, whole), omega (arith, whole))
  where
    ends : crc16_update (crc16_update (crc16_from 0xffff xs) a) b ≡ 0
    ends = sym (crc16_from-append 0xffff xs (a ∷ b ∷ [])) ∙ e

    whole : crc16_from 0xffff xs ≡ a * 256 + b
    whole =
        update_to_high (crc16_from 0xffff xs) a b (crc16_from-lt 0xffff xs (omega arith)) ha hb
          (update_to_zero (crc16_update (crc16_from 0xffff xs) a) b (crc16_update-lt _ a) hb ends)
