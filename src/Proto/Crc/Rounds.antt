-- ===== src/Proto/Crc/Rounds.antt =====
-- The rounds of `crc16_update` in proto/crc16.hpp, in plain arithmetic: they lose no information.
use mathlib.Core.Path.{◌≡◌, refl, ap, sym, ◌∙◌}
use sensor_link.Prelude.{ℕ, zero, suc, ◌+◌, ◌*◌, ◌/◌, ◌%◌, ◌^◌, ◌<◌, ◌≤◌, arith}
use sensor_link.Prelude.{bit_xor}
use sensor_link.Prelude.Bits.{
  bit_xor_step, bit_xor_inj, bit_xor-lt, bit_xor_self, double, halve, halve-bit_xor, bit_xor_high,
  bit_xor_comm,
}
use sensor_link.Prelude.Masks.{bit_and_top16, eq_of_table, all_below}
use sensor_link.Prelude.Iter.{iterate}
use sensor_link.Proto.Crc.{round, crc16_update}

-- Exclusive or with the polynomial's upper part keeps bit 15.
xor_keeps_top : (c : ℕ) → 32768 ≤ c → c < 65536 → bit_xor c 0x810 / 32768 ≡ 1
xor_keeps_top c h k =
    let e : halve 15 c ≡ 1 = omega arith in
    omega (arith, halve-bit_xor 15 c 0x810, ap (λ (t : ℕ). bit_xor t 0) e)

xor_shifted : (c : ℕ) → bit_xor (c * 2) 0x1021 ≡ 2 * bit_xor c 0x810 + 1
xor_shifted c =
    let e : c * 2 / 2 ≡ c = omega arith in
    omega (arith, bit_xor_step (c * 2) 0x1021, ap (λ (t : ℕ). bit_xor t 0x810) e)

-- A round with the top bit clear, and one with the top bit set.
round_clear : (c : ℕ) → c < 32768 → round c ≡ 2 * c
unfolding round
round_clear c h = ground (arith, bit_and_top16 c)

round_set : (c : ℕ) → 32768 ≤ c → c < 65536 → round c + 65536 ≡ 2 * bit_xor c 0x810 + 1
unfolding round
round_set c h k = ground (arith, bit_and_top16 c, xor_shifted c, xor_keeps_top c)

pub round-lt : (c : ℕ) → round c < 65536
unfolding round
round-lt c = ground arith

-- The lowest bit of the result tells which branch was taken, and each branch can be undone.
round_inj : (c d : ℕ) → c < 65536 → d < 65536 → round c ≡ round d → c ≡ d
round_inj c d h k e =
    ground (arith, round_clear c, round_clear d, round_set c, round_set d, bit_xor_inj c d 0x810)

iterate_inj : (n c d : ℕ) → c < 65536 → d < 65536 → iterate round n c ≡ iterate round n d → c ≡ d
iterate_inj zero c d h k e = e
iterate_inj (suc n) c d h k e =
    round_inj c d h k (iterate_inj n (round c) (round d) (round-lt c) (round-lt d) e)

iterate-lt : (n c : ℕ) → c < 65536 → iterate round n c < 65536
iterate-lt zero c h = h
iterate-lt (suc n) c h = iterate-lt n (round c) (round-lt c)

byte_in_high :
    (c b : ℕ) → c < 65536 → b < 256 → bit_xor c (b * 2 ^ 8) % 2 ^ 16 ≡ bit_xor c (b * 256)
byte_in_high c b h k = omega (arith, bit_xor-lt 16 c (b * 256) h (omega arith))

pub crc16_update-lt : (c b : ℕ) → crc16_update c b < 65536
unfolding crc16_update
crc16_update-lt c b = iterate-lt 8 (bit_xor c (b * 2 ^ 8) % 2 ^ 16) (omega arith)

-- For a fixed byte the new value determines the old one.
pub crc16_update_inj :
    (c d b : ℕ) → c < 65536 → d < 65536 → b < 256 → crc16_update c b ≡ crc16_update d b → c ≡ d
unfolding crc16_update
crc16_update_inj c d b h k hb e =
    let mixed : bit_xor c (b * 2 ^ 8) % 2 ^ 16 ≡ bit_xor d (b * 2 ^ 8) % 2 ^ 16 =
      iterate_inj 8 _ _ (omega arith) (omega arith) e in
    bit_xor_inj c d (b * 256) (omega (arith, byte_in_high c b h hb, byte_in_high d b k hb, mixed))

-- For a fixed value the new one determines the byte.
pub crc16_update_byte_inj :
    (c a b : ℕ) → c < 65536 → a < 256 → b < 256 → crc16_update c a ≡ crc16_update c b → a ≡ b
unfolding crc16_update
crc16_update_byte_inj c a b h ha hb e =
    let mixed : bit_xor c (a * 2 ^ 8) % 2 ^ 16 ≡ bit_xor c (b * 2 ^ 8) % 2 ^ 16 =
      iterate_inj 8 _ _ (omega arith) (omega arith) e in
    let swapped : bit_xor (a * 256) c ≡ bit_xor (b * 256) c = omega (
      arith,
      byte_in_high c a h ha,
      byte_in_high c b h hb,
      mixed,
      bit_xor_comm c (a * 256),
      bit_xor_comm c (b * 256),
    ) in
    omega (arith, bit_xor_inj (a * 256) (b * 256) c swapped)

-- Eight rounds carry the low byte up.
pub rounds_low : (x : ℕ) → x < 256 → iterate round 8 x ≡ x * 256
unfolding round
rounds_low x h = eq_of_table 256 (iterate round 8) (λ y. y * 256) x (unfold all_below in refl) h

-- Exclusive or with the value's own high byte clears that byte.
pub xor_high_byte : (c : ℕ) → bit_xor c (c / 256 * 256) ≡ c % 256
xor_high_byte c =
    let e : double 8 (c / 256) ≡ c / 256 * 256 = omega arith in
    let f : halve 8 c ≡ c / 256 = omega arith in
    omega (
      arith,
      bit_xor_high 8 c (c / 256),
      ap (λ (t : ℕ). bit_xor c t) e,
      ap (λ (t : ℕ). bit_xor t (c / 256)) f,
      bit_xor_self (c / 256),
    )

xor_field : (a b : ℕ) → b < 256 → bit_xor (a * 256 + b) (a * 256) ≡ b
xor_field a b h =
    let e : (a * 256 + b) / 256 * 256 ≡ a * 256 = omega arith in
    omega (arith, ap (λ (t : ℕ). bit_xor (a * 256 + b) t) e, xor_high_byte (a * 256 + b))

-- A round of updates that ends at zero.
pub update_to_zero : (d b : ℕ) → d < 65536 → b < 256 → crc16_update d b ≡ 0 → d ≡ b * 256
unfolding crc16_update
update_to_zero d b h hb e =
    let cleared : bit_xor d (b * 2 ^ 8) % 2 ^ 16 ≡ 0 =
      iterate_inj 8 _ 0 (omega arith) (omega arith) (e ∙ sym (rounds_low 0 (omega arith))) in
    bit_xor_inj d (b * 256) (b * 256)
      (omega (arith, byte_in_high d b h hb, cleared, bit_xor_self (b * 256)))

-- A round of updates that ends at a byte in the high half.
pub update_to_high :
    (c a b : ℕ) → c < 65536 → a < 256 → b < 256 → crc16_update c a ≡ b * 256 → c ≡ a * 256 + b
unfolding crc16_update
update_to_high c a b h ha hb e =
    let mixed : bit_xor c (a * 2 ^ 8) % 2 ^ 16 ≡ b =
      iterate_inj 8 _ b (omega arith) (omega arith) (e ∙ sym (rounds_low b hb)) in
    let low : bit_xor c (a * 256) ≡ bit_xor (a * 256 + b) (a * 256) =
      omega (arith, byte_in_high c a h ha, mixed, xor_field a b hb) in
    bit_xor_inj c (a * 256 + b) (a * 256) low
