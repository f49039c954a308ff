-- ===== src/Proto/Crc.antt =====
-- proto/crc16.hpp: CRC-16/CCITT-FALSE, bit by bit. A uint16_t is a number below 2 ^ 16, and the
-- casts back to it are written out as remainders.
pub mod Rounds
pub mod Residue
pub mod Detect
use sensor_link.Prelude.{ℕ, ◌*◌, ◌%◌, ◌^◌, bit_and, bit_xor, ◌==◌, if◌then◌else◌, [], ◌∷◌}
use sensor_link.Prelude.Iter.{iterate}
use sensor_link.Proto.Messages.{Bytes}

abbrev pub crc16_poly : ℕ
crc16_poly = 0x1021

abbrev pub crc16_init : ℕ
crc16_init = 0xffff

-- One round of the loop of `crc16_update`.
pub round : ℕ → ℕ
round crc =
    if bit_and crc 0x8000 == 0 then crc * 2 % 2 ^ 16 else bit_xor (crc * 2) crc16_poly % 2 ^ 16

unfoldable pub crc16_update : ℕ → ℕ → ℕ
unfolding round
crc16_update crc byte = iterate round 8 (bit_xor crc (byte * 2 ^ 8) % 2 ^ 16)

-- The loop of `crc16`, from a running value.
unfoldable pub crc16_from : ℕ → Bytes → ℕ
crc16_from crc [] = crc
crc16_from crc (b ∷ bs) = crc16_from (crc16_update crc b) bs

unfoldable pub crc16 : Bytes → ℕ
crc16 bs = crc16_from crc16_init bs
