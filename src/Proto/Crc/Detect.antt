-- ===== src/Proto/Crc/Detect.antt =====
-- What the CRC of proto/crc16.hpp detects.
use sensor_link.Prelude.{ℕ, ◌<◌, ◌≡◌, ◌≢◌, sym, ◌∙◌, arith, [], ◌∷◌, ◌++◌}
use sensor_link.Proto.Messages.{Bytes, IsByte, AllBytes}
use sensor_link.Proto.Crc.{crc16_update, crc16_from, crc16}
use sensor_link.Proto.Crc.Rounds.{crc16_update-lt, crc16_update_inj, crc16_update_byte_inj}
use sensor_link.Proto.Crc.Residue.{crc16_from-append, crc16_from-lt}

crc16_from_inj :
    (c d : ℕ) (xs : Bytes)
    → c < 65536
    → d < 65536
    → AllBytes xs
    → crc16_from c xs ≡ crc16_from d xs
    → c ≡ d
unfolding crc16_from
crc16_from_inj c d [] h k _ e = e
crc16_from_inj c d (x ∷ xs) h k b e = crc16_update_inj c d x h k b.0 (
    crc16_from_inj (crc16_update c x) (crc16_update d x) xs (crc16_update-lt c x)
      (crc16_update-lt d x) b.1 e)

-- Two messages that differ in exactly one byte have different CRCs.
pub crc16_detects_byte :
    (front back : Bytes) (a b : ℕ)
    → AllBytes back
    → IsByte a
    → IsByte b
    → a ≢ b
    → crc16 (front ++ a ∷ back) ≢ crc16 (front ++ b ∷ back)
unfolding crc16 crc16_from
crc16_detects_byte front back a b hback ha hb ne e = ne (
    crc16_update_byte_inj start a b start_lt ha hb
      (crc16_from_inj _ _ back (crc16_update-lt start a) (crc16_update-lt start b) hback same))
  where
    start : ℕ
    start = crc16_from 0xffff front

    start_lt : start < 65536
    start_lt = crc16_from-lt 0xffff front (omega arith)

    same : crc16_from (crc16_update start a) back ≡ crc16_from (crc16_update start b) back
    same =
        sym (crc16_from-append 0xffff front (a ∷ back))
        ∙ e
        ∙ crc16_from-append 0xffff front (b ∷ back)
