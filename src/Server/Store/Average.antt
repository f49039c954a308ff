-- ===== src/Server/Store/Average.antt =====
-- server/store.cpp: the moving average.
use sensor_link.Prelude.{ℕ, ◌+◌, ◌*◌, ◌≡◌, arith, true}
use sensor_link.Prelude.Int.{ℤ, pos, negsuc, ◌+ℤ◌, ◌-ℤ◌, ◌≤ℤ◌, ◌<ℤ◌, shift_right2}
use sensor_link.Proto.Messages.RoundTrip.{IsI32}
use sensor_link.Server.Store.{DeviceHistory, smooth}

abbrev moved : ℤ → ℤ → ℤ
moved a v = a +ℤ shift_right2 (v -ℤ a)

-- A quarter of the way, rounded down, stays between the two.
moved-between :
    (a v : ℤ)
    → (a ≤ℤ v → (a ≤ℤ moved a v) × (moved a v ≤ℤ v))
      × (v ≤ℤ a → (v ≤ℤ moved a v) × (moved a v ≤ℤ a))
unfolding ◌+ℤ◌ ◌-ℤ◌ shift_right2
moved-between (pos a) (pos v) = ground arith
moved-between (pos a) (negsuc v) = ground arith
moved-between (negsuc a) (pos v) = ground arith
moved-between (negsuc a) (negsuc v) = ground arith

-- A multiple of an integer.
abbrev pub times : ℕ → ℤ → ℤ
times k (pos n) = pos (k * n)
times k (negsuc n) = pos 0 -ℤ pos (k * (n + 1))

-- The step is a quarter of the distance, rounded down: 4 a' ≤ v + 3 a < 4 a' + 4.
quarter :
    (a v : ℤ)
    → (times 4 (moved a v) ≤ℤ v +ℤ times 3 a) × (v +ℤ times 3 a <ℤ times 4 (moved a v) +ℤ pos 4)
unfolding ◌+ℤ◌ ◌-ℤ◌ shift_right2
quarter (pos a) (pos v) = ground arith
quarter (pos a) (negsuc v) = ground arith
quarter (negsuc a) (pos v) = ground arith
quarter (negsuc a) (negsuc v) = ground arith

moved-IsI32 : (a v : ℤ) → IsI32 a → IsI32 v → IsI32 (moved a v)
unfolding ◌+ℤ◌ ◌-ℤ◌ shift_right2
moved-IsI32 (pos a) (pos v) h k = ground arith
moved-IsI32 (pos a) (negsuc v) h k = ground arith
moved-IsI32 (negsuc a) (pos v) h k = ground arith
moved-IsI32 (negsuc a) (negsuc v) h k = ground arith

-- Every sample but the first whose distance from the average is an int32_t, so that no step of the
-- arithmetic overflows, moves the average by a quarter of that distance, rounded down; from below it
-- stays between the old average and the sample, from above likewise, and it is an int32_t again.
pub smooth-between :
    (v : ℤ) (h : DeviceHistory)
    → h.have_average ≡ true
    → IsI32 h.average_milli
    → IsI32 v
    → IsI32 (v -ℤ h.average_milli)
    → let a = h.average_milli in
      let a' = (smooth v h).average_milli in
      ((a ≤ℤ v → (a ≤ℤ a') × (a' ≤ℤ v)) × (v ≤ℤ a → (v ≤ℤ a') × (a' ≤ℤ a)))
      × ((times 4 a' ≤ℤ v +ℤ times 3 a) × (v +ℤ times 3 a <ℤ times 4 a' +ℤ pos 4))
      × IsI32 a'
unfolding smooth
smooth-between v h e i j k =
    rw e (
      moved-between h.average_milli v,
      quarter h.average_milli v,
      moved-IsI32 h.average_milli v i j,
    )
