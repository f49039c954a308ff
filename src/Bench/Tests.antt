-- ===== src/Bench/Tests.antt =====
-- The benchmark's theorems at a short run and at a reading after 50 days.
use sensor_link.Prelude.{
  ℕ, ◌+◌, ◌-◌, ◌*◌, ◌/◌, ◌^◌, ◌≡◌, refl, arith, List, replicate, [], ◌∷◌, ◌++◌, some,
}
use sensor_link.Prelude.Int.{pos}
use sensor_link.Prelude.Text.{codes}
use sensor_link.Proto.Parser.{ParsedFrame}
use sensor_link.Scan.Words.{IsWord}
use sensor_link.Server.Subscriber.{update_line}
use sensor_link.Bench.Load
use sensor_link.Bench.Load.{whole, Generator, run_load}
use sensor_link.Bench.Load.Stream.{Generated, run_load_lem}
use sensor_link.Bench.Latency.{Measured, measure_line}
use sensor_link.Bench.Latency.Exact.{measure_line_lem}

-- The clock advances by a tenth of a second with each reading, so that three samples go out.
abbrev clock : ℕ → ℕ
clock n = 7 + n * 10 ^ 8

abbrev keep : ParsedFrame → List ParsedFrame → List ParsedFrame
keep frame kept = frame ∷ kept

run_load_example :
    (g : Generator) × (run_load clock 100 1 10 999 1 whole (replicate 8 whole) ≡ some g)
    × Generated 999 keep [] g
run_load_example =
    run_load_lem clock 100 1 10 999 1 10 (replicate 8 whole) keep [] (omega arith)
      (λ n h. omega arith) (omega arith) (omega arith) _

abbrev nothing_yet : Measured
nothing_yet = record { buffer = []; latencies_ms = []; count = 0; clock_reads = 0 }

-- In nanoseconds, 50 days and 5 milliseconds later.
abbrev fifty_days : ℕ
fifty_days = 50 * 86400 * 10 ^ 9

abbrev late_clock : ℕ → ℕ
late_clock n = fifty_days + 5 * 10 ^ 6

p-IsWord : IsWord (codes "p")
p-IsWord = ((refl, _), omega arith)

measure_line_example :
    (measure_line late_clock
      (codes "p")
      (update_line (codes "p") 1 (pos 0) (Load.now_ms fifty_days))
      nothing_yet).latencies_ms
    ≡ []
      ++ pos (late_clock 0 / 10 ^ 6 - fifty_days / 10 ^ 6 + 2 ^ 32 * (fifty_days / 10 ^ 6 / 2 ^ 32))
        ∷ []
measure_line_example =
    measure_line_lem late_clock (codes "p") 1 fifty_days (pos 0) nothing_yet p-IsWord (omega arith)
