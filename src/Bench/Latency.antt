-- ===== src/Bench/Latency.antt =====
-- bench/latency_subscriber.cpp. `clock n` is the count of nanoseconds that steady_clock shows when it is
-- read for the time number `n`; `rank p n` is the place of the p-th percentile among `n` values, which
-- the program computes in floating point. What recv answers is a list: some bytes, of which there are
-- none when the server has closed the connection, or an error, which a timeout is too.
pub mod Exact
use sensor_link.Prelude.{
  ℕ, ◌+◌, ◌*◌, ◌/◌, ◌^◌, ltb, leb, ◌==◌, if◌then◌else◌, Bool, true, false, List, [], ◌∷◌, ◌++◌,
  length, get_or, Option, none, some, ◌>>=◌, ◌>>◌, guard,
}
use sensor_link.Prelude.Int.{ℤ, pos, pos_part, ◌-ℤ◌, leb_ℤ}
use sensor_link.Prelude.Text.{Text, codes, text_eq}
use sensor_link.Scan.{split}
use sensor_link.Scan.Convert.{atoi_unsigned, strtol, cast_int, stoll, cut_at}
use sensor_link.Sockets.{Descriptors, close, Connecting}
use sensor_link.Sockets

-- Setting the timeout of recv behind the steps of the other programs changes nothing here: its failure
-- is ignored.
unfoldable pub connect_to_server : Text → ℕ → Connecting → Descriptors → Option ℕ × Descriptors
connect_to_server host port answers open_fds = Sockets.connect_to_server host port answers open_fds

unfoldable pub now_ms : ℕ → ℤ
now_ms ns = pos (ns / 10 ^ 6)

-- A field up to the next space, or all there is.
unfoldable pub field : Text → Text
field s = elim (cut_at 32 s) [ none ↦ s | some (front, back) ↦ front ]

-- The timestamp of a line about the metric.
unfoldable pub timestamp_of : Text → Text → Option ℤ
timestamp_of metric line = do
  (name, s) ← cut_at 32 line
  guard (text_eq name metric)
  (session_id, s) ← cut_at 32 s
  stoll (field s)

pub record Measured : Type 0 where
  pub buffer : Text
  pub latencies_ms : List ℤ
  pub count : ℕ
  pub clock_reads : ℕ

module _ (clock : ℕ → ℕ) (metric : Text) where
  -- The clock is read when there is a timestamp.
  unfoldable pub measure : Option ℤ → Measured → Measured
  measure none m = m
  measure (some timestamp_ms) m = record m {
    latencies_ms = m.latencies_ms ++ (now_ms (clock m.clock_reads) -ℤ timestamp_ms) ∷ [];
    count = m.count + 1;
    clock_reads = m.clock_reads + 1;
  }

  abbrev pub measure_line : Text → Measured → Measured
  measure_line line m = measure (timestamp_of metric line) m

  unfoldable pub measure_lines : List Text → Measured → Measured
  measure_lines [] m = m
  measure_lines (line ∷ lines) m = measure_lines lines (measure_line line m)

  unfoldable pub process_lines : Measured → Measured
  process_lines m =
      let (lines, rest) = split [] m.buffer in record (measure_lines lines m) { buffer = rest }

  abbrev pub looked : Measured → Measured
  looked m = record m { clock_reads = m.clock_reads + 1 }

  -- `none`: the deadline has not come after the last of the answers.
  unfoldable pub measure_loop : ℕ → List (Option Text) → Measured → Option Measured
  measure_loop deadline [] m = if ltb (clock m.clock_reads) deadline then none else some (looked m)
  measure_loop deadline (none ∷ answers) m =
      let more = measure_loop deadline answers (looked m) in
      if ltb (clock m.clock_reads) deadline then more else some (looked m)
  measure_loop deadline (some [] ∷ answers) m = some (looked m)
  measure_loop deadline (some (b ∷ bs) ∷ answers) m =
      let more =
        measure_loop deadline answers
          (process_lines (record (looked m) { buffer = m.buffer ++ b ∷ bs })) in
      if ltb (clock m.clock_reads) deadline then more else some (looked m)

-- std::sort
unfoldable pub insert : ℤ → List ℤ → List ℤ
insert z [] = z ∷ []
insert z (y ∷ ys) = let rest = insert z ys in if leb_ℤ z y then z ∷ y ∷ ys else y ∷ rest

unfoldable pub sort : List ℤ → List ℤ
sort [] = []
sort (z ∷ zs) = insert z (sort zs)

-- An index outside of the vector is undefined behaviour there, and 0 here.
unfoldable pub percentile : (ℕ → ℕ → ℕ) → List ℤ → ℕ → ℤ
percentile rank latencies_ms p = get_or (sort latencies_ms) (rank p (length latencies_ms)) (pos 0)

pub record Options : Type 0 where
  pub host : Text
  pub port : ℕ
  pub metric : Text
  pub duration : ℕ

abbrev pub defaults : Options
defaults = record { host = codes "127.0.0.1"; port = 7000; metric = codes "pressure"; duration = 5 }

unfoldable pub set_endpoint : Text → Options → Options
set_endpoint endpoint o = elim (cut_at 58 endpoint) [
  | none ↦ o
  | some (host, port) ↦ record o { host = host; port = atoi_unsigned 16 port }
]

-- What one option with its value sets, and `none` for what is no option. A negative duration ends the
-- run at once, as 0 does.
unfoldable pub set_option : Text → Text → Options → Option Options
set_option arg value o =
    if text_eq arg (codes "--connect")
    then some (set_endpoint value o)
    else if text_eq arg (codes "--metric")
    then some (record o { metric = value })
    else if text_eq arg (codes "--seconds")
    then some (record o { duration = pos_part (cast_int (strtol value)) })
    else none

unfoldable pub parse_options : List Text → Options → Options
parse_options [] o = o
parse_options (arg ∷ []) o = o
parse_options (arg ∷ value ∷ args) o =
    let skipped = parse_options (value ∷ args) o in
    elim (set_option arg value o) [ none ↦ skipped | some o' ↦ parse_options args o' ]

-- What is printed: the count, and the two percentiles when there is a value.
unfoldable pub summary : (ℕ → ℕ → ℕ) → Measured → ℕ × Option (ℤ × ℤ)
summary rank m = (
  m.count,
  if ltb 0 m.count
      then some (percentile rank m.latencies_ms 50, percentile rank m.latencies_ms 99)
      else none,
)

-- The exit code, what is printed, and the descriptors that are open. The answer to send is ignored.
unfoldable pub latency_main :
    (ℕ → ℕ)
    → (ℕ → ℕ → ℕ)
    → List Text
    → Connecting
    → List (Option Text)
    → Descriptors
    → Option (ℕ × Option (ℕ × Option (ℤ × ℤ)) × Descriptors)
latency_main clock rank args connecting answers open_fds =
    let o = parse_options args defaults in
    let (fd, open_fds') = connect_to_server o.host o.port connecting open_fds in
    let start : Measured = record { buffer = []; latencies_ms = []; count = 0; clock_reads = 1 } in
    elim fd [
      | none ↦ some (1, none, open_fds')
      | some fd ↦
          (elim (measure_loop clock o.metric (clock 0 + o.duration * 10 ^ 9) answers start) [
            | none ↦ none
            | some m ↦ some (0, some (summary rank m), close fd open_fds')
          ])
    ]
