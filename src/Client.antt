-- ===== src/Client.antt =====
-- client/line_protocol.cpp: the dashboard's side of the text protocol. What is printed for a line is
-- a datum; the three counters are a record.

mod Tests
pub mod RoundTrip
pub mod Feed
pub mod Main
use sensor_link.Prelude.{
  ℕ, ◌+◌, if◌then◌else◌, Bool, true, false, List, [], ◌∷◌, ◌++◌, Option, none, some, ◌>>=◌, ◌>>◌,
  guard,
}
use sensor_link.Prelude.Int.{ℤ}
use sensor_link.Prelude.Text.{Text, codes, text_eq}
use sensor_link.Scan.{split, read_word, read_unsigned, read_signed, at_end}

-- What one line is printed as.
pub data Incoming : Type 0 where
  sample : (metric : Text) (session_id timestamp_ms : ℕ) (value_milli : ℤ) → Incoming
  excursion : (session_id timestamp_ms : ℕ) (value_milli : ℤ) → Incoming
  offline : (session_id timestamp_ms : ℕ) → Incoming
  unrecognized : (line : Text) → Incoming

pub record Counts : Type 0 where
  pub valid : ℕ
  pub alerts : ℕ
  pub malformed : ℕ

unfoldable pub try_parse_sample : Text → Option Incoming
try_parse_sample line = do
  (metric, s) ← read_word line
  (session_id, s) ← read_unsigned 16 s
  (timestamp_ms, s) ← read_unsigned 32 s
  (value_milli, s) ← read_signed s
  guard (at_end s)
  some (sample metric session_id timestamp_ms value_milli)

-- The last part of an alert, by its kind.
unfoldable pub alert_of_kind : Text → ℕ → ℕ → Text → Option Incoming
alert_of_kind kind session_id timestamp_ms s =
    if text_eq kind (codes "EXCURSION")
    then (do
      (value_milli, s) ← read_signed s
      guard (at_end s)
      some (excursion session_id timestamp_ms value_milli))
    else if text_eq kind (codes "OFFLINE")
    then (do guard (at_end s); some (offline session_id timestamp_ms))
    else none

unfoldable pub try_parse_alert : Text → Option Incoming
try_parse_alert line = do
  (verb, s) ← read_word line
  guard (text_eq verb (codes "ALERT"))
  (kind, s) ← read_word s
  (session_id, s) ← read_unsigned 16 s
  (timestamp_ms, s) ← read_unsigned 32 s
  alert_of_kind kind session_id timestamp_ms s

abbrev or_else : Option Incoming → Incoming → Incoming
or_else none i = i
or_else (some j) i = j

unfoldable pub recognize : Text → Incoming
recognize line =
    or_else (try_parse_sample line) (or_else (try_parse_alert line) (unrecognized line))

unfoldable pub tally : Incoming → Counts → Counts
tally (sample metric session_id timestamp_ms value_milli) c = record c { valid = c.valid + 1 }
tally (excursion session_id timestamp_ms value_milli) c = record c { alerts = c.alerts + 1 }
tally (offline session_id timestamp_ms) c = record c { alerts = c.alerts + 1 }
tally (unrecognized line) c = record c { malformed = c.malformed + 1 }

unfoldable pub handle_lines : List Text → Counts → List Incoming × Counts
handle_lines [] c = ([], c)
handle_lines (line ∷ lines) c =
    let i = recognize line in let (shown, c') = handle_lines lines (tally i c) in (i ∷ shown, c')

-- What is printed, what is left in the buffer, and the counters.
unfoldable pub handle_incoming : Text → Counts → List Incoming × Text × Counts
handle_incoming buffer c =
    let (lines, rest) = split [] buffer in
    let (shown, c') = handle_lines lines c in (shown, rest, c')
