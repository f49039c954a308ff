-- ===== src/Server/Commands/Keeps.antt =====
-- server/subscriber.cpp: whatever a dashboard sends, its connection and those in the store stay watched.
use sensor_link.Prelude.{
  ℕ, ◌+◌, if◌then◌else◌, Bool, true, false, List, [], ◌∷◌, Option, none, some,
}
use sensor_link.Prelude.Text.{Text, codes, text_eq}
use sensor_link.Scan.{split}
use sensor_link.Server.Subscriber.{Subscriber, send_line}
use sensor_link.Server.Subscriber.Keeps.{IsListening, send_line-IsListening}
use sensor_link.Server.Store.{Store, ack}
use sensor_link.Server.Store.Listeners.{AllListen, ack-AllListen}
use sensor_link.Server.Commands.{
  session_argument, ack_line, stats_line, handle_command, handle_lines, verb_and_args, read_lines,
}

abbrev pub BothListen : Subscriber × Store → Type 0
BothListen r = IsListening r.0 × AllListen r.1

chosen :
    (b : Bool) (x y : Subscriber × Store)
    → BothListen x
    → BothListen y
    → BothListen (if b then x else y)
chosen true x y h k = h
chosen false x y h k = k

handle_command-BothListen :
    (now : ℕ) (verb args : Text) (s : Subscriber) (store : Store)
    → BothListen (s, store)
    → BothListen (handle_command now verb args s store)
unfolding handle_command
handle_command-BothListen now verb args s store h =
    chosen (text_eq verb (codes "SUBSCRIBE")) _ _ h (
      chosen (text_eq verb (codes "UNSUBSCRIBE")) _ _ h (
        chosen (text_eq verb (codes "STATS")) _ _ (send_line-IsListening (stats_line s) s, h.1)
          (chosen (text_eq verb (codes "ACK")) _ _ (acknowledged (session_argument args)) h)))
  where
    acknowledged :
        (o : Option ℕ)
        → BothListen (elim o [
          | none ↦ (s, store)
          | some session_id ↦
              let (result, store') = ack session_id now store in
              (send_line (ack_line session_id result) s, store')
        ])
    acknowledged none = h
    acknowledged (some id) =
        (send_line-IsListening (ack_line id (ack id now store).0) s, ack-AllListen id now store h.1)

handle_lines-BothListen :
    (clock : ℕ → ℕ) (n : ℕ) (lines : List Text) (s : Subscriber) (store : Store)
    → BothListen (s, store)
    → BothListen (handle_lines clock n lines s store)
unfolding handle_lines
handle_lines-BothListen clock n [] s store h = h
handle_lines-BothListen clock n (line ∷ lines) s store h =
    handle_lines-BothListen clock (n + 1) lines _ _
      (handle_command-BothListen (clock n) (verb_and_args line).0 (verb_and_args line).1 s store h)

pub read_lines-BothListen :
    (clock : ℕ → ℕ) (s : Subscriber) (store : Store)
    → BothListen (s, store)
    → BothListen (read_lines clock s store)
unfolding read_lines
read_lines-BothListen clock s store h =
    handle_lines-BothListen clock 0 (split [] s.conn.read_buffer).0 s store h
