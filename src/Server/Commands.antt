-- ===== src/Server/Commands.antt =====
-- server/subscriber.cpp: the receiving half, from bytes to lines to commands. The store that ACK
-- forwards to is passed on.
pub mod Keeps
use sensor_link.Prelude.{
  ℕ, zero, suc, ◌+◌, ◌-◌, ◌*◌, ◌%◌, ◌^◌, ltb, leb, ◌==◌, if◌then◌else◌, Bool, true, false, ◌&&◌,
  ◌||◌, not,
}
use sensor_link.Prelude.{List, [], ◌∷◌, ◌++◌, length, drop, Option, none, some}
use sensor_link.Prelude.Text.{Text, codes, text_eq, to_string}
use sensor_link.Scan.{split, skip_spaces, read_unsigned}
use sensor_link.Server.Connection.{Connection, consume}
use sensor_link.Server.Subscriber.{Subscriber, send_line}
use sensor_link.Server.Store.{Store, AckResult, ack}

-- `line.find(' ')` and the two `substr`: the verb, and the rest behind the first space.
pub verb_and_args : Text → Text × Text
verb_and_args [] = ([], [])
verb_and_args (c ∷ line) =
    let (verb, args) = verb_and_args line in if c == 32 then ([], line) else (c ∷ verb, args)

-- The argument of ACK: one number and nothing else.
pub session_argument : Text → Option ℕ
session_argument args = elim (read_unsigned 16 args) [
  | none ↦ none
  | some (n, rest) ↦ if length (skip_spaces rest) == 0 then some n else none
]

unfoldable pub ack_line : ℕ → AckResult → Text
ack_line session_id result =
    codes "ACK_OK "
    ++ (to_string session_id
        ++ (codes " excursion_ms="
            ++ (to_string result.excursion_duration
                ++ (codes " excursion_active="
                    ++ ((if result.excursion_still_active then codes "1" else codes "0")
                        ++ (codes " offline_ms=" ++ to_string result.offline_duration))))))

unfoldable pub stats_line : Subscriber → Text
stats_line s =
    codes "STATS metric="
    ++ ((if length s.subscribed_metric == 0 then codes "none" else s.subscribed_metric)
        ++ (codes " updates_sent=" ++ to_string s.updates_sent))

pub handle_command : ℕ → Text → Text → Subscriber → Store → Subscriber × Store
handle_command now verb args s store =
    if text_eq verb (codes "SUBSCRIBE")
    then (record s { subscribed_metric = args }, store)
    else if text_eq verb (codes "UNSUBSCRIBE")
    then (record s { subscribed_metric = [] }, store)
    else if text_eq verb (codes "STATS")
    then (send_line (stats_line s) s, store)
    else if text_eq verb (codes "ACK")
    then (elim (session_argument args) [
      | none ↦ (s, store)
      | some session_id ↦
          let (result, store') = ack session_id now store in
          (send_line (ack_line session_id result) s, store')
    ])
    else (s, store)

pub handle_lines : (ℕ → ℕ) → ℕ → List Text → Subscriber → Store → Subscriber × Store
handle_lines clock n [] s store = (s, store)
handle_lines clock n (line ∷ lines) s store =
    let (verb, args) = verb_and_args line in
    let (s', store') = handle_command (clock n) verb args s store in
    handle_lines clock (n + 1) lines s' store'

pub read_lines : (ℕ → ℕ) → Subscriber → Store → Subscriber × Store
read_lines clock s store =
    let bytes = s.conn.read_buffer in
    let (lines, rest) = split [] bytes in
    let (s', store') = handle_lines clock 0 lines s store in
    (record s' { conn = consume (length bytes - length rest) s'.conn }, store')
