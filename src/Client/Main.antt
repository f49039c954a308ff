-- ===== src/Client/Main.antt =====
-- client/main.cpp: the options, the connection, the subscription and the loop over what arrives.
pub mod Whole
use sensor_link.Prelude.{ℕ, ◌+◌, if◌then◌else◌, List, [], ◌∷◌, ◌++◌, Option, none, some}
use sensor_link.Prelude.Text.{Text, codes, text_eq}
use sensor_link.Scan.Convert.{atoi_unsigned, cut_at}
use sensor_link.Sockets.{Descriptors, close, Connecting, connect_to_server}
use sensor_link.Client.{Incoming, Counts, handle_incoming}

pub record Options : Type 0 where
  pub host : Text
  pub port : ℕ
  pub metric : Text

abbrev pub defaults : Options
defaults = record { host = codes "127.0.0.1"; port = 6001; metric = codes "temp" }

-- `--connect`: without a colon nothing changes.
unfoldable pub set_endpoint : Text → Options → Options
set_endpoint endpoint o = elim (cut_at 58 endpoint) [
  | none ↦ o
  | some (host, port) ↦ record o { host = host; port = atoi_unsigned 16 port }
]

-- The loop over the arguments, from the first on.
unfoldable pub parse_options : List Text → Options → Options
parse_options [] o = o
parse_options (arg ∷ []) o = o
parse_options (arg ∷ value ∷ args) o =
    let connected = parse_options args (set_endpoint value o) in
    let subscribed = parse_options args (record o { metric = value }) in
    let skipped = parse_options (value ∷ args) o in
    if text_eq arg (codes "--connect")
    then connected
    else if text_eq arg (codes "--subscribe")
    then subscribed
    else skipped

-- What the kernel answers: to send, how many bytes it takes or an error; to each recv, some bytes, of
-- which there are none when the server has closed the connection, or an error.
pub record Kernel : Type 0 where
  pub connecting : Connecting
  pub send : Option ℕ
  pub recv : List (Option Text)

abbrev prepend : List Incoming → Option (List Incoming × Counts) → Option (List Incoming × Counts)
prepend shown none = none
prepend shown (some (later, c)) = some (shown ++ later, c)

-- The loop, from a buffer on: what is printed and the counters when it ends. `none`: it still waits
-- after the last of the answers.
unfoldable pub receive : List (Option Text) → Text → Counts → Option (List Incoming × Counts)
receive [] buffer c = none
receive (none ∷ more) buffer c = some ([], c)
receive (some [] ∷ more) buffer c = some ([], c)
receive (some (b ∷ bs) ∷ more) buffer c =
    let (shown, rest, c') = handle_incoming (buffer ++ b ∷ bs) c in
    prepend shown (receive more rest c')

pub record Outcome : Type 0 where
  pub exit_code : ℕ
  pub shown : List Incoming
  pub counts : Counts
  pub open_fds : Descriptors

abbrev pub zeros : Counts
zeros = record { valid = 0; alerts = 0; malformed = 0 }

abbrev pub failure : Descriptors → Outcome
failure open_fds = record { exit_code = 1; shown = []; counts = zeros; open_fds = open_fds }

unfoldable pub subscribe_line : Options → Text
subscribe_line o = codes "SUBSCRIBE " ++ (o.metric ++ 10 ∷ [])

-- The end of main, when the loop has ended.
unfoldable pub finish : ℕ → Option (List Incoming × Counts) → Descriptors → Option Outcome
finish fd none open_fds = none
finish fd (some (shown, counts)) open_fds =
    some (record { exit_code = 0; shown = shown; counts = counts; open_fds = close fd open_fds })

-- The part of main behind the connection.
unfoldable pub converse : ℕ → Option ℕ → List (Option Text) → Descriptors → Option Outcome
converse fd none recv open_fds = some (failure (close fd open_fds))
converse fd (some n) recv open_fds = finish fd (receive recv [] zeros) open_fds

unfoldable pub converse_on : Option ℕ → Kernel → Descriptors → Option Outcome
converse_on none kernel open_fds = some (failure open_fds)
converse_on (some fd) kernel open_fds = converse fd kernel.send kernel.recv open_fds

unfoldable pub client_main : List Text → Kernel → Descriptors → Option Outcome
client_main args kernel open_fds =
    let o = parse_options args defaults in
    let (fd, open_fds') = connect_to_server o.host o.port kernel.connecting open_fds in
    converse_on fd kernel open_fds'
