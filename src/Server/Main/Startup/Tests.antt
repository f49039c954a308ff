-- ===== src/Server/Main/Startup/Tests.antt =====
-- The start of the server at concrete ports.
use sensor_link.Prelude.{ℕ, ◌+◌, ◌*◌, ◌≡◌, refl, arith, true, List, [], ◌∷◌, some}
use sensor_link.Prelude.Text.{codes, text_eq}
use sensor_link.Scan.{skip_spaces, read_digits}
use sensor_link.Scan.Convert.{atoi_unsigned, strtol, cast_unsigned, cut_sign}
use sensor_link.Sockets.{Listening}
use sensor_link.Server.EventLoop.{Call, add_timer, done}
use sensor_link.Server.Main.{Server, housekeeping}
use sensor_link.Server.Events.{started}
use sensor_link.Server.Main.Startup.{
  parse_options, defaults, housekeeping_interval, Callback, sweep, running, Kernel, start,
}
use sensor_link.Server.Main.Startup.Opened.{ports, set_up, start_lem}

abbrev listener : ℕ → Listening
listener fd = record { socket = some fd; setsockopt = true; bind = λ port. true; listen = true }

abbrev kernel : Kernel
kernel = record {
  ingest = listener 3;
  subscribe = listener 4;
  epoll_create1 = true;
  epoll_ctl = λ call. true;
  clock = λ n. n * 1000 + 7;
}

abbrev on_ready : Callback → ℕ → Server → Server × List (Call Callback)
on_ready a events s = (s, [])

abbrev on_timer : Callback → Server → Server × List (Call Callback)
on_timer a s = (housekeeping 9 s, add_timer housekeeping_interval sweep ∷ [])

start_test :
    start on_ready on_timer (ports 80 81) kernel (0 ∷ [])
    ≡ (done (running (set_up 3 4 7) started), 4 ∷ 3 ∷ 0 ∷ [])
start_test =
    start_lem on_ready on_timer 80 81 3 4 kernel (0 ∷ []) (omega arith) (omega arith) refl refl refl
      refl refl refl

-- A port that is no number is 0; an option without a value is passed over.
options_test :
    parse_options (codes "--subscribe" ∷ codes "x" ∷ codes "--ingest" ∷ []) defaults
    ≡ record { ingest_port = 6000; subscribe_port = 0 }
unfolding parse_options text_eq atoi_unsigned strtol cast_unsigned cut_sign skip_spaces read_digits
options_test = refl
