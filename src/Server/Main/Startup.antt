-- ===== src/Server/Main/Startup.antt =====
-- server/main.cpp's main up to `loop.run()`: the options, the two listeners, and what is registered with
-- the event loop.
mod Tests
pub mod Opened
use sensor_link.Prelude.{ℕ, if◌then◌else◌, Bool, List, [], ◌∷◌, Option, none, some}
use sensor_link.Prelude.Text.{Text, codes, text_eq}
use sensor_link.Scan.Convert.{atoi_unsigned}
use sensor_link.Sockets.{Descriptors, Listening, make_listener}
use sensor_link.Server.EventLoop.{
  Loop, Call, add_timer, add, Outcome, done, ◌>>=◌, make_loop, perform_all,
}
use sensor_link.Server.Main.{Server}
use sensor_link.Server.Events.{started}

pub record Options : Type 0 where
  pub ingest_port : ℕ
  pub subscribe_port : ℕ

abbrev pub defaults : Options
defaults = record { ingest_port = 6000; subscribe_port = 6001 }

-- The loop over the arguments, from the first on.
unfoldable pub parse_options : List Text → Options → Options
parse_options [] o = o
parse_options (arg ∷ []) o = o
parse_options (arg ∷ value ∷ args) o =
    let ingest = parse_options args (record o { ingest_port = atoi_unsigned 16 value }) in
    let subscribe = parse_options args (record o { subscribe_port = atoi_unsigned 16 value }) in
    let skipped = parse_options (value ∷ args) o in
    if text_eq arg (codes "--ingest")
    then ingest
    else if text_eq arg (codes "--subscribe")
    then subscribe
    else skipped

-- kHousekeepingInterval, in milliseconds.
abbrev pub housekeeping_interval : ℕ
housekeeping_interval = 1000

-- The callbacks that main registers.
pub data Callback : Type 0 where
  devices_ready subscribers_ready sweep : Callback

-- What the calls of main to the loop are, with EPOLLIN.
unfoldable pub setup : ℕ → ℕ → List (Call Callback)
setup ingest_fd subscribe_fd =
    add ingest_fd 1 devices_ready
    ∷ add subscribe_fd 1 subscribers_ready
    ∷ add_timer housekeeping_interval sweep
    ∷ []

-- How main goes on: it returns 1, or the loop runs on the server.
pub data Started : Type 0 where
  failed : Started
  running : (loop : Loop Callback) (server : Server) → Started

-- The answers of the kernel: for the two listeners, to epoll_create1 and to epoll_ctl, and the clock.
pub record Kernel : Type 0 where
  pub ingest : Listening
  pub subscribe : Listening
  pub epoll_create1 : Bool
  pub epoll_ctl : ℕ → Bool
  pub clock : ℕ → ℕ

-- What the callbacks do is the loop's to call, and a parameter here.
module _ (on_ready : Callback → ℕ → Server → Server × List (Call Callback))
    (on_timer : Callback → Server → Server × List (Call Callback)) where
  -- The part behind the two listeners.
  unfoldable pub open_loop : Kernel → Option ℕ → Option ℕ → Outcome Started
  open_loop kernel none subscribe_fd = done failed
  open_loop kernel (some ingest_fd) none = done failed
  open_loop kernel (some ingest_fd) (some subscribe_fd) = do
    loop ← make_loop kernel.epoll_create1
    loop ←
        perform_all kernel.clock kernel.epoll_ctl on_ready on_timer (setup ingest_fd subscribe_fd)
          loop
    done (running loop started)

  unfoldable pub start : List Text → Kernel → Descriptors → Outcome Started × Descriptors
  start args kernel open_fds =
      let o = parse_options args defaults in
      let (ingest_fd, open_fds') = make_listener o.ingest_port kernel.ingest open_fds in
      let (subscribe_fd, open_fds'') = make_listener o.subscribe_port kernel.subscribe open_fds' in
      (open_loop kernel ingest_fd subscribe_fd, open_fds'')
