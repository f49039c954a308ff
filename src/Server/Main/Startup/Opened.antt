-- ===== src/Server/Main/Startup/Opened.antt =====
-- What main has registered when it enters the loop.
use sensor_link.Prelude.{
  ℕ, ◌+◌, ◌^◌, ◌<◌, ◌≡◌, ◌∙◌, refl, arith, ◌⊎◌, inl, inr, Option-cases, ◌==◌, false, true, List, [],
  ◌∷◌, ◌++◌, Option, none, some,
}
use sensor_link.Prelude.Text.{Text, codes, text_eq, put, to_string}
use sensor_link.Scan.Converted.{atoi_unsigned-to_string}
use sensor_link.Sockets.{Descriptors}
use sensor_link.Sockets.Kept.{listens, returned, make_listener-returned}
use sensor_link.Server.EventLoop.{Loop, Call, done, make_loop, perform, perform_all, push_timer}
use sensor_link.Server.Main.{Server}
use sensor_link.Server.Events.{started}
use sensor_link.Server.Main.Startup.{
  Options, defaults, parse_options, Callback, devices_ready, subscribers_ready, sweep, setup,
  failed, running, Kernel, open_loop, start,
}

-- The arguments that name two ports.
abbrev pub ports : ℕ → ℕ → List Text
ports ingest subscribe =
    codes "--ingest" ∷ to_string ingest ∷ codes "--subscribe" ∷ to_string subscribe ∷ []

parse_options-ports :
    (i s : ℕ) (o : Options)
    → i < 2 ^ 16
    → s < 2 ^ 16
    → parse_options (ports i s) o ≡ record { ingest_port = i; subscribe_port = s }
unfolding parse_options text_eq
parse_options-ports i s o h k =
    rw (atoi_unsigned-to_string 16 i h (omega arith), atoi_unsigned-to_string 16 s k (omega arith))
      refl

-- The loop with both listeners and the first sweep.
abbrev pub set_up : ℕ → ℕ → ℕ → Loop Callback
set_up ingest_fd subscribe_fd now = record {
  running = false;
  callbacks = (ingest_fd, devices_ready) ∷ (subscribe_fd, subscribers_ready) ∷ [];
  timers = record { deadline = now + 10 ^ 9; callback = sweep } ∷ [];
  clock_reads = 1;
  interest = (ingest_fd, 1) ∷ (subscribe_fd, 1) ∷ [];
  ctl_calls = 2;
}

-- The two descriptors, when the listeners are opened.
abbrev pub ingest_of : List Text → Kernel → Option ℕ
ingest_of args kernel = listens (parse_options args defaults).ingest_port kernel.ingest

abbrev pub subscribe_of : List Text → Kernel → Option ℕ
subscribe_of args kernel = listens (parse_options args defaults).subscribe_port kernel.subscribe

module _ (on_ready : Callback → ℕ → Server → Server × List (Call Callback))
    (on_timer : Callback → Server → Server × List (Call Callback)) where
  opened :
      (args : List Text) (kernel : Kernel) (open_fds : Descriptors)
      → start on_ready on_timer args kernel open_fds ≡ (
        open_loop on_ready on_timer kernel (ingest_of args kernel) (subscribe_of args kernel),
        returned (subscribe_of args kernel) ++ (returned (ingest_of args kernel) ++ open_fds),
      )
  unfolding start
  opened args kernel open_fds =
      rw (make_listener-returned (parse_options args defaults).ingest_port kernel.ingest open_fds) (
        rw
          (make_listener-returned (parse_options args defaults).subscribe_port kernel.subscribe
            (returned (ingest_of args kernel) ++ open_fds))
          refl)

  open_loop-set_up :
      (kernel : Kernel) (i s : ℕ)
      → (s == i) ≡ false
      → kernel.epoll_create1 ≡ true
      → kernel.epoll_ctl 0 ≡ true
      → kernel.epoll_ctl 1 ≡ true
      → open_loop on_ready on_timer kernel (some i) (some s)
        ≡ done (running (set_up i s (kernel.clock 0)) started)
  unfolding open_loop make_loop setup perform_all perform put push_timer
  open_loop-set_up kernel i s e f g h = rw (f, g, h, e) refl

  -- When both listeners open and epoll grants what is asked of it, main enters the loop with both
  -- descriptors registered, each with its callback, and the first sweep due a second after the clock's
  -- first reading, on a server without devices or subscribers. The ports are those that the arguments
  -- name.
  pub start_lem :
      (p q i s : ℕ) (kernel : Kernel) (open_fds : Descriptors)
      → p < 2 ^ 16
      → q < 2 ^ 16
      → listens p kernel.ingest ≡ some i
      → listens q kernel.subscribe ≡ some s
      → (s == i) ≡ false
      → kernel.epoll_create1 ≡ true
      → kernel.epoll_ctl 0 ≡ true
      → kernel.epoll_ctl 1 ≡ true
      → start on_ready on_timer (ports p q) kernel open_fds
        ≡ (done (running (set_up i s (kernel.clock 0)) started), s ∷ i ∷ open_fds)
  start_lem p q i s kernel open_fds h k e f d x y z =
      opened (ports p q) kernel open_fds
      ∙ rw (parse_options-ports p q defaults h k, e, f, open_loop-set_up kernel i s d x y z) refl

  -- When a listener cannot be opened, main returns 1.
  pub start-failed :
      (args : List Text) (kernel : Kernel) (open_fds : Descriptors)
      → ingest_of args kernel ≡ none ⊎ subscribe_of args kernel ≡ none
      → (start on_ready on_timer args kernel open_fds).0 ≡ done failed
  unfolding open_loop
  start-failed args kernel open_fds h = rw (opened args kernel open_fds) (elim h [
    | inl e ↦ rw e refl
    | inr e ↦ (elim (Option-cases (ingest_of args kernel)) [
      | inl z ↦ rw z refl
      | inr (fd, z) ↦ rw (z, e) refl
    ])
  ])
