-- ===== src/Server/EventLoop/Tests.antt =====
-- The event loop's theorems at a heartbeat that sets its own timer again.
use sensor_link.Prelude.{ℕ, ◌+◌, ◌*◌, ◌^◌, ◌<◌, ◌≡◌, arith, Bool, true, List, [], ◌∷◌, length, All}
use sensor_link.Prelude.Int.{pos}
use sensor_link.Server.EventLoop.{Timer, Loop, Call, add_timer, stop, fire_due_timers, timeout_at}
use sensor_link.Server.EventLoop.Due.{due, Completes, AllFired, fire_due_timers_lem}
use sensor_link.Server.EventLoop.Wait.{Awake, timeout_at_lem}

-- A callback is its period, and the rest of the server counts the rounds.
abbrev beat : ℕ → ℕ → ℕ × List (Call ℕ)
beat period n = (n + 1, add_timer (period + 1) period ∷ [])

abbrev on_ready : ℕ → ℕ → ℕ → ℕ × List (Call ℕ)
on_ready a events n = (n, stop ∷ [])

abbrev clock : ℕ → ℕ
clock n = n * 10 ^ 6

abbrev granted : ℕ → Bool
granted n = true

abbrev timer : ℕ → ℕ → Timer ℕ
timer deadline period = record { deadline = deadline; callback = period }

abbrev two_timers : Loop ℕ
two_timers = record {
  running = true;
  callbacks = [];
  timers = timer 1 2000 ∷ timer (5 * 10 ^ 6) 3 ∷ [];
  clock_reads = 3;
  interest = [];
  ctl_calls = 0;
}

one_due : length (due 3000000 (timer 1 2000 ∷ timer (5 * 10 ^ 6) 3 ∷ [])) < 2
unfolding due
one_due = omega arith

fire_due_timers_example :
    Completes
      (AllFired clock granted on_ready beat (clock 3) (timer 1 2000 ∷ timer (5 * 10 ^ 6) 3 ∷ []))
      (fire_due_timers clock granted on_ready beat 2 two_timers 0)
fire_due_timers_example =
    fire_due_timers_lem clock granted on_ready beat 2 two_timers 0 (λ a v. (omega arith, _))
      (omega arith, (omega arith, _)) (λ m n h. omega arith) one_due

timeout_at_example :
    (n : ℕ) × (timeout_at 2000000 (timer 5500000 1 ∷ []) ≡ pos n)
    × All (Awake 2000000 n) (timer 5500000 1 ∷ [])
    × (3500000 < (n + 1) * 10 ^ 6)
timeout_at_example = timeout_at_lem 2000000 (timer 5500000 1) [] (omega arith, _) (omega arith)
