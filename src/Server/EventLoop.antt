-- ===== src/Server/EventLoop.antt =====
-- server/event_loop.cpp and .hpp. Times are in nanoseconds. A stored callback is a name of type `A`:
-- what it does is a parameter, from the state `W` of the rest of the server to that state and to the
-- calls that it makes of the loop, in order. So are the readings of the clock, counted, and the answers
-- of epoll_ctl, counted. The priority queue is a list in the order of the deadlines, of equal ones the
-- first pushed first; std::priority_queue leaves that order open. `interest` is what the kernel watches:
-- the descriptors in the epoll set, each with its event mask.

mod Tests
pub mod Due
pub mod Wait
use sensor_link.Prelude.{
  ℕ, zero, suc, ◌+◌, ◌-◌, ◌*◌, ◌/◌, ◌%◌, ◌^◌, ltb, leb, ◌==◌, if◌then◌else◌, Bool, true, false,
  List, [], ◌∷◌, length, Option, none, some,
}
use sensor_link.Prelude.Int.{ℤ, pos, negsuc}
use sensor_link.Prelude.Text.{find, put}

abbrev pub max_events_per_wait : ℕ
max_events_per_wait = 64

pub record Timer {ℓ} (A : Type ℓ) : Type ℓ where
  pub deadline : ℕ
  pub callback : A

pub record Loop {ℓ} (A : Type ℓ) : Type ℓ where
  pub running : Bool
  pub callbacks : List (ℕ × A)
  pub interest : List (ℕ × ℕ)
  pub timers : List (Timer A)
  pub clock_reads : ℕ
  pub ctl_calls : ℕ

-- The calls that a callback makes: add_timer, with its delay in milliseconds, add, modify, remove, stop.
pub data Call {ℓ} (A : Type ℓ) : Type ℓ where
  add_timer : (delay_ms : ℕ) (callback : A) → Call A
  add : (fd events : ℕ) (callback : A) → Call A
  modify : (fd events : ℕ) → Call A
  remove : (fd : ℕ) → Call A
  stop : Call A

-- The system calls whose failure throws.
pub data Thrown : Type 0 where
  epoll_create1 epoll_wait epoll_ctl_add epoll_ctl_mod epoll_ctl_del : Thrown

-- `unfinished`: the fuel, or the answers of the kernel, are used up.
pub data Outcome {ℓ} (A : Type ℓ) : Type ℓ where
  done : A → Outcome A
  thrown : Thrown → Outcome A
  unfinished : Outcome A

infixl 5 ◌>>=◌
abbrev pub ◌>>=◌ {ℓ κ} : {A : Type ℓ} {B : Type κ} → Outcome A → (A → Outcome B) → Outcome B
done a >>= f = f a
thrown e >>= f = thrown e
unfinished >>= f = unfinished

-- What epoll_wait answers: the descriptors that are ready, each with its events; EINTR; another error.
pub data Waited : Type 0 where
  ready : List (ℕ × ℕ) → Waited
  interrupted failed : Waited

-- `static_cast<int>` of a number that is not negative.
unfoldable pub to_int : ℕ → ℤ
to_int n = if ltb (n % 2 ^ 32) (2 ^ 31) then pos (n % 2 ^ 32) else negsuc (2 ^ 32 - 1 - n % 2 ^ 32)

-- `callbacks_.erase`
module _ {ℓ} {A : Type ℓ} where
  unfoldable pub erase : ℕ → List (ℕ × A) → List (ℕ × A)
  erase fd [] = []
  erase fd ((other, a) ∷ callbacks) =
      let rest = erase fd callbacks in if fd == other then callbacks else (other, a) ∷ rest

module _ {ℓ} {A : Type ℓ} where
  -- The constructor, by the answer of epoll_create1.
  unfoldable pub make_loop : Bool → Outcome (Loop A)
  make_loop created =
      if created
      then done (record {
        running = false;
        callbacks = [];
        interest = [];
        timers = [];
        clock_reads = 0;
        ctl_calls = 0;
      })
      else thrown epoll_create1

  -- `timers_.push`
  unfoldable pub push_timer : Timer A → List (Timer A) → List (Timer A)
  push_timer t [] = t ∷ []
  push_timer t (u ∷ timers) =
      let rest = push_timer t timers in
      if ltb t.deadline u.deadline then t ∷ u ∷ timers else u ∷ rest

  abbrev first_deadline : List (Timer A) → Option ℕ
  first_deadline [] = none
  first_deadline (t ∷ timers) = some t.deadline

  -- The timeout of `poll`, at a reading of the clock.
  unfoldable pub timeout_at : ℕ → List (Timer A) → ℤ
  timeout_at now timers = elim (first_deadline timers) [
    | none ↦ negsuc 0
    | some deadline ↦ to_int ((deadline - now) / 10 ^ 6)
  ]

module _ {ℓ κ} {A : Type ℓ} {W : Type κ} (clock : ℕ → ℕ) (epoll_ctl : ℕ → Bool)
    (on_ready : A → ℕ → W → W × List (Call A)) (on_timer : A → W → W × List (Call A)) where
  -- One call of the loop.
  unfoldable pub perform : Call A → Loop A → Outcome (Loop A)
  perform (add_timer delay_ms a) l = done (record l {
    timers =
        push_timer (record { deadline = clock l.clock_reads + delay_ms * 10 ^ 6; callback = a })
          l.timers;
    clock_reads = l.clock_reads + 1;
  })
  perform (add fd events a) l =
      if epoll_ctl l.ctl_calls
      then done (record l {
        callbacks = put fd a l.callbacks;
        interest = put fd events l.interest;
        ctl_calls = l.ctl_calls + 1;
      })
      else thrown epoll_ctl_add
  perform (modify fd events) l =
      if epoll_ctl l.ctl_calls
      then done (record l { interest = put fd events l.interest; ctl_calls = l.ctl_calls + 1 })
      else thrown epoll_ctl_mod
  perform (remove fd) l =
      if epoll_ctl l.ctl_calls
      then done (record l {
        callbacks = erase fd l.callbacks;
        interest = erase fd l.interest;
        ctl_calls = l.ctl_calls + 1;
      })
      else thrown epoll_ctl_del
  perform stop l = done (record l { running = false })

  unfoldable pub perform_all : List (Call A) → Loop A → Outcome (Loop A)
  perform_all [] l = done l
  perform_all (call ∷ calls) l = do l' ← perform call l; perform_all calls l'

  -- The loop of `fire_due_timers`, whose `now` is read once; also the timers that fired, the first one
  -- first.
  unfoldable pub fire_due : ℕ → ℕ → Loop A → W → Outcome (List (Timer A) × Loop A × W)
  fire_due zero now l w = unfinished
  fire_due (suc fuel) now l w = elim l.timers [
    | [] ↦ done ([], l, w)
    | t ∷ timers ↦
        let (w', calls) = on_timer t.callback w in
        let rest = (do
          l' ← perform_all calls (record l { timers = timers })
          (fired, l'', w'') ← fire_due fuel now l' w'
          done (t ∷ fired, l'', w'')) in
        if leb t.deadline now then rest else done ([], l, w)
  ]

  unfoldable pub fire_due_timers : ℕ → Loop A → W → Outcome (List (Timer A) × Loop A × W)
  fire_due_timers fuel l w =
      fire_due fuel (clock l.clock_reads) (record l { clock_reads = l.clock_reads + 1 }) w

  -- The loop over the descriptors that are ready: one without a callback is passed over.
  unfoldable pub dispatch : List (ℕ × ℕ) → Loop A → W → Outcome (Loop A × W)
  dispatch [] l w = done (l, w)
  dispatch ((fd, events) ∷ more) l w = elim (find fd l.callbacks) [
    | none ↦ dispatch more l w
    | some a ↦
        let (w', calls) = on_ready a events w in (do l' ← perform_all calls l; dispatch more l' w')
  ]

  -- `poll` behind epoll_wait; the number is what it returns.
  unfoldable pub after_wait : ℕ → Waited → Loop A → W → Outcome (ℕ × Loop A × W)
  after_wait fuel failed l w = thrown epoll_wait
  after_wait fuel interrupted l w = do (fired, l', w') ← fire_due_timers fuel l w; done (0, l', w')
  after_wait fuel (ready events) l w = do
    (l', w') ← dispatch events l w
    (fired, l'', w'') ← fire_due_timers fuel l' w'
    done (length events, l'', w'')

  -- The clock is read for the timeout when a timer is pending.
  unfoldable pub wait_for : Loop A → ℤ × Loop A
  wait_for l = (
    timeout_at (clock l.clock_reads) l.timers,
    if length l.timers == 0 then l else record l { clock_reads = l.clock_reads + 1 },
  )

  -- What epoll_wait answers depends on its capacity and on its timeout.
  unfoldable pub poll : ℕ → (ℕ → ℤ → Waited) → Loop A → W → Outcome (ℕ × Loop A × W)
  poll fuel answer l w =
      let (timeout_ms, l') = wait_for l in
      after_wait fuel (answer max_events_per_wait timeout_ms) l' w

  -- The loop of `run`, one answer of epoll_wait for each round.
  unfoldable pub rounds : ℕ → List (ℕ → ℤ → Waited) → Loop A → W → Outcome (Loop A × W)
  rounds fuel [] l w = if l.running then unfinished else done (l, w)
  rounds fuel (answer ∷ answers) l w =
      let more = (do (n, l', w') ← poll fuel answer l w; rounds fuel answers l' w') in
      if l.running then more else done (l, w)

  unfoldable pub run : ℕ → List (ℕ → ℤ → Waited) → Loop A → W → Outcome (Loop A × W)
  run fuel answers l w = rounds fuel answers (record l { running = true }) w
