-- ===== src/Server/EventLoop/Wait.antt =====
-- server/event_loop.cpp: how long `poll` may sleep.
use sensor_link.Prelude.{
  ℕ, ◌+◌, ◌-◌, ◌*◌, ◌/◌, ◌%◌, ◌^◌, ◌≤◌, ◌<◌, ◌≡◌, refl, arith, ltb, true, List, [], ◌∷◌, All,
}
use sensor_link.Prelude.Int.{pos}
use sensor_link.Server.EventLoop.{Timer, to_int, timeout_at}
use sensor_link.Server.EventLoop.Due.{From}

to_int-small : (n : ℕ) → n < 2 ^ 31 → to_int n ≡ pos n
unfolding to_int
to_int-small n h = rw (kept, small) refl
  where
    kept : n % 2 ^ 32 ≡ n
    kept = omega arith

    small : ltb n (2 ^ 31) ≡ true
    small = ground arith

-- The deadline of `t` is at least `n` milliseconds after `now`.
abbrev pub Awake {ℓ} : {A : Type ℓ} → ℕ → ℕ → Timer A → Type 0
Awake now n t = n * 10 ^ 6 ≤ t.deadline - now

module _ {ℓ} {A : Type ℓ} where
  Awake-From :
      (now n d : ℕ) (timers : List (Timer A))
      → n * 10 ^ 6 ≤ d - now
      → From d timers
      → All (Awake now n) timers
  Awake-From now n d [] h k = _
  Awake-From now n d (t ∷ timers) h k =
      (omega arith, Awake-From now n t.deadline timers (omega arith) k.1)

  -- While the first deadline is less than 2^31 milliseconds away, the timeout of `poll` is a number of
  -- milliseconds that ends before the deadline of every pending timer, and less than a millisecond before
  -- the first one; it is 0 when that has passed.
  pub timeout_at_lem :
      (now : ℕ) (t : Timer A) (timers : List (Timer A))
      → From 0 (t ∷ timers)
      → (t.deadline - now) / 10 ^ 6 < 2 ^ 31
      → (n : ℕ) × (timeout_at now (t ∷ timers) ≡ pos n)
        × All (Awake now n) (t ∷ timers)
        × (t.deadline - now < (n + 1) * 10 ^ 6)
  unfolding timeout_at
  timeout_at_lem now t timers h k = (
    (t.deadline - now) / 10 ^ 6,
    to_int-small ((t.deadline - now) / 10 ^ 6) k,
    (omega arith, Awake-From now ((t.deadline - now) / 10 ^ 6) t.deadline timers (omega arith) h.1),
    omega arith,
  )
