-- ===== src/Proto/Ring.antt =====
-- proto/ring_buffer.hpp: the lock-free ring of one producer and one consumer. The slots are a list of
-- `capacity` elements; `blank` is a default-constructed element.
mod Tests
pub mod Holds
pub mod Queue
pub mod Threads
use sensor_link.Prelude.{
  ℕ, suc, ◌+◌, ◌-◌, ◌%◌, ◌==◌, if◌then◌else◌, Bool, true, false, List, set, get_or, replicate,
}

pub record Ring {ℓ} (A : Type ℓ) : Type ℓ where
  pub buffer : List A
  pub head : ℕ
  pub tail : ℕ

module _ {ℓ} {A : Type ℓ} (capacity : ℕ) (blank : A) where
  abbrev pub fresh_ring : Ring A
  fresh_ring = record { buffer = replicate capacity blank; head = 0; tail = 0 }

  abbrev pub advance : ℕ → ℕ
  advance index = (index + 1) % capacity

  pub push : A → Ring A → Bool × Ring A
  push value r =
      if advance r.tail == r.head
      then (false, r)
      else (true, record r { buffer = set r.buffer r.tail value; tail = advance r.tail })

  -- `out` is left as it is when the ring is empty.
  pub pop : A → Ring A → Bool × A × Ring A
  pop out r =
      if r.head == r.tail
      then (false, out, r)
      else (true, get_or r.buffer r.head blank, record r { head = advance r.head })

  abbrev pub is_empty : Ring A → Bool
  is_empty r = r.head == r.tail

  abbrev pub is_full : Ring A → Bool
  is_full r = advance r.tail == r.head

  abbrev pub size : Ring A → ℕ
  size r = (r.tail + capacity - r.head) % capacity
