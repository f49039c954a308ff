-- ===== src/Proto/Ring/Threads.antt =====
-- proto/ring_buffer.hpp while both threads run: every access to an index or to a slot is a step, and
-- the steps of the producer and of the consumer alternate in any order. They are sequentially
-- consistent: a store is seen by the next load. The stale indices that the acquire and release orders
-- also let a thread see, with which it may refuse too early, are left out. The ghost fields `pushed` and
-- `popped` record, oldest first, the values whose push or pop has returned true.
pub mod Inv
use sensor_link.Prelude.{ℕ, ◌==◌, if◌then◌else◌, List, [], ◌∷◌, ◌++◌, set, get_or}
use sensor_link.Proto.Ring.{Ring, advance, fresh_ring}

-- Where the producer stands in `push`: outside; `tail_` read; the queue found to have room; the slot
-- written. The value is what it pushes and the number is its `tail`.
pub data Producer {ℓ} (A : Type ℓ) : Type ℓ where
  outside : Producer A
  loaded writing publishing : (value : A) (tail : ℕ) → Producer A

-- Where the consumer stands in `pop`: outside; `head_` read; the queue found not to be empty; the slot
-- read.
pub data Consumer {ℓ} (A : Type ℓ) : Type ℓ where
  outside : Consumer A
  loaded reading : (head : ℕ) → Consumer A
  releasing : (value : A) (head : ℕ) → Consumer A

pub record Shared {ℓ} (A : Type ℓ) : Type ℓ where
  pub ring : Ring A
  pub producer : Producer A
  pub consumer : Consumer A
  pub pushed : List A
  pub popped : List A

module _ {ℓ} {A : Type ℓ} (capacity : ℕ) (blank : A) where
  abbrev pub at_rest : Shared A
  at_rest = record {
    ring = fresh_ring capacity blank;
    producer = Producer.outside;
    consumer = Consumer.outside;
    pushed = [];
    popped = [];
  }

  -- The next access of the producer, which pushes `value` when it is outside.
  unfoldable pub produce_at : Producer A → A → Shared A → Shared A
  produce_at Producer.outside value s = record s { producer = Producer.loaded value s.ring.tail }
  produce_at (Producer.loaded v tail) value s =
      if advance capacity blank tail == s.ring.head
      then record s { producer = Producer.outside }
      else record s { producer = writing v tail }
  produce_at (writing v tail) value s = record s {
    ring = record s.ring { buffer = set s.ring.buffer tail v };
    producer = publishing v tail;
  }
  produce_at (publishing v tail) value s = record s {
    ring = record s.ring { tail = advance capacity blank tail };
    producer = Producer.outside;
    pushed = s.pushed ++ v ∷ [];
  }

  unfoldable pub produce : A → Shared A → Shared A
  produce value s = produce_at s.producer value s

  unfoldable pub consume_at : Consumer A → Shared A → Shared A
  consume_at Consumer.outside s = record s { consumer = Consumer.loaded s.ring.head }
  consume_at (Consumer.loaded head) s =
      if head == s.ring.tail
      then record s { consumer = Consumer.outside }
      else record s { consumer = reading head }
  consume_at (reading head) s = record s {
    consumer = releasing (get_or s.ring.buffer head blank) head;
  }
  consume_at (releasing v head) s = record s {
    ring = record s.ring { head = advance capacity blank head };
    consumer = Consumer.outside;
    popped = s.popped ++ v ∷ [];
  }

  unfoldable pub consume : Shared A → Shared A
  consume s = consume_at s.consumer s

  pub data Step (s : Shared A) : Shared A → Type ℓ where
    by_producer : (value : A) → Step s (produce value s)
    by_consumer : Step s (consume s)

  pub data Reach : Shared A → Type ℓ where
    start : Reach at_rest
    later : {s t : Shared A} → Reach s → Step s t → Reach t
