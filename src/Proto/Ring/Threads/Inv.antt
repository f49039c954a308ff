-- ===== src/Proto/Ring/Threads/Inv.antt =====
-- proto/ring_buffer.hpp under every interleaving of its two threads.
use native.Mathlib.Decide.{dec_lt}
use sensor_link.Prelude.{
  ℕ, subst, true, false, suc, ◌+◌, ◌≤◌, ◌<◌, ◌≡◌, ◌≢◌, ◌∙◌, refl, sym, ap, arith, ◌==◌, Bool-cases,
  both_absurd, inl, inr, ◌⊎◌, List, [], ◌∷◌, ◌++◌, append_assoc, length, length-append, set, get_or,
  drop,
}
use sensor_link.Proto.Ring.{Ring, advance}
use sensor_link.Proto.Ring.Queue.{fresh_ring-Holds}
use sensor_link.Proto.Ring.Holds.{
  elements, Holds, advance-cases, empty_test, full_test, Holds-advance_tail, Holds-advance_head,
  Holds-set, written,
}
use sensor_link.Proto.Ring.Threads.{
  Producer, writing, publishing, Consumer, reading, releasing, Shared, at_rest, produce_at, produce,
  consume_at, consume, Step, by_producer, by_consumer, Reach, start, later,
}

module _ {A : Type 0} (capacity : ℕ) (blank : A) where
  -- What the producer knows of the ring with the queue `xs`.
  abbrev pub ProducerKnows : Producer A → Ring A → List A → Type 0
  ProducerKnows Producer.outside r xs = Unit
  ProducerKnows (Producer.loaded v t) r xs = t ≡ r.tail
  ProducerKnows (writing v t) r xs = (t ≡ r.tail) × (length xs + 1 < capacity)
  ProducerKnows (publishing v t) r xs =
      (t ≡ r.tail)
      × (length xs + 1 < capacity)
      × (elements capacity blank r.buffer r.head (suc (length xs)) ≡ xs ++ v ∷ [])

  abbrev pub ConsumerKnows : Consumer A → Ring A → List A → Type 0
  ConsumerKnows Consumer.outside r xs = Unit
  ConsumerKnows (Consumer.loaded h) r xs = h ≡ r.head
  ConsumerKnows (reading h) r xs = (h ≡ r.head) × (1 ≤ length xs)
  ConsumerKnows (releasing x h) r xs = (h ≡ r.head) × ((ys : List A) × (xs ≡ x ∷ ys))

  -- The invariant of both threads, for the queue `xs` of the values that are in between.
  pub record Inv (s : Shared A) (xs : List A) : Type 0 where
    pub holds : Holds capacity blank s.ring xs
    pub in_order : s.pushed ≡ s.popped ++ xs
    pub producer_knows : ProducerKnows s.producer s.ring xs
    pub consumer_knows : ConsumerKnows s.consumer s.ring xs

  Inv-at_rest : 2 ≤ capacity → Inv (at_rest capacity blank) []
  Inv-at_rest h = record {
    holds = fresh_ring-Holds capacity blank h;
    in_order = refl;
    producer_knows = _;
    consumer_knows = _;
  }

  -- Each side keeps its knowledge when the other side moves its index.
  ConsumerKnows-same_head :
      (c : Consumer A) (r q : Ring A) (xs : List A)
      → r.head ≡ q.head
      → ConsumerKnows c r xs
      → ConsumerKnows c q xs
  ConsumerKnows-same_head Consumer.outside r q xs e k = k
  ConsumerKnows-same_head (Consumer.loaded h) r q xs e k = k ∙ e
  ConsumerKnows-same_head (reading h) r q xs e k = (k.0 ∙ e, k.1)
  ConsumerKnows-same_head (releasing x h) r q xs e (d, k) = (d ∙ e, k)

  ConsumerKnows-append :
      (c : Consumer A) (r : Ring A) (xs : List A) (v : A)
      → ConsumerKnows c r xs
      → ConsumerKnows c r (xs ++ v ∷ [])
  ConsumerKnows-append Consumer.outside r xs v k = k
  ConsumerKnows-append (Consumer.loaded h) r xs v k = k
  ConsumerKnows-append (reading h) r xs v k = (k.0, omega (arith, length-append xs (v ∷ [])))
  ConsumerKnows-append (releasing x h) r xs v (e, (ys, p)) =
      (e, (ys ++ v ∷ [], ap (λ (l : List A). l ++ v ∷ []) p))

  ProducerKnows-advance_head :
      (p : Producer A) (r : Ring A) (x : A) (xs : List A)
      → ProducerKnows p r (x ∷ xs)
      → ProducerKnows p (record r { head = advance capacity blank r.head }) xs
  unfolding elements
  ProducerKnows-advance_head Producer.outside r x xs k = k
  ProducerKnows-advance_head (Producer.loaded v t) r x xs k = k
  ProducerKnows-advance_head (writing v t) r x xs k = (k.0, omega (arith, k.1))
  ProducerKnows-advance_head (publishing v t) r x xs k =
      (k.0, omega (arith, k.1), ap (λ (l : List A). drop 1 l) k.2)

  -- A side that only moves on.
  producer_at :
      (s : Shared A) (xs : List A)
      → Inv s xs
      → (p : Producer A) → ProducerKnows p s.ring xs
      → Inv (record s { producer = p }) xs
  producer_at s xs inv p k = record {
    holds = inv.holds;
    in_order = inv.in_order;
    producer_knows = k;
    consumer_knows = inv.consumer_knows;
  }

  consumer_at :
      (s : Shared A) (xs : List A)
      → Inv s xs
      → (c : Consumer A) → ConsumerKnows c s.ring xs
      → Inv (record s { consumer = c }) xs
  consumer_at s xs inv c k = record {
    holds = inv.holds;
    in_order = inv.in_order;
    producer_knows = inv.producer_knows;
    consumer_knows = k;
  }

  -- The producer's step.
  room_found :
      (r : Ring A) (xs : List A)
      → Holds capacity blank r xs
      → (advance capacity blank r.tail == r.head) ≡ false
      → length xs + 1 < capacity
  room_found r xs h e = elim (dec_lt (length xs + 1) capacity) [
    | yes lt ↦ lt
    | no ge ↦ absurd (both_absurd (test.1 (omega (arith, h.room))) e)
  ]
    where
      test :
          (length xs + 1 < capacity → (advance capacity blank r.tail == r.head) ≡ false)
          × (length xs + 1 ≡ capacity → (advance capacity blank r.tail == r.head) ≡ true)
      test =
          full_test capacity blank r.head r.tail (length xs) h.head_inside h.room h.place
            (advance-cases capacity blank r.tail h.tail_inside)

  produce-Inv :
      (value : A) (s : Shared A) (xs : List A)
      → Inv s xs
      → (p : Producer A) → ProducerKnows p s.ring xs
      → (ys : List A) × Inv (produce_at capacity blank p value s) ys
  unfolding produce_at
  produce-Inv value s xs inv Producer.outside k =
      (xs, producer_at s xs inv (Producer.loaded value s.ring.tail) (refl))
  produce-Inv value s xs inv (Producer.loaded v t) k =
      elim (Bool-cases (advance capacity blank t == s.ring.head)) [
        | inl z ↦ rw z (xs, producer_at s xs inv Producer.outside (_))
        | inr z ↦ rw z (
          xs,
          producer_at s xs inv (writing v t) ((k, room_found s.ring xs inv.holds (rw⁻¹ k z))),
        )
      ]
  produce-Inv value s xs inv (writing v t) k = rw (k.0) (
    xs,
    record {
      holds = Holds-set capacity blank v s.ring xs inv.holds;
      in_order = inv.in_order;
      producer_knows = (refl, k.1, written capacity blank v s.ring xs inv.holds);
      consumer_knows =
          ConsumerKnows-same_head s.consumer s.ring
            (record s.ring { buffer = set s.ring.buffer s.ring.tail v }) xs refl inv.consumer_knows;
    },
  )
  produce-Inv value s xs inv (publishing v t) k = rw (k.0) (
    xs ++ v ∷ [],
    record {
      holds = Holds-advance_tail capacity blank v s.ring xs inv.holds k.1 k.2;
      in_order = ap (λ (l : List A). l ++ v ∷ []) inv.in_order ∙ append_assoc s.popped xs (v ∷ []);
      producer_knows = _;
      consumer_knows =
          ConsumerKnows-same_head s.consumer s.ring
            (record s.ring { tail = advance capacity blank s.ring.tail }) (xs ++ v ∷ []) refl
            (ConsumerKnows-append s.consumer s.ring xs v inv.consumer_knows);
    },
  )

  -- The consumer's step.
  some_found :
      (r : Ring A) (xs : List A)
      → Holds capacity blank r xs
      → (r.head == r.tail) ≡ false
      → 1 ≤ length xs
  some_found r [] h e = absurd (
      both_absurd
        ((empty_test capacity blank r.head r.tail 0 h.tail_inside h.head_inside h.room h.place).0
          refl)
        e)
  some_found r (x ∷ xs) h e = omega arith

  first_element :
      (r : Ring A) (xs : List A)
      → Holds capacity blank r xs
      → 1 ≤ length xs
      → (ys : List A) × (xs ≡ get_or r.buffer r.head blank ∷ ys)
  unfolding elements
  first_element r [] h e = absurd (omega arith)
  first_element r (x ∷ xs) h e =
      (xs, ap (λ (a : A). a ∷ xs) (sym (ap (λ (l : List A). get_or l 0 blank) h.contents)))

  released :
      (s : Shared A) (xs : List A) (v : A)
      → Inv s xs
      → (ys : List A) → xs ≡ v ∷ ys
      → Inv
          (record s {
            ring = record s.ring { head = advance capacity blank s.ring.head };
            consumer = Consumer.outside;
            popped = s.popped ++ v ∷ [];
          })
          ys
  released s xs v inv ys e = record {
    holds =
        Holds-advance_head capacity blank v s.ring ys
          (subst (λ (l : List A). Holds capacity blank s.ring l) e inv.holds);
    in_order =
        inv.in_order
        ∙ ap (λ (l : List A). s.popped ++ l) e
        ∙ sym (append_assoc s.popped (v ∷ []) ys);
    producer_knows =
        ProducerKnows-advance_head s.producer s.ring v ys
          (subst (λ (l : List A). ProducerKnows s.producer s.ring l) e inv.producer_knows);
    consumer_knows = _;
  }

  consume-Inv :
      (s : Shared A) (xs : List A)
      → Inv s xs
      → (c : Consumer A) → ConsumerKnows c s.ring xs
      → (ys : List A) × Inv (consume_at capacity blank c s) ys
  unfolding consume_at
  consume-Inv s xs inv Consumer.outside k =
      (xs, consumer_at s xs inv (Consumer.loaded s.ring.head) (refl))
  consume-Inv s xs inv (Consumer.loaded h) k = elim (Bool-cases (h == s.ring.tail)) [
    | inl z ↦ rw z (xs, consumer_at s xs inv Consumer.outside (_))
    | inr z ↦
        rw z (xs, consumer_at s xs inv (reading h) ((k, some_found s.ring xs inv.holds (rw⁻¹ k z))))
  ]
  consume-Inv s xs inv (reading h) k = rw k.0 (
    xs,
    consumer_at s xs inv (releasing (get_or s.ring.buffer s.ring.head blank) s.ring.head)
        ((refl, first_element s.ring xs inv.holds k.1)),
  )
  consume-Inv s xs inv (releasing v h) (e, (ys, p)) = rw e (ys, released s xs v inv ys p)

  Step-Inv :
      {s t : Shared A} (xs : List A) → Step capacity blank s t → Inv s xs → (ys : List A) × Inv t ys
  unfolding produce consume
  Step-Inv {s} xs (by_producer value) inv = produce-Inv value s xs inv s.producer inv.producer_knows
  Step-Inv {s} xs by_consumer inv = consume-Inv s xs inv s.consumer inv.consumer_knows

  -- In every state that both threads can reach by any interleaving of their accesses, the ring holds
  -- a queue of fewer than `capacity` values, and the values pushed are, in order, those popped and then
  -- that queue: none is lost, doubled or overtaken.
  pub Reach-Inv : {s : Shared A} → 2 ≤ capacity → Reach capacity blank s → (xs : List A) × Inv s xs
  Reach-Inv two start = ([], Inv-at_rest two)
  Reach-Inv two (later r st) = let (xs, inv) = Reach-Inv two r in Step-Inv xs st inv

  -- The slot that the producer writes and the one that the consumer reads.
  abbrev pub Writes : Producer A → ℕ → Type 0
  Writes (writing v t) slot = t ≡ slot
  Writes _ slot = ⊥

  abbrev pub Reads : Consumer A → ℕ → Type 0
  Reads (reading h) slot = h ≡ slot
  Reads _ slot = ⊥

  -- A queue with something in it and with room has its ends in different slots.
  separate : (h t n : ℕ) → (h + n ≡ t) ⊎ (h + n ≡ t + capacity) → n + 1 < capacity → 1 ≤ n → h ≢ t
  separate h t n (inl p) k l = λ e. omega arith
  separate h t n (inr p) k l = λ e. omega arith

  -- No data race: in every state that can be reached, the producer and the consumer do not both stand
  -- before an access to the same slot.
  pub Reach-apart :
      {s : Shared A}
      → 2 ≤ capacity
      → Reach capacity blank s
      → (slot : ℕ) → Writes s.producer slot
      → ¬ Reads s.consumer slot
  Reach-apart {s} two r slot w d =
      let (xs, inv) = Reach-Inv two r in
      apart s.ring xs inv.holds s.producer s.consumer slot inv.producer_knows inv.consumer_knows w d
    where
      apart :
          (r : Ring A) (xs : List A)
          → Holds capacity blank r xs
          → (p : Producer A) (c : Consumer A) (slot : ℕ) → ProducerKnows p r xs
          → ConsumerKnows c r xs
          → Writes p slot
          → Reads c slot
          → ⊥
      apart r xs h Producer.outside c slot k l w d = absurd w
      apart r xs h (Producer.loaded v t) c slot k l w d = absurd w
      apart r xs h (publishing v t) c slot k l w d = absurd w
      apart r xs h (writing v t) Consumer.outside slot k l w d = absurd d
      apart r xs h (writing v t) (Consumer.loaded i) slot k l w d = absurd d
      apart r xs h (writing v t) (releasing x i) slot k l w d = absurd d
      apart r xs h (writing v t) (reading i) slot k l w d =
          separate r.head r.tail (length xs) h.place k.1 l.1 (sym l.0 ∙ d ∙ sym w ∙ k.0)
