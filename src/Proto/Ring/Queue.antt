-- ===== src/Proto/Ring/Queue.antt =====
-- proto/ring_buffer.hpp as a bounded queue.
use native.Mathlib.Nat.{mod-eq_of_lt, add-mod_right}
use sensor_link.Prelude.{
  ℕ, suc, ◌+◌, ◌-◌, ◌%◌, ◌≤◌, ◌<◌, ◌≡◌, ◌∙◌, refl, ap, arith, Bool, ◌==◌, ◌⊎◌, inl, inr, true,
  false,
}
use sensor_link.Prelude.{List, [], ◌∷◌, ◌++◌, length, length-replicate, set, get_or}
use sensor_link.Proto.Ring.{Ring, advance, fresh_ring, push, pop, size}
use sensor_link.Proto.Ring.Holds.{
  elements, Holds, advance-cases, full_test, empty_test, Holds-advance_tail, Holds-advance_head,
  Holds-set, written,
}

module _ {ℓ} {A : Type ℓ} (capacity : ℕ) (blank : A) where
  -- What an attempt to push leaves.
  pub record Pushed (v : A) (r : Ring A) (xs : List A) (result : Bool × Ring A) : Type ℓ where
    pub stored :
        length xs + 1 < capacity → (result.0 ≡ true) × Holds capacity blank result.1 (xs ++ v ∷ [])
    pub refused : length xs + 1 ≡ capacity → result ≡ (false, r)

  push-stored :
      (v : A) (r : Ring A) (xs : List A)
      → Holds capacity blank r xs
      → length xs + 1 < capacity
      → Holds capacity blank
          (record r { buffer = set r.buffer r.tail v; tail = advance capacity blank r.tail })
          (xs ++ v ∷ [])
  push-stored v r xs h k =
      Holds-advance_tail capacity blank v (record r { buffer = set r.buffer r.tail v }) xs
        (Holds-set capacity blank v r xs h) k (written capacity blank v r xs h)

  -- Pushing onto a ring that holds fewer than `capacity - 1` elements appends to its queue; onto one
  -- that holds so many, it is refused and nothing changes.
  pub push-Pushed :
      (v : A) (r : Ring A) (xs : List A)
      → Holds capacity blank r xs
      → Pushed v r xs (push capacity blank v r)
  unfolding push
  push-Pushed v r xs h = record {
    stored = λ k. rw (test.0 k) (refl, push-stored v r xs h k);
    refused = λ k. rw (test.1 k) refl;
  }
    where
      test :
          (length xs + 1 < capacity → (advance capacity blank r.tail == r.head) ≡ false)
          × (length xs + 1 ≡ capacity → (advance capacity blank r.tail == r.head) ≡ true)
      test =
          full_test capacity blank r.head r.tail (length xs) h.head_inside h.room h.place
            (advance-cases capacity blank r.tail h.tail_inside)

  -- What an attempt to pop gives: the first element and the rest, or nothing.
  abbrev pub Popped : A → Ring A → List A → Bool × A × Ring A → Type ℓ
  Popped out r [] result = result ≡ (false, out, r)
  Popped out r (x ∷ xs) result =
      (result.0 ≡ true) × (result.1 ≡ x) × Holds capacity blank result.2 xs

  -- Popping takes the first element of the queue, and from an empty ring nothing.
  pub pop-Popped :
      (out : A) (r : Ring A) (xs : List A)
      → Holds capacity blank r xs
      → Popped out r xs (pop capacity blank out r)
  unfolding pop elements
  pop-Popped out r [] h =
      rw
        ((empty_test capacity blank r.head r.tail 0 h.tail_inside h.head_inside h.room h.place).0
          refl)
        refl
  pop-Popped out r (x ∷ xs) h =
      rw
        ((empty_test capacity blank r.head r.tail (suc (length xs)) h.tail_inside h.head_inside
            h.room h.place).1
          (omega arith))
        (
          refl,
          ap (λ (l : List A). get_or l 0 blank) h.contents,
          Holds-advance_head capacity blank x r xs h,
        )

  -- A new ring holds the empty queue.
  pub fresh_ring-Holds : 2 ≤ capacity → Holds capacity blank (fresh_ring capacity blank) []
  unfolding elements
  fresh_ring-Holds h = record {
    two = h;
    slots = length-replicate capacity blank;
    head_inside = omega arith;
    tail_inside = omega arith;
    room = omega arith;
    place = inl (omega arith);
    contents = refl;
  }

  -- While neither side runs, `size` is the length of the queue.
  pub size-Holds :
      (r : Ring A) (xs : List A) → Holds capacity blank r xs → size capacity blank r ≡ length xs
  size-Holds r xs h = at_place r.head r.tail (length xs) h.head_inside h.room h.place
    where
      at_place :
          (h t n : ℕ)
          → h < capacity
          → n < capacity
          → (h + n ≡ t) ⊎ (h + n ≡ t + capacity)
          → (t + capacity - h) % capacity ≡ n
      at_place h t n hh nh (inl p) =
          ap (λ (m : ℕ). m % capacity) {y = n + capacity} (omega arith)
          ∙ add-mod_right n capacity
          ∙ mod-eq_of_lt nh
      at_place h t n hh nh (inr p) =
          ap (λ (m : ℕ). m % capacity) {y = n} (omega arith) ∙ mod-eq_of_lt nh
