-- ===== src/Proto/Ring/Holds.antt =====
-- proto/ring_buffer.hpp: what it is for a ring to hold a queue, and what writing a slot and advancing
-- an index make of it.
use native.Mathlib.Nat.{mod-eq_of_lt, mod_self}
use native.Mathlib.Decide.{dec_lt}
use sensor_link.Prelude.{
  ℕ, zero, suc, ◌+◌, ◌%◌, ◌≤◌, ◌<◌, ◌≡◌, ◌≢◌, ◌∙◌, refl, ap, ap₂, subst, arith, ◌==◌, ◌⊎◌, inl, inr,
  true, false,
}
use sensor_link.Prelude.{
  List, [], ◌∷◌, ◌++◌, length, length-append, length-set, drop, set, get_or, get_or-set_self,
  get_or-set_ne,
}
use sensor_link.Proto.Ring.{Ring, advance}

-- The elements in the `n` slots from `h` on.
unfoldable pub elements {ℓ} : {A : Type ℓ} → ℕ → A → List A → ℕ → ℕ → List A
elements capacity blank buffer h zero = []
elements capacity blank buffer h (suc n) =
    get_or buffer h blank ∷ elements capacity blank buffer (advance capacity blank h) n

module _ {ℓ} {A : Type ℓ} (capacity : ℕ) (blank : A) where
  wraps : {n : ℕ} → n ≡ capacity → n % capacity ≡ 0
  wraps e = ap (λ (m : ℕ). m % capacity) e ∙ mod_self capacity

  pub advance-cases :
      (i : ℕ)
      → i < capacity
      → ((advance capacity blank i ≡ i + 1) × (i + 1 < capacity))
        ⊎ ((advance capacity blank i ≡ 0) × (i + 1 ≡ capacity))
  advance-cases i h = elim (dec_lt (i + 1) capacity) [
    | yes lt ↦ inl (mod-eq_of_lt lt, lt)
    | no ge ↦ inr (wraps (omega arith), omega arith)
  ]

  -- The ring `r` holds the queue `xs`, its first element the next to be read.
  pub record Holds (r : Ring A) (xs : List A) : Type ℓ where
    pub two : 2 ≤ capacity
    pub slots : length r.buffer ≡ capacity
    pub head_inside : r.head < capacity
    pub tail_inside : r.tail < capacity
    pub room : length xs < capacity
    pub place : (r.head + length xs ≡ r.tail) ⊎ (r.head + length xs ≡ r.tail + capacity)
    pub contents : elements capacity blank r.buffer r.head (length xs) ≡ xs

  -- Writing the slot behind the queue appends to it.
  pub elements-write :
      (buffer : List A) (h t n : ℕ) (v : A)
      → length buffer ≡ capacity
      → h < capacity
      → t < capacity
      → n < capacity
      → (h + n ≡ t) ⊎ (h + n ≡ t + capacity)
      → elements capacity blank (set buffer t v) h (suc n)
        ≡ elements capacity blank buffer h n ++ v ∷ []
  unfolding elements
  elements-write buffer h t zero v e hh th nh (inr p) = absurd (omega arith)
  elements-write buffer h t zero v e hh th nh (inl p) =
      ap (λ (a : A). a ∷ [])
        (ap (λ (i : ℕ). get_or (set buffer t v) i blank) {y = t} (omega arith)
          ∙ get_or-set_self buffer t v blank (omega arith))
  elements-write buffer h t (suc n) v e hh th nh p =
      ap₂ (λ (a : A) (l : List A). a ∷ l) (get_or-set_ne buffer t h v blank (apart p))
        (elements-write buffer (advance capacity blank h) t n v e (inside (advance-cases h hh)) th
          (omega arith) (further (advance-cases h hh) p))
    where
      apart : (h + suc n ≡ t) ⊎ (h + suc n ≡ t + capacity) → t ≢ h
      apart (inl q) = λ r. omega arith
      apart (inr q) = λ r. omega arith

      inside :
          ((advance capacity blank h ≡ h + 1) × (h + 1 < capacity))
            ⊎ ((advance capacity blank h ≡ 0) × (h + 1 ≡ capacity))
          → advance capacity blank h < capacity
      inside (inl q) = omega arith
      inside (inr q) = omega arith

      further :
          ((advance capacity blank h ≡ h + 1) × (h + 1 < capacity))
            ⊎ ((advance capacity blank h ≡ 0) × (h + 1 ≡ capacity))
          → (h + suc n ≡ t) ⊎ (h + suc n ≡ t + capacity)
          → (advance capacity blank h + n ≡ t) ⊎ (advance capacity blank h + n ≡ t + capacity)
      further (inl q) (inl p) = inl (omega arith)
      further (inl q) (inr p) = inr (omega arith)
      further (inr q) (inl p) = absurd (omega arith)
      further (inr q) (inr p) = inl (omega arith)

  abbrev pub Next : ℕ → Type 0
  Next i =
      ((advance capacity blank i ≡ i + 1) × (i + 1 < capacity))
      ⊎ ((advance capacity blank i ≡ 0) × (i + 1 ≡ capacity))

  pub full_test :
      (h t n : ℕ)
      → h < capacity
      → n < capacity
      → (h + n ≡ t) ⊎ (h + n ≡ t + capacity)
      → Next t
      → (n + 1 < capacity → (advance capacity blank t == h) ≡ false)
        × (n + 1 ≡ capacity → (advance capacity blank t == h) ≡ true)
  full_test h t n hh nh (inl p) (inl q) = ((λ k. ground arith), (λ k. ground arith))
  full_test h t n hh nh (inl p) (inr q) = ((λ k. ground arith), (λ k. ground arith))
  full_test h t n hh nh (inr p) (inl q) = ((λ k. ground arith), (λ k. ground arith))
  full_test h t n hh nh (inr p) (inr q) = ((λ k. ground arith), (λ k. ground arith))

  pub Next-inside : (i : ℕ) → Next i → advance capacity blank i < capacity
  Next-inside i (inl q) = omega arith
  Next-inside i (inr q) = omega arith

  pub place_push :
      (h t n : ℕ)
      → (h + n ≡ t) ⊎ (h + n ≡ t + capacity)
      → n + 1 < capacity
      → h < capacity
      → Next t
      → (h + (n + 1) ≡ advance capacity blank t)
        ⊎ (h + (n + 1) ≡ advance capacity blank t + capacity)
  place_push h t n (inl p) k hh (inl q) = inl (omega arith)
  place_push h t n (inl p) k hh (inr q) = inr (omega arith)
  place_push h t n (inr p) k hh (inl q) = inr (omega arith)
  place_push h t n (inr p) k hh (inr q) = absurd (omega arith)

  -- When the slot behind the queue holds `v`, advancing the tail appends `v`.
  pub Holds-advance_tail :
      (v : A) (r : Ring A) (xs : List A)
      → Holds r xs
      → length xs + 1 < capacity
      → elements capacity blank r.buffer r.head (suc (length xs)) ≡ xs ++ v ∷ []
      → Holds (record r { tail = advance capacity blank r.tail }) (xs ++ v ∷ [])
  Holds-advance_tail v r xs h k e = record {
    two = h.two;
    slots = h.slots;
    head_inside = h.head_inside;
    tail_inside = Next-inside r.tail (advance-cases r.tail h.tail_inside);
    room = omega (arith, length-append xs (v ∷ []));
    place =
        subst
          (λ (n : ℕ).
            (r.head + n ≡ advance capacity blank r.tail)
            ⊎ (r.head + n ≡ advance capacity blank r.tail + capacity))
          (omega (arith, length-append xs (v ∷ [])))
          (place_push r.head r.tail (length xs) h.place k h.head_inside
            (advance-cases r.tail h.tail_inside));
    contents =
        ap (λ (n : ℕ). elements capacity blank r.buffer r.head n) {y = suc (length xs)}
          (omega (arith, length-append xs (v ∷ [])))
        ∙ e;
  }

  -- The slot behind the queue, when it is written.
  pub written :
      (v : A) (r : Ring A) (xs : List A)
      → Holds r xs
      → elements capacity blank (set r.buffer r.tail v) r.head (suc (length xs)) ≡ xs ++ v ∷ []
  written v r xs h =
      elements-write r.buffer r.head r.tail (length xs) v h.slots h.head_inside h.tail_inside h.room
        h.place
      ∙ ap (λ (l : List A). l ++ v ∷ []) h.contents

  -- The first elements of a run.
  elements-init :
      (buffer : List A) (h n : ℕ) (xs : List A) (v : A)
      → length xs ≡ n
      → elements capacity blank buffer h (suc n) ≡ xs ++ v ∷ []
      → elements capacity blank buffer h n ≡ xs
  unfolding elements
  elements-init buffer h zero [] v e p = refl
  elements-init buffer h zero (x ∷ xs) v e p = absurd (omega arith)
  elements-init buffer h (suc n) [] v e p = absurd (omega arith)
  elements-init buffer h (suc n) (x ∷ xs) v e p =
      ap (λ (a : A). a ∷ elements capacity blank buffer (advance capacity blank h) n)
        (ap (λ (l : List A). get_or l 0 blank) p)
      ∙ ap (λ (l : List A). x ∷ l)
          (elements-init buffer (advance capacity blank h) n xs v (omega (arith, e))
            (ap (λ (l : List A). drop 1 l) p))

  -- Writing the slot behind the queue does not change the queue.
  pub Holds-set :
      (v : A) (r : Ring A) (xs : List A)
      → Holds r xs
      → Holds (record r { buffer = set r.buffer r.tail v }) xs
  Holds-set v r xs h = record {
    two = h.two;
    slots = length-set r.buffer r.tail v ∙ h.slots;
    head_inside = h.head_inside;
    tail_inside = h.tail_inside;
    room = h.room;
    place = h.place;
    contents =
        elements-init (set r.buffer r.tail v) r.head (length xs) xs v refl (written v r xs h);
  }

  pub empty_test :
      (h t n : ℕ)
      → t < capacity
      → h < capacity
      → n < capacity
      → (h + n ≡ t) ⊎ (h + n ≡ t + capacity)
      → (n ≡ 0 → (h == t) ≡ true) × (1 ≤ n → (h == t) ≡ false)
  empty_test h t n th hh nh (inl p) = ((λ k. ground arith), (λ k. ground arith))
  empty_test h t n th hh nh (inr p) = ((λ k. ground arith), (λ k. ground arith))

  pub place_pop :
      (h t n : ℕ)
      → (h + suc n ≡ t) ⊎ (h + suc n ≡ t + capacity)
      → t < capacity
      → Next h
      → (advance capacity blank h + n ≡ t) ⊎ (advance capacity blank h + n ≡ t + capacity)
  place_pop h t n (inl p) th (inl q) = inl (omega arith)
  place_pop h t n (inl p) th (inr q) = absurd (omega arith)
  place_pop h t n (inr p) th (inl q) = inr (omega arith)
  place_pop h t n (inr p) th (inr q) = inl (omega arith)

  -- Advancing the head takes the first element off the queue.
  pub Holds-advance_head :
      (x : A) (r : Ring A) (xs : List A)
      → Holds r (x ∷ xs)
      → Holds (record r { head = advance capacity blank r.head }) xs
  unfolding elements
  Holds-advance_head x r xs h = record {
    two = h.two;
    slots = h.slots;
    head_inside = Next-inside r.head (advance-cases r.head h.head_inside);
    tail_inside = h.tail_inside;
    room = omega (arith, h.room);
    place =
        place_pop r.head r.tail (length xs) h.place h.tail_inside
          (advance-cases r.head h.head_inside);
    contents = ap (λ (l : List A). drop 1 l) h.contents;
  }
