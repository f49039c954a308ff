-- ===== src/Proto/StaticVector/Contents.antt =====
-- proto/static_vector.hpp as a bounded list.
use sensor_link.Prelude.{
  ℕ, ◌+◌, ◌≤◌, ◌<◌, ◌≡◌, ◌∙◌, refl, ap, sym, subst, arith, ◌==◌, Bool, true, false,
}
use sensor_link.Prelude.{
  List, [], ◌∷◌, ◌++◌, append_assoc, append-nil, length, length-append, length-set, set, take,
  take-set,
}
use sensor_link.Proto.StaticVector.{StaticVector, push_back, append_each}

module _ {ℓ} {A : Type ℓ} (capacity : ℕ) (blank : A) where
  -- The vector `v` holds the list `xs`.
  pub record IsVector (v : StaticVector A) (xs : List A) : Type ℓ where
    pub slots : length v.array ≡ capacity
    pub fits : length xs ≤ capacity
    pub counted : v.count ≡ length xs
    pub contents : take v.count v.array ≡ xs

  append_one :
      (a : A) (v : StaticVector A) (xs : List A)
      → IsVector v xs
      → length xs < capacity
      → IsVector (record v { array = set v.array v.count a; count = v.count + 1 }) (xs ++ a ∷ [])
  append_one a v xs h k = record {
    slots = length-set v.array v.count a ∙ h.slots;
    fits = omega (arith, length-append xs (a ∷ []));
    counted = omega (arith, h.counted, length-append xs (a ∷ []));
    contents =
        take-set v.count v.array a (omega (arith, h.counted, h.slots))
        ∙ ap (λ (l : List A). l ++ a ∷ []) h.contents;
  }

  -- What an attempt to append leaves.
  pub record Appended (a : A) (v : StaticVector A) (xs : List A) (r : Bool × StaticVector A)
      : Type ℓ where
    pub stored : length xs < capacity → (r.0 ≡ true) × IsVector r.1 (xs ++ a ∷ [])
    pub refused : length xs ≡ capacity → r ≡ (false, v)

  -- Appending to a vector with room appends to its list; to a full one, it is refused and changes
  -- nothing.
  pub push_back-Appended :
      (a : A) (v : StaticVector A) (xs : List A)
      → IsVector v xs
      → Appended a v xs (push_back capacity blank a v)
  unfolding push_back
  push_back-Appended a v xs h = record {
    stored = λ k. rw (room k) (refl, append_one a v xs h k);
    refused = λ k. rw (full k) refl;
  }
    where
      room : length xs < capacity → (v.count == capacity) ≡ false
      room k = ground (arith, h.counted)

      full : length xs ≡ capacity → (v.count == capacity) ≡ true
      full k = ground (arith, h.counted)

  append_each-IsVector :
      (l : List A) (v : StaticVector A) (xs : List A)
      → IsVector v xs
      → length xs + length l ≤ capacity
      → IsVector (append_each capacity blank l v) (xs ++ l)
  unfolding append_each
  append_each-IsVector [] v xs h k = subst (λ (l : List A). IsVector v l) (sym (append-nil xs)) h
  append_each-IsVector (a ∷ l) v xs h k =
      subst (λ (m : List A). IsVector (append_each capacity blank (a ∷ l) v) m)
        (append_assoc xs (a ∷ []) l)
        (append_each-IsVector l _ (xs ++ a ∷ []) (append_one a v xs h (omega arith))
          (omega (arith, length-append xs (a ∷ []))))
