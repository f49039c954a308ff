-- ===== src/Proto/StaticVector.antt =====
-- proto/static_vector.hpp: a vector inside a fixed array. A failed assertion is `none`. The two
-- overloads of push_back, which copy and move, are one function.
pub mod Contents
use sensor_link.Prelude.{
  ℕ, suc, ◌+◌, ◌-◌, ltb, leb, ◌==◌, if◌then◌else◌, Bool, true, false, List, [], ◌∷◌, length, set,
  get_or, replicate, Option, none, some,
}

pub record StaticVector {ℓ} (A : Type ℓ) : Type ℓ where
  pub array : List A
  pub count : ℕ

module _ {ℓ} {A : Type ℓ} (capacity : ℕ) (blank : A) where
  abbrev pub empty_vector : StaticVector A
  empty_vector = record { array = replicate capacity blank; count = 0 }

  pub push_back : A → StaticVector A → Bool × StaticVector A
  push_back value v =
      if v.count == capacity
      then (false, v)
      else (true, record v { array = set v.array v.count value; count = v.count + 1 })

  pub pop_back : StaticVector A → Option (StaticVector A)
  pop_back v = if v.count == 0 then none else some (record v { count = v.count - 1 })

  abbrev pub clear : StaticVector A → StaticVector A
  clear v = record v { count = 0 }

  pub at_index : ℕ → StaticVector A → Option A
  at_index index v = if ltb index v.count then some (get_or v.array index blank) else none

  -- The loop of the constructor over its list, which it asserts to fit.
  pub append_each : List A → StaticVector A → StaticVector A
  append_each [] v = v
  append_each (a ∷ l) v =
      append_each l (record v { array = set v.array v.count a; count = v.count + 1 })

  pub of_list : List A → Option (StaticVector A)
  of_list l = if leb (length l) capacity then some (append_each l empty_vector) else none
