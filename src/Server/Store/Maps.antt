-- ===== src/Server/Store/Maps.antt =====
-- The association lists that stand for the maps of server/store.hpp, and the keys of histories.
use sensor_link.Prelude.{ℕ, ◌≡◌, ◌≢◌, refl, arith, ◌==◌, List, [], ◌∷◌, some, Bool-cases, inl, inr}
use sensor_link.Prelude.Text.{find, put}

module _ {ℓ} {A : Type ℓ} where
  pub find-put_self : (k : ℕ) (a : A) (m : List (ℕ × A)) → find k (put k a m) ≡ some a
  unfolding find put
  find-put_self k a [] = ground arith
  find-put_self k a ((j, b) ∷ m) = elim (Bool-cases (k == j)) [
    | inl z ↦ ground arith
    | inr z ↦ rw z (rw z (find-put_self k a m))
  ]

  pub find-put_ne : (k j : ℕ) (a : A) (m : List (ℕ × A)) → k ≢ j → find k (put j a m) ≡ find k m
  unfolding find put
  find-put_ne k j a [] h = ground arith
  find-put_ne k j a ((i, b) ∷ m) h = elim (Bool-cases (j == i)) [
    | inl z ↦ ground arith
    | inr z ↦ rw z (rw (find-put_ne k j a m h) refl)
  ]
