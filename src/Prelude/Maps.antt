-- ===== src/Prelude/Maps.antt =====
-- Maps as association lists: what holds of every entry.
use sensor_link.Prelude.{ℕ, ◌==◌, Bool-cases, inl, inr, List, [], ◌∷◌, All, Gives}
use sensor_link.Prelude.Text.{find, put}

module _ {A : Type 0} (P : A → Type 0) where
  abbrev pub AllEntries : List (ℕ × A) → Type 0
  AllEntries m = All (λ (e : ℕ × A). P e.1) m

  pub find-AllEntries : (k : ℕ) (m : List (ℕ × A)) → AllEntries m → Gives P (find k m)
  unfolding find
  find-AllEntries k [] h = _
  find-AllEntries k (e ∷ m) h = elim (Bool-cases (k == e.0)) [
    | inl z ↦ rw z h.0
    | inr z ↦ rw z (find-AllEntries k m h.1)
  ]

  pub put-AllEntries :
      (k : ℕ) (a : A) (m : List (ℕ × A)) → P a → AllEntries m → AllEntries (put k a m)
  unfolding put
  put-AllEntries k a [] p h = (p, _)
  put-AllEntries k a (e ∷ m) p h = elim (Bool-cases (k == e.0)) [
    | inl z ↦ rw z (p, h.1)
    | inr z ↦ rw z (h.0, put-AllEntries k a m p h.1)
  ]
