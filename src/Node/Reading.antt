-- ===== src/Node/Reading.antt =====
-- node/tasks/sensor_task.cpp: the range of the fake readings and of the pause.
use sensor_link.Prelude.{
  ℕ, zero, suc, ◌-◌, ◌%◌, ◌^◌, ◌⊎◌, inl, inr, ◌+◌, ◌≤◌, ◌<◌, ◌≡◌, refl, arith, leb, ◌&&◌,
}
use sensor_link.Prelude.Masks.{all_below, all_below_lem}
use native.Mathlib.Decide.{dec_lt}
use sensor_link.Node.{next_index, fake_reading_milli, sample_delay}

-- `n` further rounds of the index.
abbrev pub later_index : ℕ → ℕ → ℕ
later_index zero i = i
later_index (suc n) i = next_index (later_index n i)

later_index_eq : (n i : ℕ) → i + n < 2 ^ 32 → later_index n i ≡ i + n
unfolding next_index
later_index_eq zero i h = omega arith
later_index_eq (suc n) i h = rw (later_index_eq n i (omega arith)) (omega arith)

-- The readings are a wave: each lies between 1000 and 7000 milli-degrees, and after a round the next
-- is at most 600 away, unless the index of 32 bits has wrapped, where the reading falls from 4000 to
-- 1000. While the index does not wrap, the wave starts again after 20 rounds.
pub fake_reading_milli_lem :
    (i : ℕ)
    → i < 2 ^ 32
    → (1000 ≤ fake_reading_milli i)
      × (fake_reading_milli i ≤ 7000)
      × (((fake_reading_milli (next_index i) ≤ fake_reading_milli i + 600)
            × (fake_reading_milli i ≤ fake_reading_milli (next_index i) + 600))
          ⊎ ((i ≡ 2 ^ 32 - 1)
              × (fake_reading_milli i ≡ 4000)
              × (fake_reading_milli (next_index i) ≡ 1000)))
      × ((fake_reading_milli (later_index 20 i) ≡ fake_reading_milli i) ⊎ (2 ^ 32 ≤ i + 20))
unfolding fake_reading_milli next_index
fake_reading_milli_lem i h = (
  ground arith,
  ground arith,
  (elim (dec_lt (i + 1) (2 ^ 32)) [
    | yes k ↦ inl (rw (no_wrap k) (ground arith))
    | no k ↦ inr (ground arith)
  ]),
  (elim (dec_lt (i + 20) (2 ^ 32)) [
    | yes k ↦ inl (rw (later_index_eq 20 i k) (ground arith))
    | no k ↦ inr (omega arith)
  ]),
)
  where
    no_wrap : i + 1 < 2 ^ 32 → (i + 1) % 2 ^ 32 ≡ i + 1
    no_wrap k = omega arith

-- The pause between readings is at most a second, and never none, at any rate that fits a byte.
pub sample_delay-bounds :
    (rate : ℕ) → rate < 256 → (3 ≤ sample_delay rate) × (sample_delay rate ≤ 1000)
unfolding sample_delay
sample_delay-bounds rate h =
    let t =
      all_below_lem 256 (λ r. leb 3 (sample_delay r) && leb (sample_delay r) 1000) rate
        (unfold all_below in refl) h in
    ground arith
