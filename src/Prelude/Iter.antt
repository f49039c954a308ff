-- ===== src/Prelude/Iter.antt =====
-- Counted rounds of a loop body.
use Prim.Native.Nat.{ℕ, zero, suc}

abbrev pub iterate {ℓ} : {A : Type ℓ} → (A → A) → ℕ → A → A
iterate f zero x = x
iterate f (suc n) x = iterate f n (f x)
