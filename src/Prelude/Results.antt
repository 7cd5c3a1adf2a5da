-- ===== src/Prelude/Results.antt =====
-- A Go computation that returns, or that panics.
pub data Outcome {ℓ} (A : Type ℓ) : Type ℓ where
  done : A → Outcome A
  panic : Outcome A
