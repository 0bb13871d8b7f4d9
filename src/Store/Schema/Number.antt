-- ===== src/Store/Schema/Number.antt =====
-- The `float64` numbers of the collections.
use project_tracker.Prelude.{ℕ}

-- A `float64` by its bits. The operations on it are parameters: see App.
pub record Float64 : Type 0 where
  pub bits : ℕ
