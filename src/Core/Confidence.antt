-- ===== src/Core/Confidence.antt =====
-- crates/rg-core/src/lib.rs: `Confidence`, an `f32` in the unit interval, by its bits.
use hotgraph.Prelude.{ℕ, if◌then◌else◌, Result, ok, err}
use hotgraph.Prelude.Int.{unit_contains}

pub record Confidence : Type 0 where
  pub bits : ℕ

pub data ConfidenceError : Type 0 where
  out_of_range : ConfidenceError

-- `Confidence::new`
unfoldable pub new : ℕ → Result Confidence ConfidenceError
new value = if unit_contains value then ok (record { bits = value }) else err out_of_range
