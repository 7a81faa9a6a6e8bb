-- ===== src/Core/Interval.antt =====
-- crates/rg-core/src/lib.rs: half-open time intervals, over any ordered type of instants.
pub mod Laws
use hotgraph.Prelude.{Ord, lt, le, Bool, true, ◌&&◌, Option, none, some, if◌then◌else◌}
use hotgraph.Prelude.{Result, ok, err}

pub record TimeInterval {ℓ} (T : Type ℓ) : Type ℓ where
  pub start : T
  pub end : Option T

pub data TimeIntervalError : Type 0 where
  end_before_start : TimeIntervalError

module _ {ℓ} {T : Type ℓ} ⦃o : Ord T⦄ where
  -- `TimeInterval::new`
  unfoldable pub new : T → Option T → Result (TimeInterval T) TimeIntervalError
  new start none = ok (record { start = start; end = none })
  new start (some end) =
      if lt end start then err end_before_start else ok (record { start = start; end = some end })

  abbrev pub before_end : T → Option T → Bool
  before_end instant (some end) = lt instant end
  before_end instant none = true

  unfoldable pub contains : TimeInterval T → T → Bool
  contains i instant = le i.start instant && before_end instant i.end

  unfoldable pub overlaps : TimeInterval T → TimeInterval T → Bool
  overlaps i other = before_end i.start other.end && before_end other.start i.end

  unfoldable pub is_open_ended : TimeInterval T → Bool
  is_open_ended i = elim i.end [ none ↦ true | some _ ↦ Bool.false ]
