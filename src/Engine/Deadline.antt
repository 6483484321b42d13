-- ===== src/Engine/Deadline.antt =====
-- transfer_engine.cpp `deadline_passed` and the deadlines that the engine sets.
use od_esphome.Engine.State.{deadline_passed}
use od_esphome.Base.{ℕ, ◌<◌, ◌^◌, u32, ◌+◌, ◌≡◌, leb, arith, not, ◌==◌, ◌&&◌}

-- A deadline of `timeout` milliseconds set at `start`, read `later` milliseconds after, has passed
-- exactly when the timeout has gone by, also where the 32-bit clock wraps in between; both are less
-- than 2^31. The exception is a sum that wraps to zero: such a deadline never passes.
pub deadline_passed-lem :
    (start timeout later : ℕ)
    → timeout < 2 ^ 31
    → later < 2 ^ 31
    → deadline_passed (u32 (start + later)) (u32 (start + timeout))
      ≡ (not (u32 (start + timeout) == 0) && leb timeout later)
unfolding deadline_passed
deadline_passed-lem start timeout later t l = ground arith
