-- ===== src/Engine/Invariant/Steps.antt =====
-- The invariant under every call, and after any sequence of calls.
use od_esphome.Base.{List, arith, ◌∷◌, []}
use od_esphome.Backend.{Backend}
use od_esphome.Engine.State.{Engine, on_disconnect, set_connection_generation, take_tail_sack}
use od_esphome.Engine.Calls.{run, step, Call}
use od_esphome.Engine.Invariant.{Inv, abort-Inv}
use od_esphome.Engine.Invariant.Starts.{direct_start-Inv, pipe_start-Inv}
use od_esphome.Engine.Invariant.Data.{
  direct_data-Inv, direct_end-Inv, pipe_data-Inv, pipe_end-Inv, tick-Inv,
}

module _ {D : Type 0} (api : Backend D) where
  -- Every call keeps the invariant.
  pub step-Inv : (e : Engine D) (c : Call) → Inv e → Inv (step api e c).1
  unfolding step
  step-Inv e (Call.direct_start p len now_ms) v = direct_start-Inv api e p len now_ms v
  step-Inv e (Call.direct_data p len now_ms) v = direct_data-Inv api e p len now_ms v
  step-Inv e (Call.direct_end p len now_ms) v = direct_end-Inv api e p len now_ms v
  step-Inv e (Call.pipe_start p len now_ms) v = pipe_start-Inv api e p len now_ms v
  step-Inv e (Call.pipe_data p len now_ms) v = pipe_data-Inv api e p len now_ms v
  step-Inv e (Call.pipe_end p len now_ms) v = pipe_end-Inv api e p len now_ms v
  step-Inv e (Call.ticks now_ms) v = tick-Inv api e now_ms v
  step-Inv e (Call.aborts error) v = abort-Inv api e error
  step-Inv e (Call.disconnects generation) v = unfold on_disconnect in ground arith
  step-Inv e (Call.connects generation) v = unfold set_connection_generation in ground arith
  step-Inv e Call.takes_tail_sack v = unfold take_tail_sack in ground arith

  -- So it holds after any sequence of calls on a new engine.
  pub run-Inv : (cs : List Call) (e : Engine D) → Inv e → Inv (run api e cs)
  unfolding run
  run-Inv [] e v = v
  run-Inv (c ∷ cs) e v = run-Inv cs (step api e c).1 (step-Inv e c v)
