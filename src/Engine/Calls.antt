-- ===== src/Engine/Calls.antt =====
-- The calls that the component makes on the engine, as one step and as a sequence.
use od_esphome.Base.{ℕ, Option, List, [], ◌∷◌, Bool, true, false, ◌++◌, ◌≡◌, refl}
use od_esphome.Types.{ErrorCode}
use od_esphome.Backend.{Backend}
use od_esphome.Engine.State.{
  Engine, EngineResult, no_result, set_connection_generation, take_tail_sack, abort, on_disconnect,
}
use od_esphome.Engine.Start.{on_direct_start, on_pipe_start}
use od_esphome.Engine.Direct.{on_direct_data, on_direct_end}
use od_esphome.Engine.Pipe.{on_pipe_data, on_pipe_end}
use od_esphome.Engine.Tick.{tick}

pub data Call : Type 0 where
  direct_start direct_data direct_end : Option (List ℕ) → ℕ → ℕ → Call
  pipe_start pipe_data pipe_end : Option (List ℕ) → ℕ → ℕ → Call
  ticks : ℕ → Call
  aborts : ErrorCode → Call
  disconnects : ℕ → Call
  connects : ℕ → Call
  takes_tail_sack : Call

abbrev pub is_start : Call → Bool
is_start (direct_start payload len now_ms) = true
is_start (pipe_start payload len now_ms) = true
is_start _ = false

module _ {D : Type 0} (api : Backend D) where
  unfoldable pub step : Engine D → Call → EngineResult × Engine D
  step e (direct_start payload len now_ms) = on_direct_start api e payload len now_ms
  step e (direct_data payload len now_ms) = on_direct_data api e payload len now_ms
  step e (direct_end payload len now_ms) = on_direct_end api e payload len now_ms
  step e (pipe_start payload len now_ms) = on_pipe_start api e payload len now_ms
  step e (pipe_data payload len now_ms) = on_pipe_data api e payload len now_ms
  step e (pipe_end payload len now_ms) = on_pipe_end api e payload len now_ms
  step e (ticks now_ms) = tick api e now_ms
  step e (aborts error) = (no_result, abort api e error)
  step e (disconnects generation) = (no_result, on_disconnect api e generation)
  step e (connects generation) = (no_result, set_connection_generation e generation)
  step e takes_tail_sack = (no_result, (take_tail_sack e).1)

  unfoldable pub run : Engine D → List Call → Engine D
  run e [] = e
  run e (c ∷ cs) = run (step e c).1 cs

  -- Two sequences of calls, one behind the other.
  pub run-append : (xs ys : List Call) (e : Engine D) → run e (xs ++ ys) ≡ run (run e xs) ys
  unfolding run
  run-append [] ys e = refl
  run-append (x ∷ xs) ys e = run-append xs ys (step e x).1
