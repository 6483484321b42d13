-- ===== src/Engine/Trace/Steps.antt =====
-- The record of backend calls under every call of the engine.
use od_esphome.Engine.Invariant.{Inv, construct-Inv}
use od_esphome.Engine.State.{
  Engine, construct, on_disconnect, set_connection_generation, take_tail_sack,
}
use od_esphome.Backend.{Backend}
use od_esphome.Base.{Option, List, ℕ, [], some, arith, ◌∷◌, none, inl, inr}
use od_esphome.Engine.Trace.{Logged, Event, Agrees, logged, IsSound}
use od_esphome.Engine.Start.{
  on_pipe_start, on_direct_start, begin_transaction, start_pipe, full_frame_of,
}
use od_esphome.Engine.Calls.{step, run, Call}
use od_esphome.Types.{TransferMode, ErrorCode}
use od_esphome.Protocol.PipeStart.Accepted.{Parsed-cases}
use od_esphome.Engine.Trace.Data.{
  direct_data-Agrees, direct_end-Agrees, pipe_data-Agrees, pipe_end-Agrees, tick-Agrees,
  abort-Agrees,
}
use od_esphome.Engine.Invariant.Steps.{step-Inv}
use od_esphome.Protocol.PipeStart.{parse_pipe_start}

module _ {D : Type 0} (api : Backend D) where
  begin_transaction-Agrees :
      (e : Engine (Logged D)) (mode : TransferMode) (total now_ms : ℕ)
      → Agrees e e.backend
      → let e' = (begin_transaction (logged api) e mode total now_ms).1 in Agrees e' e'.backend
  unfolding begin_transaction
  begin_transaction-Agrees e mode total now_ms a = ground arith

  direct_start-Agrees :
      (e : Engine (Logged D)) (p : Option (List ℕ)) (len now_ms : ℕ)
      → Agrees e e.backend
      → let e' = (on_direct_start (logged api) e p len now_ms).1 in Agrees e' e'.backend
  unfolding on_direct_start
  direct_start-Agrees e p len now_ms a = ground (
    arith,
    begin_transaction-Agrees e TransferMode.direct (full_frame_of (logged api) e.backend) now_ms,
  )

  pipe_start-Agrees :
      (e : Engine (Logged D)) (p : Option (List ℕ)) (len now_ms : ℕ)
      → Agrees e e.backend
      → let e' = (on_pipe_start (logged api) e p len now_ms).1 in Agrees e' e'.backend
  unfolding on_pipe_start start_pipe
  pipe_start-Agrees e p len now_ms a = elim (Parsed-cases (parse_pipe_start p len)) [
    | inl (req, h) ↦
        rw (h, on_pipe_start)
          (ground (arith, begin_transaction-Agrees e TransferMode.pipe req.total_size now_ms))
    | inr (scoped, h) ↦ rw (h, on_pipe_start) a
  ]

  pub step-Agrees :
      (e : Engine (Logged D)) (c : Call)
      → Inv e
      → Agrees e e.backend
      → let e' = (step (logged api) e c).1 in Agrees e' e'.backend
  unfolding step
  step-Agrees e (Call.direct_start p len now_ms) v a = direct_start-Agrees e p len now_ms a
  step-Agrees e (Call.direct_data p len now_ms) v a = direct_data-Agrees api e p len now_ms v a
  step-Agrees e (Call.direct_end p len now_ms) v a = direct_end-Agrees api e p len now_ms a
  step-Agrees e (Call.pipe_start p len now_ms) v a = pipe_start-Agrees e p len now_ms a
  step-Agrees e (Call.pipe_data p len now_ms) v a = pipe_data-Agrees api e p len now_ms v a
  step-Agrees e (Call.pipe_end p len now_ms) v a = pipe_end-Agrees api e p len now_ms a
  step-Agrees e (Call.ticks now_ms) v a = tick-Agrees api e now_ms a
  step-Agrees e (Call.aborts error) v a = abort-Agrees api e error a
  step-Agrees e (Call.disconnects generation) v a =
      unfold on_disconnect in ground (arith, abort-Agrees api e ErrorCode.disconnected a)
  step-Agrees e (Call.connects generation) v a = unfold set_connection_generation in a
  step-Agrees e Call.takes_tail_sack v a = unfold take_tail_sack in ground arith

  pub run-Agrees :
      (cs : List Call) (e : Engine (Logged D))
      → Inv e
      → Agrees e e.backend
      → let e' = run (logged api) e cs in Agrees e' e'.backend
  unfolding run
  run-Agrees [] e v a = a
  run-Agrees (c ∷ cs) e v a =
      run-Agrees cs (step (logged api) e c).1 (step-Inv (logged api) e c v) (step-Agrees e c v a)

-- The record of the backend that an engine holds.
abbrev pub log_of : {D : Type 0} → Option (Logged D) → List Event
log_of none = []
log_of (some l) = l.log

pub Agrees-IsSound :
    {D : Type 0} (e : Engine (Logged D)) (b : Option (Logged D)) → Agrees e b → IsSound (log_of b)
Agrees-IsSound e none a = tt
Agrees-IsSound e (some l) a = a.0

-- Whatever calls the component makes on a new engine, and whatever the backend answers, a refresh
-- is only ever begun for a frame that `begin_frame` accepted and that was then written whole: by
-- writes that the backend accepted, that start at offset 0, follow one another without a gap or an
-- overlap, and end at the frame's size.
pub refresh_only_whole_frames :
    {D : Type 0} (api : Backend D) (d : D) (cs : List Call)
    → let e = run (logged api) (construct (some (record { dev = d; log = [] }))) cs in
      IsSound (log_of e.backend)
unfolding construct
refresh_only_whole_frames api d cs =
    let start = construct (some (record { dev = d; log = [] })) in
    let e = run (logged api) start cs in
    Agrees-IsSound e e.backend
      (run-Agrees api cs start (construct-Inv (some (record { dev = d; log = [] }))) (tt, λ h. cc))
