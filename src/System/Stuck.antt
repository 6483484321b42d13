-- ===== src/System/Stuck.antt =====
-- transfer_engine.cpp `abort` beside `abort_transfer` of both backends: what becomes of the hardware
-- once a refresh in flight is given up.
use mathlib.Core.Option
use od_esphome.Types.{PollResult, ErrorCode, State}
use od_esphome.Backend.{Backend}
use od_esphome.Base.{◌≡◌, some, true, arith, ℕ, List, none, [], Option, inl, ap, inr, ◌∷◌}
use od_esphome.Engine.Calls.{step, Call}
use od_esphome.Engine.State.{
  abort, Engine, on_disconnect, set_connection_generation, take_tail_sack, is_busy, deadline_passed,
  fail,
}
use od_esphome.Engine.Start.{on_direct_start, begin_transaction, on_pipe_start, start_pipe}
use od_esphome.Engine.Direct.{on_direct_data, on_direct_end}
use od_esphome.Engine.Pipe.{on_pipe_data, on_pipe_end}
use od_esphome.Engine.Tick.{tick}
use od_esphome.Protocol.PipeStart.Accepted.{Parsed-cases}
use od_esphome.Protocol.Response.{encode_nack}
use od_esphome.Protocol.PipeStart.{parse_pipe_start}
use od_esphome.Wire.{cmd_direct_write_start}

-- `Alive` holds of a backend with a driver that has not failed; `Quiet` of one that, besides, has no
-- refresh of its own in flight. After `abort_transfer` a backend is quiet, and a quiet backend
-- answers PENDING to every poll.
pub record Forgets {D : Type 0} (api : Backend D) (Alive Quiet : D → Type 0) : Type 0 where
  pub abort_quiet : (d : D) → Alive d → Quiet (api.abort_transfer d)
  pub poll_quiet : (d : D) → Quiet d → api.poll_refresh d ≡ (PollResult.pending, d)

module _ {D : Type 0} (api : Backend D) (Alive Quiet : D → Type 0)
    (f : Forgets api Alive Quiet) where
  -- The engine holds the hardware, has no transaction, and its backend is quiet.
  abbrev pub IsStuck : Engine D → D → Type 0
  IsStuck e d = (e.backend ≡ some d) × Quiet d × (e.hw_owned ≡ true) × (e.txn.state ≡ State.idle)

  -- Giving up a refresh in flight leaves the engine stuck.
  abort-IsStuck :
      (e : Engine D) (error : ErrorCode) (d : D)
      → e.backend ≡ some d
      → Alive d
      → e.hw_owned ≡ true
      → e.txn.state ≡ State.refreshing
      → IsStuck (abort api e error) (api.abort_transfer d)
  unfolding abort
  abort-IsStuck e error d b alive owned state = ground (arith, f.abort_quiet d alive)

  pipe_start-IsStuck :
      (e : Engine D) (d : D) (p : Option (List ℕ)) (len now_ms : ℕ)
      → IsStuck e d
      → IsStuck (on_pipe_start api e p len now_ms).1 d
  unfolding on_pipe_start start_pipe begin_transaction
  pipe_start-IsStuck e d p len now_ms s = elim (Parsed-cases (parse_pipe_start p len)) [
    | inl (req, h) ↦ rw (h, on_pipe_start) (ground arith)
    | inr (scoped, h) ↦ rw (h, on_pipe_start) s
  ]

  -- Every call leaves a stuck engine stuck.
  step-IsStuck : (e : Engine D) (d : D) (c : Call) → IsStuck e d → IsStuck (step api e c).1 d
  unfolding step on_direct_start begin_transaction on_direct_data on_direct_end on_pipe_data
      on_pipe_end tick abort on_disconnect set_connection_generation take_tail_sack
  step-IsStuck e d (Call.direct_start p len now_ms) s = ground arith
  step-IsStuck e d (Call.direct_data p len now_ms) s = ground arith
  step-IsStuck e d (Call.direct_end p len now_ms) s = ground arith
  step-IsStuck e d (Call.pipe_start p len now_ms) s = pipe_start-IsStuck e d p len now_ms s
  step-IsStuck e d (Call.pipe_data p len now_ms) s = ground arith
  step-IsStuck e d (Call.pipe_end p len now_ms) s = ground arith
  step-IsStuck e d (Call.ticks now_ms) s = ground (arith, f.poll_quiet d)
  step-IsStuck e d (Call.aborts error) s = ground arith
  step-IsStuck e d (Call.disconnects generation) s = ground arith
  step-IsStuck e d (Call.connects generation) s = ground arith
  step-IsStuck e d Call.takes_tail_sack s = ground arith

  -- A call of the engine, or a change of the driver that leaves its backend quiet.
  pub data Moment : Type 0 where
    calls : Call → Moment
    elapses : (world : D → D) → ((d : D) → Quiet d → Quiet (world d)) → Moment

  unfoldable pub live : Engine D → List Moment → Engine D
  live e [] = e
  live e (calls c ∷ ms) = live (step api e c).1 ms
  live e (elapses world keep ∷ ms) = live (record e { backend = Option.map world e.backend }) ms

  live-IsStuck :
      (ms : List Moment) (e : Engine D) (d : D) → IsStuck e d → (d' : D) × IsStuck (live e ms) d'
  unfolding live
  live-IsStuck [] e d s = (d, s)
  live-IsStuck (calls c ∷ ms) e d s = live-IsStuck ms (step api e c).1 d (step-IsStuck e d c s)
  live-IsStuck (elapses world keep ∷ ms) e d s =
      live-IsStuck ms (record e { backend = Option.map world e.backend }) (world d)
        (ground arith, keep d s.1, s.2, s.3)

  -- A refresh that the deadline ends, with the driver still at work.
  timeout-IsStuck :
      (e : Engine D) (now_ms : ℕ) (d : D)
      → e.backend ≡ some d
      → Alive d
      → e.hw_owned ≡ true
      → e.txn.state ≡ State.refreshing
      → api.poll_refresh d ≡ (PollResult.pending, d)
      → deadline_passed now_ms e.txn.refresh_deadline_ms ≡ true
      → IsStuck (tick api e now_ms).1 (api.abort_transfer d)
  unfolding tick
  timeout-IsStuck e now_ms d b alive owned state pending late =
      ground (arith, f.abort_quiet d alive)

  -- What a client sees of a stuck engine: it is busy, and a START is refused and touches nothing but
  -- the last error.
  pub refuses :
      (e : Engine D) (d : D) (now_ms : ℕ)
      → IsStuck e d
      → (is_busy e ≡ true)
        × (on_direct_start api e none 0 now_ms
            ≡ (fail (encode_nack cmd_direct_write_start), record e { last_error = ErrorCode.busy }))
  unfolding is_busy on_direct_start begin_transaction
  refuses e d now_ms s = ground arith

  -- After the refresh deadline has ended a refresh that the driver is still at, with a backend that
  -- forgets it, the engine is busy after every further sequence of calls and driver changes, and
  -- refuses every direct START.
  pub refresh_timeout_sticks :
      (e : Engine D) (now_ms : ℕ) (d : D) (ms : List Moment) (later : ℕ)
      → e.backend ≡ some d
      → Alive d
      → e.hw_owned ≡ true
      → e.txn.state ≡ State.refreshing
      → api.poll_refresh d ≡ (PollResult.pending, d)
      → deadline_passed now_ms e.txn.refresh_deadline_ms ≡ true
      → let e' = live (tick api e now_ms).1 ms in
        (is_busy e' ≡ true)
        × ((on_direct_start api e' none 0 later).0 ≡ fail (encode_nack cmd_direct_write_start))
  refresh_timeout_sticks e now_ms d ms later b alive owned state pending late =
      let stuck =
        live-IsStuck ms (tick api e now_ms).1 (api.abort_transfer d)
          (timeout-IsStuck e now_ms d b alive owned state pending late) in
      let seen = refuses (live (tick api e now_ms).1 ms) stuck.0 later stuck.1 in
      (seen.0, ap (λ r. r.0) seen.1)
