-- ===== src/Engine/Trace/Data.antt =====
-- The DATA and END handlers and the record of backend calls.
use od_esphome.Engine.Invariant.{Inv, IsReceiving}
use od_esphome.Backend.{Backend}
use od_esphome.Engine.Tick.{tick}
use od_esphome.Engine.Direct.{on_direct_data, on_direct_end}
use od_esphome.Engine.Finish.{finish_and_refresh}
use od_esphome.Engine.State.{abort, Engine}
use od_esphome.Engine.Trace.{Logged, Agrees, logged}
use od_esphome.Base.{ℕ, Option, List, arith, some, none, Option-cases, ◌≡◌, inl, inr, drop, ◌-◌}
use od_esphome.Types.{ErrorCode}
use od_esphome.Engine.Pipe.{
  on_pipe_end, after_accept, on_pipe_data, write_pipe, stage_tail_sack, accept_pipe,
}
use od_esphome.Wire.{cmd_direct_write_end, cmd_pipe_write_end}
use od_esphome.Protocol.Frame.{byte_at}

module _ {D : Type 0} (api : Backend D) where
  pub abort-Agrees :
      (e : Engine (Logged D)) (error : ErrorCode)
      → Agrees e e.backend
      → let e' = abort (logged api) e error in Agrees e' e'.backend
  unfolding abort
  abort-Agrees e error a = ground arith

  pub tick-Agrees :
      (e : Engine (Logged D)) (now_ms : ℕ)
      → Agrees e e.backend
      → let e' = (tick (logged api) e now_ms).1 in Agrees e' e'.backend
  unfolding tick
  tick-Agrees e now_ms a = ground arith

  pub finish-Agrees :
      (e : Engine (Logged D)) (end_opcode now_ms : ℕ)
      → IsReceiving e.txn
      → Agrees e e.backend
      → let e' = (finish_and_refresh (logged api) e end_opcode now_ms).1 in Agrees e' e'.backend
  unfolding finish_and_refresh
  finish-Agrees e end_opcode now_ms r a = ground arith

  pub direct_data-Agrees :
      (e : Engine (Logged D)) (p : Option (List ℕ)) (len now_ms : ℕ)
      → Inv e
      → Agrees e e.backend
      → let e' = (on_direct_data (logged api) e p len now_ms).1 in Agrees e' e'.backend
  unfolding on_direct_data
  direct_data-Agrees e none len now_ms v a = ground arith
  direct_data-Agrees e (some p) len now_ms v a = ground arith

  pub direct_end-Agrees :
      (e : Engine (Logged D)) (p : Option (List ℕ)) (len now_ms : ℕ)
      → Agrees e e.backend
      → let e' = (on_direct_end (logged api) e p len now_ms).1 in Agrees e' e'.backend
  unfolding on_direct_end
  direct_end-Agrees e p len now_ms a = ground (arith, finish-Agrees e cmd_direct_write_end now_ms)

  pub pipe_end-Agrees :
      (e : Engine (Logged D)) (p : Option (List ℕ)) (len now_ms : ℕ)
      → Agrees e e.backend
      → let e' = (on_pipe_end (logged api) e p len now_ms).1 in Agrees e' e'.backend
  unfolding on_pipe_end
  pipe_end-Agrees e p len now_ms a = ground (
    arith,
    finish-Agrees e cmd_pipe_write_end now_ms,
    finish-Agrees (stage_tail_sack e) cmd_pipe_write_end now_ms,
  )

  after_accept-Agrees :
      (e : Engine (Logged D)) (now_ms : ℕ)
      → IsReceiving e.txn
      → Agrees e e.backend
      → let e' = (after_accept (logged api) e now_ms).1 in Agrees e' e'.backend
  unfolding after_accept
  after_accept-Agrees e now_ms r a =
      ground (arith, finish-Agrees (stage_tail_sack e) cmd_pipe_write_end now_ms)

  write_pipe-Agrees :
      (e : Engine (Logged D)) (d : Logged D) (seq : ℕ) (chunk : List ℕ) (data_len now_ms : ℕ)
      → Inv e
      → e.backend ≡ some d
      → IsReceiving e.txn
      → Agrees e e.backend
      → let e' = (write_pipe (logged api) e seq chunk data_len now_ms).1 in Agrees e' e'.backend
  unfolding write_pipe
  write_pipe-Agrees e d seq chunk data_len now_ms v b r a =
      let d' = ((logged api).write_contiguous d e.txn.accepted_bytes (some chunk) data_len).1 in
      ground (
        arith,
        after_accept-Agrees (accept_pipe (record e { backend = some d' }) seq data_len now_ms)
            now_ms,
      )

  pub pipe_data-Agrees :
      (e : Engine (Logged D)) (p : Option (List ℕ)) (len now_ms : ℕ)
      → Inv e
      → Agrees e e.backend
      → let e' = (on_pipe_data (logged api) e p len now_ms).1 in Agrees e' e'.backend
  unfolding on_pipe_data
  pipe_data-Agrees e none len now_ms v a = ground arith
  pipe_data-Agrees e (some p) len now_ms v a = elim (Option-cases e.backend) [
    | inl b ↦ ground arith
    | inr (d, b) ↦ ground (arith, write_pipe-Agrees e d (byte_at p 0) (drop 1 p) (len - 1) now_ms)
  ]
