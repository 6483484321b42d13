-- ===== src/Engine/Terminal/Flags.antt =====
-- The refresh flags of a result: only `tick` sets them.
use od_esphome.Backend.{Backend}
use od_esphome.Engine.Pipe.{
  on_pipe_end, on_pipe_data, after_accept, write_pipe, stage_tail_sack, accept_pipe,
}
use od_esphome.Engine.Finish.{finish_and_refresh}
use od_esphome.Engine.Direct.{on_direct_end, on_direct_data}
use od_esphome.Engine.State.{Engine, EngineResult}
use od_esphome.Base.{ℕ, Option, ◌≡◌, List, arith, some, none, drop, ◌-◌, refl, false}
use od_esphome.Wire.{cmd_pipe_write_end, cmd_direct_write_end}
use od_esphome.Protocol.Frame.{byte_at}

module _ {D : Type 0} (api : Backend D) where
  -- DATA and END handlers report no refresh.
  abbrev NoRefresh : EngineResult → Type 0
  NoRefresh r = (r.refresh_complete ≡ false) × (r.refresh_timeout ≡ false)

  finish_flags :
      (e : Engine D) (end_opcode now_ms : ℕ)
      → NoRefresh (finish_and_refresh api e end_opcode now_ms).0
  unfolding finish_and_refresh
  finish_flags e end_opcode now_ms = ground arith

  pub direct_data_flags :
      (e : Engine D) (p : Option (List ℕ)) (len now_ms : ℕ)
      → NoRefresh (on_direct_data api e p len now_ms).0
  unfolding on_direct_data
  direct_data_flags e none len now_ms = ground arith
  direct_data_flags e (some p) len now_ms = ground arith

  pub direct_end_flags :
      (e : Engine D) (p : Option (List ℕ)) (len now_ms : ℕ)
      → NoRefresh (on_direct_end api e p len now_ms).0
  unfolding on_direct_end
  direct_end_flags e p len now_ms = ground (arith, finish_flags e cmd_direct_write_end now_ms)

  pub pipe_end_flags :
      (e : Engine D) (p : Option (List ℕ)) (len now_ms : ℕ)
      → NoRefresh (on_pipe_end api e p len now_ms).0
  unfolding on_pipe_end
  pipe_end_flags e p len now_ms = ground (
    arith,
    finish_flags e cmd_pipe_write_end now_ms,
    finish_flags (stage_tail_sack e) cmd_pipe_write_end now_ms,
  )

  after_accept_flags : (e : Engine D) (now_ms : ℕ) → NoRefresh (after_accept api e now_ms).0
  unfolding after_accept
  after_accept_flags e now_ms =
      ground (arith, finish_flags (stage_tail_sack e) cmd_pipe_write_end now_ms)

  write_pipe_flags :
      (e : Engine D) (o : Option D) (seq : ℕ) (chunk : List ℕ) (data_len now_ms : ℕ)
      → e.backend ≡ o
      → NoRefresh (write_pipe api e seq chunk data_len now_ms).0
  unfolding write_pipe
  write_pipe_flags e none seq chunk data_len now_ms b = ground arith
  write_pipe_flags e (some d) seq chunk data_len now_ms b =
      let d' = (api.write_contiguous d e.txn.accepted_bytes (some chunk) data_len).1 in
      ground (
        arith,
        after_accept_flags (accept_pipe (record e { backend = some d' }) seq data_len now_ms)
            now_ms,
      )

  pub pipe_data_flags :
      (e : Engine D) (p : Option (List ℕ)) (len now_ms : ℕ)
      → NoRefresh (on_pipe_data api e p len now_ms).0
  unfolding on_pipe_data
  pipe_data_flags e none len now_ms = ground arith
  pipe_data_flags e (some p) len now_ms =
      ground (arith, write_pipe_flags e e.backend (byte_at p 0) (drop 1 p) (len - 1) now_ms refl)
