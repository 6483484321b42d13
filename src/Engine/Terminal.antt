-- ===== src/Engine/Terminal.antt =====
-- What a terminal error leaves behind, and the discarding of 0x81 frames after a fatal NACK.
pub mod Flags
use od_esphome.Types.{TransferMode}
use od_esphome.Backend.{Backend}
use od_esphome.Engine.Tick.{tick}
use od_esphome.Engine.Pipe.{
  on_pipe_end, on_pipe_data, after_accept, write_pipe, stage_tail_sack, accept_pipe,
}
use od_esphome.Engine.Finish.{finish_and_refresh}
use od_esphome.Engine.Direct.{on_direct_end, on_direct_data}
use od_esphome.Engine.Calls.{step, Call, is_start}
use od_esphome.Engine.State.{Engine, answer, reset, no_result, EngineResult}
use od_esphome.Engine.Terminal.Flags.{
  direct_data_flags, direct_end_flags, pipe_data_flags, pipe_end_flags,
}
use od_esphome.Base.{
  Bool, ℕ, Option, ◌≡◌, List, true, ◌⊎◌, arith, some, none, drop, ◌-◌, refl, false, ◌||◌,
}
use od_esphome.Protocol.Sack.{encode_pipe_nack, build_inorder_ack_mask}
use od_esphome.Wire.{cmd_pipe_write_end, od_pipe_nack_protocol, cmd_direct_write_end}
use od_esphome.Protocol.Frame.{byte_at}

-- The results by which the component ends a transfer.
abbrev pub ends : EngineResult → Bool
ends r = r.terminal_error || r.refresh_complete || r.refresh_timeout

module _ {D : Type 0} (api : Backend D) where
  finish-terminal :
      (e : Engine D) (end_opcode now_ms : ℕ)
      → let (r, e') = finish_and_refresh api e end_opcode now_ms in
        r.terminal_error ≡ true → e'.txn ≡ reset
  unfolding finish_and_refresh
  finish-terminal e end_opcode now_ms h = ground arith

  direct_data-terminal :
      (e : Engine D) (p : Option (List ℕ)) (len now_ms : ℕ)
      → let (r, e') = on_direct_data api e p len now_ms in r.terminal_error ≡ true → e'.txn ≡ reset
  unfolding on_direct_data
  direct_data-terminal e none len now_ms h = ground arith
  direct_data-terminal e (some p) len now_ms h = ground arith

  direct_end-terminal :
      (e : Engine D) (p : Option (List ℕ)) (len now_ms : ℕ)
      → let (r, e') = on_direct_end api e p len now_ms in r.terminal_error ≡ true → e'.txn ≡ reset
  unfolding on_direct_end
  direct_end-terminal e p len now_ms h =
      ground (arith, finish-terminal e cmd_direct_write_end now_ms)

  pipe_end-terminal :
      (e : Engine D) (p : Option (List ℕ)) (len now_ms : ℕ)
      → let (r, e') = on_pipe_end api e p len now_ms in r.terminal_error ≡ true → e'.txn ≡ reset
  unfolding on_pipe_end
  pipe_end-terminal e p len now_ms h = ground (
    arith,
    finish-terminal e cmd_pipe_write_end now_ms,
    finish-terminal (stage_tail_sack e) cmd_pipe_write_end now_ms,
  )

  after_accept-terminal :
      (e : Engine D) (now_ms : ℕ)
      → let (r, e') = after_accept api e now_ms in r.terminal_error ≡ true → e'.txn ≡ reset
  unfolding after_accept
  after_accept-terminal e now_ms h =
      ground (arith, finish-terminal (stage_tail_sack e) cmd_pipe_write_end now_ms)

  write_pipe-terminal :
      (e : Engine D) (o : Option D) (seq : ℕ) (chunk : List ℕ) (data_len now_ms : ℕ)
      → e.backend ≡ o
      → let (r, e') = write_pipe api e seq chunk data_len now_ms in
        r.terminal_error ≡ true → e'.txn ≡ reset
  unfolding write_pipe
  write_pipe-terminal e none seq chunk data_len now_ms b h = ground arith
  write_pipe-terminal e (some d) seq chunk data_len now_ms b h =
      let d' = (api.write_contiguous d e.txn.accepted_bytes (some chunk) data_len).1 in
      ground (
        arith,
        after_accept-terminal (accept_pipe (record e { backend = some d' }) seq data_len now_ms)
            now_ms,
      )

  pipe_data-terminal :
      (e : Engine D) (p : Option (List ℕ)) (len now_ms : ℕ)
      → let (r, e') = on_pipe_data api e p len now_ms in r.terminal_error ≡ true → e'.txn ≡ reset
  unfolding on_pipe_data
  pipe_data-terminal e none len now_ms h = ground arith
  pipe_data-terminal e (some p) len now_ms h =
      ground (arith, write_pipe-terminal e e.backend (byte_at p 0) (drop 1 p) (len - 1) now_ms refl)

  tick-terminal :
      (e : Engine D) (now_ms : ℕ)
      → let (r, e') = tick api e now_ms in
        (r.terminal_error ≡ true) ⊎ (r.refresh_complete ≡ true) ⊎ (r.refresh_timeout ≡ true)
        → e'.txn ≡ reset
  unfolding tick
  tick-terminal e now_ms h = ground arith

  -- Whatever ends a transfer in a DATA or END handler or in `tick`, by a terminal error, a finished
  -- refresh or a refresh timeout, leaves the transaction reset, so idle.
  pub ended-reset :
      (e : Engine D) (c : Call)
      → is_start c ≡ false
      → ends (step api e c).0 ≡ true
      → (step api e c).1.txn ≡ reset
  unfolding step
  ended-reset e (Call.direct_start p len now_ms) n h = cc
  ended-reset e (Call.pipe_start p len now_ms) n h = cc
  ended-reset e (Call.direct_data p len now_ms) n h =
      ground (arith, direct_data-terminal e p len now_ms, direct_data_flags api e p len now_ms)
  ended-reset e (Call.direct_end p len now_ms) n h =
      ground (arith, direct_end-terminal e p len now_ms, direct_end_flags api e p len now_ms)
  ended-reset e (Call.pipe_data p len now_ms) n h =
      ground (arith, pipe_data-terminal e p len now_ms, pipe_data_flags api e p len now_ms)
  ended-reset e (Call.pipe_end p len now_ms) n h =
      ground (arith, pipe_end-terminal e p len now_ms, pipe_end_flags api e p len now_ms)
  ended-reset e (Call.ticks now_ms) n h = ground (arith, tick-terminal e now_ms)
  ended-reset e (Call.aborts error) n h = cc
  ended-reset e (Call.disconnects generation) n h = cc
  ended-reset e (Call.connects generation) n h = cc
  ended-reset e Call.takes_tail_sack n h = cc

  latch_after_reset :
      (e : Engine D) (p : Option (List ℕ)) (len now_ms : ℕ)
      → e.txn ≡ reset
      → let (r, e') = on_pipe_data api e p len now_ms in
        (r ≡ answer (encode_pipe_nack od_pipe_nack_protocol 0 0)) × (e'.txn.pipe_fatal ≡ true)
  unfolding on_pipe_data build_inorder_ack_mask
  latch_after_reset e p len now_ms h = ground arith

  discard_latched :
      (e : Engine D) (p : Option (List ℕ)) (len now_ms : ℕ)
      → e.txn.pipe_fatal ≡ true
      → on_pipe_data api e p len now_ms ≡ (no_result, e)
  unfolding on_pipe_data
  discard_latched e p len now_ms h = ground arith

  -- After a 0x81 frame that ends its transfer by a terminal error, the next 0x81 frame is not
  -- discarded: it is answered by a second fatal NACK, and only the frames after that one are dropped
  -- in silence.
  pub fatal_nack_answered_twice :
      (e : Engine D) (p q s : Option (List ℕ)) (len len' len'' now_ms now_ms' now_ms'' : ℕ)
      → (on_pipe_data api e p len now_ms).0.terminal_error ≡ true
      → let e' = (on_pipe_data api e p len now_ms).1 in
        let (r, e'') = on_pipe_data api e' q len' now_ms' in
        (r ≡ answer (encode_pipe_nack od_pipe_nack_protocol 0 0))
        × (on_pipe_data api e'' s len'' now_ms'' ≡ (no_result, e''))
  fatal_nack_answered_twice e p q s len len' len'' now_ms now_ms' now_ms'' h =
      let first = on_pipe_data api e p len now_ms in
      let second = latch_after_reset first.1 q len' now_ms' (pipe_data-terminal e p len now_ms h) in
      (
        second.0,
        discard_latched (on_pipe_data api first.1 q len' now_ms').1 s len'' now_ms'' second.1,
      )
