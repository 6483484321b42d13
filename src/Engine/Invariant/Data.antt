-- ===== src/Engine/Invariant/Data.antt =====
-- The invariant under the DATA and END handlers and under `tick`.
use od_esphome.Base.{
  ℕ, ◌%◌, ◌^◌, ◌≤◌, ◌<◌, ◌≡◌, true, false, Option, none, some, List, arith, Option-cases, inl, inr,
  drop, ◌-◌,
}
use od_esphome.Types.{TransferMode}
use od_esphome.Wire.{pipe_max_ack_every, cmd_pipe_write_end, cmd_direct_write_end}
use od_esphome.Backend.{Backend}
use od_esphome.Engine.State.{Engine}
use od_esphome.Engine.Direct.{on_direct_data, on_direct_end}
use od_esphome.Engine.Pipe.{
  on_pipe_end, on_pipe_data, stage_tail_sack, after_accept, write_pipe, accept_pipe,
}
use od_esphome.Engine.Tick.{tick}
use od_esphome.Engine.Finish.{finish_and_refresh}
use od_esphome.Protocol.Frame.{byte_at}
use od_esphome.Engine.Invariant.{Inv, IsReceiving, has_backend}

module _ {D : Type 0} (api : Backend D) where
  pub direct_data-Inv :
      (e : Engine D) (p : Option (List ℕ)) (len now : ℕ)
      → Inv e
      → Inv (on_direct_data api e p len now).1
  unfolding on_direct_data
  direct_data-Inv e none len now v = ground arith
  direct_data-Inv e (some p) len now v = ground arith

  -- `finish_and_refresh_` settles the transaction, whatever state it finds.
  pub finish-Inv :
      (e : Engine D) (end_opcode now_ms : ℕ)
      → e.txn.accepted_bytes ≤ e.txn.expected_frame_bytes
      → e.txn.expected_frame_bytes < 2 ^ 32
      → (e.txn.mode ≡ TransferMode.direct → e.txn.next_direct_offset ≡ e.txn.accepted_bytes)
      → (e.txn.frame.compressed ≡ false) × (e.txn.frame.partial ≡ false)
      → Inv (finish_and_refresh api e end_opcode now_ms).1
  unfolding finish_and_refresh
  finish-Inv e end_opcode now_ms bounded small offset plain = ground arith

  pub direct_end-Inv :
      (e : Engine D) (p : Option (List ℕ)) (len now_ms : ℕ)
      → Inv e
      → Inv (on_direct_end api e p len now_ms).1
  unfolding on_direct_end
  direct_end-Inv e p len now_ms v = ground (arith, finish-Inv e cmd_direct_write_end now_ms)

  pub pipe_end-Inv :
      (e : Engine D) (p : Option (List ℕ)) (len now_ms : ℕ)
      → Inv e
      → Inv (on_pipe_end api e p len now_ms).1
  unfolding on_pipe_end
  pipe_end-Inv e p len now_ms v = ground (
    arith,
    finish-Inv e cmd_pipe_write_end now_ms,
    finish-Inv (stage_tail_sack e) cmd_pipe_write_end now_ms,
  )

  pub tick-Inv : (e : Engine D) (now_ms : ℕ) → Inv e → Inv (tick api e now_ms).1
  unfolding tick
  tick-Inv e now_ms v = ground arith

  -- The position after an accepted packet: the packet may complete a group, or the frame.
  pub after_accept-Inv :
      (e : Engine D) (now_ms : ℕ)
      → IsReceiving e.txn
      → e.txn.mode ≡ TransferMode.pipe
      → has_backend e.backend ≡ true
      → e.txn.accepted_bytes ≤ e.txn.expected_frame_bytes
      → e.txn.expected_frame_bytes < 2 ^ 32
      → e.txn.next_pipe_sequence ≡ e.txn.accepted_packets % 256
      → (e.txn.accepted_since_ack ≤ e.txn.negotiated_ack_every)
        × (0 < e.txn.negotiated_ack_every)
        × (e.txn.negotiated_ack_every ≤ pipe_max_ack_every)
      → e.hw_owned ≡ false
      → (e.txn.frame.compressed ≡ false) × (e.txn.frame.partial ≡ false)
      → e.txn.pipe_fatal ≡ false
      → Inv (after_accept api e now_ms).1
  unfolding after_accept
  after_accept-Inv e now_ms receiving mode present bounded small sequence cadence free plain fatal =
      ground (arith, finish-Inv (stage_tail_sack e) cmd_pipe_write_end now_ms)

  pub write_pipe-Inv :
      (e : Engine D) (d : D) (seq : ℕ) (chunk : List ℕ) (data_len now_ms : ℕ)
      → Inv e
      → e.backend ≡ some d
      → IsReceiving e.txn
      → e.txn.mode ≡ TransferMode.pipe
      → seq ≡ e.txn.next_pipe_sequence
      → Inv (write_pipe api e seq chunk data_len now_ms).1
  unfolding write_pipe
  write_pipe-Inv e d seq chunk data_len now_ms v b receiving mode next =
      let d' = (api.write_contiguous d e.txn.accepted_bytes (some chunk) data_len).1 in
      ground (
        arith,
        after_accept-Inv (accept_pipe (record e { backend = some d' }) seq data_len now_ms) now_ms,
      )

  pub pipe_data-Inv :
      (e : Engine D) (p : Option (List ℕ)) (len now_ms : ℕ)
      → Inv e
      → Inv (on_pipe_data api e p len now_ms).1
  unfolding on_pipe_data
  pipe_data-Inv e none len now_ms v = ground arith
  pipe_data-Inv e (some p) len now_ms v = elim (Option-cases e.backend) [
    | inl b ↦ ground arith
    | inr (d, b) ↦ ground (arith, write_pipe-Inv e d (byte_at p 0) (drop 1 p) (len - 1) now_ms)
  ]
