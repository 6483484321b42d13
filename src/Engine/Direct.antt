-- ===== src/Engine/Direct.antt =====
-- transfer_engine.cpp `on_direct_data` and `on_direct_end`.
use od_esphome.Base.{
  ℕ, ◌+◌, not, ◌||◌, Option, none, some, List, ltb, ◌==◌, if◌then◌else◌, u32, sub32,
}
use od_esphome.Types.{ErrorCode, is_receiving, is_direct, is_ok}
use od_esphome.Wire.{cmd_direct_write_data, cmd_direct_write_end}
use od_esphome.Protocol.Response.{encode_ack, encode_nack}
use od_esphome.Backend.{Backend}
use od_esphome.Engine.State.{Engine, EngineResult, answer, fail, count_backend_failure, call, abort}
use od_esphome.Engine.Finish.{finish_and_refresh}

module _ {D : Type 0} (api : Backend D) where
  -- The accounting of an accepted direct packet.
  accept_direct : Engine D → ℕ → ℕ → Engine D
  accept_direct e len now_ms = record e {
    txn = record (e.txn) {
      next_direct_offset = u32 (e.txn.next_direct_offset + len);
      accepted_bytes = u32 (e.txn.accepted_bytes + len);
      transfer_deadline_ms = u32 (now_ms + e.transfer_timeout_ms);
    };
    stats = record (e.stats) { direct_packets = u32 (e.stats.direct_packets + 1) };
  }

  -- `on_direct_data` past the guards on the state and on an empty packet.
  write_direct : Engine D → List ℕ → ℕ → ℕ → EngineResult × Engine D
  unfolding accept_direct
  write_direct e payload len now_ms =
      if ltb (sub32 e.txn.expected_frame_bytes e.txn.accepted_bytes) len
      then (fail (encode_nack cmd_direct_write_data), abort api e ErrorCode.invalid_size)
      else let (r, e') =
          call e (λ d. api.write_contiguous d e.txn.next_direct_offset (some payload) len) in
        if not (is_ok r)
        then (
          fail (encode_nack cmd_direct_write_data),
          abort api (count_backend_failure e') ErrorCode.backend_write_failed,
        )
        else (answer (encode_ack cmd_direct_write_data), accept_direct e' len now_ms)

  -- `payload == nullptr || len == 0` is the malformed packet.
  direct_packet : Engine D → Option (List ℕ) → ℕ → ℕ → EngineResult × Engine D
  unfolding write_direct
  direct_packet e none len now_ms =
      (fail (encode_nack cmd_direct_write_data), abort api e ErrorCode.malformed_packet)
  direct_packet e (some payload) len now_ms =
      if len == 0
      then (fail (encode_nack cmd_direct_write_data), abort api e ErrorCode.malformed_packet)
      else write_direct e payload len now_ms

  unfoldable pub on_direct_data : Engine D → Option (List ℕ) → ℕ → ℕ → EngineResult × Engine D
  unfolding direct_packet abort
  on_direct_data e payload len now_ms =
      if not (is_receiving e.txn.state) || not (is_direct e.txn.mode)
      then (
        answer (encode_nack cmd_direct_write_data),
        record e { last_error = ErrorCode.invalid_state },
      )
      else direct_packet e payload len now_ms

  unfoldable pub on_direct_end : Engine D → Option (List ℕ) → ℕ → ℕ → EngineResult × Engine D
  on_direct_end e payload len now_ms =
      if not (is_receiving e.txn.state) || not (is_direct e.txn.mode)
      then (
        answer (encode_nack cmd_direct_write_end),
        record e { last_error = ErrorCode.invalid_state },
      )
      else finish_and_refresh api e cmd_direct_write_end now_ms
