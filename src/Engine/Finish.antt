-- ===== src/Engine/Finish.antt =====
-- transfer_engine.cpp `finish_and_refresh_`: validation, END, and the start of the refresh.
use od_esphome.Base.{ℕ, ◌+◌, true, not, ◌==◌, if◌then◌else◌, u32}
use od_esphome.Types.{State, ErrorCode, full_refresh, is_ok}
use od_esphome.Protocol.Response.{encode_ack, encode_nack}
use od_esphome.Backend.{Backend}
use od_esphome.Engine.State.{Engine, EngineResult, answer, fail, count_backend_failure, call, abort}

module _ {D : Type 0} (api : Backend D) where
  -- The refresh that the driver has accepted.
  own_refresh : Engine D → ℕ → Engine D
  own_refresh e now_ms = record e {
    hw_owned = true;
    refresh_started_ms = now_ms;
    txn = record (e.txn) {
      state = State.refreshing;
      refresh_deadline_ms = u32 (now_ms + e.refresh_timeout_ms);
    };
  }

  -- From `this->txn_.state = State::WRITING` on.
  start_refresh : Engine D → ℕ → ℕ → EngineResult × Engine D
  unfolding own_refresh
  start_refresh e end_opcode now_ms =
      let writing = record e { txn = record (e.txn) { state = State.writing } } in
      let (r, e') = call writing (λ d. api.begin_refresh d full_refresh) in
      if not (is_ok r)
      then (
        fail (encode_nack end_opcode),
        abort api (count_backend_failure e') ErrorCode.backend_begin_failed,
      )
      else (answer (encode_ack end_opcode), own_refresh e' now_ms)

  unfoldable pub finish_and_refresh : Engine D → ℕ → ℕ → EngineResult × Engine D
  unfolding start_refresh abort
  finish_and_refresh e end_opcode now_ms =
      let validating = record e { txn = record (e.txn) { state = State.validating } } in
      if not (e.txn.accepted_bytes == e.txn.expected_frame_bytes)
      then (fail (encode_nack end_opcode), abort api validating ErrorCode.invalid_size)
      else let (r, e') = call validating api.finish_frame in
        if not (is_ok r)
        then (
          fail (encode_nack end_opcode),
          abort api (count_backend_failure e') ErrorCode.backend_finish_failed,
        )
        else start_refresh e' end_opcode now_ms
