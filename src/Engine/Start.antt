-- ===== src/Engine/Start.antt =====
-- transfer_engine.cpp `begin_transaction_`, `on_direct_start` and `on_pipe_start`.
pub mod Begun
use od_esphome.Base.{ℕ, ◌+◌, true, not, Option, none, some, List, ltb, ◌==◌, if◌then◌else◌, u32}
use od_esphome.Types.{State, TransferMode, ErrorCode, no_frame, is_idle, is_ok, is_invalid_size}
use od_esphome.Wire.{
  cmd_direct_write_start, cmd_pipe_write_start, od_err_pipe_start_bad_header,
  od_err_pipe_start_unknown_flag, od_err_pipe_start_size_mismatch, pipe_max_window,
  pipe_max_ack_every, pipe_max_frame,
}
use od_esphome.Protocol.Response.{
  encode_ack, encode_nack, encode_nack_err, encode_pipe_start_response,
}
use od_esphome.Protocol.PipeStart.{
  PipeStartRequest, ok, rejected, pipe_flag_compressed, parse_pipe_start,
}
use od_esphome.Backend.{Backend}
use od_esphome.Engine.State.{Engine, EngineResult, Transaction, reset, no_result, fail, abort}

-- The min rule.
abbrev pub negotiate : ℕ → ℕ → ℕ
negotiate requested maximum = if ltb requested maximum then requested else maximum

-- The transaction with the negotiated parameters.
abbrev pub negotiated : Transaction → PipeStartRequest → Transaction
negotiated txn req = record txn {
  negotiated_window = negotiate req.req_window pipe_max_window;
  negotiated_ack_every = negotiate req.req_ack_every pipe_max_ack_every;
  negotiated_frame = negotiate req.client_max_frame pipe_max_frame;
}

module _ {D : Type 0} (api : Backend D) where
  -- The transaction that a START opens, before the backend has accepted the frame. The source's
  -- parameter `total_bytes` is a uint32_t.
  abbrev pub opening : Engine D → D → TransferMode → ℕ → ℕ → Transaction
  opening e d mode total_bytes now_ms = record reset {
    mode = mode;
    connection_generation = e.connection_generation;
    expected_frame_bytes = u32 total_bytes;
    transfer_deadline_ms = u32 (now_ms + e.transfer_timeout_ms);
    frame = record no_frame {
      total_bytes = u32 total_bytes;
      color_scheme = (api.capabilities d).color_scheme;
    };
  }

  -- `begin_transaction_` from the capabilities on, with the backend `d`. `none` is the result true.
  unfoldable pub open_frame : Engine D → D → TransferMode → ℕ → ℕ → Option ErrorCode × Engine D
  open_frame e d mode total_bytes now_ms =
      if not (total_bytes == (api.capabilities d).full_frame_bytes)
      then (some ErrorCode.invalid_size, e)
      else let txn = opening e d mode total_bytes now_ms in
        let (r, d') = api.begin_frame d txn.frame in
        if not (is_ok r)
        then (some ErrorCode.backend_begin_failed, record e { backend = some d'; txn = reset })
        else (none, record e { backend = some d'; txn = record txn { state = State.receiving } })

  -- `some why` is the result false with `*why`.
  unfoldable pub begin_transaction : Engine D → TransferMode → ℕ → ℕ → Option ErrorCode × Engine D
  unfolding open_frame abort
  begin_transaction e mode total_bytes now_ms = elim e.backend [
    | none ↦ (some ErrorCode.backend_begin_failed, e)
    | some d ↦
        if e.hw_owned
        then (some ErrorCode.busy, e)
        else if is_idle e.txn.state
        then open_frame e d mode total_bytes now_ms
        else open_frame (abort api e ErrorCode.invalid_state) (api.abort_transfer d) mode
            total_bytes now_ms
  ]

  -- The frame size that the capabilities name, 0 without a backend.
  abbrev pub full_frame_of : Option D → ℕ
  full_frame_of none = 0
  full_frame_of (some d) = (api.capabilities d).full_frame_bytes

  unfoldable pub on_direct_start : Engine D → Option (List ℕ) → ℕ → ℕ → EngineResult × Engine D
  on_direct_start e payload len now_ms =
      if not (len == 0)
      then (
        fail (encode_nack cmd_direct_write_start),
        record e { last_error = ErrorCode.unsupported_format },
      )
      else let (why, e') =
          begin_transaction e TransferMode.direct (full_frame_of e.backend) now_ms in
        elim why [
          | some w ↦ (fail (encode_nack cmd_direct_write_start), record e' { last_error = w })
          | none ↦ (
            record no_result {
              response = encode_ack cmd_direct_write_start;
              transfer_started = true;
            },
            e',
          )
        ]

  -- `on_pipe_start` from the compression test on.
  unfoldable pub start_pipe : Engine D → PipeStartRequest → ℕ → EngineResult × Engine D
  start_pipe e req now_ms =
      if pipe_flag_compressed req.flags
      then (
        fail (encode_nack_err cmd_pipe_write_start od_err_pipe_start_unknown_flag),
        record e { last_error = ErrorCode.unsupported_format },
      )
      else let (why, e') = begin_transaction e TransferMode.pipe req.total_size now_ms in
        elim why [
          | some w ↦
              let code =
                if is_invalid_size w
                then od_err_pipe_start_size_mismatch
                else od_err_pipe_start_bad_header in
              (fail (encode_nack_err cmd_pipe_write_start code), record e' { last_error = w })
          | none ↦
              let txn = negotiated e'.txn req in
              (
                record no_result {
                  response =
                      encode_pipe_start_response txn.negotiated_window txn.negotiated_ack_every
                        txn.negotiated_frame 0x00;
                  transfer_started = true;
                },
                record e' { txn = txn },
              )
        ]

  unfoldable pub on_pipe_start : Engine D → Option (List ℕ) → ℕ → ℕ → EngineResult × Engine D
  on_pipe_start e payload len now_ms = elim (parse_pipe_start payload len) [
    | rejected scoped ↦ (
      fail (encode_nack_err cmd_pipe_write_start scoped),
      record e { last_error = ErrorCode.malformed_packet },
    )
    | ok req ↦ start_pipe e req now_ms
  ]
