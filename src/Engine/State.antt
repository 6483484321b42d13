-- ===== src/Engine/State.antt =====
-- The records of transfer_engine.h, `Transaction::reset`, the terminal paths (`abort`,
-- `release_hardware_`, `on_disconnect`) and the accessors of the class.
--
-- `backend_` is an option, `none` for a null pointer. A call through it that the source does not
-- guard has an undefined effect at null; the model then answers `device_error` and leaves the
-- pointer.
use mathlib.Core.Option
use od_esphome.Base.{
  ℕ, ◌+◌, Bool, true, false, not, ◌||◌, ◌&&◌, Option, none, some, [], ◌==◌, if◌then◌else◌, u32,
  sub32, non_negative32,
}
use od_esphome.Types.{
  State, TransferMode, ErrorCode, FrameDescriptor, BackendResult, no_frame, is_idle, is_refreshing,
}
use od_esphome.Protocol.Response.{Response}
use od_esphome.Backend.{Backend}

pub record Transaction : Type 0 where
  pub mode : TransferMode
  pub connection_generation : ℕ  -- uint32_t
  pub state : State
  pub expected_frame_bytes : ℕ  -- uint32_t
  pub accepted_bytes : ℕ  -- uint32_t
  pub next_direct_offset : ℕ  -- uint32_t
  pub next_pipe_sequence : ℕ  -- uint8_t
  pub highest_seen : ℕ  -- uint8_t
  pub accepted_packets : ℕ  -- uint32_t
  pub accepted_since_ack : ℕ  -- uint8_t
  pub pipe_fatal : Bool
  pub negotiated_window : ℕ  -- uint8_t
  pub negotiated_ack_every : ℕ  -- uint8_t
  pub negotiated_frame : ℕ  -- uint16_t
  pub transfer_deadline_ms : ℕ  -- uint32_t
  pub refresh_deadline_ms : ℕ  -- uint32_t
  pub frame : FrameDescriptor
  pub error : ErrorCode

-- `Transaction{}`, which `reset` assigns.
abbrev pub reset : Transaction
reset = record {
  mode = TransferMode.none;
  connection_generation = 0;
  state = State.idle;
  expected_frame_bytes = 0;
  accepted_bytes = 0;
  next_direct_offset = 0;
  next_pipe_sequence = 0;
  highest_seen = 0;
  accepted_packets = 0;
  accepted_since_ack = 0;
  pipe_fatal = false;
  negotiated_window = 0;
  negotiated_ack_every = 0;
  negotiated_frame = 0;
  transfer_deadline_ms = 0;
  refresh_deadline_ms = 0;
  frame = no_frame;
  error = ErrorCode.none;
}

-- Each counter is a uint32_t.
pub record TransferStats : Type 0 where
  pub transfers_ok : ℕ
  pub transfers_aborted : ℕ
  pub direct_packets : ℕ
  pub pipe_packets : ℕ
  pub retransmit_requests : ℕ
  pub queue_overflows : ℕ
  pub backend_failures : ℕ
  pub refresh_timeouts : ℕ
  pub queue_high_water : ℕ

pub record EngineResult : Type 0 where
  pub response : Response
  pub refresh_complete : Bool
  pub refresh_timeout : Bool
  pub transfer_started : Bool
  pub terminal_error : Bool

-- `EngineResult res;`
abbrev pub no_result : EngineResult
no_result = record {
  response = [];
  refresh_complete = false;
  refresh_timeout = false;
  transfer_started = false;
  terminal_error = false;
}

-- `res.response = r;`, and the same with `res.terminal_error = true`.
abbrev pub answer : Response → EngineResult
answer r = record no_result { response = r }

abbrev pub fail : Response → EngineResult
fail r = record no_result { response = r; terminal_error = true }

pub record Engine (D : Type 0) : Type 0 where
  pub backend : Option D
  pub txn : Transaction
  pub stats : TransferStats
  pub last_error : ErrorCode
  pub transfer_timeout_ms : ℕ  -- uint32_t
  pub refresh_timeout_ms : ℕ  -- uint32_t
  pub connection_generation : ℕ  -- uint32_t
  pub hw_owned : Bool
  pub refresh_started_ms : ℕ  -- uint32_t
  pub pending_tail_sack : Response
  pub has_tail_sack : Bool

-- `deadline_passed`: a zero deadline never passes, and the test is on the wrapped difference.
unfoldable pub deadline_passed : ℕ → ℕ → Bool
deadline_passed now_ms deadline_ms =
    not (deadline_ms == 0) && non_negative32 (sub32 now_ms deadline_ms)

module _ {D : Type 0} where
  -- `explicit TransferEngine(OpenDisplayBackend *backend)` with the default member values.
  unfoldable pub construct : Option D → Engine D
  construct backend = record {
    backend = backend;
    txn = reset;
    stats = record {
      transfers_ok = 0;
      transfers_aborted = 0;
      direct_packets = 0;
      pipe_packets = 0;
      retransmit_requests = 0;
      queue_overflows = 0;
      backend_failures = 0;
      refresh_timeouts = 0;
      queue_high_water = 0;
    };
    last_error = ErrorCode.none;
    transfer_timeout_ms = 30000;
    refresh_timeout_ms = 180000;
    connection_generation = 0;
    hw_owned = false;
    refresh_started_ms = 0;
    pending_tail_sack = [];
    has_tail_sack = false;
  }

  unfoldable pub set_timeouts : Engine D → ℕ → ℕ → Engine D
  set_timeouts e transfer_ms refresh_ms = record e {
    transfer_timeout_ms = transfer_ms;
    refresh_timeout_ms = refresh_ms;
  }

  unfoldable pub set_connection_generation : Engine D → ℕ → Engine D
  set_connection_generation e gen = record e { connection_generation = gen }

  unfoldable pub take_tail_sack : Engine D → Option Response × Engine D
  take_tail_sack e =
      if not e.has_tail_sack
      then (none, e)
      else (some e.pending_tail_sack, record e { has_tail_sack = false })

  unfoldable pub is_busy : Engine D → Bool
  is_busy e = not (is_idle e.txn.state) || e.hw_owned

  abbrev pub count_backend_failure : Engine D → Engine D
  count_backend_failure e = record e {
    stats = record (e.stats) { backend_failures = u32 (e.stats.backend_failures + 1) };
  }

  -- A call through `backend_` that is not guarded against null.
  abbrev pub call : Engine D → (D → BackendResult × D) → BackendResult × Engine D
  call e f = elim e.backend [
    | none ↦ (BackendResult.device_error, e)
    | some d ↦ let (r, d') = f d in (r, record e { backend = some d' })
  ]

  unfoldable pub release_hardware : Engine D → Engine D
  release_hardware e = record e { hw_owned = false }

module _ {D : Type 0} (api : Backend D) where
  unfoldable pub abort : Engine D → ErrorCode → Engine D
  abort e error =
      let stopped = if is_idle e.txn.state then e else record e {
        backend = Option.map api.abort_transfer e.backend;
        stats = record (e.stats) { transfers_aborted = u32 (e.stats.transfers_aborted + 1) };
      } in
      record stopped { txn = reset; last_error = error }

  unfoldable pub on_disconnect : Engine D → ℕ → Engine D
  unfolding abort
  on_disconnect e connection_generation =
      if is_idle e.txn.state
      then e
      else if not (e.txn.connection_generation == connection_generation)
      then e
      else if is_refreshing e.txn.state
      then e
      else abort e ErrorCode.disconnected
