-- ===== src/Engine/Tick.antt =====
-- transfer_engine.cpp `tick`: refresh polling and the deadlines.
use od_esphome.Base.{ℕ, ◌+◌, true, Option, none, some, if◌then◌else◌, u32}
use od_esphome.Types.{State, ErrorCode, PollResult, is_refreshing}
use od_esphome.Backend.{Backend}
use od_esphome.Engine.State.{
  Engine, EngineResult, reset, no_result, count_backend_failure, abort, release_hardware,
  deadline_passed,
}

module _ {D : Type 0} (api : Backend D) where
  count_refresh_timeout : Engine D → Engine D
  count_refresh_timeout e = record e {
    stats = record (e.stats) { refresh_timeouts = u32 (e.stats.refresh_timeouts + 1) };
  }

  transfer_deadline : Engine D → ℕ → EngineResult × Engine D
  transfer_deadline e now_ms =
      if deadline_passed now_ms e.txn.transfer_deadline_ms
      then (record no_result { terminal_error = true }, abort api e ErrorCode.transfer_timeout)
      else (no_result, e)

  refresh_deadline : Engine D → ℕ → EngineResult × Engine D
  unfolding count_refresh_timeout
  refresh_deadline e now_ms =
      if deadline_passed now_ms e.txn.refresh_deadline_ms
      then (
        record no_result { refresh_timeout = true },
        abort api (count_refresh_timeout e) ErrorCode.refresh_timeout,
      )
      else (no_result, e)

  -- The `switch` on the state.
  deadlines : State → Engine D → ℕ → EngineResult × Engine D
  unfolding transfer_deadline refresh_deadline
  deadlines State.receiving e now_ms = transfer_deadline e now_ms
  deadlines State.validating e now_ms = transfer_deadline e now_ms
  deadlines State.writing e now_ms = transfer_deadline e now_ms
  deadlines State.refreshing e now_ms = refresh_deadline e now_ms
  deadlines _ e now_ms = (no_result, e)

  refresh_completed : Engine D → EngineResult × Engine D
  refresh_completed e =
      if is_refreshing e.txn.state
      then (
        record no_result { refresh_complete = true },
        record e {
          txn = reset;
          stats = record (e.stats) { transfers_ok = u32 (e.stats.transfers_ok + 1) };
        },
      )
      else (no_result, e)

  refresh_failed : Engine D → EngineResult × Engine D
  refresh_failed e =
      if is_refreshing e.txn.state
      then (
        record no_result { terminal_error = true },
        record (count_backend_failure e) {
          txn = reset;
          last_error = ErrorCode.backend_finish_failed;
        },
      )
      else (no_result, e)

  -- What `tick` does with the answer of `poll_refresh`.
  polled : PollResult → Engine D → ℕ → EngineResult × Engine D
  unfolding release_hardware refresh_completed refresh_failed deadlines
  polled PollResult.complete e now_ms = refresh_completed (release_hardware e)
  polled PollResult.failed e now_ms = refresh_failed (release_hardware e)
  polled PollResult.pending e now_ms = deadlines e.txn.state e now_ms

  tick_with : Option D → Engine D → ℕ → EngineResult × Engine D
  unfolding polled
  tick_with none e now_ms = deadlines e.txn.state e now_ms
  tick_with (some d) e now_ms =
      if e.hw_owned
      then (let (p, d') = api.poll_refresh d in polled p (record e { backend = some d' }) now_ms)
      else deadlines e.txn.state e now_ms

  unfoldable pub tick : Engine D → ℕ → EngineResult × Engine D
  unfolding tick_with abort deadline_passed
  tick e now_ms = tick_with e.backend e now_ms
