-- ===== src/Engine/Stalled.antt =====
-- transfer_engine.cpp: the transfer deadline, from the packet that sets it to the tick that reads
-- it.
use od_esphome.Base.{
  ℕ, ◌≡◌, Option, false, true, List, ◌≢◌, if◌then◌else◌, u32, arith, ◌+◌, some, ◌<◌, drop, ◌^◌, ◌-◌,
  not, none, ◌==◌, ◌&&◌, leb, ap, ◌∙◌, Bool,
}
use od_esphome.Types.{State, ErrorCode, is_receiving, TransferMode}
use od_esphome.Backend.{Backend}
use od_esphome.Engine.State.{Engine, no_result, abort, deadline_passed, call}
use od_esphome.Engine.Tick.{tick}
use od_esphome.Engine.Direct.{on_direct_data}
use od_esphome.Engine.Pipe.{on_pipe_data, write_pipe, after_accept, accept_pipe, stage_tail_sack}
use od_esphome.Engine.Finish.{finish_and_refresh}
use od_esphome.Engine.Deadline.{deadline_passed-lem}
use od_esphome.Engine.Invariant.{Inv}
use od_esphome.Protocol.Frame.{byte_at}
use od_esphome.Wire.{cmd_pipe_write_end}
use od_esphome.Engine.Invariant.Data.{pipe_data-Inv, direct_data-Inv}

module _ {D : Type 0} (api : Backend D) where
  -- A transfer whose deadline was set at a time.
  abbrev pub IsTimed : Engine D → ℕ → ℕ → Type 0
  IsTimed e now_ms timeout =
      is_receiving e.txn.state ≡ true → e.txn.transfer_deadline_ms ≡ u32 (now_ms + timeout)

  finish-state :
      (e : Engine D) (opcode now_ms : ℕ)
      → is_receiving (finish_and_refresh api e opcode now_ms).1.txn.state ≡ false
  unfolding finish_and_refresh
  finish-state e opcode now_ms = ground arith

  pub data-IsTimed :
      (e : Engine D) (p : Option (List ℕ)) (len now_ms : ℕ)
      → let e' = (on_direct_data api e p len now_ms).1 in
        e'.txn.accepted_bytes ≢ e.txn.accepted_bytes → IsTimed e' now_ms e.transfer_timeout_ms
  unfolding on_direct_data
  data-IsTimed e p len now_ms = ground arith

  after_accept-deadline :
      (e : Engine D) (now_ms : ℕ)
      → let e' = (after_accept api e now_ms).1 in
        is_receiving e'.txn.state ≡ true → e'.txn.transfer_deadline_ms ≡ e.txn.transfer_deadline_ms
  unfolding after_accept
  after_accept-deadline e now_ms =
      ground (arith, finish-state (stage_tail_sack e) cmd_pipe_write_end now_ms)

  write_pipe-IsTimed :
      (e : Engine D) (seq : ℕ) (chunk : List ℕ) (data_len now_ms : ℕ)
      → IsTimed (write_pipe api e seq chunk data_len now_ms).1 now_ms e.transfer_timeout_ms
  unfolding write_pipe accept_pipe
  write_pipe-IsTimed e seq chunk data_len now_ms =
      let written =
        (call e (λ d. api.write_contiguous d e.txn.accepted_bytes (some chunk) data_len)).1 in
      ground (arith, after_accept-deadline (accept_pipe written seq data_len now_ms) now_ms)

  pub pipe-IsTimed :
      (e : Engine D) (p : Option (List ℕ)) (len now_ms : ℕ)
      → let e' = (on_pipe_data api e p len now_ms).1 in
        e'.txn.accepted_bytes ≢ e.txn.accepted_bytes → IsTimed e' now_ms e.transfer_timeout_ms
  unfolding on_pipe_data
  pipe-IsTimed e none len now_ms = ground arith
  pipe-IsTimed e (some payload) len now_ms =
      ground (arith, write_pipe-IsTimed e (byte_at payload 0) (drop 1 payload) (len - 1) now_ms)

  tick-deadline :
      (e : Engine D) (now_ms : ℕ)
      → e.txn.state ≡ State.receiving
      → e.hw_owned ≡ false
      → tick api e now_ms ≡ (
          if deadline_passed now_ms e.txn.transfer_deadline_ms
          then (record no_result { terminal_error = true }, abort api e ErrorCode.transfer_timeout)
          else (no_result, e))
  unfolding tick
  tick-deadline e now_ms receiving free = ground arith

  pub timed-tick :
      (e : Engine D) (start timeout later : ℕ)
      → Inv e
      → IsTimed e start timeout
      → e.txn.state ≡ State.receiving
      → timeout < 2 ^ 31
      → later < 2 ^ 31
      → tick api e (u32 (start + later)) ≡ (
          if not (u32 (start + timeout) == 0) && leb timeout later
          then (record no_result { terminal_error = true }, abort api e ErrorCode.transfer_timeout)
          else (no_result, e))
  timed-tick e start timeout later v timed receiving t l =
      let deadline = timed (ap is_receiving receiving) in
      let passed =
        ap (deadline_passed (u32 (start + later))) deadline
        ∙ deadline_passed-lem start timeout later t l in
      tick-deadline e (u32 (start + later)) receiving (v.free receiving)
      ∙ ap
          (λ (b : Bool).
            if b
            then (
              record no_result { terminal_error = true },
              abort api e ErrorCode.transfer_timeout,
            )
            else (no_result, e))
          passed

  -- A DATA packet of either kind.
  abbrev pub arrives : TransferMode → Engine D → Option (List ℕ) → ℕ → ℕ → Engine D
  arrives TransferMode.pipe e p len now_ms = (on_pipe_data api e p len now_ms).1
  arrives _ e p len now_ms = (on_direct_data api e p len now_ms).1

  -- After a DATA packet of either kind whose bytes are accepted and that does not complete the
  -- frame, a tick ends the transfer with an error exactly when the transfer timeout has gone by,
  -- also where the 32-bit clock wraps in between, and changes nothing before; the timeout and the
  -- time are less than 2 ^ 31 milliseconds. The exception is a deadline that wraps to zero: it
  -- never passes.
  pub stalled_transfer_ends :
      (e : Engine D) (mode : TransferMode) (p : Option (List ℕ)) (len start later : ℕ)
      → Inv e
      → let e' = arrives mode e p len start in
        e'.txn.accepted_bytes ≢ e.txn.accepted_bytes
        → e'.txn.state ≡ State.receiving
        → e.transfer_timeout_ms < 2 ^ 31
        → later < 2 ^ 31
        → tick api e' (u32 (start + later)) ≡ (
            if not (u32 (start + e.transfer_timeout_ms) == 0) && leb e.transfer_timeout_ms later
            then (
              record no_result { terminal_error = true },
              abort api e' ErrorCode.transfer_timeout,
            )
            else (no_result, e'))
  stalled_transfer_ends e TransferMode.pipe p len start later v grown =
      timed-tick (on_pipe_data api e p len start).1 start e.transfer_timeout_ms later
        (pipe_data-Inv api e p len start v) (pipe-IsTimed e p len start grown)
  stalled_transfer_ends e _ p len start later v grown =
      timed-tick (on_direct_data api e p len start).1 start e.transfer_timeout_ms later
        (direct_data-Inv api e p len start v) (data-IsTimed e p len start grown)
