-- ===== src/Engine/Invariant.antt =====
-- What holds of the engine between two calls.
pub mod Data
pub mod Starts
pub mod Steps
use od_esphome.Base.{
  ℕ, ◌%◌, ◌^◌, ◌≤◌, ◌<◌, ◌≡◌, Bool, true, false, Option, none, some, List, arith, Option-cases, inl,
  inr, drop, ◌-◌, ◌∷◌, ◌⊎◌,
}
use od_esphome.Types.{State, TransferMode, ErrorCode}
use od_esphome.Wire.{pipe_max_ack_every, cmd_pipe_write_end, cmd_direct_write_end}
use od_esphome.Backend.{Backend}
use od_esphome.Engine.State.{Transaction, Engine, construct, abort}
use od_esphome.Engine.Direct.{on_direct_data, on_direct_end}
use od_esphome.Engine.Pipe.{
  on_pipe_end, on_pipe_data, stage_tail_sack, after_accept, write_pipe, accept_pipe,
}
use od_esphome.Engine.Tick.{tick}
use od_esphome.Engine.Finish.{finish_and_refresh}
use od_esphome.Engine.Start.{
  begin_transaction, on_direct_start, full_frame_of, on_pipe_start, start_pipe, negotiated,
}
use od_esphome.Protocol.Frame.{byte_at}
use od_esphome.Protocol.PipeStart.{PipeStartRequest, parse_pipe_start, Parsed}
use od_esphome.Engine.Calls.{run, step, Call}

abbrev pub has_backend {ℓ} : {D : Type ℓ} → Option D → Bool
has_backend none = false
has_backend (some d) = true

-- The states that are seen between two calls.
abbrev pub settled : State → Bool
settled State.idle = true
settled State.receiving = true
settled State.refreshing = true
settled _ = false

abbrev pub IsReceiving : Transaction → Type 0
IsReceiving t = t.state ≡ State.receiving

pub record Inv {D : Type 0} (e : Engine D) : Type 0 where
  pub phase : settled e.txn.state ≡ true
  pub present : IsReceiving e.txn → has_backend e.backend ≡ true
  pub bounded : e.txn.accepted_bytes ≤ e.txn.expected_frame_bytes
  pub small : e.txn.expected_frame_bytes < 2 ^ 32
  pub offset : e.txn.mode ≡ TransferMode.direct → e.txn.next_direct_offset ≡ e.txn.accepted_bytes
  pub sequence : IsReceiving e.txn → e.txn.next_pipe_sequence ≡ e.txn.accepted_packets % 256
  pub cadence :
      IsReceiving e.txn
      → e.txn.mode ≡ TransferMode.pipe
      → (e.txn.accepted_since_ack < e.txn.negotiated_ack_every)
        × (e.txn.negotiated_ack_every ≤ pipe_max_ack_every)
  pub free : IsReceiving e.txn → e.hw_owned ≡ false
  pub owned : e.txn.state ≡ State.refreshing → e.hw_owned ≡ true
  pub full : e.txn.state ≡ State.refreshing → e.txn.accepted_bytes ≡ e.txn.expected_frame_bytes
  pub plain : (e.txn.frame.compressed ≡ false) × (e.txn.frame.partial ≡ false)
  pub fatal : IsReceiving e.txn → e.txn.mode ≡ TransferMode.pipe → e.txn.pipe_fatal ≡ false

pub construct-Inv : {D : Type 0} (backend : Option D) → Inv (construct backend)
unfolding construct
construct-Inv backend = ground arith

module _ {D : Type 0} (api : Backend D) where
  pub abort-Inv : (e : Engine D) (error : ErrorCode) → Inv (abort api e error)
  unfolding abort
  abort-Inv e error = ground arith
