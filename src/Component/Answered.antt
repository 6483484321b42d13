-- ===== src/Component/Answered.antt =====
-- opendisplay.cpp `loop` while the panel refreshes and the client writes nothing: what the client
-- hears of the end of the refresh, and when.
pub mod Queued
pub mod Applied
pub mod Outbox
pub mod Pass
pub mod Once
pub mod Living
pub mod Ended
pub mod Call
pub mod Packet
use mathlib.Core.Path.{subst}
use od_esphome.Base.{
  ℕ, zero, suc, ◌≡◌, ◌≤◌, ◌++◌, ◌∷◌, [], List, length, Option, none, some, true, false, Bool,
  if◌then◌else◌, arith, ap, ◌∙◌, refl, sym, ◌&&◌, ap₂,
}
use od_esphome.Types.{State, PollResult}
use od_esphome.Wire.{resp_direct_write_refresh_success, resp_direct_write_refresh_timeout}
use od_esphome.Protocol.Response.{Response, encode_ack}
use od_esphome.Protocol.Msd.{Encoded}
use od_esphome.Backend.{Backend}
use od_esphome.Transport.{TxQueue, tx_pop, tx_push, rx_pop}
use od_esphome.Transport.Tx
use od_esphome.Transport.Tx.{tx_pop_refines}
use od_esphome.Transport.Fifo.{poll}
use od_esphome.Engine.State.{Engine, EngineResult, deadline_passed, take_tail_sack, on_disconnect}
use od_esphome.Engine.Tick.{tick}
use od_esphome.Component.State.{Component}
use od_esphome.Component.Respond.{
  notify_frames, drain_tx, apply_result, send, send_tail, report_start, report_counts,
  report_complete, report_timeout, report_failure,
}
use od_esphome.Component.Dispatch.{
  apply_call, update_msd, publish_changes, publish_state, loop, drain_rx,
}
use od_esphome.Component.Order.{tx_push-fits}
use od_esphome.Component.Config.{notify_frames-all, length-poll}
use od_esphome.Component.Visit.{IsAttending, IsDrained, drain_rx-none}
use od_esphome.Component.Kept.{
  core, untailed, core-publish_changes, core-drain_tx, core-update_msd, core-apply_result, Core,
}

abbrev pub success_frame : Response
success_frame = encode_ack resp_direct_write_refresh_success

abbrev pub timeout_frame : Response
timeout_frame = encode_ack resp_direct_write_refresh_timeout

-- What the flags of a result of `tick` tell the client.
abbrev pub told : EngineResult → List Response
told res =
    (if res.refresh_complete then success_frame ∷ [] else [])
    ++ (if res.refresh_timeout then timeout_frame ∷ [] else [])

pub length-told : (res : EngineResult) → length (told res) ≤ 2
length-told res = ground arith

-- A connected client that has been sent everything and writes nothing.
pub record IsQuiet {D : Type 0} (c : Component D) : Type 0 where
  pub attending : IsAttending c
  pub charact : c.has_characteristic ≡ true
  pub valid : Tx.IsValid c.tx
  pub sent : Tx.contents c.tx ≡ []
  pub no_tail : c.engine.has_tail_sack ≡ false
