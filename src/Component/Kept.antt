-- ===== src/Component/Kept.antt =====
-- What the responses of the component leave alone: all that decides which calls the engine gets.
use od_esphome.Base.{
  ℕ, zero, suc, ◌≡◌, ◌∷◌, ◌++◌, [], Bool, true, false, Option, none, some, arith, refl, ◌∙◌,
}
use od_esphome.Protocol.Response.{Response, encode_ack, encode_nack_err}
use od_esphome.Protocol.Msd.{Encoded}
use od_esphome.Wire.{
  cmd_config_read, resp_direct_write_refresh_success, resp_direct_write_refresh_timeout,
}
use od_esphome.Transport.{RxQueue, TxQueue, tx_pop}
use od_esphome.Engine.State.{EngineResult, take_tail_sack, Engine}
use od_esphome.Component.State.{Component}
use od_esphome.Component.Respond.{
  send, send_tail, send_response, apply_result, report_start, report_counts, report_complete,
  report_timeout, report_failure, send_config, notify_frames, drain_tx, ends_transfer,
}
use od_esphome.Component.Dispatch.{update_msd, publish_state, publish_changes}

-- The part of the component that the responses do not touch, but for a tail SACK that is taken.
pub record Core (D : Type 0) : Type 0 where
  pub engine : Engine D
  pub rx : RxQueue
  pub connection_generation : ℕ
  pub connected : Bool

abbrev pub core : {D : Type 0} → Component D → Core D
core c = record {
  engine = c.engine;
  rx = c.rx;
  connection_generation = c.connection_generation;
  connected = c.connected;
}

abbrev pub untailed : {D : Type 0} → Core D → Core D
untailed k = record k { engine = (take_tail_sack k.engine).1 }

module _ {D : Type 0} where
  pub core-send :
      (c : Component D) (r : Response) (terminal : Bool) → core (send c r terminal) ≡ core c
  unfolding send
  core-send c r terminal = ground arith

  core-send_tail : (c : Component D) → core (send_tail c) ≡ untailed (core c)
  unfolding send_tail
  core-send_tail c = tailed (take_tail_sack c.engine).0
    where
      tailed :
          (o : Option Response)
          → core (elim o as (λ x. Component D) [
            | none ↦ record c { engine = (take_tail_sack c.engine).1 }
            | some r ↦ send (record c { engine = (take_tail_sack c.engine).1 }) r true
          ])
            ≡ untailed (core c)
      tailed none = refl
      tailed (some r) = core-send (record c { engine = (take_tail_sack c.engine).1 }) r true

  core-send_response : (c : Component D) (res : EngineResult) → core (send_response c res) ≡ core c
  core-send_response c res = ground (arith, core-send c res.response (ends_transfer res))

  core-report_start : (c : Component D) (res : EngineResult) → core (report_start c res) ≡ core c
  unfolding report_start
  core-report_start c res = ground arith

  core-report_counts : (c : Component D) (res : EngineResult) → core (report_counts c res) ≡ core c
  unfolding report_counts
  core-report_counts c res = ground arith

  core-report_complete :
      (c : Component D) (res : EngineResult) → core (report_complete c res) ≡ core c
  unfolding report_complete
  core-report_complete c res =
      ground (arith, core-send c (encode_ack resp_direct_write_refresh_success) true)

  core-report_timeout :
      (c : Component D) (res : EngineResult) → core (report_timeout c res) ≡ core c
  unfolding report_timeout
  core-report_timeout c res =
      ground (arith, core-send c (encode_ack resp_direct_write_refresh_timeout) true)

  core-report_failure :
      (c : Component D) (res : EngineResult) → core (report_failure c res) ≡ core c
  unfolding report_failure
  core-report_failure c res = ground arith

  pub core-apply_result :
      (c : Component D) (res : EngineResult) → core (apply_result c res) ≡ untailed (core c)
  unfolding apply_result
  core-apply_result c res =
      let answered = send_response (send_tail c) res in
      let started = report_start answered res in
      let counted = report_counts started res in
      let completed = report_complete counted res in
      core-report_failure (report_timeout completed res) res
      ∙ core-report_timeout completed res
      ∙ core-report_complete counted res
      ∙ core-report_counts started res
      ∙ core-report_start answered res
      ∙ core-send_response (send_tail c) res
      ∙ core-send_tail c

  pub core-send_config : (c : Component D) → core (send_config c) ≡ core c
  unfolding send_config
  core-send_config c = ground (arith, core-send c (encode_nack_err cmd_config_read 0x00) false)

  core-notify_frames : (n : ℕ) (c : Component D) → core (notify_frames n c) ≡ core c
  unfolding notify_frames
  core-notify_frames zero c = refl
  core-notify_frames (suc n) c = popped (core-notify_frames n) (tx_pop c.tx).0 (tx_pop c.tx).1
    where
      popped :
          ((c' : Component D) → core (notify_frames n c') ≡ core c')
          → (o : Option Response) (tx : TxQueue)
          → core (elim o as (λ x. Component D) [
            | none ↦ record c { tx = tx }
            | some r ↦ notify_frames n (record c { tx = tx; notified = c.notified ++ (r ∷ []) })
          ])
            ≡ core c
      popped rest none tx = refl
      popped rest (some r) tx = rest (record c { tx = tx; notified = c.notified ++ (r ∷ []) })

  pub core-drain_tx : (c : Component D) → core (drain_tx c) ≡ core c
  unfolding drain_tx
  core-drain_tx c = ground (arith, core-notify_frames 4 c)

  pub core-update_msd :
      (c : Component D) (now_ms : ℕ) (temperature : Encoded)
      → core (update_msd c now_ms temperature) ≡ core c
  unfolding update_msd
  core-update_msd c now_ms temperature = ground arith

  pub core-publish_state : (c : Component D) → core (publish_state c) ≡ core c
  unfolding publish_state
  core-publish_state c = ground arith

  pub core-publish_changes : (c : Component D) → core (publish_changes c) ≡ core c
  unfolding publish_changes
  core-publish_changes c = ground (arith, core-publish_state c)
