-- ===== src/Component/Heard.antt =====
-- opendisplay.cpp `publish_state_` and `loop`: what the busy sensor has last been told.
pub mod Loop
pub mod Setup
use od_esphome.Base.{
  ℕ, zero, suc, ◌≡◌, ◌∷◌, ◌++◌, [], Bool, true, false, Option, none, some, List, arith, refl, ◌∙◌,
  ap, if◌then◌else◌,
}
use od_esphome.Protocol.Response.{Response, encode_ack, encode_nack, encode_nack_err}
use od_esphome.Protocol.Version.{encode_version}
use od_esphome.Protocol.Frame.{Frame, parse_frame}
use od_esphome.Protocol.Msd.{Encoded, encode_msd_response}
use od_esphome.Wire.{
  cmd_config_read, resp_direct_write_refresh_success, resp_direct_write_refresh_timeout,
}
use od_esphome.Backend.{Backend}
use od_esphome.Transport.{RxPacket, TxQueue, tx_pop, rx_pop, RxQueue}
use od_esphome.Engine.State.{EngineResult, Engine, take_tail_sack, is_busy}
use od_esphome.Engine.Calls.{Call, step}
use od_esphome.Component.State.{Component, Notice}
use od_esphome.Component.Respond.{
  send, send_tail, send_response, apply_result, report_start, report_counts, report_complete,
  report_timeout, report_failure, send_config, notify_frames, drain_tx, ends_transfer,
}
use od_esphome.Component.Dispatch.{
  update_msd, publish_state, publish_changes, apply_call, handle_frame, handle_packet, take_packet,
  drain_rx, count_bulk_rx, publish_busy, publish_activity,
}

-- What the sensor shows after a notice, and after some of them.
abbrev heard : Option Bool → Notice → Option Bool
heard o (Notice.busy b) = some b
heard o _ = o

abbrev hears : Option Bool → List Notice → Option Bool
hears o [] = o
hears o (n ∷ l) = hears (heard o n) l

abbrev pub last_busy : List Notice → Option Bool
last_busy l = hears none l

hears-snoc :
    (l : List Notice) (n : Notice) (o : Option Bool) → hears o (l ++ (n ∷ [])) ≡ heard (hears o l) n
hears-snoc [] n o = refl
hears-snoc (m ∷ l) n o = hears-snoc l n (heard o m)

-- The busy sensor's part of the component.
pub record Ear : Type 0 where
  pub has_busy_sensor : Bool
  pub published_busy : Bool
  pub shown : Option Bool

abbrev pub ear : {D : Type 0} → Component D → Ear
ear c = record {
  has_busy_sensor = c.has_busy_sensor;
  published_busy = c.published_busy;
  shown = last_busy c.notices;
}

module _ {D : Type 0} where
  pub ear-send :
      (c : Component D) (r : Response) (terminal : Bool) → ear (send c r terminal) ≡ ear c
  unfolding send
  ear-send c r terminal = ground arith

  ear-send_tail : (c : Component D) → ear (send_tail c) ≡ ear c
  unfolding send_tail
  ear-send_tail c = tailed (take_tail_sack c.engine).0
    where
      tailed :
          (o : Option Response)
          → ear (elim o as (λ x. Component D) [
            | none ↦ record c { engine = (take_tail_sack c.engine).1 }
            | some r ↦ send (record c { engine = (take_tail_sack c.engine).1 }) r true
          ])
            ≡ ear c
      tailed none = refl
      tailed (some r) = ear-send (record c { engine = (take_tail_sack c.engine).1 }) r true

  ear-send_response : (c : Component D) (res : EngineResult) → ear (send_response c res) ≡ ear c
  ear-send_response c res = ground (arith, ear-send c res.response (ends_transfer res))

  ear-report_start : (c : Component D) (res : EngineResult) → ear (report_start c res) ≡ ear c
  unfolding report_start
  ear-report_start c res = ground (arith, hears-snoc c.notices Notice.transfer_started none)

  ear-report_counts : (c : Component D) (res : EngineResult) → ear (report_counts c res) ≡ ear c
  unfolding report_counts
  ear-report_counts c res = ground arith

  ear-report_complete : (c : Component D) (res : EngineResult) → ear (report_complete c res) ≡ ear c
  unfolding report_complete send
  ear-report_complete c res = ground (arith, hears-snoc c.notices Notice.refresh_complete none)

  ear-report_timeout : (c : Component D) (res : EngineResult) → ear (report_timeout c res) ≡ ear c
  unfolding report_timeout send
  ear-report_timeout c res =
      ground (arith, hears-snoc c.notices (Notice.error c.engine.last_error) none)

  ear-report_failure : (c : Component D) (res : EngineResult) → ear (report_failure c res) ≡ ear c
  unfolding report_failure
  ear-report_failure c res =
      ground (arith, hears-snoc c.notices (Notice.error c.engine.last_error) none)

  ear-apply_result : (c : Component D) (res : EngineResult) → ear (apply_result c res) ≡ ear c
  unfolding apply_result
  ear-apply_result c res =
      let answered = send_response (send_tail c) res in
      let started = report_start answered res in
      let counted = report_counts started res in
      let completed = report_complete counted res in
      ear-report_failure (report_timeout completed res) res
      ∙ ear-report_timeout completed res
      ∙ ear-report_complete counted res
      ∙ ear-report_counts started res
      ∙ ear-report_start answered res
      ∙ ear-send_response (send_tail c) res
      ∙ ear-send_tail c

  pub ear-apply_call :
      (c : Component D) (called : EngineResult × Engine D) → ear (apply_call c called) ≡ ear c
  unfolding apply_call
  ear-apply_call c called = ear-apply_result (record c { engine = called.1 }) called.0

  pub ear-send_config : (c : Component D) → ear (send_config c) ≡ ear c
  unfolding send_config
  ear-send_config c = ground (arith, ear-send c (encode_nack_err cmd_config_read 0x00) false)

  ear-notify_frames : (n : ℕ) (c : Component D) → ear (notify_frames n c) ≡ ear c
  unfolding notify_frames
  ear-notify_frames zero c = refl
  ear-notify_frames (suc n) c = popped (tx_pop c.tx).0 (tx_pop c.tx).1 (λ d. ear-notify_frames n d)
    where
      popped :
          (o : Option Response) (tx : TxQueue)
          → ((d : Component D) → ear (notify_frames n d) ≡ ear d)
          → ear (elim o as (λ x. Component D) [
            | none ↦ record c { tx = tx }
            | some r ↦ notify_frames n (record c { tx = tx; notified = c.notified ++ (r ∷ []) })
          ])
            ≡ ear c
      popped none tx ih = refl
      popped (some r) tx ih = ih (record c { tx = tx; notified = c.notified ++ (r ∷ []) })

  pub ear-drain_tx : (c : Component D) → ear (drain_tx c) ≡ ear c
  unfolding drain_tx
  ear-drain_tx c = ground (arith, ear-notify_frames 4 c)

  pub ear-update_msd :
      (c : Component D) (now_ms : ℕ) (temperature : Encoded)
      → ear (update_msd c now_ms temperature) ≡ ear c
  unfolding update_msd
  ear-update_msd c now_ms temperature = ground arith

  ear-publish_activity : (c : Component D) → ear (publish_activity c) ≡ ear c
  ear-publish_activity c = ground (
    arith,
    hears-snoc c.notices Notice.activity_error none,
    hears-snoc c.notices (Notice.activity c.published_state) none,
  )

  -- A publication tells the sensor the engine's state.
  pub ear-publish_state :
      (c : Component D)
      → c.has_busy_sensor ≡ true
      → ear (publish_state c) ≡ record {
        has_busy_sensor = true;
        published_busy = is_busy c.engine;
        shown = some (is_busy c.engine);
      }
  unfolding publish_state
  ear-publish_state c sensor =
      let c' = record c {
        published_state = c.engine.txn.state;
        published_busy = is_busy c.engine;
      } in
      ear-publish_activity (publish_busy c')
      ∙ ground (arith, sensor, hears-snoc c.notices (Notice.busy (is_busy c.engine)) none)
