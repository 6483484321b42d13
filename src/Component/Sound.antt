-- ===== src/Component/Sound.antt =====
-- What holds of the component before and after every pass of the loop and every BLE callback.
pub mod Publish
pub mod Loop
pub mod Setup
use od_esphome.Base.{
  ℕ, zero, suc, ◌≡◌, Bool, true, false, Option, none, some, List, arith, inl, inr, refl, length,
  ◌≤◌, Bool-cases, Option-cases, ◌+◌, ◌++◌, ◌∷◌, [],
}
use od_esphome.Backend.{Backend}
use od_esphome.Protocol.Response.{Response, is_empty, encode_ack, encode_nack_err}
use od_esphome.Protocol.Frame.{Frame, parse_frame}
use od_esphome.Protocol.Msd.{Encoded}
use od_esphome.Protocol.Chunk.{encode_config_chunk}
use od_esphome.Transport.{TxQueue, RxPacket, tx_push, tx_pop, rx_pop, rx_push}
use od_esphome.Transport.Rx
use od_esphome.Transport.Rx.{rx_push_refines, rx_pop_refines}
use od_esphome.Transport.Tx
use od_esphome.Transport.Tx.{tx_push_refines, tx_pop_refines}
use od_esphome.Engine.State.{Engine, EngineResult, take_tail_sack}
use od_esphome.Engine.Invariant.{Inv}
use od_esphome.Engine.Calls.{Call, step}
use od_esphome.Engine.Invariant.Steps.{step-Inv}
use od_esphome.Component.State.{Component, on_ble_write, on_ble_connect, on_ble_disconnect}
use od_esphome.Component.Respond.{
  send, send_tail, apply_result, report_start, report_counts, report_complete, report_timeout,
  report_failure, send_chunks, send_config, notify_frames, drain_tx, send_response, ends_transfer,
}
use od_esphome.Wire.{
  cmd_config_read, resp_direct_write_refresh_timeout, resp_direct_write_refresh_success,
}

pub record IsSound {D : Type 0} (c : Component D) : Type 0 where
  pub engine : Inv c.engine
  pub rx : Rx.IsValid c.rx
  pub tx : Tx.IsValid c.tx

tx_push-IsValid :
    (q : TxQueue) (r : Response) (terminal : Bool)
    → Tx.IsValid q
    → Tx.IsValid (tx_push q r terminal).1
unfolding tx_push
tx_push-IsValid q r terminal v = elim (Bool-cases (is_empty r)) [
  | inl empty ↦ rw empty v
  | inr full ↦ unfold tx_push in (tx_push_refines q r terminal v full).0
]

send_chunks-IsValid :
    (fuel : ℕ) (blob : List ℕ) (q : TxQueue) (i : ℕ)
    → Tx.IsValid q
    → Tx.IsValid (send_chunks fuel blob q i)
unfolding send_chunks
send_chunks-IsValid zero blob q i v = v
send_chunks-IsValid (suc fuel) blob q i v =
    let r = encode_config_chunk blob i in
    let v' = tx_push-IsValid q r false v in
    let rest = send_chunks-IsValid fuel blob (tx_push q r false).1 (i + 1) v' in
    elim (Bool-cases (is_empty r)) [
      | inl empty ↦ rw empty v
      | inr full ↦ elim (Bool-cases (tx_push q r false).0) [
        | inl sent ↦ rw (full, sent) rest
        | inr lost ↦ rw (full, lost) v'
      ]
    ]

module _ {D : Type 0} where
  pub send-IsSound :
      (c : Component D) (r : Response) (terminal : Bool) → IsSound c → IsSound (send c r terminal)
  unfolding send
  send-IsSound c r terminal s = ground (arith, tx_push-IsValid c.tx r terminal s.tx, s.engine, s.rx)

  unstaged-Inv : (e : Engine D) → Inv e → Inv (record e { has_tail_sack = false })
  unstaged-Inv e v = ground arith

  send_tail-IsSound : (c : Component D) → IsSound c → IsSound (send_tail c)
  unfolding send_tail take_tail_sack
  send_tail-IsSound c s =
      let e = record (c.engine) { has_tail_sack = false } in
      let s' : IsSound (record c { engine = e }) = record {
        engine = unstaged-Inv c.engine s.engine;
        rx = s.rx;
        tx = s.tx;
      } in
      elim (Bool-cases c.engine.has_tail_sack) [
        | inl staged ↦
            rw staged (send-IsSound (record c { engine = e }) c.engine.pending_tail_sack true s')
        | inr unstaged ↦ rw unstaged s'
      ]

  send_response-IsSound :
      (c : Component D) (res : EngineResult) → IsSound c → IsSound (send_response c res)
  send_response-IsSound c res s = elim (Bool-cases (is_empty res.response)) [
    | inl empty ↦ rw empty s
    | inr full ↦ rw full (send-IsSound c res.response (ends_transfer res) s)
  ]

  report_start-IsSound :
      (c : Component D) (res : EngineResult) → IsSound c → IsSound (report_start c res)
  unfolding report_start
  report_start-IsSound c res s = ground (arith, s.engine)

  report_counts-IsSound :
      (c : Component D) (res : EngineResult) → IsSound c → IsSound (report_counts c res)
  unfolding report_counts
  report_counts-IsSound c res s = ground (arith, s.engine)

  report_complete-IsSound :
      (c : Component D) (res : EngineResult) → IsSound c → IsSound (report_complete c res)
  unfolding report_complete
  report_complete-IsSound c res s =
      ground (arith, s, send-IsSound c (encode_ack resp_direct_write_refresh_success) true s)

  report_timeout-IsSound :
      (c : Component D) (res : EngineResult) → IsSound c → IsSound (report_timeout c res)
  unfolding report_timeout
  report_timeout-IsSound c res s =
      ground (arith, s, send-IsSound c (encode_ack resp_direct_write_refresh_timeout) true s)

  report_failure-IsSound :
      (c : Component D) (res : EngineResult) → IsSound c → IsSound (report_failure c res)
  unfolding report_failure
  report_failure-IsSound c res s = ground (arith, s)

  pub apply_result-IsSound :
      (c : Component D) (res : EngineResult) → IsSound c → IsSound (apply_result c res)
  unfolding apply_result
  apply_result-IsSound c res s =
      let answered = send_response (send_tail c) res in
      let started = report_start answered res in
      let counted = report_counts started res in
      let completed = report_complete counted res in
      report_failure-IsSound (report_timeout completed res) res (
        report_timeout-IsSound completed res (
          report_complete-IsSound counted res (
            report_counts-IsSound started res (
              report_start-IsSound answered res
                (send_response-IsSound (send_tail c) res (send_tail-IsSound c s))))))

  pub send_config-IsSound : (c : Component D) → IsSound c → IsSound (send_config c)
  unfolding send_config
  send_config-IsSound c s = ground (
    arith,
    s,
    send_chunks-IsValid (suc (length c.config_blob)) c.config_blob c.tx 0 s.tx,
    send-IsSound c (encode_nack_err cmd_config_read 0x00) false s,
  )

  notify_frames-IsSound : (n : ℕ) (c : Component D) → IsSound c → IsSound (notify_frames n c)
  unfolding notify_frames
  notify_frames-IsSound zero c s = s
  notify_frames-IsSound (suc n) c s =
      popped (notify_frames-IsSound n) (tx_pop c.tx).0 (tx_pop c.tx).1 (tx_pop_refines c.tx s.tx).0
    where
      popped :
          ((c' : Component D) → IsSound c' → IsSound (notify_frames n c'))
          → (o : Option Response) (tx : TxQueue) → Tx.IsValid tx
          → IsSound (elim o as (λ x. Component D) [
            | none ↦ record c { tx = tx }
            | some r ↦ notify_frames n (record c { tx = tx; notified = c.notified ++ (r ∷ []) })
          ])
      popped rest none tx v = record { engine = s.engine; rx = s.rx; tx = v }
      popped rest (some r) tx v =
          rest (record c { tx = tx; notified = c.notified ++ (r ∷ []) })
            (record { engine = s.engine; rx = s.rx; tx = v })

  pub drain_tx-IsSound : (c : Component D) → IsSound c → IsSound (drain_tx c)
  unfolding drain_tx
  drain_tx-IsSound c s = ground (arith, s, notify_frames-IsSound 4 c s)
