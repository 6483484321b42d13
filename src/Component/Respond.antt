-- ===== src/Component/Respond.antt =====
-- opendisplay.cpp `send_`, `apply_result_`, `send_config_` and `drain_tx_`: what goes to the client.
use od_esphome.Base.{
  ℕ, zero, suc, ◌+◌, Bool, true, false, not, ◌||◌, ◌&&◌, ◌==◌, if◌then◌else◌, none, some, List, [],
  ◌∷◌, ◌++◌, u8, u32, length,
}
use od_esphome.Wire.{
  cmd_direct_write_data, cmd_pipe_write_data, cmd_config_read, resp_direct_write_refresh_success,
  resp_direct_write_refresh_timeout,
}
use od_esphome.Protocol.Frame.{byte_at}
use od_esphome.Protocol.Response.{Response, is_empty, encode_ack, encode_nack_err}
use od_esphome.Protocol.Chunk.{encode_config_chunk}
use od_esphome.Transport.{TxQueue, tx_push, tx_pop}
use od_esphome.Engine.State.{EngineResult, take_tail_sack}
use od_esphome.Component.State.{Component, Notice, notify}

-- The frames of image data and their acknowledgements, by the low byte of the opcode.
abbrev pub echoes_bulk : Response → Bool
echoes_bulk r = byte_at r 1 == u8 cmd_direct_write_data || byte_at r 1 == u8 cmd_pipe_write_data

abbrev pub ends_transfer : EngineResult → Bool
ends_transfer res = res.refresh_complete || res.refresh_timeout || res.terminal_error

module _ {D : Type 0} where
  abbrev pub count_bulk_tx : Component D → Response → Component D
  count_bulk_tx c r =
      if not (is_empty r) && echoes_bulk r
      then record c { bulk_tx_count = u32 (c.bulk_tx_count + 1) }
      else c

  unfoldable pub send : Component D → Response → Bool → Component D
  send c r terminal = record (count_bulk_tx c r) { tx = (tx_push c.tx r terminal).1 }

  -- The tail SACK, before any response.
  unfoldable pub send_tail : Component D → Component D
  send_tail c =
      let (tail, engine) = take_tail_sack c.engine in
      let c' = record c { engine = engine } in elim tail [ none ↦ c' | some r ↦ send c' r true ]

  abbrev pub send_response : Component D → EngineResult → Component D
  send_response c res = if is_empty res.response then c else send c res.response (ends_transfer res)

  abbrev pub clear_counts : Component D → Component D
  clear_counts c = record c { bulk_rx_count = 0; bulk_tx_count = 0 }

  unfoldable pub report_start : Component D → EngineResult → Component D
  report_start c res =
      if res.transfer_started then notify (clear_counts c) Notice.transfer_started else c

  unfoldable pub report_counts : Component D → EngineResult → Component D
  report_counts c res =
      if ends_transfer res && (not (c.bulk_rx_count == 0) || not (c.bulk_tx_count == 0))
      then clear_counts c
      else c

  unfoldable pub report_complete : Component D → EngineResult → Component D
  report_complete c res =
      if res.refresh_complete
      then notify (send c (encode_ack resp_direct_write_refresh_success) true)
          Notice.refresh_complete
      else c

  abbrev pub report_error : Component D → Component D
  report_error c = notify (record c { error_pending = true }) (Notice.error c.engine.last_error)

  unfoldable pub report_timeout : Component D → EngineResult → Component D
  report_timeout c res =
      if res.refresh_timeout
      then report_error (send c (encode_ack resp_direct_write_refresh_timeout) true)
      else c

  unfoldable pub report_failure : Component D → EngineResult → Component D
  report_failure c res = if res.terminal_error then report_error c else c

  unfoldable pub apply_result : Component D → EngineResult → Component D
  apply_result c res =
      let answered = send_response (send_tail c) res in
      let counted = report_counts (report_start answered res) res in
      report_failure (report_timeout (report_complete counted res) res) res

-- The loop of `send_config_` from chunk `i` on: it stops at an empty chunk, or where the ring is
-- full.
unfoldable pub send_chunks : ℕ → List ℕ → TxQueue → ℕ → TxQueue
send_chunks zero blob tx i = tx
send_chunks (suc fuel) blob tx i =
    let r = encode_config_chunk blob i in
    let pushed = tx_push tx r false in
    let rest = send_chunks fuel blob pushed.1 (i + 1) in
    if is_empty r then tx else if not pushed.0 then pushed.1 else rest

module _ {D : Type 0} where
  unfoldable pub send_config : Component D → Component D
  send_config c =
      if not c.config_valid
      then send c (encode_nack_err cmd_config_read 0x00) false
      else record c { tx = send_chunks (suc (length c.config_blob)) c.config_blob c.tx 0 }

  -- At most `n` frames are notified.
  unfoldable pub notify_frames : ℕ → Component D → Component D
  notify_frames zero c = c
  notify_frames (suc n) c =
      let (popped, tx) = tx_pop c.tx in
      elim popped [
        | none ↦ record c { tx = tx }
        | some r ↦ notify_frames n (record c { tx = tx; notified = c.notified ++ (r ∷ []) })
      ]

  unfoldable pub drain_tx : Component D → Component D
  drain_tx c = if not c.has_characteristic || not c.connected then c else notify_frames 4 c
