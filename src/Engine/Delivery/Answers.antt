-- ===== src/Engine/Delivery/Answers.antt =====
-- transfer_engine.cpp: what the client is answered in a direct transfer over a backend that takes a
-- frame.
use od_esphome.Base.{
  ℕ, ◌≡◌, ◌≤◌, ◌+◌, ◌≢◌, true, false, some, none, List, length, arith, ap, ◌∙◌, u32, refl, inl, inr,
  Bool-cases,
}
use od_esphome.Types.{TransferMode, is_idle}
use od_esphome.Wire.{cmd_direct_write_start, cmd_direct_write_data, cmd_direct_write_end}
use od_esphome.Protocol.Response.{encode_ack}
use od_esphome.Backend.{Backend}
use od_esphome.Engine.State.{Engine, answer, no_result}
use od_esphome.Engine.Start.{on_direct_start, begin_transaction, full_frame_of, opening}
use od_esphome.Engine.Direct.{on_direct_data, on_direct_end}
use od_esphome.Engine.Finish.{finish_and_refresh}
use od_esphome.Engine.Delivery.{Canvas, Painting}

module _ {D : Type 0} (api : Backend D) (full : ℕ) (Ready : D → Type 0)
    (Holds Shows : D → List ℕ → Type 0) (canvas : Canvas api full Ready Holds Shows) where
  pub data_answer :
      (e : Engine D) (bs c : List ℕ) (now_ms : ℕ)
      → Painting Holds e TransferMode.direct full bs
      → length c ≢ 0
      → length bs + length c ≤ full
      → let (res, e') = on_direct_data api e (some c) (length c) now_ms in
        (res ≡ answer (encode_ack cmd_direct_write_data)) × (e'.has_tail_sack ≡ e.has_tail_sack)
  unfolding on_direct_data
  data_answer e bs c now_ms (d, b, holds, o) ne fits =
      let written = canvas.writes d bs c holds fits in ground (arith, o, o.inv, written.0)

  pub end_answer :
      (e : Engine D) (bs : List ℕ) (now_ms : ℕ)
      → Painting Holds e TransferMode.direct full bs
      → length bs ≡ full
      → let (res, e') = on_direct_end api e none 0 now_ms in
        (res ≡ answer (encode_ack cmd_direct_write_end))
        × (e'.has_tail_sack ≡ e.has_tail_sack)
        × (e'.txn.refresh_deadline_ms ≡ u32 (now_ms + e.refresh_timeout_ms))
  unfolding on_direct_end finish_and_refresh
  end_answer e bs now_ms (d, b, holds, o) whole =
      let finished = canvas.finishes d bs holds in
      let refreshed = canvas.refreshes (api.finish_frame d).1 bs finished.1 in
      ground (arith, o, finished.0, refreshed.0)

  pub start_answer :
      (e : Engine D) (d : D) (now_ms : ℕ)
      → e.backend ≡ some d
      → e.hw_owned ≡ false
      → Ready d
      → let (res, e') = on_direct_start api e none 0 now_ms in
        (res ≡ record no_result {
          response = encode_ack cmd_direct_write_start;
          transfer_started = true;
        })
        × (e'.has_tail_sack ≡ e.has_tail_sack)
  unfolding on_direct_start begin_transaction
  start_answer e d now_ms b free ready =
      let asked = full_frame_of api e.backend in
      let whole : asked ≡ full = ap (full_frame_of api) b ∙ canvas.sized d ready in
      let size : u32 asked ≡ full = omega (arith, whole, canvas.small) in
      let ready' = canvas.aborts d ready in
      let d' = api.abort_transfer d in
      let frame = (opening api e d TransferMode.direct asked now_ms).frame in
      let frame' = (opening api e d' TransferMode.direct asked now_ms).frame in
      let begun = canvas.begins d frame ready refl refl refl size in
      let begun' = canvas.begins d' frame' ready' refl refl refl size in
      let sized' = canvas.sized d' ready' in
      elim (Bool-cases (is_idle e.txn.state)) [
        | inl idle ↦ ground (arith, begun.0, whole, canvas.sized d ready)
        | inr busy ↦ ground (arith, begun'.0, whole, sized')
      ]
