-- ===== src/System/Image/Acknowledged.antt =====
-- What a client hears while it sends an image by a direct transfer.
use mathlib.Core.Path.{subst}
use mathlib.Core.List.{append_assoc, append-nil}
use od_esphome.Types.{TransferMode}
use od_esphome.Base.{
  ℕ, suc, List, ◌≡◌, Option, ◌+◌, ◌<◌, some, none, ◌++◌, length, ◌≤◌, arith, ◌∷◌, [], ◌*◌, ap, ap₂,
  ◌∙◌, ◌^◌, ◌≢◌, true, length-append, false, sym, refl, u16,
}
use od_esphome.Wire.{cmd_direct_write_start, cmd_direct_write_data}
use od_esphome.Protocol.Frame.{Frame, parse_frame}
use od_esphome.Protocol.Response.{Response, encode_ack}
use od_esphome.Protocol.Msd.{Encoded}
use od_esphome.Backend.{Backend}
use od_esphome.Backend.Driver.{Driver}
use od_esphome.Backend.Epaper.{Epaper, epaper_backend, init}
use od_esphome.Engine.State.{Engine, EngineResult, no_result, answer}
use od_esphome.Engine.Start.{on_direct_start}
use od_esphome.Engine.Direct.{on_direct_data}
use od_esphome.Engine.Calls.{step}
use od_esphome.Engine.Tick.{tick}
use od_esphome.Engine.Invariant.{Inv}
use od_esphome.Engine.Delivery.{total}
use od_esphome.Engine.Delivery.Answers.{data_answer, start_answer}
use od_esphome.Engine.Delivery.Paced.{
  Underway, data-Underway, start-Underway, passed-Underway, untail-Underway, tick-Underway,
  data-junk,
}
use od_esphome.Component.State.{Component}
use od_esphome.Component.History.{Happening, history}
use od_esphome.Component.Visit.{visit}
use od_esphome.Component.Visit.Direct.{start_bytes, data_bytes, leftover, take-all}
use od_esphome.Component.Answered.{IsQuiet, told}
use od_esphome.Component.Answered.Queued.{frames_of, tail_of, frame_of}
use od_esphome.Component.Answered.Pass.{untail, untail-no_tail}
use od_esphome.Component.Answered.Call.{call_of, ticked}
use od_esphome.Component.Answered.Packet.{packet_answered}
use od_esphome.System.Image.{Panel, stride_of}
use od_esphome.System.Image.Beyond.{epaper_ignores}
use od_esphome.System.Image.Client.{history-append, chunks_fit}
use od_esphome.System.Image.Epaper.{EpaperReady, EpaperHolds, EpaperShows, epaper-Canvas}
use od_esphome.System.Image.Shown.{init-Ready}
pub mod Whole
pub mod Upload
pub mod Session

-- The writes of some chunks, each followed by a pass of the loop at the same time.
abbrev pub data_visits : List (List ℕ) → ℕ → Encoded → List Happening
data_visits [] now_ms temperature = []
data_visits (c ∷ cs) now_ms temperature =
    visit (data_bytes c) now_ms temperature ++ data_visits cs now_ms temperature

-- One acknowledgement for each chunk.
abbrev pub data_acks : List (List ℕ) → List Response
data_acks [] = []
data_acks (c ∷ cs) = encode_ack cmd_direct_write_data ∷ data_acks cs

abbrev data_frame : List ℕ → List ℕ → Frame
data_frame c junk = record { opcode = 113; payload = some (c ++ junk); payload_len = length c }

parsed-frame :
    (c junk : List ℕ)
    → length c ≢ 0
    → parse_frame (some (0 ∷ 113 ∷ (c ++ junk))) (suc (suc (length c))) ≡ some (data_frame c junk)
unfolding parse_frame
parsed-frame c junk ne = ground (arith, ne)

pub answer_frames :
    {D : Type 0} (res : EngineResult) (e : Engine D)
    → told res ≡ []
    → e.has_tail_sack ≡ false
    → frames_of (res, e) ≡ frame_of res.response ++ []
answer_frames res e flags no_tail =
    ap (λ (l : List Response). tail_of e ++ (frame_of res.response ++ l)) flags ∙ rw no_tail refl

module _ {P : Type 0} (driver : Driver P) (version : Option (List ℕ)) (width height : ℕ)
    (panel : Panel driver width height) (w : width < 2 ^ 16) (h : height < 2 ^ 16)
    (now_ms timeout : ℕ) (temperature : Encoded) (now_small : now_ms < 2 ^ 32)
    (timeout_fits : (0 < timeout) × (timeout < 2 ^ 31)) where
  abbrev api : Backend (Epaper P)
  api = epaper_backend driver

  abbrev full : ℕ
  full = stride_of width * height

  abbrev Open : Engine (Epaper P) → List ℕ → Type 0
  Open e bs =
      Underway api full (EpaperReady driver width height panel)
        (EpaperHolds driver width height panel) (EpaperShows driver width height panel)
        (epaper-Canvas driver width height panel w h) (epaper_ignores driver) now_ms timeout
        now_small timeout_fits TransferMode.direct e bs

  -- While a transfer is under way, `tick` has nothing to send.
  pub silent-tick :
      (e : Engine (Epaper P)) (bs : List ℕ) → Open e bs → frames_of (ticked api e now_ms) ≡ []
  silent-tick e bs u =
      let u' =
        untail-Underway api full (EpaperReady driver width height panel)
          (EpaperHolds driver width height panel) (EpaperShows driver width height panel)
          (epaper-Canvas driver width height panel w h) (epaper_ignores driver) now_ms timeout
          now_small timeout_fits TransferMode.direct e bs u in
      let still =
        tick-Underway api full (EpaperReady driver width height panel)
          (EpaperHolds driver width height panel) (EpaperShows driver width height panel)
          (epaper-Canvas driver width height panel w h) (epaper_ignores driver) now_ms timeout
          now_small timeout_fits TransferMode.direct (untail e) bs u' in
      ap (λ (k : EngineResult × Engine (Epaper P)). frames_of k) still
      ∙ answer_frames no_result (untail e) refl (untail-no_tail e)

  -- A chunk is acknowledged by one frame.
  pub chunk_heard :
      (c : Component (Epaper P)) (bs chunk : List ℕ)
      → IsQuiet c
      → Open c.engine bs
      → length chunk ≢ 0
      → length chunk ≤ 242
      → length bs + length chunk ≤ full
      → let c' = history api version c (visit (data_bytes chunk) now_ms temperature) in
        IsQuiet c'
        × Open c'.engine (bs ++ chunk)
        × (c'.notified ≡ c.notified ++ (encode_ack cmd_direct_write_data ∷ []))
  unfolding step encode_ack
  chunk_heard c bs chunk q u ne small fits =
      let junk = leftover c (data_bytes chunk) in
      let f = data_frame chunk junk in
      let handled = on_direct_data api c.engine (some (chunk ++ junk)) (length chunk) now_ms in
      let size : u16 (suc (suc (length chunk))) ≡ suc (suc (length chunk)) = omega (arith, small) in
      let parsed =
        ap₂ (λ bytes n. parse_frame (some (0 ∷ 113 ∷ (bytes ++ junk))) n) (take-all chunk) size
        ∙ parsed-frame chunk junk ne in
      let (quiet, engine, said) =
        packet_answered api version c (data_bytes chunk) f now_ms temperature q (omega arith)
          (omega (arith, small)) parsed refl in
      let plain =
        data-junk api full (EpaperReady driver width height panel)
          (EpaperHolds driver width height panel) (EpaperShows driver width height panel)
          (epaper-Canvas driver width height panel w h) (epaper_ignores driver) now_ms timeout
          now_small timeout_fits c.engine chunk junk in
      let heard =
        data_answer api full (EpaperReady driver width height panel)
          (EpaperHolds driver width height panel) (EpaperShows driver width height panel)
          (epaper-Canvas driver width height panel w h) c.engine bs chunk now_ms u.0 ne fits in
      let next =
        data-Underway api full (EpaperReady driver width height panel)
          (EpaperHolds driver width height panel) (EpaperShows driver width height panel)
          (epaper-Canvas driver width height panel w h) (epaper_ignores driver) now_ms timeout
          now_small timeout_fits c.engine bs chunk junk u ne fits in
      let last =
        passed-Underway api full (EpaperReady driver width height panel)
          (EpaperHolds driver width height panel) (EpaperShows driver width height panel)
          (epaper-Canvas driver width height panel w h) (epaper_ignores driver) now_ms timeout
          now_small timeout_fits TransferMode.direct handled.1 (bs ++ chunk) next in
      let no_tail : handled.1.has_tail_sack ≡ false =
        ap (λ (k : EngineResult × Engine (Epaper P)). k.1.has_tail_sack) plain
        ∙ heard.1
        ∙ q.no_tail in
      let answered : handled.0 ≡ answer (encode_ack cmd_direct_write_data) =
        ap (λ (k : EngineResult × Engine (Epaper P)). k.0) plain ∙ heard.0 in
      let first : frames_of handled ≡ encode_ack cmd_direct_write_data ∷ [] =
        ap (λ (res : EngineResult). frames_of (res, handled.1)) answered
        ∙ answer_frames (answer (encode_ack cmd_direct_write_data)) handled.1 refl no_tail in
      let frames =
        ap₂ (λ (l m : List Response). l ++ m) first (silent-tick handled.1 (bs ++ chunk) next) in
      (
        quiet,
        subst (λ e. Open e (bs ++ chunk)) (sym engine) last,
        said ∙ ap (λ (l : List Response). c.notified ++ l) frames,
      )
