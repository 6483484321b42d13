-- ===== src/System/Image/Acknowledged/Whole.antt =====
-- The acknowledgements of the START and of some chunks.
use mathlib.Core.Path.{subst}
use mathlib.Core.List.{append_assoc, append-nil}
use od_esphome.Types.{TransferMode}
use od_esphome.Base.{
  ℕ, List, ◌≡◌, Option, ◌+◌, ◌<◌, some, none, ◌++◌, length, ◌≤◌, arith, ◌∷◌, [], ◌*◌, ap, ap₂, ◌∙◌,
  ◌^◌, true, length-append, false, sym, refl,
}
use od_esphome.Wire.{cmd_direct_write_start, cmd_direct_write_data}
use od_esphome.Protocol.Frame.{Frame, parse_frame}
use od_esphome.Protocol.Response.{Response, encode_ack}
use od_esphome.Protocol.Msd.{Encoded}
use od_esphome.Backend.{Backend}
use od_esphome.Backend.Driver.{Driver}
use od_esphome.Backend.Epaper.{Epaper, epaper_backend}
use od_esphome.Engine.State.{Engine, EngineResult, no_result}
use od_esphome.Engine.Start.{on_direct_start}
use od_esphome.Engine.Calls.{step}
use od_esphome.Engine.Invariant.{Inv}
use od_esphome.Engine.Delivery.{total, joined}
use od_esphome.Engine.Delivery.Answers.{start_answer}
use od_esphome.Engine.Delivery.Paced.{Underway, start-Underway, passed-Underway}
use od_esphome.Component.State.{Component}
use od_esphome.Component.History.{history}
use od_esphome.Component.Visit.{visit}
use od_esphome.Component.Visit.Direct.{start_bytes, data_bytes}
use od_esphome.Component.Answered.{IsQuiet}
use od_esphome.Component.Answered.Queued.{frames_of}
use od_esphome.Component.Answered.Packet.{packet_answered}
use od_esphome.System.Image.{Panel, stride_of}
use od_esphome.System.Image.Beyond.{epaper_ignores}
use od_esphome.System.Image.Client.{history-append, chunks_fit}
use od_esphome.System.Image.Epaper.{EpaperReady, EpaperHolds, EpaperShows, epaper-Canvas}
use od_esphome.System.Image.Acknowledged.{
  data_visits, data_acks, answer_frames, silent-tick, chunk_heard,
}

abbrev start_frame : Frame
start_frame = record { opcode = 112; payload = none; payload_len = 0 }

abbrev begun : Response → EngineResult
begun r = record no_result { response = r; transfer_started = true }

module _ {P : Type 0} (driver : Driver P) (version : Option (List ℕ)) (width height : ℕ)
    (panel : Panel driver width height) (w : width < 2 ^ 16) (h : height < 2 ^ 16)
    (now_ms timeout : ℕ) (temperature : Encoded) (now_small : now_ms < 2 ^ 32)
    (timeout_fits : (0 < timeout) × (timeout < 2 ^ 31)) where
  abbrev api : Backend (Epaper P)
  api = epaper_backend driver

  abbrev full : ℕ
  full = stride_of width * height

  abbrev Open : Engine (Epaper P) → List ℕ → Type 0
  Open e bs =
      Underway api full (EpaperReady driver width height panel)
        (EpaperHolds driver width height panel) (EpaperShows driver width height panel)
        (epaper-Canvas driver width height panel w h) (epaper_ignores driver) now_ms timeout
        now_small timeout_fits TransferMode.direct e bs

  -- The acknowledgements of some chunks, behind which the transfer is still open.
  pub chunks_heard :
      (cs : List (List ℕ)) (c : Component (Epaper P)) (bs : List ℕ)
      → IsQuiet c
      → Open c.engine bs
      → chunks_fit cs ≡ true
      → length bs + total cs ≤ full
      → let c' = history api version c (data_visits cs now_ms temperature) in
        IsQuiet c' × Open c'.engine (bs ++ joined cs) × (c'.notified ≡ c.notified ++ data_acks cs)
  unfolding history
  chunks_heard [] c bs q u fit small =
      (q, subst (λ l. Open c.engine l) (sym (append-nil bs)) u, sym (append-nil c.notified))
  chunks_heard (k ∷ cs) c bs q u fit small =
      let first = visit (data_bytes k) now_ms temperature in
      let c1 = history api version c first in
      let (quiet, next, said) =
        chunk_heard driver version width height panel w h now_ms timeout temperature now_small
          timeout_fits c bs k q u (ground (arith, fit)) (ground (arith, fit))
          (omega (arith, small)) in
      let (quiet', opened, heard) =
        chunks_heard cs c1 (bs ++ k) quiet next (ground (arith, fit))
          (omega (arith, small, length-append bs k)) in
      let all = bs ++ joined (k ∷ cs) in
      let acks = c.notified ++ data_acks (k ∷ cs) in
      subst (λ (c' : Component (Epaper P)). IsQuiet c' × Open c'.engine all × (c'.notified ≡ acks))
        (sym (history-append api version first (data_visits cs now_ms temperature) c))
        (
          quiet',
          subst (λ l. Open (history api version c1 (data_visits cs now_ms temperature)).engine l)
              (append_assoc bs k (joined cs)) opened,
          heard
              ∙ ap (λ (l : List Response). l ++ data_acks cs) said
              ∙ append_assoc c.notified (encode_ack cmd_direct_write_data ∷ []) (data_acks cs),
        )

  -- The START is acknowledged by one frame.
  pub start_heard :
      (c : Component (Epaper P)) (b : Epaper P)
      → IsQuiet c
      → Inv c.engine
      → c.engine.backend ≡ some b
      → c.engine.hw_owned ≡ false
      → c.engine.transfer_timeout_ms ≡ timeout
      → EpaperReady driver width height panel b
      → let c' = history api version c (visit start_bytes now_ms temperature) in
        IsQuiet c'
        × Open c'.engine []
        × (c'.notified ≡ c.notified ++ (encode_ack cmd_direct_write_start ∷ []))
  unfolding step encode_ack parse_frame
  start_heard c b q v b_is free same ready =
      let handled = on_direct_start api c.engine none 0 now_ms in
      let started =
        start-Underway api full (EpaperReady driver width height panel)
          (EpaperHolds driver width height panel) (EpaperShows driver width height panel)
          (epaper-Canvas driver width height panel w h) (epaper_ignores driver) now_ms timeout
          now_small timeout_fits c.engine b v b_is free same ready in
      let next =
        passed-Underway api full (EpaperReady driver width height panel)
          (EpaperHolds driver width height panel) (EpaperShows driver width height panel)
          (epaper-Canvas driver width height panel w h) (epaper_ignores driver) now_ms timeout
          now_small timeout_fits TransferMode.direct handled.1 [] started in
      let heard =
        start_answer api full (EpaperReady driver width height panel)
          (EpaperHolds driver width height panel) (EpaperShows driver width height panel)
          (epaper-Canvas driver width height panel w h) c.engine b now_ms b_is free ready in
      let (quiet, engine, said) =
        packet_answered api version c start_bytes start_frame now_ms temperature q (omega arith)
          (omega arith) refl refl in
      let first : frames_of handled ≡ encode_ack cmd_direct_write_start ∷ [] =
        ap (λ (res : EngineResult). frames_of (res, handled.1)) heard.0
        ∙ answer_frames (begun (encode_ack cmd_direct_write_start)) handled.1 refl
            (heard.1 ∙ q.no_tail) in
      let frames =
        ap₂ (λ (l m : List Response). l ++ m) first
          (silent-tick driver version width height panel w h now_ms timeout temperature now_small
            timeout_fits handled.1 [] started) in
      (
        quiet,
        subst (λ e. Open e []) (sym engine) next,
        said ∙ ap (λ (l : List Response). c.notified ++ l) frames,
      )
