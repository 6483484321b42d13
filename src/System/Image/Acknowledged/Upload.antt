-- ===== src/System/Image/Acknowledged/Upload.antt =====
-- What a client hears of a START and the chunks behind it.
use mathlib.Core.Path.{subst}
use mathlib.Core.List.{append_assoc}
use od_esphome.Types.{TransferMode}
use od_esphome.Base.{
  ℕ, List, ◌≡◌, Option, ◌<◌, some, ◌++◌, ◌≤◌, arith, ◌∷◌, [], ◌*◌, ap, ◌∙◌, ◌^◌, true, false, sym,
}
use od_esphome.Wire.{cmd_direct_write_start}
use od_esphome.Protocol.Response.{Response, encode_ack}
use od_esphome.Protocol.Msd.{Encoded}
use od_esphome.Backend.{Backend}
use od_esphome.Backend.Driver.{Driver}
use od_esphome.Backend.Epaper.{Epaper, epaper_backend}
use od_esphome.Engine.State.{Engine}
use od_esphome.Engine.Invariant.{Inv}
use od_esphome.Engine.Delivery.{total, joined}
use od_esphome.Engine.Delivery.Paced.{Underway}
use od_esphome.Component.State.{Component}
use od_esphome.Component.History.{history}
use od_esphome.Component.Visit.{visit}
use od_esphome.Component.Visit.Direct.{start_bytes}
use od_esphome.Component.Answered.{IsQuiet}
use od_esphome.System.Image.{Panel, stride_of}
use od_esphome.System.Image.Beyond.{epaper_ignores}
use od_esphome.System.Image.Client.{history-append, chunks_fit}
use od_esphome.System.Image.Epaper.{EpaperReady, EpaperHolds, EpaperShows, epaper-Canvas}
use od_esphome.System.Image.Acknowledged.{data_visits, data_acks}
use od_esphome.System.Image.Acknowledged.Whole.{chunks_heard, start_heard}

module _ {P : Type 0} (driver : Driver P) (version : Option (List ℕ)) (width height : ℕ)
    (panel : Panel driver width height) (w : width < 2 ^ 16) (h : height < 2 ^ 16)
    (now_ms timeout : ℕ) (temperature : Encoded) (now_small : now_ms < 2 ^ 32)
    (timeout_fits : (0 < timeout) × (timeout < 2 ^ 31)) where
  abbrev api : Backend (Epaper P)
  api = epaper_backend driver

  abbrev full : ℕ
  full = stride_of width * height

  abbrev Open : Engine (Epaper P) → List ℕ → Type 0
  Open e bs =
      Underway api full (EpaperReady driver width height panel)
        (EpaperHolds driver width height panel) (EpaperShows driver width height panel)
        (epaper-Canvas driver width height panel w h) (epaper_ignores driver) now_ms timeout
        now_small timeout_fits TransferMode.direct e bs

  -- The acknowledgements of the START and the chunks.
  pub upload_heard :
      (c : Component (Epaper P)) (b : Epaper P) (cs : List (List ℕ))
      → IsQuiet c
      → Inv c.engine
      → c.engine.backend ≡ some b
      → c.engine.hw_owned ≡ false
      → c.engine.transfer_timeout_ms ≡ timeout
      → EpaperReady driver width height panel b
      → chunks_fit cs ≡ true
      → total cs ≤ full
      → let c' =
          history api version c
            (visit start_bytes now_ms temperature ++ data_visits cs now_ms temperature) in
        IsQuiet c'
        × Open c'.engine (joined cs)
        × (c'.notified ≡ c.notified ++ (encode_ack cmd_direct_write_start ∷ data_acks cs))
  upload_heard c b cs q v b_is free same ready fit small =
      let first = visit start_bytes now_ms temperature in
      let (quiet, opened, said) =
        start_heard driver version width height panel w h now_ms timeout temperature now_small
          timeout_fits c b q v b_is free same ready in
      let (quiet', filled, heard) =
        chunks_heard driver version width height panel w h now_ms timeout temperature now_small
          timeout_fits cs (history api version c first) [] quiet opened fit
          (omega (arith, small)) in
      let acks = c.notified ++ (encode_ack cmd_direct_write_start ∷ data_acks cs) in
      subst
        (λ (c' : Component (Epaper P)).
          IsQuiet c' × Open c'.engine (joined cs) × (c'.notified ≡ acks))
        (sym (history-append api version first (data_visits cs now_ms temperature) c))
        (
          quiet',
          filled,
          heard
              ∙ ap (λ (l : List Response). l ++ data_acks cs) said
              ∙ append_assoc c.notified (encode_ack cmd_direct_write_start ∷ []) (data_acks cs),
        )
