-- ===== src/System/Image/Client.antt =====
-- The whole way of an image: from the packets that a client writes, through the receive ring, the
-- loop and the engine, to the pixels of a panel with the epaper_spi backend.
use od_esphome.System.Image.Beyond.{epaper_ignores}
use od_esphome.System.Image.Display.{display_of, tick_keeps, untail_keeps, pixel-display}
use od_esphome.Types.{TransferMode}
use od_esphome.Base.{
  ℕ, List, ◌≡◌, Option, ◌+◌, ◌<◌, some, ◌++◌, none, length, ◌≤◌, arith, ◌∷◌, [], ◌*◌, refl, ap, ◌∙◌,
  ◌^◌, Bool, ◌≢◌, true, not, ◌==◌, ◌&&◌, leb, length-append, false, sym,
}
use od_esphome.Protocol.Frame.{byte_at}
use od_esphome.Protocol.Msd.{Encoded}
use od_esphome.Backend.{Backend}
use od_esphome.Engine.Direct.{on_direct_data, on_direct_end}
use od_esphome.Engine.Start.{on_direct_start}
use mathlib.Core.List.{append-nil, append_assoc}
use od_esphome.Backend.Driver.{Driver}
use od_esphome.Backend.Pixels.Drawn.{bit_colour, byte_position}
use od_esphome.Backend.Epaper.{Epaper, epaper_backend, init}
use od_esphome.Engine.State.{Engine, take_tail_sack}
use od_esphome.Engine.Tick.{tick}
use od_esphome.Engine.Invariant.{Inv}
use od_esphome.Engine.Delivery.{joined, total}
use od_esphome.Engine.Delivery.Direct.{direct_end-Showing}
use od_esphome.Engine.Delivery.Paced.{Underway, data-Underway, start-Underway, passed-Underway}
use od_esphome.Component.State.{Component}
use od_esphome.Component.History.{Happening, happen, history}
use od_esphome.Component.Visit.{IsAttending, visit}
use od_esphome.Component.Visit.Direct.{
  handled, start_bytes, data_bytes, end_bytes, leftover, visit-IsAttending, engine-visit_start,
  engine-visit_data, engine-visit_end,
}
use od_esphome.System.Image.{Panel, stride_of}
use od_esphome.System.Image.Epaper.{EpaperReady, EpaperHolds, EpaperShows, epaper-Canvas}
use od_esphome.System.Image.Shown.{panel_pixel, shown_pixel, init-Ready, shown-Image}

pub history-append :
    {D : Type 0} (api : Backend D) (version : Option (List ℕ)) (xs ys : List Happening)
    (c : Component D)
    → history api version c (xs ++ ys) ≡ history api version (history api version c xs) ys
unfolding history
history-append api version [] ys c = refl
history-append api version (x ∷ xs) ys c = history-append api version xs ys (happen api version c x)

-- The writes of a client that sends some chunks by a direct transfer, each followed by a pass of the
-- loop at the same time.
abbrev pub chunk_visits : List (List ℕ) → ℕ → Encoded → List Happening
chunk_visits [] now_ms temperature = visit end_bytes now_ms temperature
chunk_visits (c ∷ cs) now_ms temperature =
    visit (data_bytes c) now_ms temperature ++ chunk_visits cs now_ms temperature

abbrev pub image_visits : List (List ℕ) → ℕ → Encoded → List Happening
image_visits cs now_ms temperature =
    visit start_bytes now_ms temperature ++ chunk_visits cs now_ms temperature

-- Chunks that a packet has room for, none of them empty.
abbrev pub chunks_fit : List (List ℕ) → Bool
chunks_fit [] = true
chunks_fit (c ∷ cs) = not (length c == 0) && leb (length c) 242 && chunks_fit cs

module _ {P : Type 0} (driver : Driver P) (version : Option (List ℕ)) (width height : ℕ)
    (panel : Panel driver width height) (w : width < 2 ^ 16) (h : height < 2 ^ 16)
    (now_ms timeout : ℕ) (temperature : Encoded) (now_small : now_ms < 2 ^ 32)
    (timeout_fits : (0 < timeout) × (timeout < 2 ^ 31)) where
  abbrev api : Backend (Epaper P)
  api = epaper_backend driver

  abbrev Sending : Component (Epaper P) → List ℕ → Type 0
  Sending c bs =
      IsAttending c
      × Underway api (stride_of width * height) (EpaperReady driver width height panel)
          (EpaperHolds driver width height panel) (EpaperShows driver width height panel)
          (epaper-Canvas driver width height panel w h) (epaper_ignores driver) now_ms timeout
          now_small timeout_fits TransferMode.direct c.engine bs

  Sending-chunk :
      (c : Component (Epaper P)) (bs chunk : List ℕ)
      → Sending c bs
      → length chunk ≢ 0
      → length chunk ≤ 242
      → length bs + length chunk ≤ stride_of width * height
      → Sending (history api version c (visit (data_bytes chunk) now_ms temperature)) (bs ++ chunk)
  Sending-chunk c bs chunk (a, u) ne small fits =
      let junk = leftover c (data_bytes chunk) in
      let full = stride_of width * height in
      let e1 = (on_direct_data api c.engine (some (chunk ++ junk)) (length chunk) now_ms).1 in
      let next =
        data-Underway api full (EpaperReady driver width height panel)
          (EpaperHolds driver width height panel) (EpaperShows driver width height panel)
          (epaper-Canvas driver width height panel w h) (epaper_ignores driver) now_ms timeout
          now_small timeout_fits c.engine bs chunk junk u ne fits in
      let last =
        passed-Underway api full (EpaperReady driver width height panel)
          (EpaperHolds driver width height panel) (EpaperShows driver width height panel)
          (epaper-Canvas driver width height panel w h) (epaper_ignores driver) now_ms timeout
          now_small timeout_fits TransferMode.direct e1 (bs ++ chunk) next in
      (
        visit-IsAttending api version c (data_bytes chunk) now_ms temperature a (omega arith)
            (omega (arith, small)),
        rw (engine-visit_data api version c chunk now_ms temperature a ne (omega (arith, small)))
            last,
      )

  pub handled_keeps :
      (e : Engine (Epaper P)) (x y : ℕ)
      → shown_pixel driver width height panel (handled api e now_ms) x y
        ≡ shown_pixel driver width height panel e x y
  unfolding take_tail_sack
  handled_keeps e x y =
      let kept : display_of driver (handled api e now_ms).backend ≡ display_of driver e.backend =
        ap (display_of driver) (untail_keeps (tick api (take_tail_sack e).1 now_ms).1)
        ∙ tick_keeps driver (take_tail_sack e).1 now_ms
        ∙ ap (display_of driver) (untail_keeps e) in
      pixel-display driver width height panel (handled api e now_ms).backend x y
      ∙ ap (λ o. panel_pixel driver width height panel o x y) kept
      ∙ sym (pixel-display driver width height panel e.backend x y)

  chunks_shown :
      (cs : List (List ℕ)) (c : Component (Epaper P)) (bs : List ℕ) (x y : ℕ)
      → Sending c bs
      → chunks_fit cs ≡ true
      → length bs + total cs ≡ stride_of width * height
      → x < width
      → y < height
      → shown_pixel driver width height panel
          (history api version c (chunk_visits cs now_ms temperature)).engine
          x
          y
        ≡ some (bit_colour (byte_at (bs ++ joined cs) (byte_position (stride_of width) x y)) x)
  chunks_shown [] c bs x y (a, u) fit whole hx hy =
      let e1 = (on_direct_end api c.engine none 0 now_ms).1 in
      let full = stride_of width * height in
      let size : length bs ≡ full = omega (arith, whole) in
      let showing =
        direct_end-Showing api full (EpaperReady driver width height panel)
          (EpaperHolds driver width height panel) (EpaperShows driver width height panel)
          (epaper-Canvas driver width height panel w h) c.engine bs now_ms u.0 size in
      rw (append-nil bs) (
        ap (λ e. shown_pixel driver width height panel e x y)
          (engine-visit_end api version c now_ms temperature a)
        ∙ handled_keeps e1 x y
        ∙ shown-Image driver width height panel e1 bs x y showing size hx hy)
  chunks_shown (k ∷ cs) c bs x y s fit whole hx hy =
      let first = visit (data_bytes k) now_ms temperature in
      let c' = history api version c first in
      let next =
        Sending-chunk c bs k s (ground (arith, fit)) (ground (arith, fit)) (omega (arith, whole)) in
      let rest =
        chunks_shown cs c' (bs ++ k) x y next (ground (arith, fit))
          (omega (arith, whole, length-append bs k)) hx hy in
      ap (λ (k : Component (Epaper P)). shown_pixel driver width height panel k.engine x y)
        (history-append api version first (chunk_visits cs now_ms temperature) c)
      ∙ rest
      ∙ ap (λ bytes. some (bit_colour (byte_at bytes (byte_position (stride_of width) x y)) x))
          (append_assoc bs k (joined cs))

  -- The component attends to a connected client, with nothing in its receive ring and an engine in
  -- any state in which the panel is free, and its epaper_spi backend has passed `init` with an idle
  -- panel of a width and a height below 2 ^ 16. The client writes a direct START, the chunks of a
  -- whole frame in order, each of 1 to 242 bytes, and an END, and a pass of the loop follows each
  -- write, all at one time. Then the panel is refreshed with an image in which the pixel in column
  -- `x` and row `y` is white exactly if bit `7 - x % 8` of byte `y * stride + x / 8` of the chunks
  -- is set. The driver draws pixels and takes `update` as documented, and the transfer timeout is
  -- positive and below 2 ^ 31.
  pub client_image_shown :
      (c : Component (Epaper P)) (b : Epaper P) (p : P) (cs : List (List ℕ)) (x y : ℕ)
      → b.display ≡ some p
      → driver.get_native_width p ≡ width
      → driver.get_native_height p ≡ height
      → driver.is_idle p ≡ true
      → (init driver b).0 ≡ true
      → IsAttending c
      → Inv c.engine
      → c.engine.backend ≡ some (init driver b).1
      → c.engine.hw_owned ≡ false
      → c.engine.transfer_timeout_ms ≡ timeout
      → chunks_fit cs ≡ true
      → total cs ≡ stride_of width * height
      → x < width
      → y < height
      → shown_pixel driver width height panel
          (history api version c (image_visits cs now_ms temperature)).engine
          x
          y
        ≡ some (bit_colour (byte_at (joined cs) (byte_position (stride_of width) x y)) x)
  client_image_shown c b p cs x y shown w_is h_is idle ok a v b_is free same fit whole hx hy =
      let full = stride_of width * height in
      let first = visit start_bytes now_ms temperature in
      let e1 = (on_direct_start api c.engine none 0 now_ms).1 in
      let started =
        start-Underway api full (EpaperReady driver width height panel)
          (EpaperHolds driver width height panel) (EpaperShows driver width height panel)
          (epaper-Canvas driver width height panel w h) (epaper_ignores driver) now_ms timeout
          now_small timeout_fits c.engine (init driver b).1 v b_is free same
          (init-Ready driver width height panel b p w h shown w_is h_is idle ok) in
      let next =
        passed-Underway api full (EpaperReady driver width height panel)
          (EpaperHolds driver width height panel) (EpaperShows driver width height panel)
          (epaper-Canvas driver width height panel w h) (epaper_ignores driver) now_ms timeout
          now_small timeout_fits TransferMode.direct e1 [] started in
      let sending : Sending (history api version c first) [] = (
        visit-IsAttending api version c start_bytes now_ms temperature a (omega arith)
            (omega arith),
        rw (engine-visit_start api version c now_ms temperature a) next,
      ) in
      ap (λ (k : Component (Epaper P)). shown_pixel driver width height panel k.engine x y)
        (history-append api version first (chunk_visits cs now_ms temperature) c)
      ∙ chunks_shown cs (history api version c first) [] x y sending fit (omega (arith, whole)) hx
          hy
