-- ===== src/System/Image/Shown.antt =====
-- What the panel of the epaper_spi backend shows after a transfer, from the backend's `init` on.
use native.Mathlib.Nat.{mul-le-mul}
use od_esphome.Base.{
  ℕ, ◌<◌, List, Option, ◌*◌, Bool, ◌^◌, length, ◌≡◌, ◌/◌, arith, some, suc, true, ◌≤◌, none,
  if◌then◌else◌, ap, false, ◌∷◌, ◌∙◌,
}
use od_esphome.Backend.Driver.{Driver}
use od_esphome.Backend.Pixels.Drawn.{bit_colour, byte_position}
use od_esphome.Backend.Epaper.{Epaper, epaper_backend, init, init_panel}
use od_esphome.Protocol.Frame.{byte_at}
use od_esphome.Protocol.PipeStart.Request.{request}
use od_esphome.Engine.State.{Engine}
use od_esphome.Engine.Invariant.{Inv}
use od_esphome.Engine.Calls.{Call, run}
use od_esphome.Engine.Delivery.{joined, length-joined, none_empty, total, Showing}
use od_esphome.Engine.Delivery.Direct.{direct_calls, direct_transfer_shows}
use od_esphome.Engine.Delivery.Packets.{Sent, chunks, sent_calls, strays_are_stray}
use od_esphome.Engine.Delivery.Pipe.{pipe_transfer_shows}
use od_esphome.System.Image.{Panel, stride_of, stride-small}
use od_esphome.System.Image.Epaper.{EpaperReady, EpaperHolds, EpaperShows, epaper-Canvas}

-- The byte of a pixel lies in the frame.
position-inside :
    (width height x y : ℕ)
    → x < width
    → y < height
    → byte_position (stride_of width) x y < stride_of width * height
position-inside width height x y hx hy =
    let column : x / 8 < stride_of width = omega arith in
    let rows : suc y * stride_of width ≤ height * stride_of width = mul-le-mul hy (omega arith) in
    omega (arith, column, rows)

module _ {P : Type 0} (driver : Driver P) (width height : ℕ)
    (panel : Panel driver width height) where
  abbrev pub panel_pixel : Option P → ℕ → ℕ → Option Bool
  panel_pixel none x y = none
  panel_pixel (some p) x y = if driver.is_idle p then none else some (panel.screen.pixel p x y)

  abbrev pub backend_pixel : Option (Epaper P) → ℕ → ℕ → Option Bool
  backend_pixel none x y = none
  backend_pixel (some b) x y = panel_pixel b.display x y

  -- What the panel of an engine shows at a pixel while it is being refreshed.
  abbrev pub shown_pixel : Engine (Epaper P) → ℕ → ℕ → Option Bool
  shown_pixel e x y = backend_pixel e.backend x y

  pub init-Ready :
      (b : Epaper P) (p : P)
      → width < 2 ^ 16
      → height < 2 ^ 16
      → b.display ≡ some p
      → driver.get_native_width p ≡ width
      → driver.get_native_height p ≡ height
      → driver.is_idle p ≡ true
      → (init driver b).0 ≡ true
      → EpaperReady driver width height panel (init driver b).1
  unfolding init init_panel
  init-Ready b p w h shown w_is h_is idle ok =
      let small = stride-small width height w h in (p, ground arith, ground (arith, small), idle)

  pub shown-Image :
      (e : Engine (Epaper P)) (bs : List ℕ) (x y : ℕ)
      → Showing (EpaperShows driver width height panel) e bs
      → length bs ≡ stride_of width * height
      → x < width
      → y < height
      → shown_pixel e x y ≡ some (bit_colour (byte_at bs (byte_position (stride_of width) x y)) x)
  shown-Image e bs x y (b, b_is, (p, shown, started, busy, image), refreshing) whole hx hy =
      let drawn = image x y hx hy (omega (arith, whole, position-inside width height x y hx hy)) in
      ap (λ o. backend_pixel o x y) b_is
      ∙ ap (λ o. panel_pixel o x y) shown
      ∙ ground (arith, busy, drawn)

module _ {P : Type 0} (driver : Driver P) (width height : ℕ) (panel : Panel driver width height)
    (b : Epaper P) (p : P) (w : width < 2 ^ 16) (h : height < 2 ^ 16) (shown : b.display ≡ some p)
    (w_is : driver.get_native_width p ≡ width) (h_is : driver.get_native_height p ≡ height)
    (idle : driver.is_idle p ≡ true) (ok : (init driver b).0 ≡ true) where
  -- The backend has passed `init` with an idle panel of a width and a height below 2 ^ 16, the
  -- driver draws pixels and takes `update` as the component's documentation demands, and the engine
  -- may be in any state in which the panel is free. Then a direct START, the chunks of a whole
  -- frame in order, none of them empty, and an END start a refresh in which the pixel in column `x`
  -- and row `y` is white exactly if bit `7 - x % 8` of byte `y * stride + x / 8` of the chunks is
  -- set, where `stride` is the width in bytes, rounded up.
  pub direct_image_shown :
      (e : Engine (Epaper P)) (cs : List (List ℕ)) (now_ms x y : ℕ)
      → Inv e
      → e.backend ≡ some (init driver b).1
      → e.hw_owned ≡ false
      → none_empty cs ≡ true
      → total cs ≡ stride_of width * height
      → x < width
      → y < height
      → let e' =
          run
            (epaper_backend driver)
            e
            (Call.direct_start none 0 now_ms ∷ direct_calls cs now_ms) in
        shown_pixel driver width height panel e' x y
        ≡ some (bit_colour (byte_at (joined cs) (byte_position (stride_of width) x y)) x)
  direct_image_shown e cs now_ms x y v b_is free ne whole hx hy =
      shown-Image driver width height panel
        (run (epaper_backend driver) e (Call.direct_start none 0 now_ms ∷ direct_calls cs now_ms))
        (joined cs) x y
        (direct_transfer_shows (epaper_backend driver) (stride_of width * height)
          (EpaperReady driver width height panel) (EpaperHolds driver width height panel)
          (EpaperShows driver width height panel) (epaper-Canvas driver width height panel w h) e
          (init driver b).1 cs now_ms v b_is free
          (init-Ready driver width height panel b p w h shown w_is h_is idle ok) ne whole)
        (length-joined cs ∙ whole) hx hy

  -- With the same panel and engine, an acceptable pipe START for the frame's size and the chunks of
  -- that frame in order, numbered modulo 256 and, but for the first, not empty, start a refresh of
  -- the same image without an END, whatever packets that are out of order stand between the chunks.
  pub pipe_image_shown :
      (e : Engine (Epaper P)) (s : Sent) (ss : List Sent)
      (window ack_every max_frame now_ms x y : ℕ)
      → Inv e
      → e.backend ≡ some (init driver b).1
      → e.hw_owned ≡ false
      → (1 ≤ window) × (window ≤ 32)
      → (1 ≤ ack_every) × (ack_every ≤ 32)
      → max_frame < 2 ^ 16
      → strays_are_stray 0 (s ∷ ss) ≡ true
      → none_empty (chunks ss) ≡ true
      → total (chunks (s ∷ ss)) ≡ stride_of width * height
      → x < width
      → y < height
      → let start = some (request window ack_every max_frame (stride_of width * height)) in
        let e' =
          run
            (epaper_backend driver)
            e
            (Call.pipe_start start 10 now_ms ∷ sent_calls 0 (s ∷ ss) now_ms) in
        let image = joined (chunks (s ∷ ss)) in
        shown_pixel driver width height panel e' x y
        ≡ some (bit_colour (byte_at image (byte_position (stride_of width) x y)) x)
  pipe_image_shown e s ss window ack_every max_frame now_ms x y v b_is free win ack small stray ne
        whole hx hy =
      let full = stride_of width * height in
      let start = some (request window ack_every max_frame full) in
      let calls = Call.pipe_start start 10 now_ms ∷ sent_calls 0 (s ∷ ss) now_ms in
      let painted =
        pipe_transfer_shows (epaper_backend driver) full (EpaperReady driver width height panel)
          (EpaperHolds driver width height panel) (EpaperShows driver width height panel)
          (epaper-Canvas driver width height panel w h) e (init driver b).1 s ss window ack_every
          max_frame now_ms v b_is free win ack small
          (init-Ready driver width height panel b p w h shown w_is h_is idle ok) stray ne whole in
      shown-Image driver width height panel (run (epaper_backend driver) e calls)
        (joined (chunks (s ∷ ss))) x y (painted.0) (length-joined (chunks (s ∷ ss)) ∙ whole) hx hy
