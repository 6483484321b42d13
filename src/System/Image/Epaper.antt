-- ===== src/System/Image/Epaper.antt =====
-- backend_epaper_spi.cpp as a Canvas: when it is ready, what it holds and what it shows.
use od_esphome.Base.{
  ℕ, ◌+◌, ◌*◌, ◌^◌, ◌≤◌, ◌<◌, ◌≡◌, ◌∙◌, refl, true, false, some, List, [], ◌++◌, length, arith,
}
use od_esphome.Types.{BackendResult, FrameDescriptor, full_refresh}
use od_esphome.Backend.Driver.{Driver}
use od_esphome.Backend.Pixels.{draw_bytes}
use od_esphome.Backend.Epaper.{
  Epaper, epaper_backend, begin_frame, write_contiguous, finish_frame, begin_refresh,
  abort_transfer,
}
use od_esphome.Engine.Delivery.{Canvas}
use od_esphome.System.Image.{
  Panel, Fits, Image, stride_of, draw_bytes_idle, draw_bytes-Image, stride-small,
}

module _ {P : Type 0} (driver : Driver P) (width height : ℕ)
    (panel : Panel driver width height) where
  -- A working backend of a panel that is at rest.
  abbrev pub EpaperReady : Epaper P → Type 0
  EpaperReady b =
      (p : P) × (b.display ≡ some p) × Fits b.caps width height × (driver.is_idle p ≡ true)

  abbrev pub EpaperHolds : Epaper P → List ℕ → Type 0
  EpaperHolds b bs =
      (p : P) × (b.display ≡ some p)
      × Fits b.caps width height
      × (driver.is_idle p ≡ true)
      × Image driver width height panel p bs

  abbrev pub EpaperShows : Epaper P → List ℕ → Type 0
  EpaperShows b bs =
      (p : P) × (b.display ≡ some p)
      × (b.refresh_started ≡ true)
      × (driver.is_idle p ≡ false)
      × Image driver width height panel p bs

  epaper_begins :
      (b : Epaper P) (frame : FrameDescriptor)
      → EpaperReady b
      → frame.compressed ≡ false
      → frame.partial ≡ false
      → frame.color_scheme ≡ b.caps.color_scheme
      → frame.total_bytes ≡ stride_of width * height
      → ((begin_frame driver b frame).0 ≡ BackendResult.ok)
        × EpaperHolds (begin_frame driver b frame).1 []
  unfolding begin_frame
  epaper_begins b frame (p, shown, fits, idle) plain whole scheme size =
      let accepted : begin_frame driver b frame
          ≡ (BackendResult.ok, record b { refresh_started = false }) =
        ground (arith, fits) in
      rw accepted (refl, (p, shown, fits, idle, λ x y hx hy h. absurd (omega arith)))

  epaper_writes :
      (b : Epaper P) (bs c : List ℕ)
      → width < 2 ^ 16
      → height < 2 ^ 16
      → EpaperHolds b bs
      → length bs + length c ≤ stride_of width * height
      → let (r, b') = write_contiguous driver b (length bs) (some c) (length c) in
        (r ≡ BackendResult.ok) × EpaperHolds b' (bs ++ c)
  unfolding write_contiguous
  epaper_writes b bs c w h (p, shown, fits, idle, image) room =
      let p' = draw_bytes driver p (stride_of width) width (length bs) c 0 (length c) in
      let accepted : write_contiguous driver b (length bs) (some c) (length c)
          ≡ (BackendResult.ok, record b { display = some p' }) =
        ground (arith, fits) in
      let still =
        draw_bytes_idle driver width height panel (length c) p (stride_of width) width (length bs) 0
          c in
      rw accepted (
        refl,
        (
          p',
          refl,
          fits,
          still ∙ idle,
          draw_bytes-Image driver width height panel p bs c w h image room,
        ),
      )

  epaper_refreshes :
      (b : Epaper P) (bs : List ℕ)
      → EpaperHolds b bs
      → let (r, b') = begin_refresh driver b full_refresh in
        (r ≡ BackendResult.ok) × EpaperShows b' bs
  unfolding begin_refresh
  epaper_refreshes b bs (p, shown, fits, idle, image) =
      let busy = panel.update_busy p idle in
      let accepted : begin_refresh driver b full_refresh ≡ (
        BackendResult.ok,
        record b { display = some (driver.update p); refresh_started = true },
      ) =
        ground (arith, busy) in
      rw accepted (
        refl,
        (
          driver.update p,
          refl,
          refl,
          busy,
          λ x y hx hy h. panel.update_pixel p x y ∙ image x y hx hy h,
        ),
      )

  pub epaper-Canvas :
      width < 2 ^ 16
      → height < 2 ^ 16
      → Canvas
          (epaper_backend driver)
          (stride_of width * height)
          EpaperReady
          EpaperHolds
          EpaperShows
  unfolding abort_transfer finish_frame
  epaper-Canvas w h = record {
    small = stride-small width height w h;
    sized = λ b ready. ready.2.full_is;
    aborts = λ b ready. ready;
    begins = λ b frame ready c p s t. epaper_begins b frame ready c p s t;
    writes = λ b bs c holds room. epaper_writes b bs c w h holds room;
    finishes = λ b bs holds. (refl, holds);
    refreshes = λ b bs holds. epaper_refreshes b bs holds;
  }
