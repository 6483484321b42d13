-- ===== src/System/Image/PipeClient.antt =====
-- The way of an image that a client sends by a pipe transfer: from the packets that it writes,
-- through the receive ring, the loop and the engine, to the pixels of a panel with the epaper_spi
-- backend.
use mathlib.Core.List.{append_assoc, append-nil}
use od_esphome.Base.{
  ℕ, suc, List, ◌≡◌, Option, ◌+◌, ◌<◌, some, ◌++◌, length, ◌≤◌, arith, ◌∷◌, [], ◌*◌, ap, ◌∙◌, ◌^◌,
  Bool, ◌≢◌, true, not, ◌==◌, ◌&&◌, leb, length-append, false, u8,
}
use od_esphome.Protocol.Frame.{byte_at}
use od_esphome.Protocol.Msd.{Encoded}
use od_esphome.Protocol.PipeStart.Request.{request}
use od_esphome.Backend.{Backend}
use od_esphome.Backend.Driver.{Driver}
use od_esphome.Backend.Pixels.Drawn.{bit_colour, byte_position}
use od_esphome.Backend.Epaper.{Epaper, epaper_backend, init}
use od_esphome.Engine.Start.{on_pipe_start}
use od_esphome.Engine.Pipe.{on_pipe_data}
use od_esphome.Engine.Invariant.{Inv}
use od_esphome.Engine.Delivery.{joined, total}
use od_esphome.Engine.Delivery.Paced.{Awaiting, passed-Awaiting}
use od_esphome.Engine.Delivery.Paced.Pipe.{data-Awaiting, data-Shown, start-Awaiting}
use od_esphome.Component.State.{Component}
use od_esphome.Component.History.{Happening, history}
use od_esphome.Component.Visit.{IsAttending, visit}
use od_esphome.Component.Visit.Direct.{leftover, visit-IsAttending}
use od_esphome.Component.Visit.Pipe.{
  pipe_start_bytes, pipe_data_bytes, engine-visit_pipe_start, engine-visit_pipe_data,
}
use od_esphome.System.Image.{Panel, stride_of}
use od_esphome.System.Image.Beyond.{epaper_ignores}
use od_esphome.System.Image.Client.{history-append, handled_keeps}
use od_esphome.System.Image.Epaper.{EpaperReady, EpaperHolds, EpaperShows, epaper-Canvas}
use od_esphome.System.Image.Shown.{shown_pixel, init-Ready, shown-Image}

-- The writes of a client that sends some chunks, the first of them numbered `n`, each followed by a
-- pass of the loop at the same time.
abbrev pub pipe_chunk_visits : ℕ → List (List ℕ) → ℕ → Encoded → List Happening
pipe_chunk_visits n [] now_ms temperature = []
pipe_chunk_visits n (c ∷ cs) now_ms temperature =
    visit (pipe_data_bytes n c) now_ms temperature
    ++ pipe_chunk_visits (suc n) cs now_ms temperature

-- Chunks that a packet has room for behind its sequence number, none of them empty.
abbrev pub pipe_chunks_fit : List (List ℕ) → Bool
pipe_chunks_fit [] = true
pipe_chunks_fit (c ∷ cs) = not (length c == 0) && leb (length c) 241 && pipe_chunks_fit cs

-- A chunk that does not complete the frame.
total-pos : (c : List ℕ) (cs : List (List ℕ)) → pipe_chunks_fit (c ∷ cs) ≡ true → 0 < total (c ∷ cs)
total-pos c cs h = ground (arith, h)

module _ {P : Type 0} (driver : Driver P) (version : Option (List ℕ)) (width height : ℕ)
    (panel : Panel driver width height) (w : width < 2 ^ 16) (h : height < 2 ^ 16)
    (now_ms timeout : ℕ) (temperature : Encoded) (now_small : now_ms < 2 ^ 32)
    (timeout_fits : (0 < timeout) × (timeout < 2 ^ 31)) where
  abbrev api : Backend (Epaper P)
  api = epaper_backend driver

  abbrev full : ℕ
  full = stride_of width * height

  abbrev Sending : Component (Epaper P) → List ℕ → ℕ → Type 0
  Sending c bs n =
      IsAttending c
      × Awaiting api full (EpaperReady driver width height panel)
          (EpaperHolds driver width height panel) (EpaperShows driver width height panel)
          (epaper-Canvas driver width height panel w h) (epaper_ignores driver) now_ms timeout
          now_small timeout_fits c.engine bs n

  Sending-chunk :
      (c : Component (Epaper P)) (bs chunk : List ℕ) (n : ℕ)
      → Sending c bs n
      → length chunk ≢ 0
      → length chunk ≤ 241
      → length bs + length chunk < full
      → Sending
          (history api version c (visit (pipe_data_bytes n chunk) now_ms temperature))
          (bs ++ chunk)
          (suc n)
  Sending-chunk c bs chunk n (a, u) ne small fits =
      let bytes = pipe_data_bytes n chunk in
      let junk = leftover c bytes in
      let e1 =
        (on_pipe_data api c.engine (some (u8 n ∷ (chunk ++ junk))) (suc (length chunk)) now_ms).1 in
      let next =
        data-Awaiting api full (EpaperReady driver width height panel)
          (EpaperHolds driver width height panel) (EpaperShows driver width height panel)
          (epaper-Canvas driver width height panel w h) (epaper_ignores driver) now_ms timeout
          now_small timeout_fits c.engine bs chunk junk n u ne fits in
      let last =
        passed-Awaiting api full (EpaperReady driver width height panel)
          (EpaperHolds driver width height panel) (EpaperShows driver width height panel)
          (epaper-Canvas driver width height panel w h) (epaper_ignores driver) now_ms timeout
          now_small timeout_fits e1 (bs ++ chunk) (suc n) next in
      (
        visit-IsAttending api version c bytes now_ms temperature a (omega arith)
            (omega (arith, small)),
        rw
            (engine-visit_pipe_data api version c n chunk now_ms temperature a
              (omega (arith, small)))
            last,
      )

  pipe_chunks_shown :
      (cs : List (List ℕ)) (k : List ℕ) (c : Component (Epaper P)) (bs : List ℕ) (n x y : ℕ)
      → Sending c bs n
      → pipe_chunks_fit (k ∷ cs) ≡ true
      → length bs + total (k ∷ cs) ≡ full
      → x < width
      → y < height
      → shown_pixel driver width height panel
          (history api version c (pipe_chunk_visits n (k ∷ cs) now_ms temperature)).engine
          x
          y
        ≡ some
            (bit_colour (byte_at (bs ++ joined (k ∷ cs)) (byte_position (stride_of width) x y)) x)
  pipe_chunks_shown [] k c bs n x y (a, u) fit whole hx hy =
      let bytes = pipe_data_bytes n k in
      let junk = leftover c bytes in
      let e1 = (on_pipe_data api c.engine (some (u8 n ∷ (k ++ junk))) (suc (length k)) now_ms).1 in
      let size : length bs + length k ≡ full = omega (arith, whole) in
      let showing =
        data-Shown api full (EpaperReady driver width height panel)
          (EpaperHolds driver width height panel) (EpaperShows driver width height panel)
          (epaper-Canvas driver width height panel w h) (epaper_ignores driver) now_ms timeout
          now_small timeout_fits c.engine bs k junk n u size in
      rw (append-nil k) (
        ap (λ e. shown_pixel driver width height panel e x y)
          (engine-visit_pipe_data api version c n k now_ms temperature a (ground (arith, fit)))
        ∙ handled_keeps driver version width height panel w h now_ms timeout temperature now_small
            timeout_fits e1 x y
        ∙ shown-Image driver width height panel e1 (bs ++ k) x y showing (length-append bs k ∙ size)
            hx hy)
  pipe_chunks_shown (k' ∷ cs) k c bs n x y s fit whole hx hy =
      let first = visit (pipe_data_bytes n k) now_ms temperature in
      let rest_visits = pipe_chunk_visits (suc n) (k' ∷ cs) now_ms temperature in
      let c' = history api version c first in
      let more = total-pos k' cs (ground (arith, fit)) in
      let next =
        Sending-chunk c bs k n s (ground (arith, fit)) (ground (arith, fit))
          (omega (arith, whole, more)) in
      let rest =
        pipe_chunks_shown cs k' c' (bs ++ k) (suc n) x y next (ground (arith, fit))
          (omega (arith, whole, length-append bs k)) hx hy in
      ap (λ (d : Component (Epaper P)). shown_pixel driver width height panel d.engine x y)
        (history-append api version first rest_visits c)
      ∙ rest
      ∙ ap (λ bytes. some (bit_colour (byte_at bytes (byte_position (stride_of width) x y)) x))
          (append_assoc bs k (joined (k' ∷ cs)))

  -- The component attends to a connected client, with nothing in its receive ring and an engine in
  -- any state in which the panel is free, and its epaper_spi backend has passed `init` with an idle
  -- panel of a width and a height below 2 ^ 16. The client writes an acceptable pipe START for the
  -- frame's size and the chunks of that frame in order, numbered modulo 256, each of 1 to 241 bytes,
  -- and a pass of the loop follows each write, all at one time. Then, without an END, the panel is
  -- refreshed with an image in which the pixel in column `x` and row `y` is white exactly if bit
  -- `7 - x % 8` of byte `y * stride + x / 8` of the chunks is set. The driver draws pixels and takes
  -- `update` as documented, and the transfer timeout is positive and below 2 ^ 31.
  pub client_pipe_image_shown :
      (c : Component (Epaper P)) (b : Epaper P) (p : P) (k : List ℕ) (cs : List (List ℕ))
      (window ack_every max_frame x y : ℕ)
      → b.display ≡ some p
      → driver.get_native_width p ≡ width
      → driver.get_native_height p ≡ height
      → driver.is_idle p ≡ true
      → (init driver b).0 ≡ true
      → IsAttending c
      → Inv c.engine
      → c.engine.backend ≡ some (init driver b).1
      → c.engine.hw_owned ≡ false
      → c.engine.transfer_timeout_ms ≡ timeout
      → (1 ≤ window) × (window ≤ 32)
      → (1 ≤ ack_every) × (ack_every ≤ 32)
      → max_frame < 2 ^ 16
      → pipe_chunks_fit (k ∷ cs) ≡ true
      → total (k ∷ cs) ≡ stride_of width * height
      → x < width
      → y < height
      → let start = pipe_start_bytes window ack_every max_frame (stride_of width * height) in
        let visits =
          visit start now_ms temperature ++ pipe_chunk_visits 0 (k ∷ cs) now_ms temperature in
        shown_pixel driver width height panel (history api version c visits).engine x y
        ≡ some (bit_colour (byte_at (joined (k ∷ cs)) (byte_position (stride_of width) x y)) x)
  client_pipe_image_shown c b p k cs window ack_every max_frame x y shown w_is h_is idle ok a v b_is
        free same win ack small fit whole hx hy =
      let start = pipe_start_bytes window ack_every max_frame full in
      let first = visit start now_ms temperature in
      let junk = leftover c start in
      let e1 =
        (on_pipe_start api c.engine (some (request window ack_every max_frame full ++ junk)) 10
          now_ms).1 in
      let started =
        start-Awaiting api full (EpaperReady driver width height panel)
          (EpaperHolds driver width height panel) (EpaperShows driver width height panel)
          (epaper-Canvas driver width height panel w h) (epaper_ignores driver) now_ms timeout
          now_small timeout_fits c.engine (init driver b).1 window ack_every max_frame junk v b_is
          free same win ack small
          (init-Ready driver width height panel b p w h shown w_is h_is idle ok) in
      let next =
        passed-Awaiting api full (EpaperReady driver width height panel)
          (EpaperHolds driver width height panel) (EpaperShows driver width height panel)
          (epaper-Canvas driver width height panel w h) (epaper_ignores driver) now_ms timeout
          now_small timeout_fits e1 [] 0 started in
      let sending : Sending (history api version c first) [] 0 = (
        visit-IsAttending api version c start now_ms temperature a (omega arith) (omega arith),
        rw
            (engine-visit_pipe_start api version c window ack_every max_frame full now_ms
              temperature a)
            next,
      ) in
      ap (λ (d : Component (Epaper P)). shown_pixel driver width height panel d.engine x y)
        (history-append api version first (pipe_chunk_visits 0 (k ∷ cs) now_ms temperature) c)
      ∙ pipe_chunks_shown cs k (history api version c first) [] 0 x y sending fit
          (omega (arith, whole)) hx hy
