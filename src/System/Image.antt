-- ===== src/System/Image.antt =====
-- The frame on a panel: what is relied on of a display driver, and what a panel that holds the first
-- bytes of a frame looks like.
pub mod Epaper
pub mod Shown
pub mod Beyond
pub mod Display
pub mod Client
pub mod PipeClient
pub mod Acknowledged
use native.Mathlib.Nat.{mul-le-mul, le_of_lt}
use od_esphome.Base.{
  ℕ, zero, suc, ◌+◌, ◌-◌, ◌*◌, ◌/◌, ◌%◌, ◌^◌, ◌≤◌, ◌<◌, ◌≡◌, ◌∙◌, ap, refl, Bool, true, false, List,
  [], ◌∷◌, ◌++◌, length, arith, ltb, leb, if◌then◌else◌, length-append, Bool-cases, inl, inr, u16,
  u32,
}
use od_esphome.Types.{DisplayCapabilities}
use od_esphome.Protocol.Frame.{byte_at}
use od_esphome.Backend.Driver.{Driver}
use od_esphome.Backend.Pixels.{is_white, draw_bits, draw_bytes}
use od_esphome.Backend.Pixels.Drawn.{Screen, bit_colour, byte_position, draw_bytes-pixel}

-- A driver that is configured as the component's documentation demands: drawing puts pixels into its
-- frame buffer and does not start anything, and an idle driver takes `update`, is at work after it,
-- and leaves the frame buffer alone.
pub record Panel {P : Type 0} (driver : Driver P) (width height : ℕ) : Type 0 where
  pub screen : Screen driver width height
  pub draws_idle :
      (p : P) (x y : ℕ) (white : Bool)
      → driver.is_idle (driver.draw_pixel_at p x y white) ≡ driver.is_idle p
  pub update_busy : (p : P) → driver.is_idle p ≡ true → driver.is_idle (driver.update p) ≡ false
  pub update_pixel : (p : P) (x y : ℕ) → screen.pixel (driver.update p) x y ≡ screen.pixel p x y

abbrev pub stride_of : ℕ → ℕ
stride_of width = (width + 7) / 8

-- Capabilities for a panel of a width and a height, as `init` fills them in.
pub record Fits (caps : DisplayCapabilities) (width height : ℕ) : Type 0 where
  pub width_is : caps.width ≡ width
  pub stride_is : caps.row_stride_bytes ≡ stride_of width
  pub full_is : caps.full_frame_bytes ≡ stride_of width * height

byte_at-append_left : (xs ys : List ℕ) (i : ℕ) → i < length xs → byte_at (xs ++ ys) i ≡ byte_at xs i
byte_at-append_left [] ys i h = absurd (omega arith)
byte_at-append_left (x ∷ xs) ys zero h = refl
byte_at-append_left (x ∷ xs) ys (suc i) h = byte_at-append_left xs ys i (omega arith)

byte_at-append_right :
    (xs ys : List ℕ) (i : ℕ) → length xs ≤ i → byte_at (xs ++ ys) i ≡ byte_at ys (i - length xs)
byte_at-append_right [] ys i h = ap (byte_at ys) (omega arith)
byte_at-append_right (x ∷ xs) ys zero h = absurd (omega arith)
byte_at-append_right (x ∷ xs) ys (suc i) h =
    byte_at-append_right xs ys i (omega arith) ∙ ap (byte_at ys) (omega arith)

pub stride-small :
    (width height : ℕ) → width < 2 ^ 16 → height < 2 ^ 16 → stride_of width * height < 2 ^ 32
stride-small width height w h =
    let rows : stride_of width ≤ 8192 = omega arith in omega (arith, mul-le-mul rows (le_of_lt h))

module _ {P : Type 0} (driver : Driver P) (width height : ℕ)
    (panel : Panel driver width height) where
  -- The pixels of the first bytes of a frame have the colours of their bits: eight pixels a byte,
  -- the highest bit leftmost, rows of whole bytes.
  abbrev pub Image : P → List ℕ → Type 0
  Image p bs =
      (x y : ℕ)
      → x < width
      → y < height
      → byte_position (stride_of width) x y < length bs
      → panel.screen.pixel p x y ≡ bit_colour (byte_at bs (byte_position (stride_of width) x y)) x

  draw_bits_idle :
      (k : ℕ) (p : P) (bits x0 y w : ℕ)
      → driver.is_idle (draw_bits driver p bits x0 y w k) ≡ driver.is_idle p
  unfolding draw_bits
  draw_bits_idle zero p bits x0 y w = refl
  draw_bits_idle (suc k) p bits x0 y w =
      let x = x0 + (7 - k) in
      let white = is_white bits k in
      let rest = draw_bits_idle k (driver.draw_pixel_at p x y white) bits x0 y w in
      ground (arith, rest, panel.draws_idle p x y white)

  pub draw_bytes_idle :
      (n : ℕ) (p : P) (stride w offset i : ℕ) (bytes : List ℕ)
      → driver.is_idle (draw_bytes driver p stride w offset bytes i n) ≡ driver.is_idle p
  unfolding draw_bytes
  draw_bytes_idle zero p stride w offset i bytes = refl
  draw_bytes_idle (suc n) p stride w offset i bytes =
      let b = u32 (offset + i) in
      let p' = draw_bits driver p (byte_at bytes i) (b % stride * 8) (b / stride) w 8 in
      draw_bytes_idle n p' stride w offset (i + 1) bytes
      ∙ draw_bits_idle 8 p (byte_at bytes i) (b % stride * 8) (b / stride) w

  pub draw_bytes-Image :
      (p : P) (bs c : List ℕ)
      → width < 2 ^ 16
      → height < 2 ^ 16
      → Image p bs
      → length bs + length c ≤ stride_of width * height
      → Image (draw_bytes driver p (stride_of width) width (length bs) c 0 (length c)) (bs ++ c)
  draw_bytes-Image p bs c w16 h16 image fits x y hx hy inside =
      let b = byte_position (stride_of width) x y in
      let drawn =
        draw_bytes-pixel driver width height panel.screen (length c) p (stride_of width) (length bs)
          0 x y c (omega (arith, fits)) (stride-small width height w16 h16) hx hy (omega arith) in
      let old = image x y hx hy in
      elim (Bool-cases (ltb b (length bs))) [
        | inl before ↦
            let h : b < length bs = ground (arith, before) in
            rw (byte_at-append_left bs c b h) (ground (arith, drawn, old h))
        | inr after ↦
            rw (byte_at-append_right bs c b (ground (arith, after)))
              (ground (arith, drawn, after, length-append bs c, inside))
      ]
