-- ===== src/Backend/Pixels.antt =====
-- backend_epaper_spi.cpp `write_contiguous`, the pixel loop: eight pixels a byte, the highest bit leftmost,
-- the padding bits of a row skipped.
pub mod Drawn
use od_esphome.Base.{
  ℕ, zero, suc, ◌+◌, ◌-◌, ◌*◌, ◌/◌, ◌%◌, ◌^◌, Bool, List, leb, ◌==◌, if◌then◌else◌, u32,
}
use od_esphome.Protocol.Frame.{byte_at}
use od_esphome.Backend.Driver.{Driver}

-- `(bits & (0x80u >> b)) != 0` with `k = 7 - b`.
abbrev pub is_white : ℕ → ℕ → Bool
is_white bits k = bits / 2 ^ k % 2 == 1

module _ {P : Type 0} (driver : Driver P) where
  -- The inner loop with `k` rounds left, so at `b = 8 - k`.
  unfoldable pub draw_bits : P → ℕ → ℕ → ℕ → ℕ → ℕ → P
  draw_bits p bits x0 y width zero = p
  draw_bits p bits x0 y width (suc k) =
      let x = x0 + (7 - k) in
      let rest = draw_bits (driver.draw_pixel_at p x y (is_white bits k)) bits x0 y width k in
      if leb width x then p else rest

  -- The outer loop at `i`, with `n` bytes left.
  unfoldable pub draw_bytes : P → ℕ → ℕ → ℕ → List ℕ → ℕ → ℕ → P
  draw_bytes p stride width offset bytes i zero = p
  draw_bytes p stride width offset bytes i (suc n) =
      let byte_index = u32 (offset + i) in
      let p' =
        draw_bits p (byte_at bytes i) (byte_index % stride * 8) (byte_index / stride) width 8 in
      draw_bytes p' stride width offset bytes (i + 1) n
