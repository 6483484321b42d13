-- ===== src/Backend/Alike/Loops.antt =====
-- backend_epaper_spi.cpp and backend_it8951.cpp: the pixel loops of the two `write_contiguous`.
use od_esphome.Base.{
  zero, suc, ◌+◌, ◌-◌, ◌*◌, ◌/◌, ◌%◌, u32, ◌∙◌, leb, if◌then◌else◌, ℕ, ◌≡◌, List, ap, refl,
}
use od_esphome.Backend.Driver.{Driver}
use od_esphome.Backend.It8951
use od_esphome.Backend.Pixels
use od_esphome.Backend.Pixels.{is_white}
use od_esphome.Protocol.Frame.{byte_at}
use od_esphome.Backend.It8951.{It8951, it8951_backend, new_it8951}

module _ {P : Type 0} (driver : Driver P) where
  draw_bits-same :
      (k : ℕ) (p : P) (bits x0 y width : ℕ)
      → Pixels.draw_bits driver p bits x0 y width k ≡ It8951.draw_bits driver p bits x0 y width k
  unfolding Pixels.draw_bits It8951.draw_bits
  draw_bits-same zero p bits x0 y width = refl
  draw_bits-same (suc k) p bits x0 y width =
      let x = x0 + (7 - k) in
      ap (λ rest. if leb width x then p else rest)
        (draw_bits-same k (driver.draw_pixel_at p x y (is_white bits k)) bits x0 y width)

  pub draw_bytes-same :
      (n : ℕ) (p : P) (stride width offset i : ℕ) (bytes : List ℕ)
      → Pixels.draw_bytes driver p stride width offset bytes i n
        ≡ It8951.draw_bytes driver p stride width offset bytes i n
  unfolding Pixels.draw_bytes It8951.draw_bytes
  draw_bytes-same zero p stride width offset i bytes = refl
  draw_bytes-same (suc n) p stride width offset i bytes =
      let b = u32 (offset + i) in
      let p' = It8951.draw_bits driver p (byte_at bytes i) (b % stride * 8) (b / stride) width 8 in
      ap (λ q. Pixels.draw_bytes driver q stride width offset bytes (i + 1) n)
        (draw_bits-same 8 p (byte_at bytes i) (b % stride * 8) (b / stride) width)
      ∙ draw_bytes-same n p' stride width offset (i + 1) bytes
