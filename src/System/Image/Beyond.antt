-- ===== src/System/Image/Beyond.antt =====
-- backend_epaper_spi.cpp `write_contiguous`: the bytes behind the length that it is given.
use od_esphome.Base.{
  ℕ, List, ◌≡◌, ◌+◌, ◌<◌, some, ◌++◌, length, ◌≤◌, arith, Option-cases, suc, u32, inl, ◌∷◌, ◌%◌, [],
  inr, ◌*◌, zero, ◌/◌, refl, ap, ◌∙◌,
}
use od_esphome.Protocol.Frame.{byte_at}
use od_esphome.Backend.Driver.{Driver}
use od_esphome.Backend.Pixels.{draw_bits, draw_bytes}
use od_esphome.Backend.Epaper.{Epaper, write_contiguous, write_panel}

byte_at-append : (c junk : List ℕ) (i : ℕ) → i < length c → byte_at (c ++ junk) i ≡ byte_at c i
byte_at-append [] junk i h = absurd (omega arith)
byte_at-append (x ∷ c) junk zero h = refl
byte_at-append (x ∷ c) junk (suc i) h = byte_at-append c junk i (omega arith)

module _ {P : Type 0} (driver : Driver P) where
  -- The pixel loop reads no byte past the length it is given.
  draw_bytes-append :
      (n : ℕ) (p : P) (stride w offset i : ℕ) (c junk : List ℕ)
      → i + n ≤ length c
      → draw_bytes driver p stride w offset (c ++ junk) i n
        ≡ draw_bytes driver p stride w offset c i n
  unfolding draw_bytes
  draw_bytes-append zero p stride w offset i c junk h = refl
  draw_bytes-append (suc n) p stride w offset i c junk h =
      let b = u32 (offset + i) in
      let p' = draw_bits driver p (byte_at c i) (b % stride * 8) (b / stride) w 8 in
      ap
        (λ bits.
          draw_bytes driver (draw_bits driver p bits (b % stride * 8) (b / stride) w 8) stride w
            offset (c ++ junk) (i + 1) n)
        (byte_at-append c junk i (omega arith))
      ∙ draw_bytes-append n p' stride w offset (i + 1) c junk (omega arith)

  pub epaper_ignores :
      (b : Epaper P) (offset : ℕ) (c junk : List ℕ)
      → write_contiguous driver b offset (some (c ++ junk)) (length c)
        ≡ write_contiguous driver b offset (some c) (length c)
  unfolding write_contiguous write_panel
  epaper_ignores b offset c junk = elim (Option-cases b.display) [
    | inl nothing ↦ ground (arith, nothing)
    | inr (p, some_) ↦ ground (
      arith,
      some_,
      draw_bytes-append (length c) p b.caps.row_stride_bytes b.caps.width offset 0 c junk
          (omega arith),
    )
  ]
