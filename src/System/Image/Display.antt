-- ===== src/System/Image/Display.antt =====
-- The display that an engine's backend holds, over a tick and the fetch of a tail SACK.
use od_esphome.Base.{ℕ, ◌≡◌, Option, some, none, arith, Option-cases, inl, inr, refl}
use od_esphome.Backend.Driver.{Driver}
use od_esphome.Backend.Epaper.{Epaper, epaper_backend, poll_refresh, abort_transfer}
use od_esphome.Engine.State.{Engine, take_tail_sack}
use od_esphome.Engine.Tick.{tick}
use od_esphome.System.Image.{Panel}
use od_esphome.System.Image.Shown.{panel_pixel, backend_pixel}

module _ {P : Type 0} (driver : Driver P) where
  -- A tick does not draw.
  abbrev pub display_of : Option (Epaper P) → Option P
  display_of none = none
  display_of (some b) = b.display

  pub tick_keeps :
      (e : Engine (Epaper P)) (now_ms : ℕ)
      → display_of (tick (epaper_backend driver) e now_ms).1.backend ≡ display_of e.backend
  unfolding tick poll_refresh abort_transfer
  tick_keeps e now_ms = elim (Option-cases e.backend) [
    | inl nothing ↦ ground (arith, nothing)
    | inr (b, b_is) ↦ elim (Option-cases b.display) [
      | inl dark ↦ ground (arith, b_is, dark)
      | inr (p, p_is) ↦ ground (arith, b_is, p_is)
    ]
  ]

pub untail_keeps : {D : Type 0} (e : Engine D) → (take_tail_sack e).1.backend ≡ e.backend
unfolding take_tail_sack
untail_keeps e = ground arith

pub pixel-display :
    {P : Type 0} (driver : Driver P) (width height : ℕ) (panel : Panel driver width height)
    (o : Option (Epaper P)) (x y : ℕ)
    → backend_pixel driver width height panel o x y
      ≡ panel_pixel driver width height panel (display_of driver o) x y
pixel-display driver width height panel none x y = refl
pixel-display driver width height panel (some b) x y = refl
