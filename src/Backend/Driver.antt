-- ===== src/Backend/Driver.antt =====
-- What the backends use of an ESPHome display driver and of the clock. Neither is code of this
-- repository: `P` is the state of both, and these are the calls.
use od_esphome.Base.{ℕ, Bool}

pub record Driver (P : Type 0) : Type 0 where
  pub is_failed : P → Bool
  pub is_unrotated : P → Bool  -- `get_rotation() == DISPLAY_ROTATION_0_DEGREES`
  pub get_native_width : P → ℕ
  pub get_native_height : P → ℕ
  pub is_idle : P → Bool
  pub update : P → P
  pub draw_pixel_at : P → ℕ → ℕ → Bool → P  -- at (x, y), white or black
  pub millis : P → ℕ
