-- ===== src/Backend.antt =====
-- components/opendisplay/backend.h: the adapter interface between the engine and a display driver.
-- `D` is the state of an implementation; a virtual method takes it and returns the new state beside
-- its result. A pointer argument comes with its length, as in the source.
pub mod Alike
pub mod Driver
pub mod Pixels
pub mod Epaper
pub mod It8951
pub mod Settle
use od_esphome.Base.{ℕ, Bool, Option, List}
use od_esphome.Types.{
  DisplayCapabilities, FrameDescriptor, BackendResult, PollResult, RefreshRequest,
}

pub record Backend (D : Type 0) : Type 0 where
  pub init : D → Bool × D
  pub set_color_scheme : D → ℕ → D
  pub set_panel_ic_type : D → ℕ → D
  pub capabilities : D → DisplayCapabilities
  pub begin_frame : D → FrameDescriptor → BackendResult × D
  pub write_contiguous : D → ℕ → Option (List ℕ) → ℕ → BackendResult × D
  pub finish_frame : D → BackendResult × D
  pub begin_refresh : D → RefreshRequest → BackendResult × D
  pub poll_refresh : D → PollResult × D
  pub abort_transfer : D → D
