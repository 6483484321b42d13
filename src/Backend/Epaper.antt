-- ===== src/Backend/Epaper.antt =====
-- components/opendisplay/backend_epaper_spi.h and backend_epaper_spi.cpp: the adapter for the
-- epaper_spi driver. `P` is the driver's state.
use od_esphome.Base.{
  u16, u32, ◌*◌, ◌+◌, ◌/◌, ℕ, ◌-◌, Bool, true, false, not, ◌||◌, Option, none, some, List, ltb,
  ◌==◌, if◌then◌else◌,
}
use od_esphome.Types.{
  PartialSupport, DisplayCapabilities, FrameDescriptor, BackendResult, PollResult, RefreshRequest,
  default_capabilities,
}
use od_esphome.Wire.{od_color_scheme_mono}
use od_esphome.Backend.{Backend}
use od_esphome.Backend.Driver.{Driver}
use od_esphome.Backend.Pixels.{draw_bytes}

pub record Epaper (P : Type 0) : Type 0 where
  pub display : Option P
  pub caps : DisplayCapabilities
  pub refresh_started : Bool

-- `explicit EpaperSPIBackend(EPaperBase *display)` with the default member values.
abbrev pub new_epaper : {P : Type 0} → Option P → Epaper P
new_epaper display = record {
  display = display;
  caps = default_capabilities;
  refresh_started = false;
}

-- The capabilities that `init` fills in, for a panel of a width and a height.
abbrev pub mono_capabilities : DisplayCapabilities → ℕ → ℕ → DisplayCapabilities
mono_capabilities caps width height = record caps {
  width = width;
  height = height;
  row_stride_bytes = u16 ((width + 7) / 8);
  full_frame_bytes = u32 (u16 ((width + 7) / 8) * height);
  byte_alignment = 1;
  max_contiguous_write = u32 (u16 ((width + 7) / 8) * height);
  staging_bytes_required = 0;
  supports_full_refresh = true;
  supports_fast_refresh = false;
  supports_partial = PartialSupport.none;
  supports_compression = false;
  supports_direct_write = true;
  supports_pipe_write = true;
}

-- `begin_frame`'s checks.
abbrev pub check_frame : DisplayCapabilities → FrameDescriptor → BackendResult
check_frame caps frame =
    if frame.compressed || frame.partial
    then BackendResult.unsupported
    else if not (frame.color_scheme == caps.color_scheme)
    then BackendResult.unsupported
    else if not (frame.total_bytes == caps.full_frame_bytes)
    then BackendResult.invalid_argument
    else BackendResult.ok

-- The bounds test of `write_contiguous`: `length > full - offset` runs
-- only where `offset` is at most `full`, so the difference is exact.
abbrev pub out_of_bounds : DisplayCapabilities → ℕ → ℕ → Bool
out_of_bounds caps offset len =
    ltb caps.full_frame_bytes offset || ltb (caps.full_frame_bytes - offset) len

module _ {P : Type 0} (driver : Driver P) where
  unfoldable pub init_panel : Epaper P → P → Bool × Epaper P
  init_panel b p =
      if driver.is_failed p
      then (false, b)
      else if not (driver.is_unrotated p)
      then (false, b)
      else let sized = record b {
        caps = record (b.caps) {
          width = u16 (driver.get_native_width p);
          height = u16 (driver.get_native_height p);
        };
      } in
        if sized.caps.width == 0 || sized.caps.height == 0
        then (false, sized)
        else if not (sized.caps.color_scheme == od_color_scheme_mono)
        then (false, sized)
        else (
          true,
          record sized { caps = mono_capabilities sized.caps sized.caps.width sized.caps.height },
        )

  unfoldable pub init : Epaper P → Bool × Epaper P
  unfolding init_panel
  init b = elim b.display [ none ↦ (false, b) | some p ↦ init_panel b p ]

  unfoldable pub set_color_scheme : Epaper P → ℕ → Epaper P
  set_color_scheme b scheme = record b { caps = record (b.caps) { color_scheme = scheme } }

  unfoldable pub set_panel_ic_type : Epaper P → ℕ → Epaper P
  set_panel_ic_type b id = record b { caps = record (b.caps) { panel_ic_type = id } }

  unfoldable pub begin_frame : Epaper P → FrameDescriptor → BackendResult × Epaper P
  begin_frame b frame = elim b.display [
    | none ↦ (BackendResult.device_error, b)
    | some p ↦ elim (check_frame b.caps frame) [
      | BackendResult.ok ↦ (BackendResult.ok, record b { refresh_started = false })
      | refused ↦ (refused, b)
    ]
  ]

  unfoldable pub write_panel : Epaper P → P → ℕ → List ℕ → ℕ → BackendResult × Epaper P
  write_panel b p offset bytes len =
      if out_of_bounds b.caps offset len then (BackendResult.invalid_argument, b) else (
        BackendResult.ok,
        record b {
          display =
              some (draw_bytes driver p b.caps.row_stride_bytes b.caps.width offset bytes 0 len);
        },
      )

  unfoldable pub write_contiguous : Epaper P → ℕ → Option (List ℕ) → ℕ → BackendResult × Epaper P
  unfolding write_panel
  write_contiguous b offset none len = (BackendResult.device_error, b)
  write_contiguous b offset (some bytes) len = elim b.display [
    | none ↦ (BackendResult.device_error, b)
    | some p ↦ write_panel b p offset bytes len
  ]

  unfoldable pub finish_frame : Epaper P → BackendResult × Epaper P
  finish_frame b = (BackendResult.ok, b)

  unfoldable pub begin_refresh : Epaper P → RefreshRequest → BackendResult × Epaper P
  begin_refresh b request = elim b.display [
    | none ↦ (BackendResult.device_error, b)
    | some p ↦
        let cleared = record b { refresh_started = false } in
        if not (driver.is_idle p)
        then (BackendResult.device_error, cleared)
        else let updated = record cleared { display = some (driver.update p) } in
          if driver.is_idle (driver.update p)
          then (BackendResult.device_error, updated)
          else (BackendResult.ok, record updated { refresh_started = true })
  ]

  unfoldable pub poll_refresh : Epaper P → PollResult × Epaper P
  poll_refresh b = elim b.display [
    | none ↦ (PollResult.failed, b)
    | some p ↦
        if driver.is_failed p
        then (PollResult.failed, b)
        else if not b.refresh_started
        then (PollResult.pending, b)
        else if not (driver.is_idle p)
        then (PollResult.pending, b)
        else (PollResult.complete, record b { refresh_started = false })
  ]

  unfoldable pub abort_transfer : Epaper P → Epaper P
  abort_transfer b = record b { refresh_started = false }

  -- The class as an implementation of the interface.
  abbrev pub epaper_backend : Backend (Epaper P)
  epaper_backend = record {
    init = init;
    set_color_scheme = set_color_scheme;
    set_panel_ic_type = set_panel_ic_type;
    capabilities = λ b. b.caps;
    begin_frame = begin_frame;
    write_contiguous = write_contiguous;
    finish_frame = finish_frame;
    begin_refresh = begin_refresh;
    poll_refresh = poll_refresh;
    abort_transfer = abort_transfer;
  }
