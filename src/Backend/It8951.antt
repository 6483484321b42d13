-- ===== src/Backend/It8951.antt =====
-- components/opendisplay/backend_it8951.h and backend_it8951.cpp: the adapter for the it8951 driver,
-- with a fixed settle time in place of an observed completion.
use od_esphome.Base.{
  u16, u32, ◌*◌, ◌/◌, ◌-◌, ◌%◌, ◌^◌, leb, ltb, zero, suc, ◌+◌, ℕ, ◌+◌, Bool, true, false, not, ◌||◌,
  Option, none, some, List, ◌==◌, if◌then◌else◌, u32, sub32, non_negative32,
}
use od_esphome.Types.{
  PartialSupport, DisplayCapabilities, FrameDescriptor, BackendResult, PollResult, RefreshRequest,
  default_capabilities,
}
use od_esphome.Wire.{od_color_scheme_mono}
use od_esphome.Backend.{Backend}
use od_esphome.Backend.Driver.{Driver}
use od_esphome.Protocol.Frame.{byte_at}

abbrev pub it8951_refresh_settle_ms : ℕ
it8951_refresh_settle_ms = 5000

pub record It8951 (P : Type 0) : Type 0 where
  pub display : Option P
  pub caps : DisplayCapabilities
  pub refresh_settle_deadline_ms : ℕ  -- uint32_t, 0 with no refresh in flight

-- `explicit IT8951Backend(IT8951Display *display)` with the default member values.
abbrev pub new_it8951 : {P : Type 0} → Option P → It8951 P
new_it8951 display = record {
  display = display;
  caps = default_capabilities;
  refresh_settle_deadline_ms = 0;
}

-- The capabilities that `init` fills in, for a panel of a width and a height.
abbrev pub mono_capabilities : DisplayCapabilities → ℕ → ℕ → DisplayCapabilities
mono_capabilities caps width height = record caps {
  width = width;
  height = height;
  row_stride_bytes = u16 ((width + 7) / 8);
  full_frame_bytes = u32 (u16 ((width + 7) / 8) * height);
  byte_alignment = 1;
  max_contiguous_write = u32 (u16 ((width + 7) / 8) * height);
  staging_bytes_required = 0;
  supports_full_refresh = true;
  supports_fast_refresh = false;
  supports_partial = PartialSupport.none;
  supports_compression = false;
  supports_direct_write = true;
  supports_pipe_write = true;
}

-- `begin_frame`'s checks.
abbrev pub check_frame : DisplayCapabilities → FrameDescriptor → BackendResult
check_frame caps frame =
    if frame.compressed || frame.partial
    then BackendResult.unsupported
    else if not (frame.color_scheme == caps.color_scheme)
    then BackendResult.unsupported
    else if not (frame.total_bytes == caps.full_frame_bytes)
    then BackendResult.invalid_argument
    else BackendResult.ok

-- The bounds test of `write_contiguous`: `length > full - offset` runs
-- only where `offset` is at most `full`, so the difference is exact.
abbrev pub out_of_bounds : DisplayCapabilities → ℕ → ℕ → Bool
out_of_bounds caps offset len =
    ltb caps.full_frame_bytes offset || ltb (caps.full_frame_bytes - offset) len

-- `(bits & (0x80u >> b)) != 0` with `k = 7 - b`.
abbrev pub is_white : ℕ → ℕ → Bool
is_white bits k = bits / 2 ^ k % 2 == 1

module _ {P : Type 0} (driver : Driver P) where
  -- The inner loop with `k` rounds left, so at `b = 8 - k`.
  unfoldable pub draw_bits : P → ℕ → ℕ → ℕ → ℕ → ℕ → P
  draw_bits p bits x0 y width zero = p
  draw_bits p bits x0 y width (suc k) =
      let x = x0 + (7 - k) in
      let rest = draw_bits (driver.draw_pixel_at p x y (is_white bits k)) bits x0 y width k in
      if leb width x then p else rest

  -- The outer loop at `i`, with `n` bytes left.
  unfoldable pub draw_bytes : P → ℕ → ℕ → ℕ → List ℕ → ℕ → ℕ → P
  draw_bytes p stride width offset bytes i zero = p
  draw_bytes p stride width offset bytes i (suc n) =
      let byte_index = u32 (offset + i) in
      let p' =
        draw_bits p (byte_at bytes i) (byte_index % stride * 8) (byte_index / stride) width 8 in
      draw_bytes p' stride width offset bytes (i + 1) n

  unfoldable pub init_panel : It8951 P → P → Bool × It8951 P
  init_panel b p =
      if driver.is_failed p
      then (false, b)
      else if not (driver.is_unrotated p)
      then (false, b)
      else let sized = record b {
        caps = record (b.caps) {
          width = u16 (driver.get_native_width p);
          height = u16 (driver.get_native_height p);
        };
      } in
        if sized.caps.width == 0 || sized.caps.height == 0
        then (false, sized)
        else if not (sized.caps.color_scheme == od_color_scheme_mono)
        then (false, sized)
        else (
          true,
          record sized { caps = mono_capabilities sized.caps sized.caps.width sized.caps.height },
        )

  unfoldable pub init : It8951 P → Bool × It8951 P
  unfolding init_panel
  init b = elim b.display [ none ↦ (false, b) | some p ↦ init_panel b p ]

  unfoldable pub set_color_scheme : It8951 P → ℕ → It8951 P
  set_color_scheme b scheme = record b { caps = record (b.caps) { color_scheme = scheme } }

  unfoldable pub set_panel_ic_type : It8951 P → ℕ → It8951 P
  set_panel_ic_type b id = record b { caps = record (b.caps) { panel_ic_type = id } }

  unfoldable pub begin_frame : It8951 P → FrameDescriptor → BackendResult × It8951 P
  begin_frame b frame = elim b.display [
    | none ↦ (BackendResult.device_error, b)
    | some p ↦ elim (check_frame b.caps frame) [
      | BackendResult.ok ↦ (BackendResult.ok, record b { refresh_settle_deadline_ms = 0 })
      | refused ↦ (refused, b)
    ]
  ]

  unfoldable pub write_panel : It8951 P → P → ℕ → List ℕ → ℕ → BackendResult × It8951 P
  write_panel b p offset bytes len =
      if out_of_bounds b.caps offset len then (BackendResult.invalid_argument, b) else (
        BackendResult.ok,
        record b {
          display = some (draw_bytes p b.caps.row_stride_bytes b.caps.width offset bytes 0 len);
        },
      )

  unfoldable pub write_contiguous : It8951 P → ℕ → Option (List ℕ) → ℕ → BackendResult × It8951 P
  unfolding write_panel
  write_contiguous b offset none len = (BackendResult.device_error, b)
  write_contiguous b offset (some bytes) len = elim b.display [
    | none ↦ (BackendResult.device_error, b)
    | some p ↦ write_panel b p offset bytes len
  ]

  unfoldable pub finish_frame : It8951 P → BackendResult × It8951 P
  finish_frame b = (BackendResult.ok, b)

  unfoldable pub begin_refresh : It8951 P → RefreshRequest → BackendResult × It8951 P
  begin_refresh b request = elim b.display [
    | none ↦ (BackendResult.device_error, b)
    | some p ↦
        if not (driver.is_idle p)
        then (BackendResult.device_error, b)
        else let p' = driver.update p in
          (
            BackendResult.ok,
            record b {
              display = some p';
              refresh_settle_deadline_ms = u32 (driver.millis p' + it8951_refresh_settle_ms);
            },
          )
  ]

  unfoldable pub poll_refresh : It8951 P → PollResult × It8951 P
  poll_refresh b = elim b.display [
    | none ↦ (PollResult.failed, b)
    | some p ↦
        if driver.is_failed p
        then (PollResult.failed, b)
        else if b.refresh_settle_deadline_ms == 0
        then (PollResult.pending, b)
        else if non_negative32 (sub32 (driver.millis p) b.refresh_settle_deadline_ms)
        then (PollResult.complete, record b { refresh_settle_deadline_ms = 0 })
        else (PollResult.pending, b)
  ]

  unfoldable pub abort_transfer : It8951 P → It8951 P
  abort_transfer b = record b { refresh_settle_deadline_ms = 0 }

  -- The class as an implementation of the interface.
  abbrev pub it8951_backend : Backend (It8951 P)
  it8951_backend = record {
    init = init;
    set_color_scheme = set_color_scheme;
    set_panel_ic_type = set_panel_ic_type;
    capabilities = λ b. b.caps;
    begin_frame = begin_frame;
    write_contiguous = write_contiguous;
    finish_frame = finish_frame;
    begin_refresh = begin_refresh;
    poll_refresh = poll_refresh;
    abort_transfer = abort_transfer;
  }
