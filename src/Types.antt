-- ===== src/Types.antt =====
-- components/opendisplay/protocol_types.h: the states, errors, capabilities and results that the
-- protocol code, the transfer engine and the backends share. A colour scheme is its canonical byte.
use od_esphome.Base.{ℕ, Bool, true, false}

pub data State : Type 0 where
  idle receiving validating writing refreshing error : State

pub data TransferMode : Type 0 where
  none direct pipe : TransferMode

pub data ErrorCode : Type 0 where
  none busy unsupported_command malformed_packet invalid_state unsupported_format : ErrorCode
  invalid_size sequence_gap window_violation queue_full backend_begin_failed : ErrorCode
  backend_write_failed backend_finish_failed transfer_timeout refresh_timeout : ErrorCode
  disconnected : ErrorCode

pub data PartialSupport : Type 0 where
  none supported unknown : PartialSupport

pub data RefreshMode : Type 0 where
  full fast partial : RefreshMode

pub record RefreshRequest : Type 0 where
  pub mode : RefreshMode

-- `RefreshRequest rq;` with its default member value
abbrev pub full_refresh : RefreshRequest
full_refresh = record { mode = RefreshMode.full }

pub record DisplayCapabilities : Type 0 where
  pub width : ℕ  -- uint16_t
  pub height : ℕ  -- uint16_t
  pub rotation : ℕ
  pub color_scheme : ℕ
  pub panel_ic_type : ℕ  -- uint16_t
  pub full_frame_bytes : ℕ  -- uint32_t
  pub row_stride_bytes : ℕ  -- uint16_t
  pub byte_alignment : ℕ
  pub supports_full_refresh : Bool
  pub supports_fast_refresh : Bool
  pub supports_partial : PartialSupport
  pub partial_x_alignment : ℕ
  pub partial_y_alignment : ℕ
  pub supports_direct_write : Bool
  pub supports_pipe_write : Bool
  pub supports_compression : Bool
  pub max_contiguous_write : ℕ
  pub staging_bytes_required : ℕ

-- `DisplayCapabilities caps_{}`
abbrev pub default_capabilities : DisplayCapabilities
default_capabilities = record {
  width = 0;
  height = 0;
  rotation = 0;
  color_scheme = 0;
  panel_ic_type = 0;
  full_frame_bytes = 0;
  row_stride_bytes = 0;
  byte_alignment = 1;
  supports_full_refresh = true;
  supports_fast_refresh = false;
  supports_partial = PartialSupport.none;
  partial_x_alignment = 1;
  partial_y_alignment = 1;
  supports_direct_write = false;
  supports_pipe_write = false;
  supports_compression = false;
  max_contiguous_write = 0;
  staging_bytes_required = 0;
}

pub record FrameDescriptor : Type 0 where
  pub total_bytes : ℕ  -- uint32_t
  pub color_scheme : ℕ
  pub compressed : Bool
  pub partial : Bool
  pub x : ℕ
  pub y : ℕ
  pub w : ℕ
  pub h : ℕ

-- `FrameDescriptor frame{}`
abbrev pub no_frame : FrameDescriptor
no_frame = record {
  total_bytes = 0;
  color_scheme = 0;
  compressed = false;
  partial = false;
  x = 0;
  y = 0;
  w = 0;
  h = 0;
}

pub data BackendResult : Type 0 where
  ok unsupported invalid_argument out_of_memory device_error : BackendResult

pub data PollResult : Type 0 where
  pending complete failed : PollResult

-- The comparisons that the code makes on these enumerations.
abbrev pub is_idle : State → Bool
is_idle State.idle = true
is_idle _ = false

abbrev pub is_receiving : State → Bool
is_receiving State.receiving = true
is_receiving _ = false

abbrev pub is_refreshing : State → Bool
is_refreshing State.refreshing = true
is_refreshing _ = false

abbrev pub is_direct : TransferMode → Bool
is_direct TransferMode.direct = true
is_direct _ = false

abbrev pub is_pipe : TransferMode → Bool
is_pipe TransferMode.pipe = true
is_pipe _ = false

abbrev pub is_ok : BackendResult → Bool
is_ok BackendResult.ok = true
is_ok _ = false

abbrev pub is_invalid_size : ErrorCode → Bool
is_invalid_size ErrorCode.invalid_size = true
is_invalid_size _ = false
