-- ===== src/Protocol/PipeStart.antt =====
-- protocol.cpp `parse_pipe_start`, the 0x0080 request. The flag tests are on single bits:
-- `flags & ~(COMPRESSED | PARTIAL)` is non-zero when a bit above bit 1 is set.
pub mod Accepted
pub mod Request
use od_esphome.Base.{
  ℕ, ◌+◌, ◌/◌, ◌%◌, Bool, not, ◌||◌, Option, none, some, List, ltb, ◌==◌, if◌then◌else◌,
}
use od_esphome.Wire.{
  pipe_version, pipe_window_limit_lo, pipe_window_limit_hi, od_err_pipe_start_bad_header,
  od_err_pipe_start_unknown_flag, od_err_pipe_start_partial_unsupported,
}
use od_esphome.Protocol.Frame.{byte_at, get_u16_le, get_u32_le}

pub record PipeStartRequest : Type 0 where
  pub version : ℕ
  pub flags : ℕ
  pub req_window : ℕ
  pub req_ack_every : ℕ
  pub client_max_frame : ℕ  -- uint16_t
  pub total_size : ℕ  -- uint32_t
  pub partial : Bool

-- True with `*out`, or false with `*scoped_error`.
pub data Parsed : Type 0 where
  ok : PipeStartRequest → Parsed
  rejected : ℕ → Parsed

abbrev pub hdr : ℕ
hdr = 8

abbrev pub hdr_partial : ℕ
hdr_partial = hdr + 12

abbrev pub pipe_flag_compressed : ℕ → Bool
pipe_flag_compressed flags = flags % 2 == 1

abbrev pub pipe_flag_partial : ℕ → Bool
pipe_flag_partial flags = flags / 2 % 2 == 1

abbrev pub out_of_window : ℕ → Bool
out_of_window n = ltb n pipe_window_limit_lo || ltb pipe_window_limit_hi n

-- The fields as `parse_pipe_start` fills them in.
abbrev pub read_request : List ℕ → PipeStartRequest
read_request p = record {
  version = byte_at p 0;
  flags = byte_at p 1;
  req_window = byte_at p 2;
  req_ack_every = byte_at p 3;
  client_max_frame = get_u16_le p 4;
  total_size = get_u32_le p 6;
  partial = pipe_flag_partial (byte_at p 1);
}

unfoldable pub parse_pipe_start : Option (List ℕ) → ℕ → Parsed
parse_pipe_start none len = rejected od_err_pipe_start_bad_header
parse_pipe_start (some p) len =
    let out = read_request p in
    if ltb len hdr
    then rejected od_err_pipe_start_bad_header
    else if not (out.version == pipe_version)
    then rejected od_err_pipe_start_bad_header
    else if not (out.flags / 4 == 0)
    then rejected od_err_pipe_start_unknown_flag
    else if out.partial
    then (if ltb len hdr_partial
        then rejected od_err_pipe_start_bad_header
        else rejected od_err_pipe_start_partial_unsupported)
    else if out_of_window out.req_window || out_of_window out.req_ack_every
    then rejected od_err_pipe_start_bad_header
    else ok out
