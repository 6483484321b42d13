-- ===== src/Wire.antt =====
-- The wire constants that the component uses, from components/opendisplay/opendisplay_protocol.h
-- and components/opendisplay/opendisplay_structs.h, and the limits of protocol_types.h and
-- protocol.h.
use od_esphome.Base.{ℕ}

-- Command opcodes.
abbrev pub cmd_config_read : ℕ
cmd_config_read = 0x0040

abbrev pub cmd_firmware_version : ℕ
cmd_firmware_version = 0x0043

abbrev pub cmd_read_msd : ℕ
cmd_read_msd = 0x0044

abbrev pub cmd_direct_write_start : ℕ
cmd_direct_write_start = 0x0070

abbrev pub cmd_direct_write_data : ℕ
cmd_direct_write_data = 0x0071

abbrev pub cmd_direct_write_end : ℕ
cmd_direct_write_end = 0x0072

abbrev pub cmd_pipe_write_start : ℕ
cmd_pipe_write_start = 0x0080

abbrev pub cmd_pipe_write_data : ℕ
cmd_pipe_write_data = 0x0081

abbrev pub cmd_pipe_write_end : ℕ
cmd_pipe_write_end = 0x0082

-- Status bytes and unsolicited responses.
abbrev pub resp_ack : ℕ
resp_ack = 0x00

abbrev pub resp_nack : ℕ
resp_nack = 0xff

abbrev pub resp_direct_write_refresh_success : ℕ
resp_direct_write_refresh_success = 0x73

abbrev pub resp_direct_write_refresh_timeout : ℕ
resp_direct_write_refresh_timeout = 0x74

-- Error bytes in the scope of 0x80.
abbrev pub od_err_pipe_start_bad_header : ℕ
od_err_pipe_start_bad_header = 0x01

abbrev pub od_err_pipe_start_unknown_flag : ℕ
od_err_pipe_start_unknown_flag = 0x02

abbrev pub od_err_pipe_start_size_mismatch : ℕ
od_err_pipe_start_size_mismatch = 0x03

abbrev pub od_err_pipe_start_partial_unsupported : ℕ
od_err_pipe_start_partial_unsupported = 0x06

-- Error bytes of the fatal 0x81 NACK.
abbrev pub od_pipe_nack_write_size : ℕ
od_pipe_nack_write_size = 0x03

abbrev pub od_pipe_nack_protocol : ℕ
od_pipe_nack_protocol = 0x04

-- PIPE parameters.
abbrev pub pipe_version : ℕ
pipe_version = 0x01

abbrev pub pipe_max_frame : ℕ
pipe_max_frame = 244

abbrev pub pipe_ack_mask_bits : ℕ
pipe_ack_mask_bits = 32

abbrev pub pipe_max_window : ℕ
pipe_max_window = 16

abbrev pub pipe_max_ack_every : ℕ
pipe_max_ack_every = 4

abbrev pub pipe_window_limit_lo : ℕ
pipe_window_limit_lo = 1

abbrev pub pipe_window_limit_hi : ℕ
pipe_window_limit_hi = 32

abbrev pub max_response_data_size : ℕ
max_response_data_size = 100

abbrev pub config_blob_max : ℕ
config_blob_max = 160

abbrev pub od_color_scheme_mono : ℕ
od_color_scheme_mono = 0
