-- ===== src/Component/Names.antt =====
-- opendisplay.cpp `opcode_name`: the text of a command in the log.
use Prim.Native.String.{String}
use od_esphome.Base.{ℕ, if◌then◌else◌, ◌==◌}
use od_esphome.Wire.{
  cmd_config_read, cmd_firmware_version, cmd_read_msd, cmd_direct_write_start,
  cmd_direct_write_data, cmd_direct_write_end, cmd_pipe_write_start, cmd_pipe_write_data,
  cmd_pipe_write_end,
}

unfoldable pub opcode_name : ℕ → String
opcode_name opcode =
    if opcode == cmd_config_read
    then "CONFIG_READ"
    else if opcode == cmd_firmware_version
    then "FIRMWARE_VERSION"
    else if opcode == cmd_read_msd
    then "READ_MSD"
    else if opcode == cmd_direct_write_start
    then "DIRECT_WRITE_START"
    else if opcode == cmd_direct_write_data
    then "DIRECT_WRITE_DATA"
    else if opcode == cmd_direct_write_end
    then "DIRECT_WRITE_END"
    else if opcode == cmd_pipe_write_start
    then "PIPE_WRITE_START"
    else if opcode == cmd_pipe_write_data
    then "PIPE_WRITE_DATA"
    else if opcode == cmd_pipe_write_end
    then "PIPE_WRITE_END"
    else "UNSUPPORTED"
