-- ===== src/Protocol/Config.antt =====
-- protocol.cpp `append_packet` and `build_config_blob`. The packet layouts are the packed structs
-- of opendisplay_structs.h; `out` is the list of the bytes written so far, so `pos` is its length.
pub mod Layout
use od_esphome.Base.{
  ℕ, ◌+◌, not, ◌&&◌, ◌||◌, Option, none, some, List, [], ◌∷◌, ◌++◌, ltb, ◌==◌, if◌then◌else◌,
  length, drop, replicate, u16,
}
use od_esphome.Types.{DisplayCapabilities}
use od_esphome.Protocol.Frame.{put_u16_le}
use od_esphome.Protocol.Crc.{crc16_ccitt_false}

pub data ConfigBuildError : Type 0 where
  zero_geometry unsupported_scheme no_transmission_mode frame_bytes_zero : ConfigBuildError

-- The blob, or the error.
pub data Built : Type 0 where
  blob : List ℕ → Built
  error : ConfigBuildError → Built

-- Packet types.
abbrev pub od_pkt_system : ℕ
od_pkt_system = 0x01

abbrev pub od_pkt_manufacturer : ℕ
od_pkt_manufacturer = 0x02

abbrev pub od_pkt_power : ℕ
od_pkt_power = 0x04

abbrev pub od_pkt_display : ℕ
od_pkt_display = 0x20

-- `struct OuterPacketHeader`, zero but for the version.
abbrev pub outer_header : List ℕ
outer_header = 0 ∷ 0 ∷ 1 ∷ []

-- `struct SystemConfig`, zero but for the type of the chip.
abbrev pub system_config : ℕ → List ℕ
system_config ic_type = put_u16_le ic_type ++ replicate 20 0

-- `struct ManufacturerData` with OD_MANUFACTURER_DIY, which is 0.
abbrev pub manufacturer_data : List ℕ
manufacturer_data = put_u16_le 0 ++ replicate 20 0

-- `struct PowerOption`, zero.
abbrev pub power_option : List ℕ
power_option = replicate 30 0

-- OD_TRANSMISSION_MODE_DIRECT_WRITE is bit 3 and OD_TRANSMISSION_MODE_PIPE_WRITE bit 4.
abbrev pub transmission_modes : DisplayCapabilities → ℕ
transmission_modes caps =
    (if caps.supports_direct_write then 8 else 0) + (if caps.supports_pipe_write then 16 else 0)

-- `struct DisplayConfig` as `build_config_blob` fills it in.
abbrev pub display_config : DisplayCapabilities → List ℕ
display_config caps =
    (0 ∷ 0 ∷ [])
    ++ (put_u16_le caps.panel_ic_type
        ++ (put_u16_le caps.width
            ++ (put_u16_le caps.height
                ++ (replicate 6 0
                    ++ (0
                        ∷ 0xff
                        ∷ 0xff
                        ∷ 0
                        ∷ 0xff
                        ∷ 0
                        ∷ 0
                        ∷ caps.color_scheme
                        ∷ transmission_modes caps
                        ∷ 0
                        ∷ 0xff
                        ∷ replicate 21 0)))))

-- `none` is the result false: the packet does not fit.
abbrev pub append_packet : List ℕ → ℕ → ℕ → List ℕ → Option (List ℕ)
append_packet out cap id payload =
    if ltb cap (length out + 2 + length payload) then none else some (out ++ (0 ∷ id ∷ payload))

abbrev pub and_then : Option (List ℕ) → ConfigBuildError → (List ℕ → Built) → Built
and_then none e k = error e
and_then (some out) e k = k out

-- The CRC is taken over the zeroed length, which is then written into the first two bytes.
unfoldable pub seal : List ℕ → ℕ → Built
seal out cap =
    if ltb cap (length out + 2)
    then error zero_geometry
    else let crc = put_u16_le (crc16_ccitt_false out) in
      blob (put_u16_le (u16 (length out + 2)) ++ (drop 2 out ++ crc))

unfoldable pub build_config_blob : DisplayCapabilities → ℕ → ℕ → Built
build_config_blob caps ic_type out_cap =
    if caps.width == 0 || caps.height == 0
    then error zero_geometry
    else if caps.full_frame_bytes == 0
    then error frame_bytes_zero
    else if not caps.supports_direct_write && not caps.supports_pipe_write
    then error no_transmission_mode
    else if ltb out_cap 3
    then error zero_geometry
    else and_then (append_packet outer_header out_cap od_pkt_system (system_config ic_type))
        zero_geometry
        (λ a.
          and_then (append_packet a out_cap od_pkt_manufacturer manufacturer_data) zero_geometry
            (λ b. and_then (append_packet b out_cap od_pkt_power power_option) zero_geometry (λ c.
              and_then (append_packet c out_cap od_pkt_display (display_config caps))
                unsupported_scheme (λ d. seal d out_cap))))
