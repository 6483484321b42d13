-- ===== src/Protocol/Msd.antt =====
-- protocol.cpp `build_msd` and `encode_msd_response`. The floating-point temperature enters by the
-- integer that `static_cast<int32_t>((t + 40.0f) * 2.0f)` gives, as a sign and a magnitude; the
-- layout is `struct MsdAdvertisement` of opendisplay_structs.h. The bits of the status byte do not
-- overlap, so `|=` is a sum.
pub mod Fields
use od_esphome.Base.{
  ℕ, ◌+◌, ◌*◌, ◌/◌, ◌%◌, Bool, List, [], ◌∷◌, ◌++◌, ltb, ◌==◌, if◌then◌else◌, replicate, u8,
}
use od_esphome.Wire.{resp_ack, cmd_read_msd}
use od_esphome.Protocol.Frame.{put_u16_le}
use od_esphome.Protocol.Response.{Response}

abbrev pub msd_bytes : ℕ
msd_bytes = 16

abbrev pub od_ble_manufacturer_id : ℕ
od_ble_manufacturer_id = 0x2446

-- An int32_t by its sign and magnitude.
pub data Encoded : Type 0 where
  non_negative : ℕ → Encoded
  negative : ℕ → Encoded

pub record MsdInputs : Type 0 where
  pub temp_encoded : Encoded
  pub battery_10mv : ℕ  -- uint16_t
  pub reboot_flag : Bool
  pub connection_requested : Bool
  pub loop_counter : ℕ  -- uint8_t

abbrev pub clamp_temperature : Encoded → ℕ
clamp_temperature (negative n) = 0
clamp_temperature (non_negative n) = if ltb 255 n then 255 else n

abbrev pub clamp_battery : ℕ → ℕ
clamp_battery batt = if ltb 511 batt then 511 else batt

-- The flags in bits 0 to 2, and the low nibble of the counter in bits 4 to 7.
abbrev pub status_byte : MsdInputs → ℕ
status_byte i =
    (if clamp_battery i.battery_10mv / 256 % 2 == 1 then 1 else 0)
    + (if i.reboot_flag then 2 else 0)
    + (if i.connection_requested then 4 else 0)
    + i.loop_counter % 16 * 16

unfoldable pub build_msd : MsdInputs → List ℕ
build_msd i =
    put_u16_le od_ble_manufacturer_id
    ++ (replicate 11 0
        ++ (u8 (clamp_temperature i.temp_encoded)
            ∷ u8 (clamp_battery i.battery_10mv)
            ∷ status_byte i
            ∷ []))

unfoldable pub encode_msd_response : List ℕ → Response
encode_msd_response msd = resp_ack ∷ u8 cmd_read_msd ∷ msd
