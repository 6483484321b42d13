-- ===== src/Protocol/Msd/Fields.antt =====
-- What a reader of the 16 bytes of `build_msd` gets back.
use Prim.Native.Nat.{min}
use od_esphome.Protocol.Frame.{byte_at, get_u16_le}
use od_esphome.Protocol.Msd.{
  Encoded, MsdInputs, clamp_temperature, msd_bytes, od_ble_manufacturer_id, build_msd,
}
use od_esphome.Base.{
  u8, take, drop, replicate, Bool, length, ◌≡◌, ℕ, ◌+◌, true, ◌%◌, false, ◌*◌, ◌/◌, arith, refl,
  List,
}

abbrev flag : Bool → ℕ
flag true = 1
flag false = 0

abbrev at_least_zero : Encoded → ℕ
at_least_zero (Encoded.non_negative n) = n
at_least_zero (Encoded.negative n) = 0

-- The fields of an advertisement, as its reader finds them.
pub record IsMsd (i : MsdInputs) (m : List ℕ) : Type 0 where
  pub size : length m ≡ msd_bytes
  pub company : get_u16_le m 0 ≡ od_ble_manufacturer_id
  pub dynamic : take 11 (drop 2 m) ≡ replicate 11 0
  pub temperature : byte_at m 13 ≡ min (at_least_zero i.temp_encoded) 255
  pub battery : byte_at m 14 + byte_at m 15 % 2 * 256 ≡ min i.battery_10mv 511
  pub reboot : byte_at m 15 / 2 % 2 ≡ flag i.reboot_flag
  pub connection : byte_at m 15 / 4 % 2 ≡ flag i.connection_requested
  pub spare : byte_at m 15 / 8 % 2 ≡ 0
  pub counter : byte_at m 15 / 16 ≡ i.loop_counter % 16

encoded_byte : (t : Encoded) → u8 (clamp_temperature t) ≡ min (at_least_zero t) 255
encoded_byte (Encoded.non_negative n) = ground arith
encoded_byte (Encoded.negative n) = refl

-- The record has 16 bytes, with the company identifier in front and the 11 dynamic bytes zero. Byte
-- 13 is the encoded temperature, raised to 0 if it is below and lowered to 255 if it is above. The
-- battery voltage, capped at 511, is in byte 14 and bit 0 of the status; the reboot flag is bit 1,
-- the connection request bit 2, bit 3 is clear, and the low nibble of the loop counter is in bits 4
-- to 7, all independent of one another.
pub build_msd-fields : (i : MsdInputs) → IsMsd i (build_msd i)
unfolding build_msd
build_msd-fields i = record {
  size = refl;
  company = refl;
  dynamic = refl;
  temperature = encoded_byte i.temp_encoded;
  battery = ground arith;
  reboot = ground arith;
  connection = ground arith;
  spare = ground arith;
  counter = ground arith;
}
