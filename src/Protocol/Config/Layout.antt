-- ===== src/Protocol/Config/Layout.antt =====
-- The blob that `build_config_blob` makes, as its reader takes it apart.
use od_esphome.Protocol.Frame.{byte_at, get_u16_le, put_u16_le}
use od_esphome.Protocol.Crc.{crc16_ccitt_false}
use od_esphome.Protocol.Config.{
  Built, ConfigBuildError, build_config_blob, transmission_modes, seal, outer_header, od_pkt_system,
  system_config, od_pkt_manufacturer, manufacturer_data, od_pkt_power, power_option, od_pkt_display,
  display_config,
}
use od_esphome.Base.{
  List, ℕ, ◌≢◌, ◌∷◌, ◌≡◌, ◌<◌, ◌^◌, ◌↔◌, take, true, ◌⊎◌, length, drop, ◌++◌, refl, ◌∙◌,
  if◌then◌else◌, arith, u16, ◌==◌, ◌||◌, not, ◌&&◌,
}
use od_esphome.Types.{DisplayCapabilities}
use od_esphome.Wire.{config_blob_max}

-- The capabilities that a blob may be built from.
abbrev pub IsAdvertisable : DisplayCapabilities → Type 0
IsAdvertisable caps =
    (caps.width ≢ 0)
    × (caps.height ≢ 0)
    × (caps.full_frame_bytes ≢ 0)
    × ((caps.supports_direct_write ≡ true) ⊎ (caps.supports_pipe_write ≡ true))

-- The packets behind the header.
abbrev packets : DisplayCapabilities → ℕ → List ℕ
packets caps ic_type =
    (((outer_header ++ (0 ∷ od_pkt_system ∷ system_config ic_type))
        ++ (0 ∷ od_pkt_manufacturer ∷ manufacturer_data))
      ++ (0 ∷ od_pkt_power ∷ power_option))
    ++ (0 ∷ od_pkt_display ∷ display_config caps)

-- The error of capabilities that cannot be advertised.
abbrev reason : DisplayCapabilities → ConfigBuildError
reason caps =
    if caps.width == 0 || caps.height == 0
    then ConfigBuildError.zero_geometry
    else if caps.full_frame_bytes == 0
    then ConfigBuildError.frame_bytes_zero
    else ConfigBuildError.no_transmission_mode

-- The validation in front of the build, with the build in its last branch.
validated :
    (caps : DisplayCapabilities) (built : Built)
    → let r =
        if caps.width == 0 || caps.height == 0
        then Built.error ConfigBuildError.zero_geometry
        else if caps.full_frame_bytes == 0
        then Built.error ConfigBuildError.frame_bytes_zero
        else if not caps.supports_direct_write && not caps.supports_pipe_write
        then Built.error ConfigBuildError.no_transmission_mode
        else built in
      (IsAdvertisable caps → r ≡ built)
      × (¬ IsAdvertisable caps → (why : ConfigBuildError) × (r ≡ Built.error why))
validated caps built = (λ a. ground arith, λ not_a. (reason caps, ground arith))

build-seal :
    (caps : DisplayCapabilities) (ic_type : ℕ)
    → IsAdvertisable caps
    → build_config_blob caps ic_type config_blob_max ≡ seal (packets caps ic_type) config_blob_max
unfolding build_config_blob
build-seal caps ic_type = (validated caps (seal (packets caps ic_type) config_blob_max)).0

seal-packets :
    (caps : DisplayCapabilities) (ic_type : ℕ)
    → seal (packets caps ic_type) config_blob_max
      ≡ Built.blob (
          put_u16_le 133
          ++ (drop 2 (packets caps ic_type)
              ++ put_u16_le (crc16_ccitt_false (packets caps ic_type))))
unfolding seal
seal-packets caps ic_type = refl

-- The blob.
abbrev sealed : DisplayCapabilities → ℕ → List ℕ
sealed caps ic_type =
    put_u16_le 133
    ++ (drop 2 (packets caps ic_type) ++ put_u16_le (crc16_ccitt_false (packets caps ic_type)))

build-sealed :
    (caps : DisplayCapabilities) (ic_type : ℕ)
    → IsAdvertisable caps
    → build_config_blob caps ic_type config_blob_max ≡ Built.blob (sealed caps ic_type)
build-sealed caps ic_type a = build-seal caps ic_type a ∙ seal-packets caps ic_type

-- With room for 160 bytes the build fails exactly for the capabilities that cannot be advertised: no
-- width or height, no frame bytes, or neither transfer path.
pub build_config_blob-fails :
    (caps : DisplayCapabilities) (ic_type : ℕ)
    → ((why : ConfigBuildError) × (build_config_blob caps ic_type config_blob_max
          ≡ Built.error why))
      ↔ (¬ IsAdvertisable caps)
unfolding build_config_blob
build_config_blob-fails caps ic_type = (
  λ failed a. cc (failed.1, build-sealed caps ic_type a),
  (validated caps (seal (packets caps ic_type) config_blob_max)).1,
)

-- The bytes that the CRC covers: those of the blob, with the two bytes of the length zero and
-- without the CRC.
abbrev pub covered : List ℕ → List ℕ
covered b = 0 ∷ 0 ∷ take 129 (drop 2 b)

-- What a reader finds in a blob for capabilities and a chip type.
pub record IsLayout (caps : DisplayCapabilities) (ic_type : ℕ) (b : List ℕ) : Type 0 where
  pub size : length b ≡ 133
  pub claimed : get_u16_le b 0 ≡ 133
  pub crc : get_u16_le b 131 ≡ u16 (crc16_ccitt_false (covered b))
  pub chip : get_u16_le b 5 ≡ ic_type
  pub panel : get_u16_le b 87 ≡ caps.panel_ic_type
  pub width : get_u16_le b 89 ≡ caps.width
  pub height : get_u16_le b 91 ≡ caps.height
  pub scheme : byte_at b 106 ≡ caps.color_scheme
  pub modes : byte_at b 107 ≡ transmission_modes caps

-- Advertisable capabilities give a blob of 133 bytes, if their fields and the chip type are 16-bit
-- numbers. The first two bytes are that length and the last two the CRC of the rest, taken with the
-- length zeroed; the system packet holds the chip type, and the display packet the panel's type,
-- width, height and colour scheme and the transmission modes.
pub build_config_blob-IsLayout :
    (caps : DisplayCapabilities) (ic_type : ℕ)
    → IsAdvertisable caps
    → caps.width < 2 ^ 16
    → caps.height < 2 ^ 16
    → caps.panel_ic_type < 2 ^ 16
    → ic_type < 2 ^ 16
    → (b : List ℕ) × (build_config_blob caps ic_type config_blob_max ≡ Built.blob b)
      × IsLayout caps ic_type b
build_config_blob-IsLayout caps ic_type a w h p i = (
  sealed caps ic_type,
  build-sealed caps ic_type a,
  record {
    size = refl;
    claimed = refl;
    crc = omega arith;
    chip = omega arith;
    panel = omega arith;
    width = omega arith;
    height = omega arith;
    scheme = refl;
    modes = refl;
  },
)
