-- ===== src/Tests/Protocol.antt =====
-- protocol.cpp on concrete packets.
use od_esphome.Protocol.Config.{Built, ConfigBuildError, build_config_blob}
use od_esphome.Protocol.Config.Layout.{
  IsAdvertisable, IsLayout, build_config_blob-IsLayout, build_config_blob-fails,
}
use od_esphome.Protocol.PipeStart.{Parsed, parse_pipe_start}
use od_esphome.Protocol.PipeStart.Request.{
  request, requested, parse_pipe_start-request, parse_pipe_start_past_end,
}
use od_esphome.Protocol.PipeStart.Accepted.{parse_pipe_start-ok, IsAcceptable}
use od_esphome.Protocol.Sack.{build_inorder_ack_mask, encode_pipe_sack}
use od_esphome.Protocol.Sack.Mask.{build_inorder_ack_mask-bit, encode_pipe_sack-decode}
use od_esphome.Protocol.Msd.{Encoded, MsdInputs, build_msd}
use od_esphome.Protocol.Msd.Fields.{build_msd-fields, IsMsd}
use od_esphome.Protocol.Frame.{byte_at, get_u32_le}
use od_esphome.Types.{DisplayCapabilities, default_capabilities}
use od_esphome.Wire.{config_blob_max}
use od_esphome.Protocol.Version.{encode_version}
use od_esphome.Protocol.Version.Read.{read_version, read-encode_version}
use od_esphome.Base.{
  ℕ, List, [], ◌∷◌, true, false, some, refl, ◌≡◌, arith, length, replicate, inl, ◌++◌, ◌%◌, ◌/◌,
  ◌^◌, ◌↔◌,
}

-- The waveshare panel of the configuration examples, 800 by 480.
abbrev panel : DisplayCapabilities
panel = record default_capabilities {
  width = 800;
  height = 480;
  full_frame_bytes = 48000;
  supports_direct_write = true;
}

-- A blob of three chunks: 94, 96 and 10 bytes.
abbrev blob : List ℕ
blob = replicate 200 7

panel-IsAdvertisable : IsAdvertisable panel
panel-IsAdvertisable = (omega arith, omega arith, omega arith, inl refl)

build_config_blob-IsLayout_example :
    (b : List ℕ) × (build_config_blob panel 3 config_blob_max ≡ Built.blob b) × IsLayout panel 3 b
build_config_blob-IsLayout_example =
    build_config_blob-IsLayout panel 3 panel-IsAdvertisable (omega arith) (omega arith)
      (omega arith) (omega arith)

build_config_blob-fails_example :
    ((why : ConfigBuildError) × (build_config_blob default_capabilities 3 config_blob_max
        ≡ Built.error why))
    ↔ (¬ IsAdvertisable default_capabilities)
build_config_blob-fails_example = build_config_blob-fails default_capabilities 3

parse_pipe_start-request_example :
    parse_pipe_start (some (request 8 4 244 48000 ++ [])) 10 ≡ Parsed.ok (requested 8 4 244 48000)
parse_pipe_start-request_example =
    parse_pipe_start-request 8 4 244 48000 [] (omega arith, omega arith) (omega arith, omega arith)
      (omega arith) (omega arith)

parse_pipe_start_past_end_example :
    parse_pipe_start (some (1 ∷ 0 ∷ 8 ∷ 4 ∷ 244 ∷ 0 ∷ 128 ∷ 187 ∷ 1 ∷ 0 ∷ [])) 8
    ≡ Parsed.ok (requested 8 4 244 113536)
parse_pipe_start_past_end_example =
    parse_pipe_start_past_end 8 4 244 0 128 187 1 0 [] (omega arith, omega arith)
      (omega arith, omega arith)

parse_pipe_start-ok_example : IsAcceptable 10 (requested 8 4 244 48000)
unfolding parse_pipe_start
parse_pipe_start-ok_example =
    parse_pipe_start-ok (some (request 8 4 244 48000)) 10 (requested 8 4 244 48000) refl

build_inorder_ack_mask-bit_example : build_inorder_ack_mask 3 / 2 ^ 1 % 2 ≡ 1
build_inorder_ack_mask-bit_example = build_inorder_ack_mask-bit 3 1

encode_pipe_sack-decode_example :
    let r = encode_pipe_sack 9 511 in (length r ≡ 7) × (byte_at r 2 ≡ 9) × (get_u32_le r 3 ≡ 511)
encode_pipe_sack-decode_example = encode_pipe_sack-decode 9 511 (omega arith)

abbrev inputs : MsdInputs
inputs = record {
  battery_10mv = 600;
  temp_encoded = Encoded.non_negative 130;
  loop_counter = 19;
  reboot_flag = true;
  connection_requested = false;
}

build_msd-fields_example : IsMsd inputs (build_msd inputs)
build_msd-fields_example = build_msd-fields inputs

read-encode_version_example :
    read_version (encode_version 1 2 3 (some (50 ∷ 48 ∷ 50 ∷ 53 ∷ [])))
    ≡ some (record { major = 1; minor = 2; patch = 3; sha = 50 ∷ 48 ∷ 50 ∷ 53 ∷ [] })
read-encode_version_example = read-encode_version 1 2 3 (some (50 ∷ 48 ∷ 50 ∷ 53 ∷ []))
