-- ===== src/Protocol/Sack.antt =====
-- protocol.cpp, the 0x0081 responses: SACK, fatal NACK and the in-order acknowledgement mask.
pub mod Mask
use od_esphome.Base.{ℕ, ◌+◌, ◌-◌, ◌/◌, ◌%◌, ◌^◌, List, [], ◌∷◌, leb, if◌then◌else◌, u8}
use od_esphome.Wire.{resp_ack, resp_nack, cmd_pipe_write_data, pipe_ack_mask_bits}
use od_esphome.Protocol.Response.{Response}

-- The four bytes of a mask, least significant first.
abbrev pub mask_bytes : ℕ → List ℕ
mask_bytes m = u8 m ∷ u8 (m / 2 ^ 8) ∷ u8 (m / 2 ^ 16) ∷ u8 (m / 2 ^ 24) ∷ []

unfoldable pub encode_pipe_sack : ℕ → ℕ → Response
encode_pipe_sack highest_seen ack_mask =
    resp_ack ∷ u8 cmd_pipe_write_data ∷ highest_seen ∷ mask_bytes ack_mask

unfoldable pub encode_pipe_nack : ℕ → ℕ → ℕ → Response
encode_pipe_nack err highest_seen ack_mask =
    resp_nack ∷ u8 cmd_pipe_write_data ∷ err ∷ highest_seen ∷ mask_bytes ack_mask

unfoldable pub build_inorder_ack_mask : ℕ → ℕ
build_inorder_ack_mask accepted_packets =
    if leb accepted_packets 1
    then 0
    else if leb pipe_ack_mask_bits (accepted_packets - 1)
    then 0xffff_ffff
    else 2 ^ (accepted_packets - 1) - 1
