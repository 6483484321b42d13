-- ===== src/Protocol/Chunk.antt =====
-- protocol.cpp `encode_config_chunk`, the 0x0040 response.
pub mod Delivery
use od_esphome.Base.{
  ℕ, ◌+◌, ◌-◌, ◌*◌, List, [], ◌∷◌, ◌++◌, ltb, leb, ◌==◌, if◌then◌else◌, length, take, drop, u8, u16,
}
use od_esphome.Wire.{resp_ack, cmd_config_read, max_response_data_size}
use od_esphome.Protocol.Frame.{put_u16_le}
use od_esphome.Protocol.Response.{Response}

-- Chunk 0 has a header of 6 bytes, a later one of 4.
abbrev pub chunk_header : ℕ → ℕ
chunk_header index = if index == 0 then 6 else 4

abbrev pub chunk_capacity : ℕ → ℕ
chunk_capacity index = max_response_data_size - chunk_header index

abbrev pub chunk_offset : ℕ → ℕ
chunk_offset index =
    if index == 0
    then 0
    else max_response_data_size - 6 + (index - 1) * (max_response_data_size - 4)

-- The bytes of the blob that a chunk carries.
abbrev pub chunk_data : List ℕ → ℕ → List ℕ
chunk_data blob index =
    let remaining = length blob - chunk_offset index in
    let n = if ltb remaining (chunk_capacity index) then remaining else chunk_capacity index in
    take n (drop (chunk_offset index) blob)

unfoldable pub encode_config_chunk : List ℕ → ℕ → Response
encode_config_chunk blob index =
    if leb (length blob) (chunk_offset index)
    then []
    else resp_ack
      ∷ u8 cmd_config_read
      ∷ (put_u16_le index
          ++ ((if index == 0 then put_u16_le (u16 (length blob)) else []) ++ chunk_data blob index))
