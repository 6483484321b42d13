-- ===== src/Protocol/Response.antt =====
-- protocol.h `Response` and the generic responses of protocol.cpp. A response is the list of the
-- bytes data[0 .. len): the rest of the array is never read.
use od_esphome.Base.{ℕ, Bool, true, false, List, [], ◌∷◌, u8, ◌++◌}
use od_esphome.Wire.{resp_ack, resp_nack, pipe_version, cmd_pipe_write_start}
use od_esphome.Protocol.Frame.{put_u16_le}

abbrev pub Response : Type 0
Response = List ℕ

abbrev pub is_empty : Response → Bool
is_empty [] = true
is_empty (x ∷ xs) = false

unfoldable pub encode_ack : ℕ → Response
encode_ack opcode = resp_ack ∷ u8 opcode ∷ []

unfoldable pub encode_nack : ℕ → Response
encode_nack opcode = resp_nack ∷ u8 opcode ∷ []

unfoldable pub encode_nack_err : ℕ → ℕ → Response
unfolding encode_nack
encode_nack_err opcode scoped_error = encode_nack opcode ++ (scoped_error ∷ 0x00 ∷ [])

unfoldable pub encode_pipe_start_response : ℕ → ℕ → ℕ → ℕ → Response
encode_pipe_start_response max_window max_ack_every max_frame resp_flags =
    resp_ack
    ∷ u8 cmd_pipe_write_start
    ∷ pipe_version
    ∷ max_window
    ∷ max_ack_every
    ∷ (put_u16_le max_frame ++ (resp_flags ∷ []))
