-- ===== src/Protocol/PipeStart/Request.antt =====
-- A 0x0080 request as a client writes it, against `parse_pipe_start`.
use od_esphome.Protocol.PipeStart.{PipeStartRequest, Parsed, parse_pipe_start}
use od_esphome.Base.{
  ℕ, false, List, ◌≤◌, ◌∷◌, ◌<◌, u8, some, ◌/◌, ◌^◌, ◌≡◌, ◌++◌, [], ◌+◌, arith, ◌*◌,
}

-- The payload of an uncompressed full-frame request, after opendisplay_protocol.h.
abbrev pub request : ℕ → ℕ → ℕ → ℕ → List ℕ
request window ack_every max_frame total_size =
    1
    ∷ 0
    ∷ window
    ∷ ack_every
    ∷ u8 max_frame
    ∷ u8 (max_frame / 2 ^ 8)
    ∷ u8 total_size
    ∷ u8 (total_size / 2 ^ 8)
    ∷ u8 (total_size / 2 ^ 16)
    ∷ u8 (total_size / 2 ^ 24)
    ∷ []

abbrev pub requested : ℕ → ℕ → ℕ → ℕ → PipeStartRequest
requested window ack_every max_frame total_size = record {
  version = 1;
  flags = 0;
  req_window = window;
  req_ack_every = ack_every;
  client_max_frame = max_frame;
  total_size = total_size;
  partial = false;
}

-- A request for a window and a cadence from 1 to 32, a 16-bit frame and a 32-bit size is read back
-- as it was written, whatever follows it in the buffer.
pub parse_pipe_start-request :
    (window ack_every max_frame total_size : ℕ) (rest : List ℕ)
    → (1 ≤ window) × (window ≤ 32)
    → (1 ≤ ack_every) × (ack_every ≤ 32)
    → max_frame < 2 ^ 16
    → total_size < 2 ^ 32
    → parse_pipe_start (some (request window ack_every max_frame total_size ++ rest)) 10
      ≡ Parsed.ok (requested window ack_every max_frame total_size)
unfolding parse_pipe_start
parse_pipe_start-request window ack_every max_frame total_size rest w a f t = ground arith

-- A request of eight bytes that is otherwise acceptable is accepted, and the two high bytes of its
-- size are the bytes that stand behind it in the buffer.
pub parse_pipe_start_past_end :
    (window ack_every f g s t x y : ℕ) (rest : List ℕ)
    → (1 ≤ window) × (window ≤ 32)
    → (1 ≤ ack_every) × (ack_every ≤ 32)
    → parse_pipe_start (some (1 ∷ 0 ∷ window ∷ ack_every ∷ f ∷ g ∷ s ∷ t ∷ x ∷ y ∷ rest)) 8
      ≡ Parsed.ok
          (requested window ack_every (f + g * 256) (s + t * 256 + x * 65536 + y * 16777216))
unfolding parse_pipe_start
parse_pipe_start_past_end window ack_every f g s t x y rest w a = ground arith
