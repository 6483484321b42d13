-- ===== src/Protocol/PipeStart/Accepted.antt =====
-- What `parse_pipe_start` accepts.
use od_esphome.Base.{ℕ, ◌≡◌, ◌≤◌, ◌<◌, ◌⊎◌, inl, inr, refl, false, Option, none, some, List, arith}
use od_esphome.Protocol.PipeStart.{PipeStartRequest, Parsed, parse_pipe_start}

pub Parsed-cases :
    (r : Parsed)
    → ((req : PipeStartRequest) × (r ≡ Parsed.ok req))
      ⊎ ((scoped : ℕ) × (r ≡ Parsed.rejected scoped))
Parsed-cases (Parsed.ok req) = inl (req, refl)
Parsed-cases (Parsed.rejected scoped) = inr (scoped, refl)

-- A request within the limits of the protocol, from a payload of `len` bytes.
pub record IsAcceptable (len : ℕ) (req : PipeStartRequest) : Type 0 where
  pub size : 8 ≤ len
  pub version : req.version ≡ 1
  pub flags : req.flags < 2
  pub whole : req.partial ≡ false
  pub window : (1 ≤ req.req_window) × (req.req_window ≤ 32)
  pub ack_every : (1 ≤ req.req_ack_every) × (req.req_ack_every ≤ 32)

-- An accepted request has at least eight bytes of payload, version 1, no flag but the compression
-- bit, and a window and a cadence from 1 to 32.
pub parse_pipe_start-ok :
    (p : Option (List ℕ)) (len : ℕ) (req : PipeStartRequest)
    → parse_pipe_start p len ≡ Parsed.ok req
    → IsAcceptable len req
unfolding parse_pipe_start
parse_pipe_start-ok none len req h = ground arith
parse_pipe_start-ok (some p) len req h = ground arith
