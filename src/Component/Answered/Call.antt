-- ===== src/Component/Answered/Call.antt =====
-- The calls of the transfer engine that packets select, and how many frames each has to send.
use od_esphome.Types.{TransferMode}
use od_esphome.Protocol.PipeStart.{PipeStartRequest, parse_pipe_start}
use od_esphome.Protocol.PipeStart.Accepted.{Parsed-cases}
use od_esphome.Base.{
  Option-cases, inl, inr, Bool, ◌==◌, ◌||◌, ℕ, ◌≡◌, ◌++◌, [], List, length, Option, ◌≤◌, false,
  if◌then◌else◌, arith, ap, refl,
}
use od_esphome.Protocol.Frame.{Frame}
use od_esphome.Protocol.Response.{Response}
use od_esphome.Backend.{Backend}
use od_esphome.Wire.{
  cmd_direct_write_start, cmd_direct_write_data, cmd_direct_write_end, cmd_pipe_write_start,
  cmd_pipe_write_data, cmd_pipe_write_end,
}
use od_esphome.Engine.Start.{
  on_direct_start, on_pipe_start, start_pipe, begin_transaction, full_frame_of,
}
use od_esphome.Engine.Terminal.Flags.{
  direct_data_flags, direct_end_flags, pipe_data_flags, pipe_end_flags,
}
use od_esphome.Engine.State.{Engine, EngineResult}
use od_esphome.Engine.Tick.{tick}
use od_esphome.Engine.Calls.{Call, step}
use od_esphome.Component.Answered.{told}
use od_esphome.Component.Answered.Queued.{frames_of, tail_of, frame_of}
use od_esphome.Component.Answered.Pass.{untail}

-- The opcodes of the transfer engine, and the handler that each selects.
abbrev pub is_transfer_opcode : ℕ → Bool
is_transfer_opcode opcode =
    opcode == cmd_direct_write_start
    || opcode == cmd_direct_write_data
    || opcode == cmd_direct_write_end
    || opcode == cmd_pipe_write_start
    || opcode == cmd_pipe_write_data
    || opcode == cmd_pipe_write_end

abbrev pub call_of : Frame → ℕ → Call
call_of f now_ms =
    if f.opcode == cmd_direct_write_start
    then Call.direct_start f.payload f.payload_len now_ms
    else if f.opcode == cmd_direct_write_data
    then Call.direct_data f.payload f.payload_len now_ms
    else if f.opcode == cmd_direct_write_end
    then Call.direct_end f.payload f.payload_len now_ms
    else if f.opcode == cmd_pipe_write_start
    then Call.pipe_start f.payload f.payload_len now_ms
    else if f.opcode == cmd_pipe_write_data
    then Call.pipe_data f.payload f.payload_len now_ms
    else Call.pipe_end f.payload f.payload_len now_ms

module _ {D : Type 0} (api : Backend D) where
  -- Behind a call and the fetch of a tail SACK, what `tick` adds.
  abbrev pub ticked : Engine D → ℕ → EngineResult × Engine D
  ticked e now_ms = tick api (untail e) now_ms

  direct_start_flags :
      (e : Engine D) (p : Option (List ℕ)) (len now_ms : ℕ)
      → told (on_direct_start api e p len now_ms).0 ≡ []
  unfolding on_direct_start
  direct_start_flags e p len now_ms =
      let total = full_frame_of api e.backend in
      let begun = begin_transaction api e TransferMode.direct total now_ms in
      elim (Option-cases begun.0) [ inl h ↦ ground (arith, h) | inr (why, h) ↦ ground (arith, h) ]

  start_pipe_flags :
      (e : Engine D) (req : PipeStartRequest) (now_ms : ℕ)
      → told (start_pipe api e req now_ms).0 ≡ []
  unfolding start_pipe
  start_pipe_flags e req now_ms =
      let begun = begin_transaction api e TransferMode.pipe req.total_size now_ms in
      elim (Option-cases begun.0) [ inl h ↦ ground (arith, h) | inr (why, h) ↦ ground (arith, h) ]

  pipe_start_flags :
      (e : Engine D) (p : Option (List ℕ)) (len now_ms : ℕ)
      → told (on_pipe_start api e p len now_ms).0 ≡ []
  unfolding on_pipe_start
  pipe_start_flags e p len now_ms = elim (Parsed-cases (parse_pipe_start p len)) [
    | inl (req, h) ↦ rw (h, on_pipe_start) (start_pipe_flags e req now_ms)
    | inr (scoped, h) ↦ rw (h, on_pipe_start) refl
  ]

  call-told : (e : Engine D) (f : Frame) (now_ms : ℕ) → told (step api e (call_of f now_ms)).0 ≡ []
  unfolding step
  call-told e f now_ms = ground (
    arith,
    direct_start_flags e f.payload f.payload_len now_ms,
    direct_data_flags api e f.payload f.payload_len now_ms,
    direct_end_flags api e f.payload f.payload_len now_ms,
    pipe_start_flags e f.payload f.payload_len now_ms,
    pipe_data_flags api e f.payload f.payload_len now_ms,
    pipe_end_flags api e f.payload f.payload_len now_ms,
  )

  pub tick-frames :
      (e : Engine D) (now_ms : ℕ)
      → e.has_tail_sack ≡ false
      → length (frames_of (tick api e now_ms)) ≤ 1
  unfolding tick
  tick-frames e now_ms no_tail = ground (arith, no_tail)

  few_frames :
      (called : EngineResult × Engine D) → told called.0 ≡ [] → length (frames_of called) ≤ 2
  few_frames (res, e) h =
      let same : frames_of (res, e) ≡ tail_of e ++ (frame_of res.response ++ []) =
        ap (λ (l : List Response). tail_of e ++ (frame_of res.response ++ l)) h in
      let few : length (tail_of e ++ (frame_of res.response ++ [])) ≤ 2 = ground arith in
      omega (arith, ap length same, few)

  pub call-frames :
      (e : Engine D) (f : Frame) (now_ms : ℕ)
      → length (frames_of (step api e (call_of f now_ms))) ≤ 2
  call-frames e f now_ms = few_frames (step api e (call_of f now_ms)) (call-told e f now_ms)
