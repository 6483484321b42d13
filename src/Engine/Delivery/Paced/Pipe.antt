-- ===== src/Engine/Delivery/Paced/Pipe.antt =====
-- The packets of a pipe transfer, each with a fetch of a tail SACK and a tick behind it.
use mathlib.Core.Path.{subst}
use od_esphome.Base.{
  refl, ℕ, suc, List, some, ◌++◌, ◌∷◌, [], length, ◌≡◌, ◌<◌, ◌≤◌, ◌^◌, ◌+◌, ◌-◌, false, ◌≢◌, u8,
  arith, sym, ◌∙◌, length-append, Option, Option-cases, inl, inr, drop,
}
use od_esphome.Wire.{cmd_pipe_write_end}
use od_esphome.Backend.{Backend}
use od_esphome.Protocol.Frame.{byte_at}
use od_esphome.Protocol.PipeStart.{PipeStartRequest, Parsed, parse_pipe_start}
use od_esphome.Protocol.PipeStart.Request.{request, requested, parse_pipe_start-request}
use od_esphome.Engine.State.{abort, Engine, EngineResult}
use od_esphome.Engine.Start.Begun.{begin-either}
use od_esphome.Engine.Start.{open_frame, on_pipe_start, start_pipe, begin_transaction}
use od_esphome.Engine.Pipe.{on_pipe_data, write_pipe, after_accept, accept_pipe, stage_tail_sack}
use od_esphome.Engine.Finish.{finish_and_refresh}
use od_esphome.Engine.Invariant.{Inv}
use od_esphome.Engine.Stalled.{IsTimed, pipe-IsTimed}
use od_esphome.Engine.Delivery.{Canvas, Showing}
use od_esphome.Engine.Delivery.Accepting.{pipe_data-Showing, pipe_data-Expecting}
use od_esphome.Engine.Delivery.Starting.{pipe_start-Painting}
use od_esphome.Engine.Delivery.Paced.{Awaiting, pipe-junk}
use od_esphome.Types.{ErrorCode, TransferMode}

module _ {D : Type 0} (api : Backend D) where
  finish-timeout :
      (e : Engine D) (opcode now_ms : ℕ)
      → (finish_and_refresh api e opcode now_ms).1.transfer_timeout_ms ≡ e.transfer_timeout_ms
  unfolding finish_and_refresh
  finish-timeout e opcode now_ms = ground arith

  after_accept-timeout :
      (e : Engine D) (now_ms : ℕ)
      → (after_accept api e now_ms).1.transfer_timeout_ms ≡ e.transfer_timeout_ms
  unfolding after_accept
  after_accept-timeout e now_ms =
      ground (arith, finish-timeout (stage_tail_sack e) cmd_pipe_write_end now_ms)

  write_pipe-timeout :
      (e : Engine D) (seq : ℕ) (chunk : List ℕ) (data_len now_ms : ℕ)
      → (write_pipe api e seq chunk data_len now_ms).1.transfer_timeout_ms ≡ e.transfer_timeout_ms
  unfolding write_pipe accept_pipe
  write_pipe-timeout e seq chunk data_len now_ms = elim (Option-cases e.backend) [
    | inl b ↦ ground (arith, b)
    | inr (d, b) ↦
        let d' = (api.write_contiguous d e.txn.accepted_bytes (some chunk) data_len).1 in
        let e' = accept_pipe (record e { backend = some d' }) seq data_len now_ms in
        ground (arith, b, after_accept-timeout e' now_ms)
  ]

  pipe_data-timeout :
      (e : Engine D) (p : List ℕ) (len now_ms : ℕ)
      → (on_pipe_data api e (some p) len now_ms).1.transfer_timeout_ms ≡ e.transfer_timeout_ms
  unfolding on_pipe_data
  pipe_data-timeout e p len now_ms =
      ground (arith, write_pipe-timeout e (byte_at p 0) (drop 1 p) (len - 1) now_ms)

  -- An engine with a timeout whose transfer, if there is one, started now.
  abbrev IsPaced : ℕ → ℕ → Engine D → Type 0
  IsPaced now_ms timeout e = (e.transfer_timeout_ms ≡ timeout) × IsTimed api e now_ms timeout

  open_frame-IsPaced :
      (e : Engine D) (d : D) (total now_ms timeout : ℕ)
      → e.transfer_timeout_ms ≡ timeout
      → total ≡ (api.capabilities d).full_frame_bytes
      → IsPaced now_ms timeout (open_frame api e d TransferMode.pipe total now_ms).1
  unfolding open_frame
  open_frame-IsPaced e d total now_ms timeout same sized = ground (arith, same, sized)

  abort-timeout :
      (e : Engine D) (error : ErrorCode)
      → (abort api e error).transfer_timeout_ms ≡ e.transfer_timeout_ms
  unfolding abort
  abort-timeout e error = ground arith

  start_pipe-IsPaced :
      (e : Engine D) (d : D) (req : PipeStartRequest) (now_ms timeout : ℕ)
      → e.backend ≡ some d
      → e.hw_owned ≡ false
      → e.transfer_timeout_ms ≡ timeout
      → req.flags ≡ 0
      → req.total_size ≡ (api.capabilities d).full_frame_bytes
      → req.total_size ≡ (api.capabilities (api.abort_transfer d)).full_frame_bytes
      → IsPaced now_ms timeout (start_pipe api e req now_ms).1
  unfolding start_pipe
  start_pipe-IsPaced e d req now_ms timeout b free same plain sized sized' =
      let begun = begin_transaction api e TransferMode.pipe req.total_size now_ms in
      let stopped = abort api e ErrorCode.invalid_state in
      let paced =
        begin-either api (IsPaced now_ms timeout) e d TransferMode.pipe req.total_size now_ms b
          (λ owned. ground (arith, owned, free))
          (open_frame-IsPaced e d req.total_size now_ms timeout same sized)
          (open_frame-IsPaced stopped (api.abort_transfer d) req.total_size now_ms timeout
            (abort-timeout e ErrorCode.invalid_state ∙ same) sized') in
      elim (Option-cases begun.0) [
        | inl h ↦ ground (arith, h, plain, paced)
        | inr (why, h) ↦ ground (arith, h, plain, paced)
      ]

  start_pipe-asked :
      (e : Engine D) (p : Option (List ℕ)) (req : PipeStartRequest) (now_ms : ℕ)
      → parse_pipe_start p 10 ≡ Parsed.ok req
      → on_pipe_start api e p 10 now_ms ≡ start_pipe api e req now_ms
  unfolding on_pipe_start
  start_pipe-asked e p req now_ms h = rw (h, on_pipe_start) refl

module _ {D : Type 0} (api : Backend D) (full : ℕ) (Ready : D → Type 0)
    (Holds Shows : D → List ℕ → Type 0) (canvas : Canvas api full Ready Holds Shows)
    (ignores : (d : D) (offset : ℕ) (c junk : List ℕ)
      → api.write_contiguous d offset (some (c ++ junk)) (length c)
        ≡ api.write_contiguous d offset (some c) (length c))
    (now_ms timeout : ℕ) (now_small : now_ms < 2 ^ 32)
    (timeout_fits : (0 < timeout) × (timeout < 2 ^ 31)) where
  abbrev Open : Engine D → List ℕ → ℕ → Type 0
  Open e bs n =
      Awaiting api full Ready Holds Shows canvas ignores now_ms timeout now_small timeout_fits e bs
        n

  pub data-Awaiting :
      (e : Engine D) (bs c junk : List ℕ) (n : ℕ)
      → Open e bs n
      → length c ≢ 0
      → length bs + length c < full
      → Open
          (on_pipe_data api e (some (u8 n ∷ (c ++ junk))) (suc (length c)) now_ms).1
          (bs ++ c)
          (suc n)
  data-Awaiting e bs c junk n ((painting, same, timed), at) ne fits =
      let (next, at') =
        pipe_data-Expecting api full Ready Holds Shows canvas e bs c n now_ms (painting, at) fits in
      let p = some (u8 n ∷ c) in
      let grown : (on_pipe_data api e p (suc (length c)) now_ms).1.txn.accepted_bytes
          ≢ e.txn.accepted_bytes =
        ground (arith, next.3.done_is, painting.3.done_is, length-append bs c, ne) in
      rw
        (pipe-junk api full Ready Holds Shows canvas ignores now_ms timeout now_small timeout_fits e
          (u8 n) c junk)
        (
          (
            next,
            pipe_data-timeout api e (u8 n ∷ c) (suc (length c)) now_ms ∙ same,
            rw (← same) (pipe-IsTimed api e p (suc (length c)) now_ms grown),
          ),
          at',
        )

  pub data-Shown :
      (e : Engine D) (bs c junk : List ℕ) (n : ℕ)
      → Open e bs n
      → length bs + length c ≡ full
      → Showing Shows
          (on_pipe_data api e (some (u8 n ∷ (c ++ junk))) (suc (length c)) now_ms).1
          (bs ++ c)
  data-Shown e bs c junk n ((painting, same, timed), at) whole =
      rw
        (pipe-junk api full Ready Holds Shows canvas ignores now_ms timeout now_small timeout_fits e
          (u8 n) c junk)
        ((pipe_data-Showing api full Ready Holds Shows canvas e bs c n now_ms painting at whole).0)

  pub start-Awaiting :
      (e : Engine D) (d : D) (window ack_every max_frame : ℕ) (junk : List ℕ)
      → Inv e
      → e.backend ≡ some d
      → e.hw_owned ≡ false
      → e.transfer_timeout_ms ≡ timeout
      → (1 ≤ window) × (window ≤ 32)
      → (1 ≤ ack_every) × (ack_every ≤ 32)
      → max_frame < 2 ^ 16
      → Ready d
      → let p = some (request window ack_every max_frame full ++ junk) in
        Open (on_pipe_start api e p 10 now_ms).1 [] 0
  start-Awaiting e d window ack_every max_frame junk v b free same w a f ready =
      let req = requested window ack_every max_frame full in
      let p = some (request window ack_every max_frame full) in
      let small = canvas.small in
      let plain =
        start_pipe-asked api e p req now_ms
          (parse_pipe_start-request window ack_every max_frame full [] w a f small) in
      let behind =
        start_pipe-asked api e (some (request window ack_every max_frame full ++ junk)) req now_ms
          (parse_pipe_start-request window ack_every max_frame full junk w a f small) in
      let opened =
        pipe_start-Painting api full Ready Holds Shows canvas e d window ack_every max_frame now_ms
          v b free w a f ready in
      let paced =
        start_pipe-IsPaced api e d req now_ms timeout b free same refl (sym (canvas.sized d ready))
          (sym (canvas.sized (api.abort_transfer d) (canvas.aborts d ready))) in
      let again =
        subst
          (λ (r : EngineResult × Engine D).
            (r.1.transfer_timeout_ms ≡ timeout) × IsTimed api r.1 now_ms timeout)
          (sym plain) paced in
      let begun =
        subst (λ (r : EngineResult × Engine D). Open r.1 [] 0) plain
          ((opened.0, again.0, again.1), opened.1) in
      subst (λ (r : EngineResult × Engine D). Open r.1 [] 0) (sym behind) begun
