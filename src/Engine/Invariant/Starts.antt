-- ===== src/Engine/Invariant/Starts.antt =====
-- The invariant under the START handlers.
use od_esphome.Base.{ℕ, ◌≤◌, ◌<◌, ◌≡◌, Option, none, some, List, arith, Option-cases, inl, inr}
use od_esphome.Types.{TransferMode, ErrorCode}
use od_esphome.Wire.{pipe_max_ack_every}
use od_esphome.Backend.{Backend}
use od_esphome.Engine.State.{Engine}
use od_esphome.Engine.Start.{
  begin_transaction, on_direct_start, full_frame_of, on_pipe_start, start_pipe, negotiated,
}
use od_esphome.Protocol.PipeStart.{PipeStartRequest, parse_pipe_start}
use od_esphome.Protocol.PipeStart.Accepted.{Parsed-cases, parse_pipe_start-ok}
use od_esphome.Engine.Invariant.{Inv}

module _ {D : Type 0} (api : Backend D) where
  pub begin_error-Inv :
      (e : Engine D) (mode : TransferMode) (total now_ms : ℕ) (why : ErrorCode)
      → Inv e
      → (begin_transaction api e mode total now_ms).0 ≡ some why
      → Inv (begin_transaction api e mode total now_ms).1
  unfolding begin_transaction
  begin_error-Inv e mode total now_ms why v h = ground arith

  -- A transaction that has begun is sound once its parameters are negotiated.
  pub begin_ok-Inv :
      (e : Engine D) (mode : TransferMode) (total now_ms w n f : ℕ)
      → (mode ≡ TransferMode.pipe → (0 < n) × (n ≤ pipe_max_ack_every))
      → Inv e
      → (begin_transaction api e mode total now_ms).0 ≡ none
      → let e' = (begin_transaction api e mode total now_ms).1 in
        Inv (record e' {
          txn = record (e'.txn) {
            negotiated_window = w;
            negotiated_ack_every = n;
            negotiated_frame = f;
          };
        })
  unfolding begin_transaction
  begin_ok-Inv e mode total now_ms w n f negotiable v h = elim (Option-cases e.backend) [
    | inl b ↦ ground arith
    | inr (d, b) ↦ ground arith
  ]

  pub direct_start-Inv :
      (e : Engine D) (p : Option (List ℕ)) (len now_ms : ℕ)
      → Inv e
      → Inv (on_direct_start api e p len now_ms).1
  unfolding on_direct_start
  direct_start-Inv e p len now_ms v =
      let total = full_frame_of api e.backend in
      let begun = begin_transaction api e TransferMode.direct total now_ms in
      let t = begun.1.txn in
      elim (Option-cases begun.0) [
        | inl h ↦ ground (
          arith,
          begin_ok-Inv e TransferMode.direct total now_ms t.negotiated_window t.negotiated_ack_every
              t.negotiated_frame (λ m. cc) v h,
        )
        | inr (why, h) ↦ ground (arith, begin_error-Inv e TransferMode.direct total now_ms why v h)
      ]

  pub start_pipe-Inv :
      (e : Engine D) (req : PipeStartRequest) (now_ms : ℕ)
      → 0 < req.req_ack_every
      → Inv e
      → Inv (start_pipe api e req now_ms).1
  unfolding start_pipe
  start_pipe-Inv e req now_ms positive v =
      let begun = begin_transaction api e TransferMode.pipe req.total_size now_ms in
      let t = negotiated begun.1.txn req in
      elim (Option-cases begun.0) [
        | inl h ↦ ground (
          arith,
          begin_ok-Inv e TransferMode.pipe req.total_size now_ms t.negotiated_window
              t.negotiated_ack_every t.negotiated_frame (λ m. ground arith) v h,
        )
        | inr (why, h) ↦
            ground (arith, begin_error-Inv e TransferMode.pipe req.total_size now_ms why v h)
      ]

  pub pipe_start-Inv :
      (e : Engine D) (p : Option (List ℕ)) (len now_ms : ℕ)
      → Inv e
      → Inv (on_pipe_start api e p len now_ms).1
  unfolding on_pipe_start
  pipe_start-Inv e p len now_ms v = elim (Parsed-cases (parse_pipe_start p len)) [
    | inl (req, h) ↦
        rw (h, on_pipe_start)
          (start_pipe-Inv e req now_ms (omega (arith, parse_pipe_start-ok p len req h)) v)
    | inr (scoped, h) ↦ rw (h, on_pipe_start) (ground arith)
  ]
