-- ===== src/Engine/Delivery/Starting.antt =====
-- The START of a pipe transfer, over a backend that takes and shows a frame.
use od_esphome.Engine.Delivery.Accepting.{Expecting}
use od_esphome.Base.{
  ℕ, ◌≡◌, ◌≤◌, ◌<◌, ◌^◌, false, some, List, [], arith, inl, inr, refl, Bool-cases, u32,
}
use od_esphome.Types.{is_idle, TransferMode}
use od_esphome.Backend.{Backend}
use od_esphome.Engine.State.{Engine}
use od_esphome.Engine.Start.{on_pipe_start, start_pipe, begin_transaction, opening}
use od_esphome.Engine.Invariant.{Inv}
use od_esphome.Engine.Invariant.Starts.{start_pipe-Inv}
use od_esphome.Engine.Delivery.{Canvas}
use od_esphome.Protocol.PipeStart.Request.{request, requested, parse_pipe_start-request}
use od_esphome.Protocol.PipeStart.{PipeStartRequest}

module _ {D : Type 0} (api : Backend D) (full : ℕ) (Ready : D → Type 0)
    (Holds Shows : D → List ℕ → Type 0) (canvas : Canvas api full Ready Holds Shows) where
  start_pipe-Painting :
      (e : Engine D) (d : D) (req : PipeStartRequest) (now_ms : ℕ)
      → Inv (start_pipe api e req now_ms).1
      → e.backend ≡ some d
      → e.hw_owned ≡ false
      → req.flags ≡ 0
      → req.total_size ≡ full
      → Ready d
      → Expecting api full Ready Holds Shows canvas (start_pipe api e req now_ms).1 [] 0
  unfolding start_pipe begin_transaction
  start_pipe-Painting e d req now_ms v' b free plain asked ready =
      let size : u32 req.total_size ≡ full = omega (arith, asked, canvas.small) in
      let ready' = canvas.aborts d ready in
      let d' = api.abort_transfer d in
      let frame = (opening api e d TransferMode.pipe req.total_size now_ms).frame in
      let frame' = (opening api e d' TransferMode.pipe req.total_size now_ms).frame in
      let begun = canvas.begins d frame ready refl refl refl size in
      let begun' = canvas.begins d' frame' ready' refl refl refl size in
      let sized = canvas.sized d ready in
      let sized' = canvas.sized d' ready' in
      elim (Bool-cases (is_idle e.txn.state)) [
        | inl idle ↦ (
          (
            (api.begin_frame d frame).1,
            ground (arith, begun.0, sized),
            begun.1,
            ground (arith, v', begun.0, sized),
          ),
          ground (arith, begun.0, sized),
        )
        | inr busy ↦ (
          (
            (api.begin_frame d' frame').1,
            ground (arith, begun'.0, sized'),
            begun'.1,
            ground (arith, v', begun'.0, sized'),
          ),
          ground (arith, begun'.0, sized'),
        )
      ]

  pub pipe_start-Painting :
      (e : Engine D) (d : D) (window ack_every max_frame now_ms : ℕ)
      → Inv e
      → e.backend ≡ some d
      → e.hw_owned ≡ false
      → (1 ≤ window) × (window ≤ 32)
      → (1 ≤ ack_every) × (ack_every ≤ 32)
      → max_frame < 2 ^ 16
      → Ready d
      → let p = some (request window ack_every max_frame full) in
        Expecting api full Ready Holds Shows canvas (on_pipe_start api e p 10 now_ms).1 [] 0
  unfolding on_pipe_start
  pipe_start-Painting e d window ack_every max_frame now_ms v b free w a f ready =
      let req = requested window ack_every max_frame full in
      let parsed = parse_pipe_start-request window ack_every max_frame full [] w a f canvas.small in
      let v' = start_pipe-Inv api e req now_ms a.0 v in
      rw (parsed, on_pipe_start) (start_pipe-Painting e d req now_ms v' b free refl refl ready)
