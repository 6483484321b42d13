-- ===== src/Engine/Delivery/Pipe.antt =====
-- transfer_engine.cpp: a pipe transfer from START to the refresh.
use mathlib.Core.Path.{subst}
use mathlib.Core.List.{append-nil, append_assoc}
use od_esphome.Base.{
  ℕ, suc, ◌+◌, ◌≡◌, ◌≤◌, ◌<◌, ◌^◌, true, false, some, List, [], ◌∷◌, length, arith, u8, ◌++◌,
  length-append,
}
use od_esphome.Backend.{Backend}
use od_esphome.Engine.State.{Engine}
use od_esphome.Engine.Pipe.{on_pipe_data}
use od_esphome.Engine.Start.{on_pipe_start}
use od_esphome.Engine.Calls.{Call, run, step, run-append}
use od_esphome.Engine.Invariant.{Inv}
use od_esphome.Engine.Delivery.{total, none_empty, Canvas, Showing, joined}
use od_esphome.Protocol.PipeStart.Request.{request}
use od_esphome.Engine.Delivery.Packets.{Sent, strays_are_stray, chunks, sent_calls, stray_calls}
use od_esphome.Engine.Delivery.Accepting.{
  Expecting, strays-Expecting, pipe_data-Showing, pipe_data-Expecting,
}
use od_esphome.Engine.Delivery.Starting.{pipe_start-Painting}

module _ {D : Type 0} (api : Backend D) (full : ℕ) (Ready : D → Type 0)
    (Holds Shows : D → List ℕ → Type 0) (canvas : Canvas api full Ready Holds Shows) where
  sent_calls-Showing :
      (ss : List Sent) (s : Sent) (e : Engine D) (bs : List ℕ) (n now_ms : ℕ)
      → Expecting api full Ready Holds Shows canvas e bs n
      → strays_are_stray n (s ∷ ss) ≡ true
      → none_empty (chunks ss) ≡ true
      → length bs + total (chunks (s ∷ ss)) ≡ full
      → let e' = run api e (sent_calls n (s ∷ ss) now_ms) in
        Showing Shows e' (bs ++ joined (chunks (s ∷ ss))) × (e'.has_tail_sack ≡ true)
  unfolding run step
  sent_calls-Showing [] s e bs n now_ms x h ne sum =
      let e1 = run api e (stray_calls s.strays now_ms) in
      let last = Call.pipe_data (some (u8 n ∷ s.chunk)) (suc (length s.chunk)) now_ms ∷ [] in
      let (p, at) =
        strays-Expecting api full Ready Holds Shows canvas s.strays e bs n now_ms x
          (ground (arith, h)) in
      rw (run-append api (stray_calls s.strays now_ms) last e, append-nil s.chunk)
        (pipe_data-Showing api full Ready Holds Shows canvas e1 bs s.chunk n now_ms p at
          (omega (arith, sum)))
  sent_calls-Showing (s' ∷ ss) s e bs n now_ms x h ne sum =
      let e1 = run api e (stray_calls s.strays now_ms) in
      let one = Call.pipe_data (some (u8 n ∷ s.chunk)) (suc (length s.chunk)) now_ms in
      let rest = sent_calls (suc n) (s' ∷ ss) now_ms in
      let e2 = (on_pipe_data api e1 (some (u8 n ∷ s.chunk)) (suc (length s.chunk)) now_ms).1 in
      let stray =
        strays-Expecting api full Ready Holds Shows canvas s.strays e bs n now_ms x
          (ground (arith, h)) in
      let next =
        pipe_data-Expecting api full Ready Holds Shows canvas e1 bs s.chunk n now_ms stray
          (ground (arith, ne, sum)) in
      let image = joined (chunks (s' ∷ ss)) in
      let size : length (bs ++ s.chunk) + total (chunks (s' ∷ ss)) ≡ full =
        omega (arith, length-append bs s.chunk, sum) in
      let shown =
        sent_calls-Showing ss s' e2 (bs ++ s.chunk) (suc n) now_ms next (ground (arith, h))
          (ground (arith, ne)) size in
      rw (run-append api (stray_calls s.strays now_ms) (one ∷ rest) e) (
        subst
          (λ bytes.
            Showing Shows (run api e2 rest) bytes × ((run api e2 rest).has_tail_sack ≡ true))
          (append_assoc bs s.chunk image) shown)

  -- From any state in which the panel is free and ready, an acceptable pipe START for the frame
  -- size and the chunks of that frame in order, numbered modulo 256 and, but for the first, not
  -- empty, with any packets that are out of order in between, bring the engine without an END to a
  -- refresh that shows the chunks put together, with a tail SACK staged. All calls have the same
  -- time.
  pub pipe_transfer_shows :
      (e : Engine D) (d : D) (s : Sent) (ss : List Sent) (window ack_every max_frame now_ms : ℕ)
      → Inv e
      → e.backend ≡ some d
      → e.hw_owned ≡ false
      → (1 ≤ window) × (window ≤ 32)
      → (1 ≤ ack_every) × (ack_every ≤ 32)
      → max_frame < 2 ^ 16
      → Ready d
      → strays_are_stray 0 (s ∷ ss) ≡ true
      → none_empty (chunks ss) ≡ true
      → total (chunks (s ∷ ss)) ≡ full
      → let p = some (request window ack_every max_frame full) in
        let e' = run api e (Call.pipe_start p 10 now_ms ∷ sent_calls 0 (s ∷ ss) now_ms) in
        Showing Shows e' (joined (chunks (s ∷ ss))) × (e'.has_tail_sack ≡ true)
  unfolding run step
  pipe_transfer_shows e d s ss window ack_every max_frame now_ms v b free w a f ready stray ne
        whole =
      let p = some (request window ack_every max_frame full) in
      sent_calls-Showing ss s (on_pipe_start api e p 10 now_ms).1 [] 0 now_ms
        (pipe_start-Painting api full Ready Holds Shows canvas e d window ack_every max_frame now_ms
          v b free w a f ready)
        stray ne (omega (arith, whole))
