-- ===== src/Engine/Delivery/Accepting.antt =====
-- The engine's steps in a pipe transfer that is open, over a backend that takes and shows a frame.
use od_esphome.Base.{
  ℕ, suc, ◌+◌, ◌≡◌, ◌≤◌, ◌<◌, true, false, some, List, [], ◌∷◌, length, arith, u8, refl, ◌++◌, not,
  ◌==◌, length-append, ◌∙◌,
}
use od_esphome.Types.{TransferMode, full_refresh, BackendResult}
use od_esphome.Backend.{Backend}
use od_esphome.Engine.State.{Engine}
use od_esphome.Engine.Pipe.{stage_tail_sack, on_pipe_data, write_pipe, after_accept, accept_pipe}
use od_esphome.Engine.Finish.{finish_and_refresh}
use od_esphome.Engine.Calls.{run, step}
use od_esphome.Engine.Invariant.Data.{pipe_data-Inv}
use od_esphome.Engine.Delivery.{IsOpen, IsRefreshing, Canvas, Showing, Painting}
use od_esphome.Wire.{cmd_pipe_write_end}
use od_esphome.Engine.Delivery.Packets.{all_stray, stray_calls}

module _ {D : Type 0} (api : Backend D) (full : ℕ) (Ready : D → Type 0)
    (Holds Shows : D → List ℕ → Type 0) (canvas : Canvas api full Ready Holds Shows) where
  -- A packet that is out of order.
  stray-IsOpen :
      (e : Engine D) (seq : ℕ) (bytes : List ℕ) (n now_ms done : ℕ)
      → IsOpen e TransferMode.pipe full done
      → e.txn.next_pipe_sequence ≡ u8 n
      → not (seq == u8 n) ≡ true
      → let e' = (on_pipe_data api e (some (seq ∷ bytes)) (suc (length bytes)) now_ms).1 in
        IsOpen e' TransferMode.pipe full done
        × (e'.txn.next_pipe_sequence ≡ u8 n)
        × (e'.backend ≡ e.backend)
  unfolding on_pipe_data
  stray-IsOpen e seq bytes n now_ms done o at other =
      let v' = pipe_data-Inv api e (some (seq ∷ bytes)) (suc (length bytes)) now_ms o.inv in
      ground (arith, v', o.inv)

  -- A packet that leaves bytes to come.
  pipe_data-IsOpen :
      (e : Engine D) (d : D) (c : List ℕ) (n now_ms done : ℕ)
      → e.backend ≡ some d
      → IsOpen e TransferMode.pipe full done
      → e.txn.next_pipe_sequence ≡ u8 n
      → done + length c < full
      → (api.write_contiguous d done (some c) (length c)).0 ≡ BackendResult.ok
      → let e' = (on_pipe_data api e (some (u8 n ∷ c)) (suc (length c)) now_ms).1 in
        IsOpen e' TransferMode.pipe full (done + length c)
        × (e'.txn.next_pipe_sequence ≡ u8 (suc n))
        × (e'.backend ≡ some (api.write_contiguous d done (some c) (length c)).1)
  unfolding on_pipe_data write_pipe after_accept
  pipe_data-IsOpen e d c n now_ms done b o seq fits written =
      let v' = pipe_data-Inv api e (some (u8 n ∷ c)) (suc (length c)) now_ms o.inv in
      ground (arith, v', o.inv)

  finish-Showing :
      (e : Engine D) (d : D) (bs : List ℕ) (end_opcode now_ms : ℕ)
      → e.backend ≡ some d
      → Holds d bs
      → e.txn.accepted_bytes ≡ length bs
      → e.txn.expected_frame_bytes ≡ length bs
      → let e' = (finish_and_refresh api e end_opcode now_ms).1 in
        Showing Shows e' bs × (e'.has_tail_sack ≡ e.has_tail_sack)
  unfolding finish_and_refresh
  finish-Showing e d bs end_opcode now_ms b holds done asked =
      let finished = canvas.finishes d bs holds in
      let d' = (api.finish_frame d).1 in
      let refreshed = canvas.refreshes d' bs finished.1 in
      let e' = (finish_and_refresh api e end_opcode now_ms).1 in
      let engine : (e'.backend ≡ some (api.begin_refresh d' full_refresh).1)
          × IsRefreshing e' (length bs)
          × (e'.has_tail_sack ≡ e.has_tail_sack) =
        ground (arith, finished.0, refreshed.0) in
      (((api.begin_refresh d' full_refresh).1, engine.0, refreshed.1, engine.1), engine.2)

  after_accept_completes :
      (e : Engine D) (now_ms : ℕ)
      → e.txn.expected_frame_bytes ≤ e.txn.accepted_bytes
      → (e.txn.frame.compressed ≡ false) × (e.txn.frame.partial ≡ false)
      → after_accept api e now_ms
        ≡ finish_and_refresh api (stage_tail_sack e) cmd_pipe_write_end now_ms
  unfolding after_accept
  after_accept_completes e now_ms whole plain = ground arith

  after_accept-Showing :
      (e : Engine D) (d : D) (bs : List ℕ) (now_ms : ℕ)
      → e.backend ≡ some d
      → Holds d bs
      → e.txn.accepted_bytes ≡ length bs
      → e.txn.expected_frame_bytes ≡ length bs
      → (e.txn.frame.compressed ≡ false) × (e.txn.frame.partial ≡ false)
      → let e' = (after_accept api e now_ms).1 in Showing Shows e' bs × (e'.has_tail_sack ≡ true)
  after_accept-Showing e d bs now_ms b holds done asked plain =
      rw (after_accept_completes e now_ms (omega (arith, done, asked)) plain)
        (finish-Showing (stage_tail_sack e) d bs cmd_pipe_write_end now_ms b holds done asked)

  -- The packet that completes the frame.
  write_pipe_completes :
      (e : Engine D) (d : D) (c : List ℕ) (n now_ms done : ℕ)
      → e.backend ≡ some d
      → IsOpen e TransferMode.pipe full done
      → e.txn.next_pipe_sequence ≡ u8 n
      → done + length c ≡ full
      → (api.write_contiguous d done (some c) (length c)).0 ≡ BackendResult.ok
      → let d' = (api.write_contiguous d done (some c) (length c)).1 in
        on_pipe_data api e (some (u8 n ∷ c)) (suc (length c)) now_ms
        ≡ after_accept api
            (accept_pipe (record e { backend = some d' }) (u8 n) (length c) now_ms)
            now_ms
  unfolding on_pipe_data write_pipe
  write_pipe_completes e d c n now_ms done b o seq fits written = ground (arith, o.inv)

  pub pipe_data-Showing :
      (e : Engine D) (bs c : List ℕ) (n now_ms : ℕ)
      → Painting Holds e TransferMode.pipe full bs
      → e.txn.next_pipe_sequence ≡ u8 n
      → length bs + length c ≡ full
      → let e' = (on_pipe_data api e (some (u8 n ∷ c)) (suc (length c)) now_ms).1 in
        Showing Shows e' (bs ++ c) × (e'.has_tail_sack ≡ true)
  unfolding accept_pipe
  pipe_data-Showing e bs c n now_ms (d, b, holds, o) seq fits =
      let written = canvas.writes d bs c holds (omega (arith, fits)) in
      let d' = (api.write_contiguous d (length bs) (some c) (length c)).1 in
      let accepted = accept_pipe (record e { backend = some d' }) (u8 n) (length c) now_ms in
      let sum = length-append bs c in
      rw (write_pipe_completes e d c n now_ms (length bs) b o seq fits written.0) (
        after_accept-Showing accepted d' (bs ++ c) now_ms refl written.1
          (omega (arith, o, o.inv, sum, fits)) (omega (arith, o, sum, fits)) o.inv.plain)

  -- A transfer that expects packet `n` next.
  abbrev pub Expecting : Engine D → List ℕ → ℕ → Type 0
  Expecting e bs n = Painting Holds e TransferMode.pipe full bs × (e.txn.next_pipe_sequence ≡ u8 n)

  pub pipe_data-Expecting :
      (e : Engine D) (bs c : List ℕ) (n now_ms : ℕ)
      → Expecting e bs n
      → length bs + length c < full
      → Expecting (on_pipe_data api e (some (u8 n ∷ c)) (suc (length c)) now_ms).1 (bs ++ c) (suc n)
  pipe_data-Expecting e bs c n now_ms ((d, b, holds, o), seq) fits =
      let written = canvas.writes d bs c holds (omega (arith, fits)) in
      let next = pipe_data-IsOpen e d c n now_ms (length bs) b o seq fits written.0 in
      (
        (
          (api.write_contiguous d (length bs) (some c) (length c)).1,
          next.2,
          written.1,
          rw (length-append bs c) next.0,
        ),
        next.1,
      )

  pub strays-Expecting :
      (l : List (ℕ × List ℕ)) (e : Engine D) (bs : List ℕ) (n now_ms : ℕ)
      → Expecting e bs n
      → all_stray n l ≡ true
      → Expecting (run api e (stray_calls l now_ms)) bs n
  unfolding run step
  strays-Expecting [] e bs n now_ms x h = x
  strays-Expecting ((seq, bytes) ∷ l) e bs n now_ms ((d, b, holds, o), at) h =
      let next = stray-IsOpen e seq bytes n now_ms (length bs) o at (ground (arith, h)) in
      strays-Expecting l (on_pipe_data api e (some (seq ∷ bytes)) (suc (length bytes)) now_ms).1 bs
        n now_ms ((d, next.2 ∙ b, holds, next.0), next.1) (ground (arith, h))
