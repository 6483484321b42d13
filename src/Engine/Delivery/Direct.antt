-- ===== src/Engine/Delivery/Direct.antt =====
-- A direct transfer from START to the refresh.
use mathlib.Core.Path.{subst}
use mathlib.Core.List.{append-nil, append_assoc}
use od_esphome.Base.{
  ℕ, ◌+◌, ◌≡◌, ◌≤◌, ◌≢◌, true, false, some, none, List, [], ◌∷◌, length, arith, inl, inr, ◌++◌, ap,
  length-append, ◌∙◌, Bool-cases, refl, u32,
}
use od_esphome.Types.{is_idle, TransferMode, full_refresh, BackendResult}
use od_esphome.Backend.{Backend}
use od_esphome.Engine.State.{Engine}
use od_esphome.Engine.Direct.{on_direct_data, on_direct_end}
use od_esphome.Engine.Start.{on_direct_start, begin_transaction, full_frame_of, opening}
use od_esphome.Engine.Finish.{finish_and_refresh}
use od_esphome.Engine.Calls.{Call, run, step}
use od_esphome.Engine.Invariant.{Inv}
use od_esphome.Engine.Invariant.Data.{direct_data-Inv}
use od_esphome.Engine.Invariant.Starts.{direct_start-Inv}
use od_esphome.Engine.Delivery.{
  IsOpen, IsRefreshing, total, none_empty, Canvas, Painting, Showing, joined,
}

-- The DATA packets of some chunks, and the END, all at one time.
abbrev pub direct_calls : List (List ℕ) → ℕ → List Call
direct_calls [] now_ms = Call.direct_end none 0 now_ms ∷ []
direct_calls (c ∷ cs) now_ms = Call.direct_data (some c) (length c) now_ms ∷ direct_calls cs now_ms

module _ {D : Type 0} (api : Backend D) (full : ℕ) (Ready : D → Type 0)
    (Holds Shows : D → List ℕ → Type 0) (canvas : Canvas api full Ready Holds Shows) where
  -- The engine's part of an accepted packet.
  direct_data-IsOpen :
      (e : Engine D) (d : D) (c : List ℕ) (now_ms done : ℕ)
      → e.backend ≡ some d
      → IsOpen e TransferMode.direct full done
      → length c ≢ 0
      → done + length c ≤ full
      → (api.write_contiguous d done (some c) (length c)).0 ≡ BackendResult.ok
      → let e' = (on_direct_data api e (some c) (length c) now_ms).1 in
        IsOpen e' TransferMode.direct full (done + length c)
        × (e'.backend ≡ some (api.write_contiguous d done (some c) (length c)).1)
  unfolding on_direct_data
  direct_data-IsOpen e d c now_ms done b o ne fits written =
      let v' = direct_data-Inv api e (some c) (length c) now_ms o.inv in ground (arith, v', o.inv)

  pub direct_data-Painting :
      (e : Engine D) (bs c : List ℕ) (now_ms : ℕ)
      → Painting Holds e TransferMode.direct full bs
      → length c ≢ 0
      → length bs + length c ≤ full
      → Painting Holds
          (on_direct_data api e (some c) (length c) now_ms).1
          TransferMode.direct
          full
          (bs ++ c)
  direct_data-Painting e bs c now_ms (d, b, holds, o) ne fits =
      let written = canvas.writes d bs c holds fits in
      let next = direct_data-IsOpen e d c now_ms (length bs) b o ne fits written.0 in
      (
        (api.write_contiguous d (length bs) (some c) (length c)).1,
        next.1,
        written.1,
        rw (length-append bs c) next.0,
      )

  pub direct_end-Showing :
      (e : Engine D) (bs : List ℕ) (now_ms : ℕ)
      → Painting Holds e TransferMode.direct full bs
      → length bs ≡ full
      → Showing Shows (on_direct_end api e none 0 now_ms).1 bs
  unfolding on_direct_end finish_and_refresh
  direct_end-Showing e bs now_ms (d, b, holds, o) whole =
      let finished = canvas.finishes d bs holds in
      let d' = (api.finish_frame d).1 in
      let refreshed = canvas.refreshes d' bs finished.1 in
      let engine : ((on_direct_end api e none 0 now_ms).1.backend
            ≡ some (api.begin_refresh d' full_refresh).1)
          × IsRefreshing (on_direct_end api e none 0 now_ms).1 (length bs) =
        ground (arith, o, finished.0, refreshed.0) in
      ((api.begin_refresh d' full_refresh).1, engine.0, refreshed.1, engine.1)

  pub direct_start-Painting :
      (e : Engine D) (d : D) (now_ms : ℕ)
      → Inv e
      → e.backend ≡ some d
      → e.hw_owned ≡ false
      → Ready d
      → Painting Holds (on_direct_start api e none 0 now_ms).1 TransferMode.direct full []
  unfolding on_direct_start begin_transaction
  direct_start-Painting e d now_ms v b free ready =
      let v' = direct_start-Inv api e none 0 now_ms v in
      let asked = full_frame_of api e.backend in
      let whole : asked ≡ full = ap (full_frame_of api) b ∙ canvas.sized d ready in
      let size : u32 asked ≡ full = omega (arith, whole, canvas.small) in
      let ready' = canvas.aborts d ready in
      let d' = api.abort_transfer d in
      let frame = (opening api e d TransferMode.direct asked now_ms).frame in
      let frame' = (opening api e d' TransferMode.direct asked now_ms).frame in
      let begun = canvas.begins d frame ready refl refl refl size in
      let begun' = canvas.begins d' frame' ready' refl refl refl size in
      let sized' = canvas.sized d' ready' in
      elim (Bool-cases (is_idle e.txn.state)) [
        | inl idle ↦ (
          (api.begin_frame d frame).1,
          ground (arith, begun.0, whole, canvas.sized d ready),
          begun.1,
          ground (arith, v', begun.0, whole, canvas.sized d ready),
        )
        | inr busy ↦ (
          (api.begin_frame d' frame').1,
          ground (arith, begun'.0, whole, sized'),
          begun'.1,
          ground (arith, v', begun'.0, whole, sized'),
        )
      ]

  direct_calls-Showing :
      (cs : List (List ℕ)) (e : Engine D) (bs : List ℕ) (now_ms : ℕ)
      → Painting Holds e TransferMode.direct full bs
      → none_empty cs ≡ true
      → length bs + total cs ≡ full
      → Showing Shows (run api e (direct_calls cs now_ms)) (bs ++ joined cs)
  unfolding run step
  direct_calls-Showing [] e bs now_ms p ne sum =
      rw (append-nil bs) (direct_end-Showing e bs now_ms p (omega (arith, sum)))
  direct_calls-Showing (c ∷ cs) e bs now_ms p ne sum =
      let next = direct_data-Painting e bs c now_ms p (ground (arith, ne)) (omega (arith, sum)) in
      let rest : length (bs ++ c) + total cs ≡ full = omega (arith, length-append bs c, sum) in
      subst (λ bytes. Showing Shows (run api e (direct_calls (c ∷ cs) now_ms)) bytes)
        (append_assoc bs c (joined cs))
        (direct_calls-Showing cs (on_direct_data api e (some c) (length c) now_ms).1 (bs ++ c)
          now_ms next (ground (arith, ne)) rest)

  -- From any state in which the panel is free and ready, a direct START, the chunks of a whole frame
  -- in order, none of them empty, and an END bring the engine to a refresh that shows the chunks put
  -- together. All calls have the same time.
  pub direct_transfer_shows :
      (e : Engine D) (d : D) (cs : List (List ℕ)) (now_ms : ℕ)
      → Inv e
      → e.backend ≡ some d
      → e.hw_owned ≡ false
      → Ready d
      → none_empty cs ≡ true
      → total cs ≡ full
      → Showing Shows
          (run api e (Call.direct_start none 0 now_ms ∷ direct_calls cs now_ms))
          (joined cs)
  unfolding run step
  direct_transfer_shows e d cs now_ms v b free ready ne whole =
      direct_calls-Showing cs (on_direct_start api e none 0 now_ms).1 [] now_ms
        (direct_start-Painting e d now_ms v b free ready) ne (omega (arith, whole))
