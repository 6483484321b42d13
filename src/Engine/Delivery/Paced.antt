-- ===== src/Engine/Delivery/Paced.antt =====
-- A transfer as the component makes it: behind every handler the fetch of a tail SACK and a tick.
pub mod Pipe
use od_esphome.Base.{
  ℕ, List, some, ◌++◌, length, ◌≡◌, ◌<◌, ◌^◌, false, ◌≢◌, Option, u32, Option-cases, arith, ◌+◌,
  inl, none, ◌≤◌, [], inr, ap, sym, length-append, ◌∙◌, ◌∷◌, u8, suc,
}
use od_esphome.Types.{TransferMode}
use od_esphome.Backend.{Backend}
use od_esphome.Engine.State.{EngineResult, Transaction, Engine, take_tail_sack, no_result}
use od_esphome.Engine.Tick.{tick}
use od_esphome.Engine.Start.{on_direct_start, begin_transaction}
use od_esphome.Engine.Pipe.{on_pipe_data, write_pipe}
use od_esphome.Engine.Direct.{on_direct_data}
use od_esphome.Engine.Calls.{Call, step}
use od_esphome.Engine.Invariant.{Inv}
use od_esphome.Engine.Invariant.Steps.{step-Inv}
use od_esphome.Engine.Delivery.{Canvas, Painting}
use od_esphome.Engine.Delivery.Direct.{direct_data-Painting, direct_start-Painting}
use od_esphome.Engine.Stalled.{IsTimed, data-IsTimed, timed-tick}

module _ {D : Type 0} (api : Backend D) (full : ℕ) (Ready : D → Type 0)
    (Holds Shows : D → List ℕ → Type 0) (canvas : Canvas api full Ready Holds Shows)
    (ignores : (d : D) (offset : ℕ) (c junk : List ℕ)
      → api.write_contiguous d offset (some (c ++ junk)) (length c)
        ≡ api.write_contiguous d offset (some c) (length c))
    (now_ms timeout : ℕ) (now_small : now_ms < 2 ^ 32)
    (timeout_fits : (0 < timeout) × (timeout < 2 ^ 31)) where
  -- A transfer whose last packet came now.
  abbrev pub Underway : TransferMode → Engine D → List ℕ → Type 0
  Underway mode e bs =
      Painting Holds e mode full bs
      × (e.transfer_timeout_ms ≡ timeout)
      × IsTimed api e now_ms timeout

  abbrev untail : Engine D → Engine D
  untail e = (take_tail_sack e).1

  pub untail-Underway :
      (mode : TransferMode) (e : Engine D) (bs : List ℕ)
      → Underway mode e bs
      → Underway mode (untail e) bs
  unfolding take_tail_sack step
  untail-Underway mode e bs ((d, b, holds, o), same, timed) =
      let v = step-Inv api e Call.takes_tail_sack o.inv in
      (
        (d, ground (arith, b), holds, ground (arith, o, v)),
        ground (arith, same),
        ground (arith, timed),
      )

  pub tick-Underway :
      (mode : TransferMode) (e : Engine D) (bs : List ℕ)
      → Underway mode e bs
      → tick api e now_ms ≡ (no_result, e)
  tick-Underway mode e bs ((d, b, holds, o), same, timed) =
      let now : u32 (now_ms + 0) ≡ now_ms = omega (arith, now_small) in
      ap (tick api e) (sym now)
      ∙ timed-tick api e now_ms timeout 0 o.inv timed o.state timeout_fits.1 (omega arith)
      ∙ ground (arith, timeout_fits)

  pub data-junk :
      (e : Engine D) (c junk : List ℕ)
      → on_direct_data api e (some (c ++ junk)) (length c) now_ms
        ≡ on_direct_data api e (some c) (length c) now_ms
  unfolding on_direct_data
  data-junk e c junk = elim (Option-cases e.backend) [
    | inl nothing ↦ ground (arith, nothing)
    | inr (d, b) ↦ ground (arith, b, ignores d e.txn.next_direct_offset c junk)
  ]

  data-timeout :
      (e : Engine D) (p : Option (List ℕ)) (len : ℕ)
      → (on_direct_data api e p len now_ms).1.transfer_timeout_ms ≡ e.transfer_timeout_ms
  unfolding on_direct_data
  data-timeout e p len = ground arith

  pub data-Underway :
      (e : Engine D) (bs c junk : List ℕ)
      → Underway TransferMode.direct e bs
      → length c ≢ 0
      → length bs + length c ≤ full
      → Underway TransferMode.direct
          (on_direct_data api e (some (c ++ junk)) (length c) now_ms).1
          (bs ++ c)
  data-Underway e bs c junk (painting, same, timed) ne fits =
      let next =
        direct_data-Painting api full Ready Holds Shows canvas e bs c now_ms painting ne fits in
      let grown : (on_direct_data api e (some c) (length c) now_ms).1.txn.accepted_bytes
          ≢ e.txn.accepted_bytes =
        ground (arith, next.3.done_is, painting.3.done_is, length-append bs c, ne) in
      rw (data-junk e c junk) (
        next,
        data-timeout e (some c) (length c) ∙ same,
        rw (← same) (data-IsTimed api e (some c) (length c) now_ms grown),
      )

  pub start-Underway :
      (e : Engine D) (d : D)
      → Inv e
      → e.backend ≡ some d
      → e.hw_owned ≡ false
      → e.transfer_timeout_ms ≡ timeout
      → Ready d
      → Underway TransferMode.direct (on_direct_start api e none 0 now_ms).1 []
  unfolding on_direct_start begin_transaction
  start-Underway e d v b free same ready = (
    direct_start-Painting api full Ready Holds Shows canvas e d now_ms v b free ready,
    ground (arith, b, free, same),
    ground (arith, b, free, same),
  )

  -- What a pass of the loop does behind a handler.
  pub passed-Underway :
      (mode : TransferMode) (e : Engine D) (bs : List ℕ)
      → Underway mode e bs
      → Underway mode (untail (tick api (untail e) now_ms).1) bs
  passed-Underway mode e bs u =
      let u' = untail-Underway mode e bs u in
      rw (tick-Underway mode (untail e) bs u') (untail-Underway mode (untail e) bs u')

  -- The same of a transfer that expects packet `n` next.
  abbrev pub Awaiting : Engine D → List ℕ → ℕ → Type 0
  Awaiting e bs n = Underway TransferMode.pipe e bs × (e.txn.next_pipe_sequence ≡ u8 n)

  untail-sequence : (e : Engine D) → (untail e).txn ≡ e.txn
  unfolding take_tail_sack
  untail-sequence e = ground arith

  pub passed-Awaiting :
      (e : Engine D) (bs : List ℕ) (n : ℕ)
      → Awaiting e bs n
      → Awaiting (untail (tick api (untail e) now_ms).1) bs n
  passed-Awaiting e bs n (u, at) =
      let ticked =
        tick-Underway TransferMode.pipe (untail e) bs (untail-Underway TransferMode.pipe e bs u) in
      let kept : (untail (tick api (untail e) now_ms).1).txn ≡ e.txn =
        untail-sequence (tick api (untail e) now_ms).1
        ∙ ap (λ (r : EngineResult × Engine D). r.1.txn) ticked
        ∙ untail-sequence e in
      (
        passed-Underway TransferMode.pipe e bs u,
        ap (λ (t : Transaction). t.next_pipe_sequence) kept ∙ at,
      )

  pipe-junk :
      (e : Engine D) (seq : ℕ) (c junk : List ℕ)
      → on_pipe_data api e (some (seq ∷ (c ++ junk))) (suc (length c)) now_ms
        ≡ on_pipe_data api e (some (seq ∷ c)) (suc (length c)) now_ms
  unfolding on_pipe_data write_pipe
  pipe-junk e seq c junk = elim (Option-cases e.backend) [
    | inl nothing ↦ ground (arith, nothing)
    | inr (d, b) ↦ ground (arith, b, ignores d e.txn.accepted_bytes c junk)
  ]
