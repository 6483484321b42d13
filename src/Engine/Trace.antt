-- ===== src/Engine/Trace.antt =====
-- The calls that the engine makes on its backend, recorded in the order of the calls (newest first)
-- beside the backend's own state, and what a sound record looks like.
pub mod Data
pub mod Steps
use od_esphome.Base.{
  ℕ, ◌+◌, ◌≡◌, Bool, true, false, ◌&&◌, Option, none, some, List, [], ◌∷◌, ◌==◌, if◌then◌else◌,
}
use od_esphome.Backend.{Backend}
use od_esphome.Types.{State, is_ok}
use od_esphome.Engine.State.{Engine}

pub data Event : Type 0 where
  begun : Bool → ℕ → Event  -- `begin_frame`: whether it answered OK, and the frame's size
  wrote : Bool → ℕ → ℕ → Event  -- `write_contiguous`: whether it answered OK, offset, length
  finished : Event
  refreshed : Event  -- `begin_refresh`
  aborted : Event

pub record Logged (D : Type 0) : Type 0 where
  pub dev : D
  pub log : List Event

-- The backend `api`, with its calls recorded.
abbrev pub logged : {D : Type 0} → Backend D → Backend (Logged D)
logged api = record {
  init = λ l. let (r, d) = api.init l.dev in (r, record { dev = d; log = l.log });
  set_color_scheme = λ l s. record { dev = api.set_color_scheme l.dev s; log = l.log };
  set_panel_ic_type = λ l i. record { dev = api.set_panel_ic_type l.dev i; log = l.log };
  capabilities = λ l. api.capabilities l.dev;
  begin_frame = λ l f.
      let (r, d) = api.begin_frame l.dev f in
      (r, record { dev = d; log = Event.begun (is_ok r) f.total_bytes ∷ l.log });
  write_contiguous = λ l offset p n.
      let (r, d) = api.write_contiguous l.dev offset p n in
      (r, record { dev = d; log = Event.wrote (is_ok r) offset n ∷ l.log });
  finish_frame = λ l.
      let (r, d) = api.finish_frame l.dev in (r, record { dev = d; log = Event.finished ∷ l.log });
  begin_refresh = λ l q.
      let (r, d) = api.begin_refresh l.dev q in
      (r, record { dev = d; log = Event.refreshed ∷ l.log });
  poll_refresh = λ l. let (r, d) = api.poll_refresh l.dev in (r, record { dev = d; log = l.log });
  abort_transfer = λ l. record { dev = api.abort_transfer l.dev; log = Event.aborted ∷ l.log };
}

-- A frame of `size` bytes of which the first `covered` are written.
pub record Progress : Type 0 where
  pub size : ℕ
  pub covered : ℕ

-- A write at the end of the covered part extends it; any other write spoils the frame, and so does
-- one that the backend refuses.
abbrev pub extend : Option Progress → ℕ → ℕ → Option Progress
extend none offset n = none
extend (some p) offset n =
    if offset == p.covered then some (record p { covered = p.covered + n }) else none

-- The frame that a record has open: none before a `begin_frame`, and none after a refresh or an
-- abort.
abbrev pub progress : List Event → Option Progress
progress [] = none
progress (Event.begun accepted size ∷ l) =
    if accepted then some (record { size = size; covered = 0 }) else none
progress (Event.wrote accepted offset n ∷ l) =
    if accepted then extend (progress l) offset n else none
progress (Event.finished ∷ l) = progress l
progress (Event.refreshed ∷ l) = none
progress (Event.aborted ∷ l) = none

abbrev pub is_complete : Option Progress → Bool
is_complete none = false
is_complete (some p) = p.covered == p.size

-- Every refresh in the record shows a frame that was written whole, with every
-- write accepted, in order and without a gap or
-- an overlap, since its `begin_frame`.
abbrev pub IsSound : List Event → Type 0
IsSound [] = Unit {0}
IsSound (Event.refreshed ∷ l) = (is_complete (progress l) ≡ true) × IsSound l
IsSound (Event.begun accepted size ∷ l) = IsSound l
IsSound (Event.wrote accepted offset n ∷ l) = IsSound l
IsSound (Event.finished ∷ l) = IsSound l
IsSound (Event.aborted ∷ l) = IsSound l

-- The engine's accounting agrees with the record.
abbrev pub Agrees : {D : Type 0} → Engine (Logged D) → Option (Logged D) → Type 0
Agrees e none = Unit {0}
Agrees e (some l) =
    IsSound l.log
    × (e.txn.state ≡ State.receiving
        → progress l.log
          ≡ some (record { size = e.txn.expected_frame_bytes; covered = e.txn.accepted_bytes }))
