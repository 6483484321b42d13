-- ===== src/Tests/Engine.antt =====
-- The engine over a small device, and over the epaper_spi backend.
use od_esphome.Engine.Stalled.{stalled_transfer_ends}
use od_esphome.Engine.Pipe.{accept_pipe, after_accept}
use od_esphome.Base.{
  ℕ, none, some, List, [], ◌∷◌, true, false, refl, ◌≡◌, arith, ◌==◌, not, suc, u32, ◌+◌,
}
use od_esphome.Types.{
  State, TransferMode, BackendResult, PollResult, DisplayCapabilities, default_capabilities,
  ErrorCode,
}
use od_esphome.Backend.{Backend}
use od_esphome.Backend.Driver.{Driver}
use od_esphome.Backend.Epaper.{Epaper, new_epaper, epaper_backend}
use od_esphome.Engine.State.{
  Engine, construct, reset, no_result, answer, fail, is_busy, deadline_passed, abort,
}
use od_esphome.Engine.Calls.{Call, run, step}
use od_esphome.Engine.Invariant.{Inv, construct-Inv}
use od_esphome.Engine.Invariant.Steps.{run-Inv}
use od_esphome.Engine.Trace.{IsSound, logged}
use od_esphome.Engine.Trace.Steps.{refresh_only_whole_frames, log_of}
use od_esphome.Engine.Terminal.{ended-reset, fatal_nack_answered_twice}
use od_esphome.Engine.Deadline.{deadline_passed-lem}
use od_esphome.System.Stuck.{Moment, live}
use od_esphome.System.Panels.{EpaperAlive, EpaperQuiet, epaper-Forgets, epaper_timeout_sticks}
use od_esphome.Engine.Tick.{tick}
use od_esphome.Engine.Pipe.{on_pipe_data, on_pipe_end, write_pipe}
use od_esphome.Engine.Finish.{finish_and_refresh}
use od_esphome.Engine.Start.{on_direct_start}
use od_esphome.Protocol.Response.{encode_nack}
use od_esphome.Wire.{cmd_direct_write_start, od_pipe_nack_protocol}
use od_esphome.Protocol.Sack.{encode_pipe_nack}

-- A device with a frame of four bytes, which counts its calls.
abbrev small : DisplayCapabilities
small = record default_capabilities {
  width = 8;
  height = 4;
  full_frame_bytes = 4;
  supports_direct_write = true;
  supports_pipe_write = true;
}

abbrev pub device : Backend ℕ
device = record {
  init = λ d. (true, d);
  set_color_scheme = λ d scheme. d;
  set_panel_ic_type = λ d id. d;
  capabilities = λ d. small;
  begin_frame = λ d frame. (BackendResult.ok, suc d);
  write_contiguous = λ d offset bytes len. (BackendResult.ok, suc d);
  finish_frame = λ d. (BackendResult.ok, suc d);
  begin_refresh = λ d request. (BackendResult.ok, suc d);
  poll_refresh = λ d. (PollResult.complete, d);
  abort_transfer = λ d. 0;
}

-- A direct transfer whose last packet is longer than what is left of the frame.
abbrev script : List Call
script =
    Call.direct_start none 0 10
    ∷ Call.direct_data (some (1 ∷ 2 ∷ 3 ∷ [])) 3 20
    ∷ Call.direct_data (some (4 ∷ 5 ∷ [])) 2 30
    ∷ Call.ticks 40
    ∷ []

run-Inv_example : Inv (run device (construct (some 0)) script)
run-Inv_example = run-Inv device script (construct (some 0)) (construct-Inv (some 0))

-- A direct transfer of a whole frame, which is refreshed.
abbrev whole_frame : List Call
whole_frame =
    Call.direct_start none 0 10
    ∷ Call.direct_data (some (1 ∷ 2 ∷ 3 ∷ [])) 3 20
    ∷ Call.direct_data (some (4 ∷ [])) 1 30
    ∷ Call.direct_end none 0 40
    ∷ Call.ticks 50
    ∷ []

refresh_only_whole_frames_example :
    let e = run (logged device) (construct (some (record { dev = 0; log = [] }))) whole_frame in
    IsSound (log_of e.backend)
refresh_only_whole_frames_example = refresh_only_whole_frames device 0 whole_frame

-- A pipe transfer of which nothing is received yet.
abbrev receiving : Engine ℕ
receiving = record (construct (some 0)) {
  txn = record reset {
    mode = TransferMode.pipe;
    state = State.receiving;
    expected_frame_bytes = 4;
    negotiated_window = 8;
    negotiated_ack_every = 4;
  };
}

receiving-Inv : Inv receiving
unfolding construct
receiving-Inv = ground arith

-- END before the last byte.
ended-reset_example : (step device receiving (Call.pipe_end none 0 5)).1.txn ≡ reset
unfolding step on_pipe_end finish_and_refresh abort
ended-reset_example = ended-reset device receiving (Call.pipe_end none 0 5) refl refl

-- A packet with one byte too many.
fatal_nack_answered_twice_example :
    let e' = (on_pipe_data device receiving (some (0 ∷ 1 ∷ 2 ∷ 3 ∷ 4 ∷ 5 ∷ [])) 6 50).1 in
    let (r, e'') = on_pipe_data device e' (some (1 ∷ 9 ∷ [])) 2 51 in
    (r ≡ answer (encode_pipe_nack od_pipe_nack_protocol 0 0))
    × (on_pipe_data device e'' (some (2 ∷ 9 ∷ [])) 2 52 ≡ (no_result, e''))
unfolding on_pipe_data write_pipe abort
fatal_nack_answered_twice_example =
    fatal_nack_answered_twice device receiving (some (0 ∷ 1 ∷ 2 ∷ 3 ∷ 4 ∷ 5 ∷ []))
      (some (1 ∷ 9 ∷ [])) (some (2 ∷ 9 ∷ [])) 6 2 2 50 51 52 refl

deadline_passed-lem_example : deadline_passed 1000 (u32 (4294966000 + 2000)) ≡ true
deadline_passed-lem_example = deadline_passed-lem 4294966000 2000 2296 (omega arith) (omega arith)

-- A driver that is at work in state 0, and has done its work in every other.
abbrev panel_driver : Driver ℕ
panel_driver = record {
  is_failed = λ p. false;
  is_unrotated = λ p. true;
  get_native_width = λ p. 8;
  get_native_height = λ p. 4;
  is_idle = λ p. not (p == 0);
  update = λ p. 0;
  draw_pixel_at = λ p x y white. p;
  millis = λ p. p;
}

abbrev panel : Backend (Epaper ℕ)
panel = epaper_backend panel_driver

abbrev working : Epaper ℕ
working = record (new_epaper (some 0)) { refresh_started = true }

-- A refresh that is due at 180000.
abbrev refreshing : Engine (Epaper ℕ)
refreshing = record (construct (some working)) {
  hw_owned = true;
  txn = record reset {
    mode = TransferMode.direct;
    state = State.refreshing;
    refresh_deadline_ms = 180000;
  };
}

abbrev PanelMoment : Type 0
PanelMoment =
    Moment panel (EpaperAlive panel_driver) (EpaperQuiet panel_driver) (epaper-Forgets panel_driver)

-- The driver finishes, and the loop goes on.
abbrev aftermath : List PanelMoment
aftermath =
    Moment.elapses (λ b. record b { display = some 5 }) (λ b quiet. (refl, quiet.1))
    ∷ Moment.calls (Call.ticks 180100)
    ∷ []

epaper_timeout_sticks_example :
    let e' =
      live panel
        (EpaperAlive panel_driver)
        (EpaperQuiet panel_driver)
        (epaper-Forgets panel_driver)
        (tick panel refreshing 180000).1
        aftermath in
    (is_busy e' ≡ true)
    × ((on_direct_start panel e' none 0 180200).0 ≡ fail (encode_nack cmd_direct_write_start))
unfolding deadline_passed construct
epaper_timeout_sticks_example =
    epaper_timeout_sticks panel_driver refreshing 180000 working 0 aftermath 180200 refl refl refl
      refl refl refl refl

-- The first two bytes at 50 ms, and nothing more for the 30 seconds of the timeout.
stalled_transfer_ends_example :
    let e' = (on_pipe_data device receiving (some (0 ∷ 1 ∷ 2 ∷ [])) 3 50).1 in
    tick device e' 30050
    ≡ (record no_result { terminal_error = true }, abort device e' ErrorCode.transfer_timeout)
unfolding construct on_pipe_data write_pipe accept_pipe after_accept
stalled_transfer_ends_example =
    stalled_transfer_ends device receiving TransferMode.pipe (some (0 ∷ 1 ∷ 2 ∷ [])) 3 50 30000
      receiving-Inv (omega arith) refl (omega arith) (omega arith)
