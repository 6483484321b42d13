-- ===== src/Tests/Answered.antt =====
-- What a client hears of the component.

use od_esphome.Base.{
  replicate, List, ℕ, zero, suc, [], ◌∷◌, ◌++◌, ◌≡◌, refl, true, some, none, arith,
}
use od_esphome.Types.{State, PollResult, is_idle}
use od_esphome.Protocol.Msd.{Encoded}
use od_esphome.Transport.Rx.{empty_rx-IsValid}
use od_esphome.Transport.Tx.{empty_tx-IsValid}
use od_esphome.Backend.{Backend}
use od_esphome.Engine.State.{Engine, construct, reset, deadline_passed}
use od_esphome.Component.State.{Component}
use od_esphome.Component.History.{history}
use od_esphome.Component.Answered.{IsQuiet}
use od_esphome.Component.Config.Delivered.{config_read_delivers, config_request, read_config}
use od_esphome.Engine.Tick.{tick}
use od_esphome.Protocol.Response.{Response}
use od_esphome.Component.Answered.Once.{answered, passes, refresh_answered_once}
use od_esphome.Protocol.Frame.{Frame, parse_frame}
use od_esphome.Protocol.Response.{encode_ack}
use od_esphome.Engine.Calls.{step}
use od_esphome.Engine.Start.{on_direct_start, begin_transaction, open_frame}
use od_esphome.Component.Visit.{visit}
use od_esphome.Component.Answered.Queued.{frames_of}
use od_esphome.Component.Answered.Pass.{untail}
use od_esphome.Component.Answered.Call.{call_of, ticked}
use od_esphome.Component.Answered.Packet.{packet_answered}
use od_esphome.Tests.Engine.{device}
use od_esphome.Tests.Component.{component_over}
use od_esphome.Protocol.Response.{encode_ack}

-- A device that takes three passes for a refresh.
abbrev counted : ℕ → PollResult × ℕ
counted zero = (PollResult.complete, 0)
counted (suc n) = (PollResult.pending, n)

abbrev slow : Backend ℕ
slow = record device { poll_refresh = counted }

abbrev showing : Engine ℕ
showing = record (construct (some 2)) {
  hw_owned = true;
  txn = record reset { state = State.refreshing; refresh_deadline_ms = 100 };
}

abbrev awaiting : Component ℕ
awaiting = record (component_over showing) { connected = true }

awaiting-IsQuiet : IsQuiet awaiting
unfolding construct
awaiting-IsQuiet = record {
  attending = record {
    drained = record { valid = empty_rx-IsValid; empty = refl };
    connected = refl;
  };
  charact = refl;
  valid = empty_tx-IsValid;
  sent = refl;
  no_tail = refl;
}

-- In time, the third pass brings the success frame; behind the deadline, the timeout frame comes
-- first.
answered-slow : answered slow 2 100 (10 ∷ 20 ∷ 30 ∷ 40 ∷ []) ≡ ((0 ∷ 115 ∷ []) ∷ [], true)
unfolding answered encode_ack deadline_passed
answered-slow = refl

answered-late : answered slow 2 100 (10 ∷ 120 ∷ 130 ∷ []) ≡ ((0 ∷ 116 ∷ []) ∷ [], true)
unfolding answered encode_ack deadline_passed
answered-late = refl

refresh_answered_once_example :
    let c' = history slow none awaiting (passes (10 ∷ 20 ∷ 30 ∷ []) (Encoded.non_negative 130)) in
    let (frames, over) = answered slow 2 100 (10 ∷ 20 ∷ 30 ∷ []) in
    (c'.notified ≡ [] ++ frames) × (is_idle c'.engine.txn.state ≡ over)
unfolding construct
refresh_answered_once_example =
    refresh_answered_once slow none (10 ∷ 20 ∷ 30 ∷ []) awaiting 2 100 (Encoded.non_negative 130)
      awaiting-IsQuiet (record { is_backend = refl; owned = refl; phase = refl; until = refl })

-- A connected client writes a direct START, and hears its acknowledgement in the next pass.
abbrev listening : Component ℕ
listening = record (component_over {D = ℕ} (construct (some 2))) { connected = true }

listening-IsQuiet : IsQuiet listening
unfolding construct
listening-IsQuiet = record {
  attending = record {
    drained = record { valid = empty_rx-IsValid; empty = refl };
    connected = refl;
  };
  charact = refl;
  valid = empty_tx-IsValid;
  sent = refl;
  no_tail = refl;
}

abbrev start_frame : Frame
start_frame = record { opcode = 112; payload = none; payload_len = 0 }

start_frames :
    frames_of (step device listening.engine (call_of start_frame 70)) ≡ (0 ∷ 112 ∷ []) ∷ []
unfolding construct step on_direct_start begin_transaction open_frame encode_ack
start_frames = refl

packet_answered_example :
    let handled = step device listening.engine (call_of start_frame 70) in
    let timed = ticked device handled.1 70 in
    let c' = history device none listening (visit (0 ∷ 112 ∷ []) 70 (Encoded.non_negative 130)) in
    IsQuiet c'
    × (c'.engine ≡ untail timed.1)
    × (c'.notified ≡ [] ++ (frames_of handled ++ frames_of timed))
unfolding parse_frame
packet_answered_example =
    packet_answered device none listening (0 ∷ 112 ∷ []) start_frame 70 (Encoded.non_negative 130)
      listening-IsQuiet (omega arith) (omega arith) refl refl

-- `listening` with a configuration of 133 bytes.
abbrev configured : Component ℕ
configured = record listening { config_blob = replicate 133 7; config_valid = true }

configured-IsQuiet : IsQuiet configured
unfolding construct
configured-IsQuiet = record {
  attending = record {
    drained = record { valid = empty_rx-IsValid; empty = refl };
    connected = refl;
  };
  charact = refl;
  valid = empty_tx-IsValid;
  sent = refl;
  no_tail = refl;
}

config_read_delivers_example :
    let c' = history device none configured (visit config_request 70 (Encoded.non_negative 130)) in
    IsQuiet c'
    × ((rs : List Response) × (c'.notified
          ≡ [] ++ (rs ++ frames_of (tick device configured.engine 70)))
        × (read_config rs ≡ some (replicate 133 7)))
config_read_delivers_example =
    config_read_delivers device none configured 70 (Encoded.non_negative 130) configured-IsQuiet
      refl (omega arith) (omega arith)
