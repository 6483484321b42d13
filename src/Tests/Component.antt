-- ===== src/Tests/Component.antt =====
-- The component over a small device.
use od_esphome.Component.Dispatch.{loop}
use od_esphome.Component.Heard.{last_busy}
use od_esphome.Component.Heard.Setup.{busy_sensor_follows}
use od_esphome.Engine.State.{is_busy}
use od_esphome.Base.{
  drop, ℕ, some, none, List, [], ◌∷◌, ◌++◌, ◌≡◌, true, false, refl, arith, replicate, suc, ◌+◌,
}
use od_esphome.Types.{State}
use od_esphome.Transport.{empty_rx, empty_tx, rx_push}
use od_esphome.Transport.Rx.{empty_rx-IsValid, rx_push_refines}
use od_esphome.Transport.Tx
use od_esphome.Transport.Tx.{empty_tx-IsValid}
use od_esphome.Protocol.Msd.{Encoded}
use od_esphome.Engine.State.{Engine, construct, answer}
use od_esphome.Engine.Invariant.{construct-Inv}
use od_esphome.Component.State.{Component}
use od_esphome.Component.Respond.{apply_result, send_chunks}
use od_esphome.Component.Order.{tail_sack_precedes_answer, send_chunks_fuel_enough}
use od_esphome.Component.Sound.{IsSound}
use od_esphome.Component.Setup.{setup, configure}
use od_esphome.Component.Stale.{stale_packets_dropped}
use od_esphome.Component.Dispatch.{drain_rx}
use od_esphome.Transport.Rx
use od_esphome.Component.Sound.Loop.{history-IsSound}
use od_esphome.Component.History.{Happening, history, history_calls}
use od_esphome.Component.Refine.{history_refines}
use od_esphome.Component.Frames.{component_refreshes_whole_frames}
use od_esphome.Engine.Calls.{run}
use od_esphome.Engine.Trace.{Logged, logged}
use od_esphome.Engine.Trace
use od_esphome.Engine.Trace.Steps.{log_of}
use od_esphome.Tests.Engine.{device}

abbrev pub component_over : {D : Type 0} → Engine D → Component D
component_over e = record {
  engine = e;
  rx = empty_rx;
  tx = empty_tx;
  ver_major = 0;
  ver_minor = 1;
  ver_patch = 0;
  connection_generation = 0;
  connected = false;
  has_characteristic = true;
  has_ble = true;
  config_blob = replicate 133 7;
  config_valid = true;
  msd = replicate 16 0;
  msd_published = replicate 16 0;
  advertised = [];
  msd_loop_counter = 0;
  msd_next_update_ms = 0;
  reboot_flag = true;
  bulk_rx_count = 0;
  bulk_tx_count = 0;
  published_state = State.idle;
  published_busy = false;
  error_pending = false;
  has_busy_sensor = true;
  has_activity_sensor = true;
  notices = [];
  notified = [];
}

abbrev fresh : Component ℕ
fresh = component_over (construct (some 0))

fresh-IsSound : IsSound fresh
fresh-IsSound = record {
  engine = construct-Inv (some 0);
  rx = empty_rx-IsValid;
  tx = empty_tx-IsValid;
}

-- A client connects, asks for the configuration and sends a frame of four bytes.
abbrev visit : List Happening
visit =
    Happening.connects
    ∷ Happening.writes (0 ∷ 64 ∷ []) 10
    ∷ Happening.writes (0 ∷ 112 ∷ []) 11
    ∷ Happening.writes (0 ∷ 113 ∷ 1 ∷ 2 ∷ 3 ∷ 4 ∷ []) 12
    ∷ Happening.writes (0 ∷ 114 ∷ []) 13
    ∷ Happening.loops 20 (λ i. 20) (Encoded.non_negative 130)
    ∷ Happening.disconnects
    ∷ Happening.loops 30 (λ i. 30) (Encoded.non_negative 130)
    ∷ []

history-IsSound_example : IsSound (history device none fresh visit)
history-IsSound_example = history-IsSound device none visit fresh fresh-IsSound

-- A pipe transfer has just been completed by its last packet.
abbrev completed : Component ℕ
completed = record fresh {
  engine = record (construct (some 0)) {
    has_tail_sack = true;
    pending_tail_sack = 0 ∷ 129 ∷ 3 ∷ 7 ∷ 0 ∷ 0 ∷ 0 ∷ [];
  };
}

tail_sack_precedes_answer_example :
    let c' = apply_result completed (answer (0 ∷ 130 ∷ [])) in
    (Tx.contents c'.tx
      ≡ Tx.contents completed.tx ++ ((0 ∷ 129 ∷ 3 ∷ 7 ∷ 0 ∷ 0 ∷ 0 ∷ []) ∷ (0 ∷ 130 ∷ []) ∷ []))
    × (c'.engine.has_tail_sack ≡ false)
tail_sack_precedes_answer_example =
    tail_sack_precedes_answer completed (0 ∷ 130 ∷ []) empty_tx-IsValid (omega arith) refl refl refl

send_chunks_fuel_enough_example :
    send_chunks (suc 133 + 26) (replicate 133 7) empty_tx 0
    ≡ send_chunks (suc 133) (replicate 133 7) empty_tx 0
send_chunks_fuel_enough_example = send_chunks_fuel_enough (replicate 133 7) empty_tx 26

-- Connection 0 has gone, and connection 1 finds its packet in the ring.
abbrev reconnected : Component ℕ
reconnected = record fresh {
  connection_generation = 1;
  rx = (rx_push empty_rx (some (0 ∷ 112 ∷ [])) 2 0 10).1;
}

reconnected-IsValid : Rx.IsValid reconnected.rx
reconnected-IsValid =
    (rx_push_refines empty_rx (0 ∷ 112 ∷ []) 2 0 10 empty_rx-IsValid (omega arith)).0

stale_packets_dropped_example :
    let c' = drain_rx device none 8 reconnected (λ i. 20) in
    (c' ≡ record reconnected { rx = c'.rx })
    × Rx.IsValid c'.rx
    × (Rx.contents c'.rx ≡ drop 8 (Rx.contents reconnected.rx))
unfolding rx_push
stale_packets_dropped_example =
    stale_packets_dropped device none 8 reconnected (λ i. 20) reconnected-IsValid refl

history_refines_example :
    (history device none fresh visit).engine
    ≡ run device fresh.engine (history_calls device none fresh visit)
history_refines_example = history_refines device none visit fresh

abbrev unset : Component (Logged ℕ)
unset = component_over {D = Logged ℕ} (construct (some (record { dev = 0; log = [] })))

component_refreshes_whole_frames_example :
    let c' = (setup (logged device) unset 3 30000 180000 (Encoded.non_negative 130) true).1 in
    Trace.IsSound (log_of (history (logged device) none c' visit).engine.backend)
component_refreshes_whole_frames_example =
    component_refreshes_whole_frames device none unset 0 3 30000 180000 (Encoded.non_negative 130)
      true visit refl

set_up : (setup device fresh 3 30000 180000 (Encoded.non_negative 130) true).0 ≡ true
unfolding construct setup configure
set_up = refl

busy_sensor_follows_example :
    let c = (setup device fresh 3 30000 180000 (Encoded.non_negative 130) true).1 in
    let c' =
      loop device none (history device none c visit) 40 (λ i. 40) (Encoded.non_negative 130) in
    last_busy c'.notices ≡ some (is_busy c'.engine)
busy_sensor_follows_example =
    busy_sensor_follows device none fresh 3 30000 180000 (Encoded.non_negative 130) true visit 40
      (λ i. 40) (Encoded.non_negative 130) refl set_up
