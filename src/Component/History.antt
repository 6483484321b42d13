-- ===== src/Component/History.antt =====
-- What the world does with the component, as one event and as a sequence of them, and the calls of
-- the transfer engine that opendisplay.cpp makes in answer: which handler an opcode selects, that a
-- tail SACK is fetched behind every handler, and what a pass of the loop does in which order.
use od_esphome.Base.{
  ℕ, zero, suc, ◌+◌, ◌∷◌, ◌++◌, [], ◌==◌, not, if◌then◌else◌, Option, none, some, List, length, u32,
}
use od_esphome.Types.{ErrorCode}
use od_esphome.Wire.{
  cmd_direct_write_start, cmd_direct_write_data, cmd_direct_write_end, cmd_pipe_write_start,
  cmd_pipe_write_data, cmd_pipe_write_end,
}
use od_esphome.Protocol.Frame.{Frame, parse_frame}
use od_esphome.Protocol.Msd.{Encoded}
use od_esphome.Transport.{RxPacket, RxQueue, rx_pop}
use od_esphome.Backend.{Backend}
use od_esphome.Engine.Calls.{Call}
use od_esphome.Component.State.{
  Component, on_ble_write, on_ble_connect, on_ble_disconnect, abort_action,
}
use od_esphome.Component.Dispatch.{loop}

-- The BLE callbacks, the automation action, and a pass of the loop.
pub data Happening : Type 0 where
  writes : List ℕ → ℕ → Happening
  connects disconnects aborts : Happening
  loops : ℕ → (ℕ → ℕ) → Encoded → Happening

module _ {D : Type 0} (api : Backend D) (version : Option (List ℕ)) where
  unfoldable pub happen : Component D → Happening → Component D
  happen c (writes bytes now_ms) = on_ble_write c bytes (length bytes) now_ms
  happen c connects = on_ble_connect c
  happen c disconnects = on_ble_disconnect c
  happen c aborts = abort_action api c
  happen c (loops now_ms clock temperature) = loop api version c now_ms clock temperature

  unfoldable pub history : Component D → List Happening → Component D
  history c [] = c
  history c (h ∷ hs) = history (happen c h) hs

-- A handler, and the fetch of a tail SACK behind it.
abbrev pub served : Call → List Call
served call = call ∷ Call.takes_tail_sack ∷ []

abbrev pub frame_calls : Frame → ℕ → List Call
frame_calls f now_ms =
    if f.opcode == cmd_direct_write_start
    then served (Call.direct_start f.payload f.payload_len now_ms)
    else if f.opcode == cmd_direct_write_data
    then served (Call.direct_data f.payload f.payload_len now_ms)
    else if f.opcode == cmd_direct_write_end
    then served (Call.direct_end f.payload f.payload_len now_ms)
    else if f.opcode == cmd_pipe_write_start
    then served (Call.pipe_start f.payload f.payload_len now_ms)
    else if f.opcode == cmd_pipe_write_data
    then served (Call.pipe_data f.payload f.payload_len now_ms)
    else if f.opcode == cmd_pipe_write_end
    then served (Call.pipe_end f.payload f.payload_len now_ms)
    else []

abbrev pub parsed_calls : Option Frame → ℕ → List Call
parsed_calls none now_ms = []
parsed_calls (some f) now_ms = frame_calls f now_ms

-- A packet of another connection gives no call.
abbrev pub packet_calls : ℕ → RxPacket → ℕ → List Call
packet_calls generation pkt now_ms =
    if not (pkt.connection_generation == generation)
    then []
    else parsed_calls (parse_frame (some pkt.payload) pkt.payload_length) now_ms

unfoldable pub queue_calls : ℕ → ℕ → RxQueue → (ℕ → ℕ) → List Call
queue_calls zero generation rx clock = []
queue_calls (suc n) generation rx clock =
    let (popped, rx') = rx_pop rx in
    elim popped [
      | none ↦ []
      | some pkt ↦ packet_calls generation pkt (clock n) ++ queue_calls n generation rx' clock
    ]

module _ {D : Type 0} where
  abbrev pub checks : Component D → List Call
  checks c = if c.connected then [] else Call.disconnects c.connection_generation ∷ []

  abbrev pub loop_calls : Component D → ℕ → (ℕ → ℕ) → List Call
  loop_calls c now_ms clock =
      checks c ++ (queue_calls 8 c.connection_generation c.rx clock ++ served (Call.ticks now_ms))

  abbrev pub happen_calls : Component D → Happening → List Call
  happen_calls c (writes bytes now_ms) = []
  happen_calls c connects = Call.connects (u32 (c.connection_generation + 1)) ∷ []
  happen_calls c disconnects = []
  happen_calls c aborts = Call.aborts ErrorCode.invalid_state ∷ []
  happen_calls c (loops now_ms clock temperature) = loop_calls c now_ms clock

module _ {D : Type 0} (api : Backend D) (version : Option (List ℕ)) where
  unfoldable pub history_calls : Component D → List Happening → List Call
  history_calls c [] = []
  history_calls c (h ∷ hs) = happen_calls c h ++ history_calls (happen api version c h) hs
