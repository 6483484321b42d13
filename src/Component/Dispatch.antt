-- ===== src/Component/Dispatch.antt =====
-- opendisplay.cpp `handle_packet_`, `update_msd_`, `publish_state_` and `loop`. `clock i` is the
-- reading of `millis()` at the `i`-th packet of a loop; the temperature and the version string of
-- the ESPHome build are arguments.
use od_esphome.Base.{
  [], ◌∷◌, ◌++◌, ℕ, zero, suc, ◌+◌, ◌%◌, Bool, true, false, not, ◌||◌, ◌&&◌, ◌==◌, if◌then◌else◌,
  Option, none, some, List, u32, sub32, non_negative32,
}
use od_esphome.Types.{State, is_idle}
use od_esphome.Wire.{
  cmd_config_read, cmd_firmware_version, cmd_read_msd, cmd_direct_write_start,
  cmd_direct_write_data, cmd_direct_write_end, cmd_pipe_write_start, cmd_pipe_write_data,
  cmd_pipe_write_end,
}
use od_esphome.Protocol.Frame.{Frame, parse_frame}
use od_esphome.Protocol.Response.{encode_nack}
use od_esphome.Protocol.Version.{encode_version}
use od_esphome.Protocol.Msd.{Encoded, MsdInputs, build_msd, encode_msd_response}
use od_esphome.Transport.{RxPacket, rx_pop}
use od_esphome.Backend.{Backend}
use od_esphome.Engine.State.{Engine, EngineResult, on_disconnect, is_busy}
use od_esphome.Engine.Start.{on_direct_start, on_pipe_start}
use od_esphome.Engine.Direct.{on_direct_data, on_direct_end}
use od_esphome.Engine.Pipe.{on_pipe_data, on_pipe_end}
use od_esphome.Engine.Tick.{tick}
use od_esphome.Component.State.{Component, Notice, notify}
use od_esphome.Component.Respond.{send, apply_result, send_config, drain_tx}

abbrev pub is_bulk_opcode : ℕ → Bool
is_bulk_opcode opcode = opcode == cmd_direct_write_data || opcode == cmd_pipe_write_data

abbrev pub msd_update_interval_ms : ℕ
msd_update_interval_ms = 1000

-- The values of the enumeration, for the comparison of two states.
abbrev pub state_value : State → ℕ
state_value State.idle = 0
state_value State.receiving = 1
state_value State.validating = 2
state_value State.writing = 3
state_value State.refreshing = 4
state_value State.error = 5

abbrev same_busy : Bool → Bool → Bool
same_busy true b = b
same_busy false b = not b

-- `std::memcmp(…) == 0` of two buffers of one size.
abbrev pub same_bytes : List ℕ → List ℕ → Bool
same_bytes [] [] = true
same_bytes [] (y ∷ ys) = false
same_bytes (x ∷ xs) [] = false
same_bytes (x ∷ xs) (y ∷ ys) = x == y && same_bytes xs ys

module _ {D : Type 0} where
  abbrev pub count_bulk_rx : Component D → ℕ → Component D
  count_bulk_rx c opcode =
      if is_bulk_opcode opcode then record c { bulk_rx_count = u32 (c.bulk_rx_count + 1) } else c

  -- `res = this->engine_.on_…(…); … this->apply_result_(res);`
  unfoldable pub apply_call : Component D → EngineResult × Engine D → Component D
  apply_call c called = apply_result (record c { engine = called.1 }) called.0

  abbrev pub msd_inputs : Component D → Encoded → MsdInputs
  msd_inputs c temperature = record {
    temp_encoded = temperature;
    battery_10mv = 0;
    reboot_flag = c.reboot_flag;
    connection_requested = false;
    loop_counter = c.msd_loop_counter;
  }

  unfoldable pub update_msd : Component D → ℕ → Encoded → Component D
  update_msd c now_ms temperature =
      if not (now_ms == 0) && not (non_negative32 (sub32 now_ms c.msd_next_update_ms))
      then c
      else let built = build_msd (msd_inputs c temperature) in
        let due = c.has_ble && not (same_bytes built c.msd_published) in
        record c {
          msd = built;
          msd_published = if due then built else c.msd_published;
          advertised = if due then c.advertised ++ (built ∷ []) else c.advertised;
          msd_next_update_ms = u32 (now_ms + msd_update_interval_ms);
          msd_loop_counter = (c.msd_loop_counter + 1) % 16;
        }

  abbrev pub publish_busy : Component D → Component D
  publish_busy c = if c.has_busy_sensor then notify c (Notice.busy c.published_busy) else c

  abbrev pub publish_activity : Component D → Component D
  publish_activity c =
      if not c.has_activity_sensor
      then c
      else if is_idle c.published_state && c.error_pending
      then record (notify c Notice.activity_error) { error_pending = false }
      else notify c (Notice.activity c.published_state)

  unfoldable pub publish_state : Component D → Component D
  publish_state c = publish_activity (
      publish_busy
        (record c { published_state = c.engine.txn.state; published_busy = is_busy c.engine }))

  -- The last lines of `loop`.
  unfoldable pub publish_changes : Component D → Component D
  publish_changes c =
      if not (state_value c.engine.txn.state == state_value c.published_state)
        || not (same_busy (is_busy c.engine) c.published_busy)
      then publish_state c
      else c

module _ {D : Type 0} (api : Backend D) (version : Option (List ℕ)) where
  -- The `switch` of `handle_packet_`.
  unfoldable pub handle_frame : Component D → Frame → ℕ → Component D
  handle_frame c f now_ms =
      if f.opcode == cmd_config_read
      then send_config c
      else if f.opcode == cmd_firmware_version
      then send c (encode_version c.ver_major c.ver_minor c.ver_patch version) false
      else if f.opcode == cmd_read_msd
      then record (send c (encode_msd_response c.msd) false) { reboot_flag = false }
      else if f.opcode == cmd_direct_write_start
      then apply_call c (on_direct_start api c.engine f.payload f.payload_len now_ms)
      else if f.opcode == cmd_direct_write_data
      then apply_call c (on_direct_data api c.engine f.payload f.payload_len now_ms)
      else if f.opcode == cmd_direct_write_end
      then apply_call c (on_direct_end api c.engine f.payload f.payload_len now_ms)
      else if f.opcode == cmd_pipe_write_start
      then apply_call c (on_pipe_start api c.engine f.payload f.payload_len now_ms)
      else if f.opcode == cmd_pipe_write_data
      then apply_call c (on_pipe_data api c.engine f.payload f.payload_len now_ms)
      else if f.opcode == cmd_pipe_write_end
      then apply_call c (on_pipe_end api c.engine f.payload f.payload_len now_ms)
      else send c (encode_nack f.opcode) false

  unfoldable pub handle_packet : Component D → RxPacket → ℕ → Component D
  handle_packet c pkt now_ms = elim (parse_frame (some pkt.payload) pkt.payload_length) [
    | none ↦ c
    | some f ↦ handle_frame (count_bulk_rx c f.opcode) f now_ms
  ]

  -- A packet from a previous connection is dropped.
  unfoldable pub take_packet : Component D → RxPacket → ℕ → Component D
  take_packet c pkt now_ms =
      if not (pkt.connection_generation == c.connection_generation)
      then c
      else handle_packet c pkt now_ms

  -- At most `n` packets of the receive ring.
  unfoldable pub drain_rx : ℕ → Component D → (ℕ → ℕ) → Component D
  drain_rx zero c clock = c
  drain_rx (suc n) c clock =
      let (popped, rx) = rx_pop c.rx in
      let c' = record c { rx = rx } in
      elim popped [ none ↦ c' | some pkt ↦ drain_rx n (take_packet c' pkt (clock n)) clock ]

  unfoldable pub loop : Component D → ℕ → (ℕ → ℕ) → Encoded → Component D
  loop c now_ms clock temperature =
      let checked =
        if c.connected
        then c
        else record c { engine = on_disconnect api c.engine c.connection_generation } in
      let drained = drain_rx 8 checked clock in
      let ticked = apply_call drained (tick api drained.engine now_ms) in
      publish_changes (drain_tx (update_msd ticked now_ms temperature))
