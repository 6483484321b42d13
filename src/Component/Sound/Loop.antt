-- ===== src/Component/Sound/Loop.antt =====
-- The component's invariant under `loop` and the BLE callbacks.
use od_esphome.Base.{
  ℕ, zero, suc, ◌+◌, ◌∷◌, false, Option, none, some, List, arith, length, u32, if◌then◌else◌, [],
}
use od_esphome.Component.Sound.Publish.{update_msd-IsSound, publish_changes-IsSound}
use od_esphome.Component.History.{Happening, happen, history}
use od_esphome.Backend.{Backend}
use od_esphome.Protocol.Frame.{Frame, parse_frame}
use od_esphome.Protocol.Response.{encode_nack}
use od_esphome.Protocol.Version.{encode_version}
use od_esphome.Protocol.Msd.{Encoded, encode_msd_response}
use od_esphome.Transport.{RxPacket, RxQueue, rx_pop}
use od_esphome.Transport.Rx
use od_esphome.Transport.Rx.{rx_push_refines, rx_pop_refines}
use od_esphome.Engine.State.{Engine, EngineResult, on_disconnect}
use od_esphome.Types.{ErrorCode}
use od_esphome.Engine.Tick.{tick}
use od_esphome.Engine.Invariant.{Inv, abort-Inv}
use od_esphome.Engine.Invariant.Data.{tick-Inv}
use od_esphome.Engine.Invariant.Steps.{step-Inv}
use od_esphome.Engine.Calls.{Call, step}
use od_esphome.Component.State.{
  Component, on_ble_write, on_ble_connect, on_ble_disconnect, abort_action,
}
use od_esphome.Component.Respond.{drain_tx}
use od_esphome.Component.Dispatch.{
  apply_call, handle_frame, handle_packet, take_packet, drain_rx, update_msd, loop, count_bulk_rx,
}
use od_esphome.Component.Sound.{
  IsSound, send-IsSound, apply_result-IsSound, send_config-IsSound, drain_tx-IsSound,
}

module _ {D : Type 0} where
  apply_call-IsSound :
      (c : Component D) (called : EngineResult × Engine D)
      → IsSound c
      → Inv called.1
      → IsSound (apply_call c called)
  unfolding apply_call
  apply_call-IsSound c called s v =
      apply_result-IsSound (record c { engine = called.1 }) called.0
        (record { engine = v; rx = s.rx; tx = s.tx })

  count_bulk_rx-IsSound :
      (c : Component D) (opcode : ℕ) → IsSound c → IsSound (count_bulk_rx c opcode)
  count_bulk_rx-IsSound c opcode s = ground (arith, s)

module _ {D : Type 0} (api : Backend D) (version : Option (List ℕ)) where
  handle_frame-IsSound :
      (c : Component D) (f : Frame) (now_ms : ℕ)
      → IsSound c
      → IsSound (handle_frame api version c f now_ms)
  unfolding handle_frame step
  handle_frame-IsSound c f now_ms s =
      let p = f.payload in
      let n = f.payload_len in
      let call : (k : Call) → IsSound (apply_call c (step api c.engine k)) =
        λ k. apply_call-IsSound c (step api c.engine k) s (step-Inv api c.engine k s.engine) in
      ground (
        arith,
        s,
        send_config-IsSound c s,
        send-IsSound c (encode_version c.ver_major c.ver_minor c.ver_patch version) false s,
        send-IsSound c (encode_msd_response c.msd) false s,
        send-IsSound c (encode_nack f.opcode) false s,
        call (Call.direct_start p n now_ms),
        call (Call.direct_data p n now_ms),
        call (Call.direct_end p n now_ms),
        call (Call.pipe_start p n now_ms),
        call (Call.pipe_data p n now_ms),
        call (Call.pipe_end p n now_ms),
      )

  handle_packet-IsSound :
      (c : Component D) (pkt : RxPacket) (now_ms : ℕ)
      → IsSound c
      → IsSound (handle_packet api version c pkt now_ms)
  unfolding handle_packet
  handle_packet-IsSound c pkt now_ms s = parsed (parse_frame (some pkt.payload) pkt.payload_length)
    where
      parsed :
          (o : Option Frame)
          → IsSound (elim o as (λ x. Component D) [
            | none ↦ c
            | some f ↦ handle_frame api version (count_bulk_rx c f.opcode) f now_ms
          ])
      parsed none = s
      parsed (some f) =
          handle_frame-IsSound (count_bulk_rx c f.opcode) f now_ms
            (count_bulk_rx-IsSound c f.opcode s)

  take_packet-IsSound :
      (c : Component D) (pkt : RxPacket) (now_ms : ℕ)
      → IsSound c
      → IsSound (take_packet api version c pkt now_ms)
  unfolding take_packet
  take_packet-IsSound c pkt now_ms s = ground (arith, s, handle_packet-IsSound c pkt now_ms s)

  drain_rx-IsSound :
      (n : ℕ) (c : Component D) (clock : ℕ → ℕ)
      → IsSound c
      → IsSound (drain_rx api version n c clock)
  unfolding drain_rx
  drain_rx-IsSound zero c clock s = s
  drain_rx-IsSound (suc n) c clock s =
      popped (λ c' s'. drain_rx-IsSound n c' clock s') (rx_pop c.rx).0 (rx_pop c.rx).1
        (rx_pop_refines c.rx s.rx).0
    where
      popped :
          ((c' : Component D) → IsSound c' → IsSound (drain_rx api version n c' clock))
          → (o : Option RxPacket) (rx : RxQueue) → Rx.IsValid rx
          → IsSound (elim o as (λ x. Component D) [
            | none ↦ record c { rx = rx }
            | some pkt ↦
                drain_rx api version n
                  (take_packet api version (record c { rx = rx }) pkt (clock n))
                  clock
          ])
      popped rest none rx v = record { engine = s.engine; rx = v; tx = s.tx }
      popped rest (some pkt) rx v =
          rest (take_packet api version (record c { rx = rx }) pkt (clock n)) (
            take_packet-IsSound (record c { rx = rx }) pkt (clock n)
              (record { engine = s.engine; rx = v; tx = s.tx }))

  checked-IsSound :
      (c : Component D)
      → IsSound c
      → IsSound (
          if c.connected
          then c
          else record c { engine = on_disconnect api c.engine c.connection_generation })
  unfolding step
  checked-IsSound c s =
      ground (arith, s, step-Inv api c.engine (Call.disconnects c.connection_generation) s.engine)

  loop-IsSound :
      (c : Component D) (now_ms : ℕ) (clock : ℕ → ℕ) (temperature : Encoded)
      → IsSound c
      → IsSound (loop api version c now_ms clock temperature)
  unfolding loop
  loop-IsSound c now_ms clock temperature s =
      let checked =
        if c.connected
        then c
        else record c { engine = on_disconnect api c.engine c.connection_generation } in
      let drained = drain_rx api version 8 checked clock in
      let ticked = apply_call drained (tick api drained.engine now_ms) in
      let sent = update_msd ticked now_ms temperature in
      let s1 = drain_rx-IsSound 8 checked clock (checked-IsSound c s) in
      let s2 =
        apply_call-IsSound drained (tick api drained.engine now_ms) s1
          (tick-Inv api drained.engine now_ms s1.engine) in
      publish_changes-IsSound (drain_tx sent)
        (drain_tx-IsSound sent (update_msd-IsSound ticked now_ms temperature s2))

  happen-IsSound : (c : Component D) (h : Happening) → IsSound c → IsSound (happen api version c h)
  unfolding happen on_ble_write on_ble_connect on_ble_disconnect abort_action step
  happen-IsSound c (Happening.writes bytes now_ms) s = record {
    engine = s.engine;
    rx =
        (rx_push_refines c.rx bytes (length bytes) c.connection_generation now_ms s.rx
          (omega arith)).0;
    tx = s.tx;
  }
  happen-IsSound c Happening.connects s = record {
    engine = step-Inv api c.engine (Call.connects (u32 (c.connection_generation + 1))) s.engine;
    rx = s.rx;
    tx = s.tx;
  }
  happen-IsSound c Happening.disconnects s = record { engine = s.engine; rx = s.rx; tx = s.tx }
  happen-IsSound c Happening.aborts s = record {
    engine = abort-Inv api c.engine ErrorCode.invalid_state;
    rx = s.rx;
    tx = s.tx;
  }
  happen-IsSound c (Happening.loops now_ms clock temperature) s =
      loop-IsSound c now_ms clock temperature s

  -- Every sequence of BLE writes, connections and disconnections, aborts by an automation and passes
  -- of the loop keeps the engine's invariant and both rings valid.
  pub history-IsSound :
      (hs : List Happening) (c : Component D) → IsSound c → IsSound (history api version c hs)
  unfolding history
  history-IsSound [] c s = s
  history-IsSound (h ∷ hs) c s = history-IsSound hs (happen api version c h) (happen-IsSound c h s)
