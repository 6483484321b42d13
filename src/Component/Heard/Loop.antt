-- ===== src/Component/Heard/Loop.antt =====
-- The busy sensor over a pass of the loop and a history.
use mathlib.Core.Path.{subst}
use od_esphome.Component.Kept.{core-publish_state}
use od_esphome.Base.{
  sym, if◌then◌else◌, ℕ, zero, suc, ◌≡◌, ◌∷◌, [], true, false, Option, none, some, List, arith,
  refl, ◌∙◌,
}
use od_esphome.Protocol.Response.{encode_nack}
use od_esphome.Protocol.Version.{encode_version}
use od_esphome.Protocol.Frame.{Frame, parse_frame}
use od_esphome.Protocol.Msd.{Encoded, encode_msd_response}
use od_esphome.Backend.{Backend}
use od_esphome.Transport.{RxPacket, RxQueue, rx_pop}
use od_esphome.Engine.State.{is_busy, on_disconnect}
use od_esphome.Engine.Tick.{tick}
use od_esphome.Engine.Calls.{Call, step}
use od_esphome.Component.State.{
  Component, on_ble_write, on_ble_connect, on_ble_disconnect, abort_action,
}
use od_esphome.Component.Respond.{drain_tx}
use od_esphome.Component.Dispatch.{
  update_msd, publish_changes, apply_call, handle_frame, handle_packet, take_packet, drain_rx,
  count_bulk_rx, loop,
}
use od_esphome.Component.History.{Happening, happen, history}
use od_esphome.Component.Heard.{
  Ear, ear, last_busy, ear-send, ear-send_config, ear-apply_call, ear-drain_tx, ear-update_msd,
  ear-publish_state,
}

-- A sensor that shows what was published last.
abbrev pub Follows : Ear → Type 0
Follows k = (k.has_busy_sensor ≡ true) × (k.shown ≡ some k.published_busy)

module _ {D : Type 0} (api : Backend D) (version : Option (List ℕ)) where
  ear-handle_frame :
      (c : Component D) (f : Frame) (now_ms : ℕ) → ear (handle_frame api version c f now_ms) ≡ ear c
  unfolding handle_frame step
  ear-handle_frame c f now_ms =
      let p = f.payload in
      let n = f.payload_len in
      ground (
        arith,
        ear-send_config c,
        ear-send c (encode_version c.ver_major c.ver_minor c.ver_patch version) false,
        ear-send c (encode_msd_response c.msd) false,
        ear-send c (encode_nack f.opcode) false,
        ear-apply_call c (step api c.engine (Call.direct_start p n now_ms)),
        ear-apply_call c (step api c.engine (Call.direct_data p n now_ms)),
        ear-apply_call c (step api c.engine (Call.direct_end p n now_ms)),
        ear-apply_call c (step api c.engine (Call.pipe_start p n now_ms)),
        ear-apply_call c (step api c.engine (Call.pipe_data p n now_ms)),
        ear-apply_call c (step api c.engine (Call.pipe_end p n now_ms)),
      )

  ear-handle_packet :
      (c : Component D) (pkt : RxPacket) (now_ms : ℕ)
      → ear (handle_packet api version c pkt now_ms) ≡ ear c
  unfolding handle_packet
  ear-handle_packet c pkt now_ms = parsed (parse_frame (some pkt.payload) pkt.payload_length)
    where
      parsed :
          (o : Option Frame)
          → ear (elim o as (λ x. Component D) [
            | none ↦ c
            | some f ↦ handle_frame api version (count_bulk_rx c f.opcode) f now_ms
          ])
            ≡ ear c
      parsed none = refl
      parsed (some f) = ear-handle_frame (count_bulk_rx c f.opcode) f now_ms ∙ ground arith

  ear-take_packet :
      (c : Component D) (pkt : RxPacket) (now_ms : ℕ)
      → ear (take_packet api version c pkt now_ms) ≡ ear c
  unfolding take_packet
  ear-take_packet c pkt now_ms = ground (arith, ear-handle_packet c pkt now_ms)

  ear-drain_rx :
      (n : ℕ) (c : Component D) (clock : ℕ → ℕ) → ear (drain_rx api version n c clock) ≡ ear c
  unfolding drain_rx
  ear-drain_rx zero c clock = refl
  ear-drain_rx (suc n) c clock =
      popped (λ d. ear-drain_rx n d clock) (rx_pop c.rx).0 (rx_pop c.rx).1
    where
      popped :
          ((d : Component D) → ear (drain_rx api version n d clock) ≡ ear d)
          → (o : Option RxPacket) (rx : RxQueue)
          → ear (elim o as (λ x. Component D) [
            | none ↦ record c { rx = rx }
            | some pkt ↦
                drain_rx api version n
                  (take_packet api version (record c { rx = rx }) pkt (clock n))
                  clock
          ])
            ≡ ear c
      popped ih none rx = refl
      popped ih (some pkt) rx =
          ih (take_packet api version (record c { rx = rx }) pkt (clock n))
          ∙ ear-take_packet (record c { rx = rx }) pkt (clock n)

  publish_changes-Follows :
      (c : Component D)
      → Follows (ear c)
      → let c' = publish_changes c in
        Follows (ear c') × (last_busy c'.notices ≡ some (is_busy c'.engine))
  unfolding publish_changes
  publish_changes-Follows c (sensor, shown) =
      ground (arith, sensor, shown, ear-publish_state c sensor, core-publish_state c)

  pub loop-Follows :
      (c : Component D) (now_ms : ℕ) (clock : ℕ → ℕ) (temperature : Encoded)
      → Follows (ear c)
      → let c' = loop api version c now_ms clock temperature in
        Follows (ear c') × (last_busy c'.notices ≡ some (is_busy c'.engine))
  unfolding loop
  loop-Follows c now_ms clock temperature follows =
      let checked =
        if c.connected
        then c
        else record c { engine = on_disconnect api c.engine c.connection_generation } in
      let drained = drain_rx api version 8 checked clock in
      let ticked = apply_call drained (tick api drained.engine now_ms) in
      let advertised = update_msd ticked now_ms temperature in
      let same : ear (drain_tx advertised) ≡ ear c =
        ear-drain_tx advertised
        ∙ ear-update_msd ticked now_ms temperature
        ∙ ear-apply_call drained (tick api drained.engine now_ms)
        ∙ ear-drain_rx 8 checked clock
        ∙ ground arith in
      publish_changes-Follows (drain_tx advertised) (subst Follows (sym same) follows)

  happen-Follows :
      (c : Component D) (h : Happening) → Follows (ear c) → Follows (ear (happen api version c h))
  unfolding happen on_ble_write on_ble_connect on_ble_disconnect abort_action
  happen-Follows c (Happening.writes bytes now_ms) follows = follows
  happen-Follows c Happening.connects follows = follows
  happen-Follows c Happening.disconnects follows = follows
  happen-Follows c Happening.aborts follows = follows
  happen-Follows c (Happening.loops now_ms clock temperature) follows =
      (loop-Follows c now_ms clock temperature follows).0

  pub history-Follows :
      (hs : List Happening) (c : Component D)
      → Follows (ear c)
      → Follows (ear (history api version c hs))
  unfolding history
  history-Follows [] c follows = follows
  history-Follows (h ∷ hs) c follows =
      history-Follows hs (happen api version c h) (happen-Follows c h follows)
