-- ===== src/Component/Refine.antt =====
-- opendisplay.cpp: the component's engine, against the calls that History derives from the events.
use od_esphome.Base.{
  ℕ, zero, suc, ◌∷◌, ◌++◌, [], ◌≡◌, ◌==◌, ◌∙◌, ap, false, Option, none, some, List, arith, refl,
  Bool-cases, inl, inr, sym, if◌then◌else◌,
}
use od_esphome.Backend.{Backend}
use od_esphome.Protocol.Frame.{Frame, parse_frame}
use od_esphome.Protocol.Msd.{Encoded}
use od_esphome.Protocol.Response.{encode_nack}
use od_esphome.Protocol.Version.{encode_version}
use od_esphome.Protocol.Msd.{encode_msd_response}
use od_esphome.Transport.{RxPacket, RxQueue, rx_pop}
use od_esphome.Engine.State.{on_disconnect}
use od_esphome.Engine.Tick.{tick}
use od_esphome.Engine.Calls.{run-append, Call, step, run}
use od_esphome.Component.State.{
  Component, on_ble_write, on_ble_connect, on_ble_disconnect, abort_action,
}
use od_esphome.Component.Respond.{drain_tx}
use od_esphome.Component.Dispatch.{
  apply_call, handle_frame, handle_packet, take_packet, drain_rx, update_msd, loop, count_bulk_rx,
}
use od_esphome.Component.Kept.{
  Core, core, core-send, core-send_config, core-apply_result, core-drain_tx, core-update_msd,
  core-publish_changes,
}
use od_esphome.Component.History.{
  Happening, happen, history, served, frame_calls, parsed_calls, packet_calls, queue_calls, checks,
  loop_calls, happen_calls, history_calls,
}

module _ {D : Type 0} (api : Backend D) where
  -- The component's core after some calls of the engine.
  abbrev pub after : Core D → List Call → Core D
  after k cs = record k { engine = run api k.engine cs }

  pub core-apply_call :
      (c : Component D) (call : Call)
      → core (apply_call c (step api c.engine call)) ≡ after (core c) (served call)
  unfolding apply_call run step
  core-apply_call c call =
      core-apply_result (record c { engine = (step api c.engine call).1 })
        (step api c.engine call).0

  module _ (version : Option (List ℕ)) where
    core-handle_frame :
        (c : Component D) (f : Frame) (now_ms : ℕ)
        → core (handle_frame api version c f now_ms) ≡ after (core c) (frame_calls f now_ms)
    unfolding handle_frame step run
    core-handle_frame c f now_ms =
        let p = f.payload in
        let n = f.payload_len in
        ground (
          arith,
          core-send_config c,
          core-send c (encode_version c.ver_major c.ver_minor c.ver_patch version) false,
          core-send c (encode_msd_response c.msd) false,
          core-send c (encode_nack f.opcode) false,
          core-apply_call c (Call.direct_start p n now_ms),
          core-apply_call c (Call.direct_data p n now_ms),
          core-apply_call c (Call.direct_end p n now_ms),
          core-apply_call c (Call.pipe_start p n now_ms),
          core-apply_call c (Call.pipe_data p n now_ms),
          core-apply_call c (Call.pipe_end p n now_ms),
        )

    core-count_bulk_rx : (c : Component D) (opcode : ℕ) → core (count_bulk_rx c opcode) ≡ core c
    core-count_bulk_rx c opcode = ground arith

    core-handle_packet :
        (c : Component D) (pkt : RxPacket) (now_ms : ℕ)
        → core (handle_packet api version c pkt now_ms)
          ≡ after (core c) (parsed_calls (parse_frame (some pkt.payload) pkt.payload_length) now_ms)
    unfolding handle_packet run
    core-handle_packet c pkt now_ms = parsed (parse_frame (some pkt.payload) pkt.payload_length)
      where
        parsed :
            (o : Option Frame)
            → core (elim o as (λ x. Component D) [
              | none ↦ c
              | some f ↦ handle_frame api version (count_bulk_rx c f.opcode) f now_ms
            ])
              ≡ after (core c) (parsed_calls o now_ms)
        parsed none = refl
        parsed (some f) =
            core-handle_frame (count_bulk_rx c f.opcode) f now_ms
            ∙ ap (λ k. after k (frame_calls f now_ms)) (core-count_bulk_rx c f.opcode)

    pub core-take_packet :
        (c : Component D) (pkt : RxPacket) (now_ms : ℕ)
        → core (take_packet api version c pkt now_ms)
          ≡ after (core c) (packet_calls c.connection_generation pkt now_ms)
    unfolding take_packet run
    core-take_packet c pkt now_ms =
        elim (Bool-cases (pkt.connection_generation == c.connection_generation)) [
          | inl same ↦ rw same (core-handle_packet c pkt now_ms)
          | inr other ↦ rw other refl
        ]

    engine-drain_rx :
        (n : ℕ) (c : Component D) (clock : ℕ → ℕ)
        → (drain_rx api version n c clock).engine
          ≡ run api c.engine (queue_calls n c.connection_generation c.rx clock)
    unfolding drain_rx queue_calls run
    engine-drain_rx zero c clock = refl
    engine-drain_rx (suc n) c clock =
        popped (λ c'. engine-drain_rx n c' clock) (rx_pop c.rx).0 (rx_pop c.rx).1
      where
        popped :
            ((c' : Component D)
              → (drain_rx api version n c' clock).engine
                ≡ run api c'.engine (queue_calls n c'.connection_generation c'.rx clock))
            → (o : Option RxPacket) (rx : RxQueue)
            → (elim o as (λ x. Component D) [
              | none ↦ record c { rx = rx }
              | some pkt ↦
                  drain_rx api version n
                    (take_packet api version (record c { rx = rx }) pkt (clock n))
                    clock
            ]).engine
              ≡ run api c.engine (elim o as (λ x. List Call) [
                | none ↦ []
                | some pkt ↦
                    packet_calls c.connection_generation pkt (clock n)
                    ++ queue_calls n c.connection_generation rx clock
              ])
        popped rest none rx = refl
        popped rest (some pkt) rx =
            let c' = record c { rx = rx } in
            let taken = take_packet api version c' pkt (clock n) in
            let first = packet_calls c.connection_generation pkt (clock n) in
            rest taken
            ∙ ap
                (λ (k : Core D).
                  run api k.engine (queue_calls n k.connection_generation k.rx clock))
                (core-take_packet c' pkt (clock n))
            ∙ sym (run-append api first (queue_calls n c.connection_generation rx clock) c.engine)

    engine-loop :
        (c : Component D) (now_ms : ℕ) (clock : ℕ → ℕ) (temperature : Encoded)
        → (loop api version c now_ms clock temperature).engine
          ≡ run api c.engine (loop_calls c now_ms clock)
    unfolding loop run step
    engine-loop c now_ms clock temperature =
        let checked =
          if c.connected
          then c
          else record c { engine = on_disconnect api c.engine c.connection_generation } in
        let drained = drain_rx api version 8 checked clock in
        let ticked = apply_call drained (tick api drained.engine now_ms) in
        let sent = update_msd ticked now_ms temperature in
        let queued = queue_calls 8 c.connection_generation c.rx clock in
        let last = served (Call.ticks now_ms) in
        let first : core checked ≡ after (core c) (checks c) = ground arith in
        ap (λ (k : Core D). k.engine)
          (core-publish_changes (drain_tx sent)
            ∙ core-drain_tx sent
            ∙ core-update_msd ticked now_ms temperature
            ∙ core-apply_call drained (Call.ticks now_ms))
        ∙ ap (λ e. run api e last)
            (engine-drain_rx 8 checked clock
              ∙ ap
                  (λ (k : Core D).
                    run api k.engine (queue_calls 8 k.connection_generation k.rx clock))
                  first)
        ∙ sym (run-append api queued last (run api c.engine (checks c)))
        ∙ sym (run-append api (checks c) (queued ++ last) c.engine)

    engine-happen :
        (c : Component D) (h : Happening)
        → (happen api version c h).engine ≡ run api c.engine (happen_calls c h)
    unfolding happen on_ble_write on_ble_connect on_ble_disconnect abort_action run step
    engine-happen c (Happening.writes bytes now_ms) = refl
    engine-happen c Happening.connects = refl
    engine-happen c Happening.disconnects = refl
    engine-happen c Happening.aborts = refl
    engine-happen c (Happening.loops now_ms clock temperature) =
        engine-loop c now_ms clock temperature

    -- Whatever happens to the component, its engine is where the calls of `history_calls` bring it:
    -- for each pass of the loop `on_disconnect` without a connection, the handlers that the opcodes
    -- of at most eight packets of the current connection select, in the order of their arrival, and
    -- `tick`, with the tail SACK fetched behind each; and one call for a connection and for an
    -- abort.
    pub history_refines :
        (hs : List Happening) (c : Component D)
        → (history api version c hs).engine ≡ run api c.engine (history_calls api version c hs)
    unfolding history history_calls run
    history_refines [] c = refl
    history_refines (h ∷ hs) c =
        let c' = happen api version c h in
        history_refines hs c'
        ∙ ap (λ e. run api e (history_calls api version c' hs)) (engine-happen c h)
        ∙ sym (run-append api (happen_calls c h) (history_calls api version c' hs) c.engine)
