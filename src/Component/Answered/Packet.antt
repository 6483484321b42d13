-- ===== src/Component/Answered/Packet.antt =====
-- opendisplay.cpp: a packet of a client that has been sent everything, from its write to what the
-- client hears of it in the pass that follows.
use mathlib.Core.Path.{subst}
use od_esphome.Base.{
  ap₂, length-append, ℕ, ◌≡◌, ◌++◌, [], List, length, Option, none, some, ◌<◌, ◌≤◌, true,
  if◌then◌else◌, arith, ap, ◌∙◌, refl, sym,
}
use od_esphome.Protocol.Frame.{Frame, parse_frame}
use od_esphome.Protocol.Response.{Response}
use od_esphome.Protocol.Msd.{Encoded}
use od_esphome.Backend.{Backend}
use od_esphome.Transport.{RxQueue, TxQueue, RxPacket, rx_pop, rx_slot_bytes, RxQueue}
use od_esphome.Transport.Tx
use od_esphome.Engine.State.{Engine, EngineResult, on_disconnect}
use od_esphome.Engine.Tick.{tick}
use od_esphome.Engine.Calls.{step}
use od_esphome.Component.State.{Component, on_ble_write}
use od_esphome.Component.Respond.{drain_tx}
use od_esphome.Component.Dispatch.{
  apply_call, update_msd, publish_changes, loop, drain_rx, take_packet, handle_packet, handle_frame,
  count_bulk_rx,
}
use od_esphome.Component.History.{history, happen}
use od_esphome.Component.Visit.{
  IsAttending, IsDrained, drain_rx-some, drain_rx-none, visit, written, passed, push-pop,
}
use od_esphome.Component.Kept.{core, Core}
use od_esphome.Component.Answered.{IsQuiet}
use od_esphome.Component.Answered.Queued.{frames_of, Queued}
use od_esphome.Component.Answered.Applied.{apply_call-Queued}
use od_esphome.Component.Answered.Pass.{untail-no_tail, untail, core-applied, rest-IsQuiet}
use od_esphome.Component.Answered.Call.{
  is_transfer_opcode, call_of, ticked, tick-frames, call-frames,
}

module _ {D : Type 0} (api : Backend D) (version : Option (List ℕ)) where
  handle_frame-call :
      (c : Component D) (f : Frame) (now_ms : ℕ)
      → is_transfer_opcode f.opcode ≡ true
      → handle_frame api version c f now_ms ≡ apply_call c (step api c.engine (call_of f now_ms))
  unfolding handle_frame step
  handle_frame-call c f now_ms h = ground (arith, h)

  take_packet-call :
      (c : Component D) (pkt : RxPacket) (f : Frame) (now_ms : ℕ)
      → pkt.connection_generation ≡ c.connection_generation
      → parse_frame (some pkt.payload) pkt.payload_length ≡ some f
      → is_transfer_opcode f.opcode ≡ true
      → take_packet api version c pkt now_ms
        ≡ apply_call (count_bulk_rx c f.opcode) (step api c.engine (call_of f now_ms))
  unfolding take_packet handle_packet
  take_packet-call c pkt f now_ms same parsed h =
      let handled : take_packet api version c pkt now_ms ≡ handle_packet api version c pkt now_ms =
        ground (arith, same) in
      let counted = count_bulk_rx c f.opcode in
      let engine : counted.engine ≡ c.engine = ground arith in
      handled
      ∙ ap
          (λ (o : Option Frame). elim o as (λ x. Component D) [
            | none ↦ c
            | some g ↦ handle_frame api version (count_bulk_rx c g.opcode) g now_ms
          ])
          parsed
      ∙ handle_frame-call counted f now_ms h
      ∙ ap (λ e. apply_call counted (step api e (call_of f now_ms))) engine

  pub loop-one :
      (c : Component D) (now_ms : ℕ) (temperature : Encoded) (pkt : RxPacket) (q : RxQueue)
      → c.connected ≡ true
      → rx_pop c.rx ≡ (some pkt, q)
      → rx_pop q ≡ (none, q)
      → let taken = take_packet api version (record c { rx = q }) pkt now_ms in
        taken.rx ≡ q
        → loop api version c now_ms (λ i. now_ms) temperature
          ≡ publish_changes (
              drain_tx
                (update_msd (apply_call taken (tick api taken.engine now_ms)) now_ms temperature))
  unfolding loop
  loop-one c now_ms temperature pkt q connected first last same =
      let clock = λ (i : ℕ). now_ms in
      let pass = λ (k : Component D).
        publish_changes
          (drain_tx (update_msd (apply_call k (tick api k.engine now_ms)) now_ms temperature)) in
      let taken = take_packet api version (record c { rx = q }) pkt now_ms in
      let checked : (if c.connected
            then c
            else record c { engine = on_disconnect api c.engine c.connection_generation })
          ≡ c =
        rw connected refl in
      let empty : rx_pop taken.rx ≡ (none, taken.rx) =
        subst (λ (r : RxQueue). rx_pop r ≡ (none, r)) (sym same) last in
      ap (λ k. pass (drain_rx api version 8 k clock)) checked
      ∙ ap pass (drain_rx-some api version 7 c clock pkt q first)
      ∙ ap pass (drain_rx-none api version 6 taken clock taken.rx empty)

  handled-Queued :
      (c : Component D) (opcode : ℕ) (called : EngineResult × Engine D)
      → Tx.IsValid c.tx
      → Tx.contents c.tx ≡ []
      → let c' = apply_call (count_bulk_rx c opcode) called in
        Queued c (frames_of called) c' × (core c' ≡ core (record c { engine = untail called.1 }))
  handled-Queued c opcode called v nil =
      let k = count_bulk_rx c opcode in
      let c' = apply_call k called in
      let tx : k.tx ≡ c.tx = ground arith in
      let notified : k.notified ≡ c.notified = ground arith in
      let has : k.has_characteristic ≡ c.has_characteristic = ground arith in
      let kept : core (record k { engine = untail called.1 })
          ≡ core (record c { engine = untail called.1 }) =
        ground arith in
      let queued =
        apply_call-Queued k called (subst Tx.IsValid (sym tx) v)
          (omega (arith, ap length (ap Tx.contents tx ∙ nil))) in
      (
        record {
          valid = queued.valid;
          contents = queued.contents ∙ ap (λ (q : TxQueue). Tx.contents q ++ frames_of called) tx;
          notified = queued.notified ∙ notified;
          charact = queued.charact ∙ has;
        },
        core-applied k called ∙ kept,
      )

  -- A packet with an opcode of the transfer engine, written by a connected client that has been sent
  -- everything, is answered in the pass of the loop that follows by exactly the frames that the
  -- opcode's handler and then `tick` call for, in this order: of each, the staged tail SACK, the
  -- response, and the success or the timeout frame of a refresh, as far as there are any. Behind the
  -- pass the client has again been sent everything. The write and the pass have the same time.
  pub packet_answered :
      (c : Component D) (bytes : List ℕ) (f : Frame) (now_ms : ℕ) (temperature : Encoded)
      → IsQuiet c
      → 0 < length bytes
      → length bytes ≤ rx_slot_bytes
      → (let pkt = written c.rx bytes c.connection_generation now_ms in
          parse_frame (some pkt.payload) pkt.payload_length)
        ≡ some f
      → is_transfer_opcode f.opcode ≡ true
      → let handled = step api c.engine (call_of f now_ms) in
        let timed = ticked api handled.1 now_ms in
        let c' = history api version c (visit bytes now_ms temperature) in
        IsQuiet c'
        × (c'.engine ≡ untail timed.1)
        × (c'.notified ≡ c.notified ++ (frames_of handled ++ frames_of timed))
  unfolding history happen on_ble_write
  packet_answered c bytes f now_ms temperature q pos small parsed opcode =
      let c1 = on_ble_write c bytes (length bytes) now_ms in
      let pkt = written c.rx bytes c.connection_generation now_ms in
      let rx = passed c.rx bytes c.connection_generation now_ms in
      let popped =
        push-pop c.rx bytes c.connection_generation now_ms q.attending.drained pos small in
      let first : rx_pop c1.rx ≡ (some pkt, rx) = ap (λ o. (o, rx)) popped.0 in
      let c2 : Component D = record c1 { rx = rx } in
      let handled = step api c.engine (call_of f now_ms) in
      let timed = ticked api handled.1 now_ms in
      let taken = take_packet api version c2 pkt now_ms in
      let taken_is = take_packet-call c2 pkt f now_ms refl parsed opcode in
      let (queued, cored) = handled-Queued c2 f.opcode handled q.valid q.sent in
      let said : Queued c2 (frames_of handled) taken =
        subst (λ (k : Component D). Queued c2 (frames_of handled) k) (sym taken_is) queued in
      let kept : core taken ≡ core (record c2 { engine = untail handled.1 }) =
        ap core taken_is ∙ cored in
      let same_rx : taken.rx ≡ rx = ap (λ (k : Core D). k.rx) kept in
      let ticks : tick api taken.engine now_ms ≡ timed =
        ap (λ (k : Core D). tick api k.engine now_ms) kept in
      let frames : Tx.contents taken.tx ≡ frames_of handled =
        said.contents ∙ ap (λ (l : List Response). l ++ frames_of handled) q.sent in
      let both : Tx.contents taken.tx ++ frames_of timed ≡ frames_of handled ++ frames_of timed =
        ap (λ (l : List Response). l ++ frames_of timed) frames in
      let attending : IsAttending taken = record {
        drained = subst IsDrained (sym same_rx) popped.1;
        connected = ap (λ (k : Core D). k.connected) kept ∙ q.attending.connected;
      } in
      let few : length (Tx.contents taken.tx ++ frames_of timed) ≤ 4 = omega (
        arith,
        ap length both,
        length-append (frames_of handled) (frames_of timed),
        call-frames api c.engine f now_ms,
        tick-frames api (untail handled.1) now_ms (untail-no_tail handled.1),
      ) in
      let (quiet, engine, sent) =
        rest-IsQuiet taken timed now_ms temperature attending (said.charact ∙ q.charact) said.valid
          few in
      let looped =
        loop-one c1 now_ms temperature pkt rx q.attending.connected first popped.2 same_rx
        ∙ ap
            (λ (t : EngineResult × Engine D).
              publish_changes (drain_tx (update_msd (apply_call taken t) now_ms temperature)))
            ticks in
      subst
        (λ (k : Component D).
          IsQuiet k
          × (k.engine ≡ untail timed.1)
          × (k.notified ≡ c.notified ++ (frames_of handled ++ frames_of timed)))
        (sym looped)
        (quiet, engine, sent ∙ ap₂ (λ (l m : List Response). l ++ m) said.notified both)
