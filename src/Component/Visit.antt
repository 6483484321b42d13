-- ===== src/Component/Visit.antt =====
-- opendisplay.cpp: one packet from the BLE callback through the receive ring to its handler.
pub mod Direct
pub mod Pipe
use od_esphome.Base.{
  get_or-set_self, ℕ, ◌≡◌, List, ◌<◌, get_or, some, length, ◌≤◌, set, none, arith, ◌∷◌, length-set,
  suc, [], zero, refl, Option, true, ap, ◌∙◌, ◌==◌, if◌then◌else◌,
}
use od_esphome.Backend.{Backend}
use od_esphome.Protocol.Frame.{Frame, parse_frame}
use od_esphome.Protocol.Msd.{Encoded}
use od_esphome.Transport.{
  RxPacket, RxQueue, rx_push, rx_pop, rx_queue_slots, rx_slot_bytes, fill_slot, empty_packet,
}
use od_esphome.Transport.Rx
use od_esphome.Engine.State.{on_disconnect}
use od_esphome.Engine.Tick.{tick}
use od_esphome.Engine.Calls.{Call, run, step}
use od_esphome.Component.State.{Component, on_ble_write}
use od_esphome.Component.Respond.{drain_tx}
use od_esphome.Component.Dispatch.{take_packet, drain_rx, apply_call, update_msd, loop}
use od_esphome.Component.Kept.{Core, core, core-drain_tx, core-update_msd, core-publish_changes}
use od_esphome.Component.History.{Happening, history, happen, served, parsed_calls, packet_calls}
use od_esphome.Component.Refine.{after, core-take_packet, core-apply_call}

-- A receive ring with nothing in it.
pub record IsDrained (q : RxQueue) : Type 0 where
  pub valid : Rx.IsValid q
  pub empty : q.tail ≡ q.head

-- The packet that a write puts into the ring.
abbrev pub written : RxQueue → List ℕ → ℕ → ℕ → RxPacket
written q bytes generation now_ms =
    fill_slot (get_or q.slots q.head empty_packet) bytes (length bytes) generation now_ms

-- The ring after a write and a read.
abbrev pub passed : RxQueue → List ℕ → ℕ → ℕ → RxQueue
passed q bytes generation now_ms =
    (rx_pop (rx_push q (some bytes) (length bytes) generation now_ms).1).1

pub push-pop :
    (q : RxQueue) (bytes : List ℕ) (generation now_ms : ℕ)
    → IsDrained q
    → 0 < length bytes
    → length bytes ≤ rx_slot_bytes
    → let q' = (rx_push q (some bytes) (length bytes) generation now_ms).1 in
      ((rx_pop q').0 ≡ some (written q bytes generation now_ms))
      × IsDrained (passed q bytes generation now_ms)
      × (rx_pop (passed q bytes generation now_ms) ≡ (none, passed q bytes generation now_ms))
unfolding rx_push rx_pop
push-pop q bytes generation now_ms d pos small =
    let slot = written q bytes generation now_ms in
    ground (
      arith,
      d,
      length-set q.slots q.head slot,
      get_or-set_self q.slots q.head slot empty_packet (omega (arith, d)),
    )

-- What the component keeps of a connected client between two packets.
pub record IsAttending {D : Type 0} (c : Component D) : Type 0 where
  pub drained : IsDrained c.rx
  pub connected : c.connected ≡ true

abbrev pub visit : List ℕ → ℕ → Encoded → List Happening
visit bytes now_ms temperature =
    Happening.writes bytes now_ms ∷ Happening.loops now_ms (λ i. now_ms) temperature ∷ []

module _ {D : Type 0} (api : Backend D) (version : Option (List ℕ)) where
  pub drain_rx-some :
      (n : ℕ) (c : Component D) (clock : ℕ → ℕ) (pkt : RxPacket) (q : RxQueue)
      → rx_pop c.rx ≡ (some pkt, q)
      → drain_rx api version (suc n) c clock
        ≡ drain_rx api version n (take_packet api version (record c { rx = q }) pkt (clock n)) clock
  unfolding drain_rx
  drain_rx-some n c clock pkt q h =
      ap
        (λ (popped : Option RxPacket × RxQueue). elim popped.0 as (λ x. Component D) [
          | none ↦ record c { rx = popped.1 }
          | some p ↦
              drain_rx api version n
                (take_packet api version (record c { rx = popped.1 }) p (clock n)) clock
        ])
        h

  pub drain_rx-none :
      (n : ℕ) (c : Component D) (clock : ℕ → ℕ) (q : RxQueue)
      → rx_pop c.rx ≡ (none, q)
      → drain_rx api version (suc n) c clock ≡ record c { rx = q }
  unfolding drain_rx
  drain_rx-none n c clock q h =
      ap
        (λ (popped : Option RxPacket × RxQueue). elim popped.0 as (λ x. Component D) [
          | none ↦ record c { rx = popped.1 }
          | some p ↦
              drain_rx api version n
                (take_packet api version (record c { rx = popped.1 }) p (clock n)) clock
        ])
        h

  -- With one packet in the ring, the loop's first phase is that packet.
  drain_one :
      (n : ℕ) (c : Component D) (clock : ℕ → ℕ) (pkt : RxPacket) (q : RxQueue)
      → rx_pop c.rx ≡ (some pkt, q)
      → rx_pop q ≡ (none, q)
      → core (drain_rx api version (suc (suc n)) c clock)
        ≡ after api
            (record (core c) { rx = q })
            (packet_calls c.connection_generation pkt (clock (suc n)))
  drain_one n c clock pkt q first last =
      let taken = take_packet api version (record c { rx = q }) pkt (clock (suc n)) in
      let kept = core-take_packet api version (record c { rx = q }) pkt (clock (suc n)) in
      let same : taken.rx ≡ q = ap (λ (k : Core D). k.rx) kept in
      ap core (drain_rx-some (suc n) c clock pkt q first)
      ∙ ap core (drain_rx-none n taken clock q (ap rx_pop same ∙ last))
      ∙ ap (λ (k : Core D). record k { rx = q }) kept

  core-loop :
      (c : Component D) (now_ms : ℕ) (clock : ℕ → ℕ) (temperature : Encoded)
      → c.connected ≡ true
      → core (loop api version c now_ms clock temperature)
        ≡ after api (core (drain_rx api version 8 c clock)) (served (Call.ticks now_ms))
  unfolding loop step
  core-loop c now_ms clock temperature connected =
      let checked =
        if c.connected
        then c
        else record c { engine = on_disconnect api c.engine c.connection_generation } in
      let drained = drain_rx api version 8 checked clock in
      let ticked = apply_call drained (tick api drained.engine now_ms) in
      let sent = update_msd ticked now_ms temperature in
      let same : checked ≡ c = rw connected refl in
      core-publish_changes (drain_tx sent)
      ∙ core-drain_tx sent
      ∙ core-update_msd ticked now_ms temperature
      ∙ core-apply_call api drained (Call.ticks now_ms)
      ∙ ap
          (λ (k : Component D).
            after api (core (drain_rx api version 8 k clock)) (served (Call.ticks now_ms)))
          same

  abbrev pub visited : Component D → List ℕ → ℕ → Core D
  visited c bytes now_ms =
      let pkt = written c.rx bytes c.connection_generation now_ms in
      after api
        (after api (record (core c) { rx = passed c.rx bytes c.connection_generation now_ms })
          (parsed_calls (parse_frame (some pkt.payload) pkt.payload_length) now_ms))
        (served (Call.ticks now_ms))

  pub core-visit :
      (c : Component D) (bytes : List ℕ) (now_ms : ℕ) (temperature : Encoded)
      → IsAttending c
      → 0 < length bytes
      → length bytes ≤ rx_slot_bytes
      → core (history api version c (visit bytes now_ms temperature)) ≡ visited c bytes now_ms
  unfolding history happen on_ble_write
  core-visit c bytes now_ms temperature attending pos small =
      let c1 = on_ble_write c bytes (length bytes) now_ms in
      let pkt = written c.rx bytes c.connection_generation now_ms in
      let q = passed c.rx bytes c.connection_generation now_ms in
      let popped = push-pop c.rx bytes c.connection_generation now_ms attending.drained pos small in
      let first : rx_pop c1.rx ≡ (some pkt, q) = ap (λ o. (o, q)) popped.0 in
      core-loop c1 now_ms (λ i. now_ms) temperature attending.connected
      ∙ ap (λ k. after api k (served (Call.ticks now_ms)))
          (drain_one 6 c1 (λ i. now_ms) pkt q first popped.2 ∙ ground arith)
