-- ===== src/Component/Stale.antt =====
-- Packets of a previous connection.
use mathlib.Core.Option
use od_esphome.Base.{
  drop, ap, ◌∙◌, ℕ, zero, suc, ◌≡◌, ◌==◌, ◌&&◌, not, Bool, true, Option, none, some, List, [], ◌∷◌,
  arith, refl,
}
use od_esphome.Backend.{Backend}
use od_esphome.Transport.{RxPacket, RxQueue, rx_pop}
use od_esphome.Transport.Rx
use od_esphome.Transport.Rx.{Received, received, rx_pop_refines}
use od_esphome.Transport.Fifo.{poll}
use od_esphome.Component.State.{Component}
use od_esphome.Component.Dispatch.{drain_rx, take_packet}

-- No packet of a queue belongs to a connection.
abbrev pub all_stale : ℕ → List Received → Bool
all_stale generation [] = true
all_stale generation (p ∷ l) = not (p.generation == generation) && all_stale generation l

abbrev is_stale : ℕ → Option RxPacket → Bool
is_stale generation none = true
is_stale generation (some pkt) = not (pkt.connection_generation == generation)

poll-stale :
    (generation : ℕ) (o : Option RxPacket) (l l' : List Received)
    → (Option.map received o, l') ≡ poll l
    → all_stale generation l ≡ true
    → (all_stale generation l' ≡ true) × (is_stale generation o ≡ true)
unfolding poll
poll-stale generation none [] l' e h = ground (arith, e)
poll-stale generation (some pkt) [] l' e h = ground (arith, e)
poll-stale generation none (p ∷ l) l' e h = ground (arith, e)
poll-stale generation (some pkt) (p ∷ l) l' e h = ground (arith, e)

-- The queue behind a read, and `n` further entries taken if the read gave one.
abbrev left_of : ℕ → Option RxPacket → List Received → List Received
left_of n none l = l
left_of n (some pkt) l = drop n l

poll-drop :
    (n : ℕ) (o : Option RxPacket) (l l' : List Received)
    → (Option.map received o, l') ≡ poll l
    → left_of n o l' ≡ drop (suc n) l
unfolding poll
poll-drop n none [] l' e = ground (arith, e)
poll-drop n (some pkt) [] l' e = ground (arith, e)
poll-drop n none (p ∷ l) l' e = ground (arith, e)
poll-drop n (some pkt) (p ∷ l) l' e = ap (drop n) (ap (λ k. k.1) e)

module _ {D : Type 0} (api : Backend D) (version : Option (List ℕ)) where
  dropped :
      (c : Component D) (pkt : RxPacket) (now_ms : ℕ)
      → not (pkt.connection_generation == c.connection_generation) ≡ true
      → take_packet api version c pkt now_ms ≡ c
  unfolding take_packet
  dropped c pkt now_ms s = rw s refl

  -- What is left of a component when `n` packets have been taken from its ring and dropped.
  abbrev Dropped : ℕ → Component D → Component D → Type 0
  Dropped n c c' =
      (c' ≡ record c { rx = c'.rx })
      × Rx.IsValid c'.rx
      × (Rx.contents c'.rx ≡ drop n (Rx.contents c.rx))

  -- With only packets of previous connections in the ring, the packet phase of the loop takes exactly
  -- the oldest `n` of them out of it, or all if there are fewer, leaves the others in their order and
  -- the ring valid, and changes nothing else of the component.
  pub stale_packets_dropped :
      (n : ℕ) (c : Component D) (clock : ℕ → ℕ)
      → Rx.IsValid c.rx
      → all_stale c.connection_generation (Rx.contents c.rx) ≡ true
      → let c' = drain_rx api version n c clock in
        (c' ≡ record c { rx = c'.rx })
        × Rx.IsValid c'.rx
        × (Rx.contents c'.rx ≡ drop n (Rx.contents c.rx))
  unfolding drain_rx
  stale_packets_dropped zero c clock v h = (refl, v, refl)
  stale_packets_dropped (suc n) c clock v h =
      let popping = rx_pop_refines c.rx v in
      let rest =
        poll-stale c.connection_generation (rx_pop c.rx).0 (Rx.contents c.rx)
          (Rx.contents (rx_pop c.rx).1) popping.1 h in
      let left =
        poll-drop n (rx_pop c.rx).0 (Rx.contents c.rx) (Rx.contents (rx_pop c.rx).1) popping.1 in
      popped (λ rx v' h'. stale_packets_dropped n (record c { rx = rx }) clock v' h')
        (rx_pop c.rx).0 (rx_pop c.rx).1 popping.0 rest.0 rest.1 left
    where
      popped :
          ((rx : RxQueue)
            → Rx.IsValid rx
            → all_stale c.connection_generation (Rx.contents rx) ≡ true
            → Dropped n
                (record c { rx = rx })
                (drain_rx api version n (record c { rx = rx }) clock))
          → (o : Option RxPacket) (rx : RxQueue) → Rx.IsValid rx
          → all_stale c.connection_generation (Rx.contents rx) ≡ true
          → is_stale c.connection_generation o ≡ true
          → left_of n o (Rx.contents rx) ≡ drop (suc n) (Rx.contents c.rx)
          → Dropped (suc n) c (elim o as (λ x. Component D) [
            | none ↦ record c { rx = rx }
            | some pkt ↦
                drain_rx api version n
                  (take_packet api version (record c { rx = rx }) pkt (clock n))
                  clock
          ])
      popped rest none rx v' h' s left = (refl, v', left)
      popped rest (some pkt) rx v' h' s left =
          let stays : take_packet api version (record c { rx = rx }) pkt (clock n)
              ≡ record c { rx = rx } =
            dropped (record c { rx = rx }) pkt (clock n) s in
          let (same, valid, contents) = rest rx v' h' in rw stays (same, valid, contents ∙ left)
