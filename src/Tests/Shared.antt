-- ===== src/Tests/Shared.antt =====
-- ble_transport.cpp: a push and a pop that take turns.
use od_esphome.Base.{ℕ, zero, suc, [], ◌∷◌, ◌++◌, ◌≡◌, refl, false, arith}
use od_esphome.Transport.Rx.{contents, arrived}
use od_esphome.Transport.Shared.{
  World, Write, Reach, Step, new_world, after_push, after_produce, after_pop, after_consume,
  begin_push, produce, begin_pop, consume,
}
use od_esphome.Transport.Shared.Order.{ring_in_order, slots_apart, same_slot}

abbrev first : Write
first = record { bytes = 0 ∷ 112 ∷ []; len = 2; generation = 1; now_ms = 5 }

abbrev second : Write
second = record { bytes = 0 ∷ 113 ∷ 7 ∷ []; len = 3; generation = 1; now_ms = 6 }

abbrev produced : ℕ → World → World
produced zero s = s
produced (suc n) s = produced n (after_produce s)

produced-Reach : (n : ℕ) {s : World} → Reach s → Reach (produced n s)
produced-Reach zero r = r
produced-Reach (suc n) r = produced-Reach n (Reach.later r Step.produces)

-- The first packet is published; the callback copies the second as the loop reads the first.
abbrev published : World
published = produced 6 (after_push new_world first)

abbrev amid : World
amid = produced 3 (after_pop (after_push published second))

abbrev taken : World
taken = after_consume (after_consume amid)

published-Reach : Reach published
unfolding begin_push
published-Reach =
    produced-Reach 6 (Reach.later Reach.start (Step.calls_push first (omega arith) refl))

amid-Reach : Reach amid
unfolding begin_push begin_pop produce
amid-Reach = produced-Reach 3 (
    Reach.later (Reach.later published-Reach (Step.calls_push second (omega arith) refl))
      (Step.calls_pop refl))

taken-Reach : Reach taken
taken-Reach = Reach.later (Reach.later amid-Reach Step.consumes) Step.consumes

taken-delivered : taken.delivered ≡ arrived (0 ∷ 112 ∷ []) 2 1 5 ∷ []
unfolding begin_push begin_pop produce consume
taken-delivered = refl

ring_in_order_example : taken.delivered ++ contents taken.ring ≡ taken.accepted
ring_in_order_example = ring_in_order taken taken-Reach

slots_apart_example : same_slot amid.producer amid.consumer ≡ false
slots_apart_example = slots_apart amid amid-Reach
