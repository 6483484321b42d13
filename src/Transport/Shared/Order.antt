-- ===== src/Transport/Shared/Order.antt =====
-- Every interleaving of the callback and the loop on the receive ring.
use mathlib.Core.List.{append_assoc}
use od_esphome.Transport.Rx.{IsValid, contents, empty_rx-IsValid}
use od_esphome.Base.{◌≡◌, refl, ◌++◌, ap, ◌∙◌, sym, arith, ℕ, ◌≤◌, length, u32, false, Bool, ◌==◌}
use od_esphome.Transport.Shared.{
  World, Step, Reach, Producer, Consumer, Write, after_push, after_pop, after_produce,
  after_consume, new_world, begin_push, begin_pop, consume, admitted, handed,
}
use od_esphome.Transport.Shared.Kept.{Producing, Consuming, produce-Kept}
use od_esphome.Transport.Shared.Taken.{consume-Taken}
use od_esphome.Transport.Rx.{empty_rx-IsValid}
use od_esphome.Transport.{RxQueue}
use od_esphome.Base.{arith, ◌≤◌, ap, ◌++◌, ℕ, length, u32, ◌∙◌, sym, ◌+◌}

record Inv (s : World) : Type 0 where
  valid : IsValid s.ring
  producing : Producing s.ring s.producer
  consuming : Consuming s.ring s.consumer
  in_order : s.delivered ++ contents s.ring ≡ s.accepted

new_world-Inv : Inv new_world
unfolding Producing Consuming
new_world-Inv = record { valid = empty_rx-IsValid; producing = tt; consuming = tt; in_order = refl }

overflow-Consuming :
    (q : RxQueue) (n : ℕ) (c : Consumer) → Consuming q c → Consuming (record q { overflows = n }) c
unfolding Consuming
overflow-Consuming q n (Consumer.reading tail) h = h
overflow-Consuming q n (Consumer.releasing tail out) h = h
overflow-Consuming q n (Consumer.got o) h = h

push-Inv : (s : World) (w : Write) → w.len ≤ length w.bytes → Inv s → Inv (after_push s w)
unfolding begin_push Producing
push-Inv s w given i =
    let n = u32 (s.ring.overflows + 1) in
    ground (arith, i, overflow-Consuming s.ring n s.consumer i.consuming)

pop-Inv : (s : World) → Inv s → Inv (after_pop s)
unfolding begin_pop Consuming
pop-Inv s i = ground (arith, i)

produce-Inv : (s : World) → Inv s → Inv (after_produce s)
produce-Inv s i =
    let k = produce-Kept s.ring s.producer i.valid i.producing in
    record {
      valid = k.valid;
      producing = k.producing;
      consuming = k.still s.consumer i.consuming;
      in_order =
          ap (λ l. s.delivered ++ l) k.held
          ∙ sym (append_assoc s.delivered (contents s.ring) (admitted s.producer))
          ∙ ap (λ l. l ++ admitted s.producer) i.in_order;
    }

consume-Inv : (s : World) → Inv s → Inv (after_consume s)
consume-Inv s i =
    let k = consume-Taken s.ring s.consumer i.valid i.consuming in
    record {
      valid = k.valid;
      producing = k.still s.producer i.producing;
      consuming = k.consuming;
      in_order =
          append_assoc s.delivered (handed s.consumer) (contents (consume s.ring s.consumer).0)
          ∙ ap (λ l. s.delivered ++ l) k.left
          ∙ i.in_order;
    }

Step-Inv : {s t : World} → Step s t → Inv s → Inv t
Step-Inv {s} (Step.calls_push w given free) i = push-Inv s w given i
Step-Inv {s} Step.produces i = produce-Inv s i
Step-Inv {s} (Step.calls_pop free) i = pop-Inv s i
Step-Inv {s} Step.consumes i = consume-Inv s i

Reach-Inv : {s : World} → Reach s → Inv s
Reach-Inv Reach.start = new_world-Inv
Reach-Inv (Reach.later r st) = Step-Inv st (Reach-Inv r)

-- Every packet whose push has published it has been taken or stands in the ring, in the order of
-- the pushes, none twice and none lost, with its bytes, its generation and its time: after any
-- interleaving of the steps of the callback and of the loop on the ring as it starts.
pub ring_in_order : (s : World) → Reach s → s.delivered ++ contents s.ring ≡ s.accepted
ring_in_order s r = (Reach-Inv r).in_order

-- Whether the callback assigns to a slot that the loop is about to copy.
abbrev pub same_slot : Producer → Consumer → Bool
same_slot (Producer.stamping w head next) (Consumer.reading tail) = head == tail
same_slot (Producer.sizing w head next) (Consumer.reading tail) = head == tail
same_slot (Producer.timing w head next) (Consumer.reading tail) = head == tail
same_slot (Producer.copying w head next) (Consumer.reading tail) = head == tail
same_slot p c = false

apart :
    (q : RxQueue) (p : Producer) (c : Consumer)
    → Producing q p
    → Consuming q c
    → same_slot p c ≡ false
unfolding Producing Consuming
apart q (Producer.stamping w head next) (Consumer.reading tail) h k = ground (arith, h, k)
apart q (Producer.sizing w head next) (Consumer.reading tail) h k = ground (arith, h.0, k)
apart q (Producer.timing w head next) (Consumer.reading tail) h k = ground (arith, h.0, k)
apart q (Producer.copying w head next) (Consumer.reading tail) h k = ground (arith, h.0, k)
apart q (Producer.publishing w next) c h k = refl
apart q (Producer.measuring next) c h k = refl
apart q (Producer.returned b) c h k = refl
apart q p c h k = refl

-- After any interleaving, the callback never stands before an assignment to the slot that the loop
-- stands before copying.
pub slots_apart : (s : World) → Reach s → same_slot s.producer s.consumer ≡ false
slots_apart s r = let i = Reach-Inv r in apart s.ring s.producer s.consumer i.producing i.consuming
