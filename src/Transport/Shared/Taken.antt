-- ===== src/Transport/Shared/Taken.antt =====
-- What each step of the loop keeps, by where the two stand.
use mathlib.Core.List.{map}
use mathlib.Core.Path.{subst}
use od_esphome.Base.{◌≡◌, ◌≢◌, arith, ◌++◌, ◌∷◌, ap, refl, ◌∙◌, sym}
use od_esphome.Transport.{RxQueue, rx_queue_slots, next_index}
use od_esphome.Transport.Rx.{packets-cons, IsValid, contents, received}
use od_esphome.Transport.Shared.{Producer, Consumer, consume, slot_at, handed}
use od_esphome.Transport.Shared.Kept.{Producing, Consuming}

-- What a step of the loop keeps, whatever the callback is about.
pub record Taken (q : RxQueue) (c : Consumer) (q' : RxQueue) (c' : Consumer) : Type 0 where
  pub valid : IsValid q'
  pub consuming : Consuming q' c'
  pub left : handed c ++ contents q' ≡ contents q
  pub still : (p : Producer) → Producing q p → Producing q' p

release-Producing :
    (q : RxQueue) (p : Producer)
    → IsValid q
    → q.tail ≢ q.head
    → Producing q p
    → Producing (record q { tail = next_index q.tail rx_queue_slots }) p
unfolding Producing
release-Producing q (Producer.stamping w head next) v ne h = omega (arith, v, h, ne)
release-Producing q (Producer.sizing w head next) v ne h = (omega (arith, v, h.0, ne), h.1)
release-Producing q (Producer.timing w head next) v ne h = (omega (arith, v, h.0, ne), h.1, h.2)
release-Producing q (Producer.copying w head next) v ne h =
    (omega (arith, v, h.0, ne), h.1, h.2, h.3)
release-Producing q (Producer.publishing w next) v ne h = (h.0, omega (arith, v, h.0, h.1, ne), h.2)
release-Producing q (Producer.measuring next) v ne h = h
release-Producing q (Producer.returned b) v ne h = h

pub consume-Taken :
    (q : RxQueue) (c : Consumer)
    → IsValid q
    → Consuming q c
    → Taken q c (consume q c).0 (consume q c).1
unfolding consume Consuming
consume-Taken q (Consumer.reading tail) v h = record {
  valid = v;
  consuming = (h.0, h.1, ap (slot_at q) h.0);
  left = refl;
  still = λ p k. k;
}
consume-Taken q (Consumer.releasing tail out) v h = record {
  valid = omega (arith, v, h.0);
  consuming = tt;
  left =
      ap (λ i. received out ∷ contents (record q { tail = next_index i rx_queue_slots })) h.0
      ∙ ap (λ o. received o ∷ contents (record q { tail = next_index q.tail rx_queue_slots })) h.2
      ∙ sym (ap (map received) (packets-cons q v (omega (arith, h.0, h.1))));
  still = λ p k.
      subst (λ i. Producing (record q { tail = next_index i rx_queue_slots }) p) (sym h.0)
        (release-Producing q p v (omega (arith, h.0, h.1)) k);
}
consume-Taken q (Consumer.got o) v h = record {
  valid = v;
  consuming = tt;
  left = refl;
  still = λ p k. k;
}
