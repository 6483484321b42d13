-- ===== src/Transport/Shared/Kept.antt =====
-- What each step of the callback keeps, by where the callback and the loop stand.
use mathlib.Core.List.{map, map-append, append-nil}
use mathlib.Core.Path.{subst}
use od_esphome.Transport.Window.{window, window-set_ne, window-suc}
use od_esphome.Base.{
  ℕ, ◌≡◌, ◌≢◌, ◌≤◌, arith, ◌++◌, length, ◌<◌, length-set, get_or-set_ne, ◌∷◌, get_or-set_self, [],
  ap, suc, ◌+◌, ◌%◌, refl, ◌∙◌, sym, take, drop, u16, ◌-◌, if◌then◌else◌, ltb,
}
use od_esphome.Transport.{
  RxQueue, RxPacket, rx_queue_slots, rx_slot_bytes, next_index, empty_packet,
}
use od_esphome.Transport.Rx.{used, take-append, IsValid, contents, packets, received, arrived}
use od_esphome.Transport.Shared.{Write, Producer, Consumer, produce, store, slot_at, admitted}
use od_esphome.Transport.Window.{window-set_ne}

-- The callback writes the free slot at `head`, with room left behind it.
pub record Writes (free oldest : ℕ) (w : Write) (head next : ℕ) : Type 0 where
  pub here : head ≡ free
  pub then_next : next ≡ next_index free rx_queue_slots
  pub room : next ≢ oldest
  pub fits : w.len ≤ rx_slot_bytes
  pub given : w.len ≤ length w.bytes

unfoldable pub Producing : RxQueue → Producer → Type 0
Producing q (Producer.stamping w head next) = Writes q.head q.tail w head next
Producing q (Producer.sizing w head next) =
    Writes q.head q.tail w head next × ((slot_at q head).connection_generation ≡ w.generation)
Producing q (Producer.timing w head next) =
    Writes q.head q.tail w head next
    × ((slot_at q head).connection_generation ≡ w.generation)
    × ((slot_at q head).payload_length ≡ w.len)
Producing q (Producer.copying w head next) =
    Writes q.head q.tail w head next
    × ((slot_at q head).connection_generation ≡ w.generation)
    × ((slot_at q head).payload_length ≡ w.len)
    × ((slot_at q head).arrival_ms ≡ w.now_ms)
Producing q (Producer.publishing w next) =
    (next ≡ next_index q.head rx_queue_slots)
    × (next ≢ q.tail)
    × (received (slot_at q q.head) ≡ arrived w.bytes w.len w.generation w.now_ms)
Producing q (Producer.measuring next) = Unit
Producing q (Producer.returned b) = Unit

unfoldable pub Consuming : RxQueue → Consumer → Type 0
Consuming q (Consumer.reading tail) = (tail ≡ q.tail) × (tail ≢ q.head)
Consuming q (Consumer.releasing tail p) = (tail ≡ q.tail) × (tail ≢ q.head) × (p ≡ slot_at q q.tail)
Consuming q (Consumer.got o) = Unit

-- A write of the free slot shows nowhere in the ring.
packets-store : (q : RxQueue) (p : RxPacket) → IsValid q → packets (store q q.head p) ≡ packets q
packets-store q p v =
    window-set_ne empty_packet rx_queue_slots q.slots q.tail (used q) q.head p
      (λ k h. omega (arith, v))

store-IsValid : (q : RxQueue) (i : ℕ) (p : RxPacket) → IsValid q → IsValid (store q i p)
store-IsValid q i p v = omega (arith, v, length-set q.slots i p)

slot_at-store_ne :
    (q : RxQueue) (i j : ℕ) (p : RxPacket) → i ≢ j → slot_at (store q i p) j ≡ slot_at q j
slot_at-store_ne q i j p h = get_or-set_ne q.slots i j p empty_packet h

slot_at-store :
    (q : RxQueue) (i : ℕ) (p : RxPacket)
    → IsValid q
    → i < rx_queue_slots
    → slot_at (store q i p) i ≡ p
slot_at-store q i p v h = get_or-set_self q.slots i p empty_packet (omega (arith, v))

-- Moving `head` on shows the slot that it stood at.
packets-publish :
    (q : RxQueue) (next : ℕ)
    → IsValid q
    → next ≡ next_index q.head rx_queue_slots
    → next ≢ q.tail
    → packets (record q { head = next }) ≡ packets q ++ (slot_at q q.head ∷ [])
packets-publish q next v e ne =
    let one_more : used (record q { head = next }) ≡ suc (used q) = omega (arith, v) in
    let at_head : (q.tail + used q) % rx_queue_slots ≡ q.head = omega (arith, v) in
    ap (window empty_packet rx_queue_slots q.slots q.tail) one_more
    ∙ window-suc empty_packet rx_queue_slots q.slots q.tail (used q)
    ∙ ap (λ k. packets q ++ (slot_at q k ∷ [])) at_head

contents-publish :
    (q : RxQueue) (next : ℕ)
    → IsValid q
    → next ≡ next_index q.head rx_queue_slots
    → next ≢ q.tail
    → contents (record q { head = next }) ≡ contents q ++ (received (slot_at q q.head) ∷ [])
contents-publish q next v e ne =
    ap (map received) (packets-publish q next v e ne)
    ∙ map-append received (packets q) (slot_at q q.head ∷ [])

-- What a step of the callback keeps, whatever the loop is about.
pub record Kept (q : RxQueue) (p : Producer) (q' : RxQueue) (p' : Producer) : Type 0 where
  pub valid : IsValid q'
  pub producing : Producing q' p'
  pub held : contents q' ≡ contents q ++ admitted p
  pub still : (c : Consumer) → Consuming q c → Consuming q' c

store-Consuming :
    (q : RxQueue) (p : RxPacket) (c : Consumer) → Consuming q c → Consuming (store q q.head p) c
unfolding Consuming
store-Consuming q p (Consumer.reading tail) h = h
store-Consuming q p (Consumer.releasing tail out) h =
    (h.0, h.1, h.2 ∙ sym (slot_at-store_ne q q.head q.tail p (omega (arith, h))))
store-Consuming q p (Consumer.got o) h = h

publish-Consuming :
    (q : RxQueue) (next : ℕ) (c : Consumer)
    → next ≢ q.tail
    → Consuming q c
    → Consuming (record q { head = next }) c
unfolding Consuming
publish-Consuming q next (Consumer.reading tail) ne h = (h.0, omega (arith, h, ne))
publish-Consuming q next (Consumer.releasing tail out) ne h = (h.0, omega (arith, h, ne), h.2)
publish-Consuming q next (Consumer.got o) ne h = h

measure-Consuming :
    (q : RxQueue) (n : ℕ) (c : Consumer) → Consuming q c → Consuming (record q { high_water = n }) c
unfolding Consuming
measure-Consuming q n (Consumer.reading tail) h = h
measure-Consuming q n (Consumer.releasing tail out) h = h
measure-Consuming q n (Consumer.got o) h = h

-- A step that writes the slot at `head`.
store-Kept :
    (q : RxQueue) (head : ℕ) (p : RxPacket) (at after : Producer)
    → IsValid q
    → head ≡ q.head
    → admitted at ≡ []
    → Producing (store q head p) after
    → Kept q at (store q head p) after
store-Kept q head p at after v here e h = record {
  valid = store-IsValid q head p v;
  producing = h;
  held =
      ap (λ i. contents (store q i p)) here
      ∙ ap (map received) (packets-store q p v)
      ∙ sym (append-nil (contents q))
      ∙ ap (λ l. contents q ++ l) (sym e);
  still = λ c k. subst (λ i. Consuming (store q i p) c) (sym here) (store-Consuming q p c k);
}

-- The slot after the copy is what its reader sees.
filled-received :
    (w : Write) (p : RxPacket)
    → w.len ≤ length w.bytes
    → p.connection_generation ≡ w.generation
    → p.payload_length ≡ w.len
    → p.arrival_ms ≡ w.now_ms
    → received (record p { payload = take w.len w.bytes ++ drop w.len p.payload })
      ≡ arrived w.bytes w.len w.generation w.now_ms
filled-received w p given g l t =
    rw (g, l, t, take-append w.len w.bytes (drop w.len p.payload) given)

pub produce-Kept :
    (q : RxQueue) (p : Producer)
    → IsValid q
    → Producing q p
    → Kept q p (produce q p).0 (produce q p).1
unfolding produce Producing
produce-Kept q (Producer.stamping w head next) v h =
    let slot : RxPacket = record (slot_at q head) { connection_generation = w.generation } in
    let e = slot_at-store q head slot v (omega (arith, v, h)) in
    store-Kept q head slot (Producer.stamping w head next) (Producer.sizing w head next) v h.here
      refl (h, ap RxPacket.connection_generation e)
produce-Kept q (Producer.sizing w head next) v h =
    let slot : RxPacket = record (slot_at q head) { payload_length = u16 w.len } in
    let e = slot_at-store q head slot v (omega (arith, v, h.0)) in
    let short : u16 w.len ≡ w.len = omega (arith, h.0) in
    store-Kept q head slot (Producer.sizing w head next) (Producer.timing w head next) v h.0.here
      refl (h.0, ap RxPacket.connection_generation e ∙ h.1, ap RxPacket.payload_length e ∙ short)
produce-Kept q (Producer.timing w head next) v h =
    let slot : RxPacket = record (slot_at q head) { arrival_ms = w.now_ms } in
    let e = slot_at-store q head slot v (omega (arith, v, h.0)) in
    store-Kept q head slot (Producer.timing w head next) (Producer.copying w head next) v h.0.here
      refl
      (
        h.0,
        ap RxPacket.connection_generation e ∙ h.1,
        ap RxPacket.payload_length e ∙ h.2,
        ap RxPacket.arrival_ms e,
      )
produce-Kept q (Producer.copying w head next) v h =
    let slot : RxPacket = record (slot_at q head) {
      payload = take w.len w.bytes ++ drop w.len (slot_at q head).payload;
    } in
    let e = slot_at-store q head slot v (omega (arith, v, h.0)) in
    store-Kept q head slot (Producer.copying w head next) (Producer.publishing w next) v h.0.here
      refl
      (
        h.0.then_next,
        h.0.room,
        ap (λ i. received (slot_at (store q head slot) i)) (sym h.0.here)
            ∙ ap received e
            ∙ filled-received w (slot_at q head) h.0.given h.1 h.2 h.3,
      )
produce-Kept q (Producer.publishing w next) v h = record {
  valid = omega (arith, v, h.0, h.1);
  producing = tt;
  held = contents-publish q next v h.0 h.1 ∙ ap (λ r. contents q ++ (r ∷ [])) h.2;
  still = λ c k. publish-Consuming q next c h.1 k;
}
produce-Kept q (Producer.measuring next) v h = record {
  valid = ground (arith, v);
  producing = tt;
  held = sym (append-nil (contents q));
  still =
      let depth = (next + rx_queue_slots - q.tail) % rx_queue_slots in
      measure-Consuming q (if ltb q.high_water depth then depth else q.high_water);
}
produce-Kept q (Producer.returned b) v h = record {
  valid = v;
  producing = tt;
  held = sym (append-nil (contents q));
  still = λ c k. k;
}
