-- ===== src/Transport/Shared.antt =====
-- ble_transport.cpp `RxQueue::push` and `RxQueue::pop` statement by statement: the callback and the
-- loop each stand somewhere in their function, and the two take turns in any order. An access of a
-- member is one step, in the order of the text.
pub mod Kept
pub mod Taken
pub mod Order
use od_esphome.Base.{
  ℕ, Bool, ◌++◌, set, get_or, List, if◌then◌else◌, some, u16, Option, true, ◌≤◌, none, false, take,
  ◌∷◌, length, ◌==◌, drop, [], ◌||◌, ◌≡◌, ◌+◌, ltb, u32, ◌-◌, ◌%◌,
}
use od_esphome.Transport.{
  RxPacket, RxQueue, empty_rx, empty_packet, next_index, rx_queue_slots, rx_slot_bytes,
}
use od_esphome.Transport.Rx.{Received, received, arrived}

-- The arguments of a push of a buffer that is there.
pub record Write : Type 0 where
  pub bytes : List ℕ
  pub len : ℕ
  pub generation : ℕ
  pub now_ms : ℕ

-- Where the callback stands in `push`: before an assignment to the slot at `head`, before
-- `head_ = next`, before the high-water mark, or behind a return.
pub data Producer : Type 0 where
  stamping sizing timing copying : Write → (head next : ℕ) → Producer
  publishing : Write → (next : ℕ) → Producer
  measuring : (next : ℕ) → Producer
  returned : Bool → Producer

-- Where the loop stands in `pop`.
pub data Consumer : Type 0 where
  reading : (tail : ℕ) → Consumer
  releasing : (tail : ℕ) → RxPacket → Consumer
  got : Option RxPacket → Consumer

abbrev pub slot_at : RxQueue → ℕ → RxPacket
slot_at q i = get_or q.slots i empty_packet

abbrev pub store : RxQueue → ℕ → RxPacket → RxQueue
store q i p = record q { slots = set q.slots i p }

-- From the call to the first assignment: both tests, with one read of `tail_`.
unfoldable pub begin_push : RxQueue → Write → RxQueue × Producer
begin_push q w =
    if w.len == 0 || ltb rx_slot_bytes w.len
    then (q, returned false)
    else if next_index q.head rx_queue_slots == q.tail
    then (record q { overflows = u32 (q.overflows + 1) }, returned false)
    else (q, stamping w q.head (next_index q.head rx_queue_slots))

unfoldable pub produce : RxQueue → Producer → RxQueue × Producer
produce q (stamping w head next) = (
  store q head (record (slot_at q head) { connection_generation = w.generation }),
  sizing w head next,
)
produce q (sizing w head next) =
    (store q head (record (slot_at q head) { payload_length = u16 w.len }), timing w head next)
produce q (timing w head next) =
    (store q head (record (slot_at q head) { arrival_ms = w.now_ms }), copying w head next)
produce q (copying w head next) = (
  store q head (record (slot_at q head) {
    payload = take w.len w.bytes ++ drop w.len (slot_at q head).payload;
  }),
  publishing w next,
)
produce q (publishing w next) = (record q { head = next }, measuring next)
produce q (measuring next) =
    let depth = (next + rx_queue_slots - q.tail) % rx_queue_slots in
    (
      record q { high_water = if ltb q.high_water depth then depth else q.high_water },
      returned true,
    )
produce q (returned b) = (q, returned b)

-- The test of `pop`, with one read of `head_`.
unfoldable pub begin_pop : RxQueue → Consumer
begin_pop q = if q.tail == q.head then got none else reading q.tail

unfoldable pub consume : RxQueue → Consumer → RxQueue × Consumer
consume q (reading tail) = (q, releasing tail (slot_at q tail))
consume q (releasing tail p) = (record q { tail = next_index tail rx_queue_slots }, got (some p))
consume q (got o) = (q, got o)

-- What the next step of the callback queues, and what that of the loop takes away.
abbrev pub admitted : Producer → List Received
admitted (publishing w next) = arrived w.bytes w.len w.generation w.now_ms ∷ []
admitted _ = []

abbrev pub handed : Consumer → List Received
handed (releasing tail p) = received p ∷ []
handed _ = []

abbrev pub has_returned : Producer → Bool
has_returned (returned b) = true
has_returned _ = false

abbrev pub has_got : Consumer → Bool
has_got (got o) = true
has_got _ = false

-- The ring between the two, with what has been queued and what has been taken so far.
pub record World : Type 0 where
  pub ring : RxQueue
  pub producer : Producer
  pub consumer : Consumer
  pub accepted : List Received
  pub delivered : List Received

abbrev pub new_world : World
new_world = record {
  ring = empty_rx;
  producer = returned true;
  consumer = got none;
  accepted = [];
  delivered = [];
}

abbrev pub after_push : World → Write → World
after_push s w = record s { ring = (begin_push s.ring w).0; producer = (begin_push s.ring w).1 }

abbrev pub after_produce : World → World
after_produce s = record s {
  ring = (produce s.ring s.producer).0;
  producer = (produce s.ring s.producer).1;
  accepted = s.accepted ++ admitted s.producer;
}

abbrev pub after_pop : World → World
after_pop s = record s { consumer = begin_pop s.ring }

abbrev pub after_consume : World → World
after_consume s = record s {
  ring = (consume s.ring s.consumer).0;
  consumer = (consume s.ring s.consumer).1;
  delivered = s.delivered ++ handed s.consumer;
}

-- One step of either side. The buffer of a push has the bytes that its length says.
pub data Step (s : World) : World → Type 0 where
  calls_push :
      (w : Write)
      → w.len ≤ length w.bytes
      → has_returned s.producer ≡ true
      → Step s (after_push s w)
  produces : Step s (after_produce s)
  calls_pop : has_got s.consumer ≡ true → Step s (after_pop s)
  consumes : Step s (after_consume s)

pub data Reach : World → Type 0 where
  start : Reach new_world
  later : {s t : World} → Reach s → Step s t → Reach t
