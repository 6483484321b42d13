-- ===== src/Transport/Rx.antt =====
-- The receive ring is a queue of at most 23 packets, whatever the interleaving of callback and loop.
use mathlib.Core.Option
use mathlib.Core.List.{map, map-append}
use od_esphome.Transport.Window.{window, length-window, window-push, window-pop}
use od_esphome.Transport.Fifo.{offer, poll}
use od_esphome.Transport.{
  RxPacket, RxQueue, empty_rx, rx_pop, rx_push, empty_packet, next_index, rx_queue_slots, fill_slot,
  rx_slot_bytes,
}
use od_esphome.Base.{
  List, ℕ, Bool, ◌≡◌, ◌+◌, ◌≤◌, ◌≢◌, take, arith, length, ◌++◌, not, get_or, [], ◌∷◌, some, set,
  suc, ◌<◌, if◌then◌else◌, ◌==◌, ◌-◌, ap, ◌&&◌, ◌%◌, false, zero, ◌∙◌, leb, length-set, drop, refl,
  Option,
}

pub record IsValid (q : RxQueue) : Type 0 where
  pub slots : length q.slots ≡ rx_queue_slots
  pub head_in : q.head < rx_queue_slots
  pub tail_in : q.tail < rx_queue_slots
  pub peak : q.high_water < rx_queue_slots

abbrev pub used : RxQueue → ℕ
used q = (q.head + rx_queue_slots - q.tail) % rx_queue_slots

abbrev pub packets : RxQueue → List RxPacket
packets q = window empty_packet rx_queue_slots q.slots q.tail (used q)

pub empty_rx-IsValid : IsValid empty_rx
empty_rx-IsValid = omega arith

-- A packet as its reader sees it: the payload is the first `payload_length` bytes of the slot.
pub record Received : Type 0 where
  pub generation : ℕ
  pub arrival_ms : ℕ
  pub bytes : List ℕ

abbrev pub received : RxPacket → Received
received p = record {
  generation = p.connection_generation;
  arrival_ms = p.arrival_ms;
  bytes = take p.payload_length p.payload;
}

abbrev pub contents : RxQueue → List Received
contents q = map received (packets q)

length-map-received : (l : List RxPacket) → length (map received l) ≡ length l
length-map-received [] = refl
length-map-received (p ∷ l) = ap suc (length-map-received l)

pub take-append : (n : ℕ) (xs ys : List ℕ) → n ≤ length xs → take n (take n xs ++ ys) ≡ take n xs
take-append zero xs ys h = refl
take-append (suc n) [] ys h = absurd (omega arith)
take-append (suc n) (x ∷ xs) ys h = ap (◌∷◌ x) (take-append n xs ys (omega arith))

abbrev pub arrived : List ℕ → ℕ → ℕ → ℕ → Received
arrived bytes len generation now_ms = record {
  generation = generation;
  arrival_ms = now_ms;
  bytes = take len bytes;
}

-- The limit is one packet less than there are slots.
abbrev pub limit : ℕ
limit = 23

-- What the ring takes: a buffer that is there, with 1 to 244 bytes.
abbrev pub acceptable : ℕ → Bool
acceptable len = not (len == 0) && leb len rx_slot_bytes

packets-push :
    (q : RxQueue) (p : RxPacket)
    → IsValid q
    → next_index q.head rx_queue_slots ≢ q.tail
    → window empty_packet rx_queue_slots
        (set q.slots q.head p)
        q.tail
        ((next_index q.head rx_queue_slots + rx_queue_slots - q.tail) % rx_queue_slots)
      ≡ packets q ++ (p ∷ [])
packets-push q p v ne =
    let n = used q in
    let one_more : (next_index q.head rx_queue_slots + rx_queue_slots - q.tail) % rx_queue_slots
        ≡ suc n =
      omega (arith, v) in
    ap (window empty_packet rx_queue_slots (set q.slots q.head p) q.tail) one_more
    ∙ window-push empty_packet rx_queue_slots q.slots q.tail n q.head p (omega (arith, v))
        (omega (arith, v)) (λ k h. omega (arith, v))

pub packets-cons :
    (q : RxQueue)
    → IsValid q
    → q.tail ≢ q.head
    → packets q
      ≡ get_or q.slots q.tail empty_packet
        ∷ packets (record q { tail = next_index q.tail rx_queue_slots })
packets-cons q v ne =
    let rest = used (record q { tail = next_index q.tail rx_queue_slots }) in
    let one_more : used q ≡ suc rest = omega (arith, v) in
    ap (window empty_packet rx_queue_slots q.slots q.tail) one_more
    ∙ window-pop empty_packet rx_queue_slots q.slots q.tail rest v.tail_in (λ k. omega (arith, v))

packets-nil : (q : RxQueue) → IsValid q → q.tail ≡ q.head → packets q ≡ []
packets-nil q v e =
    let empty : used q ≡ 0 = omega (arith, v) in
    ap (window empty_packet rx_queue_slots q.slots q.tail) empty

-- `RxQueue::push` keeps the ring valid. A buffer of 1 to 244 bytes is queued at the end exactly
-- when fewer than 23 packets are queued, with its bytes, generation and time; otherwise, and for
-- any other length, the queued packets stay as they are and the result is false.
pub rx_push_refines :
    (q : RxQueue) (bytes : List ℕ) (len generation now_ms : ℕ)
    → IsValid q
    → len ≤ length bytes
    → let (queued, q') = rx_push q (some bytes) len generation now_ms in
      IsValid q'
      × ((queued, contents q') ≡ (
          if acceptable len
          then offer limit (contents q) (arrived bytes len generation now_ms)
          else (false, contents q)))
unfolding rx_push offer
rx_push_refines q bytes len generation now_ms v h =
    let slot = fill_slot (get_or q.slots q.head empty_packet) bytes len generation now_ms in
    ground (
      arith,
      length-set q.slots q.head slot,
      length-window empty_packet rx_queue_slots q.slots q.tail (used q),
      length-map-received (packets q),
      packets-push q slot v,
      map-append received (packets q) (slot ∷ []),
      take-append len bytes (drop len (get_or q.slots q.head empty_packet).payload) h,
    )

-- `RxQueue::pop` keeps the ring valid and takes the oldest packet, or none of an empty ring.
pub rx_pop_refines :
    (q : RxQueue)
    → IsValid q
    → let (p, q') = rx_pop q in
      IsValid q' × ((Option.map received p, contents q') ≡ poll (contents q))
unfolding rx_pop poll
rx_pop_refines q v = ground (arith, packets-nil q v, packets-cons q v)

-- What the callback and the loop do with the ring: a write of some bytes, and a read.
pub data Op : Type 0 where
  arrives : List ℕ → ℕ → ℕ → Op
  drains : Op

pub data Reply : Type 0 where
  queued : Bool → Reply
  popped : Option Received → Reply

unfoldable pub run : RxQueue → List Op → List Reply
run q [] = []
run q (Op.arrives bytes generation now_ms ∷ ops) =
    let (b, q') = rx_push q (some bytes) (length bytes) generation now_ms in
    Reply.queued b ∷ run q' ops
run q (Op.drains ∷ ops) =
    let (p, q') = rx_pop q in Reply.popped (Option.map received p) ∷ run q' ops

-- The same calls on the queue of what is held.
unfoldable pub offer_packet : List Received → List ℕ → ℕ → ℕ → Bool × List Received
offer_packet l bytes generation now_ms =
    if acceptable (length bytes)
    then offer limit l (arrived bytes (length bytes) generation now_ms)
    else (false, l)

unfoldable pub run_queue : List Received → List Op → List Reply
run_queue l [] = []
run_queue l (Op.arrives bytes generation now_ms ∷ ops) =
    let (b, l') = offer_packet l bytes generation now_ms in Reply.queued b ∷ run_queue l' ops
run_queue l (Op.drains ∷ ops) = let (p, l') = poll l in Reply.popped p ∷ run_queue l' ops

-- No sequence of writes by the callback and reads by the loop, in any order, tells a valid ring from
-- the queue of at most 23 packets with the same contents: every write has the same result, and every
-- read gives the same packet.
pub rx_run_refines :
    (ops : List Op) (q : RxQueue) → IsValid q → run q ops ≡ run_queue (contents q) ops
unfolding run run_queue offer_packet
rx_run_refines [] q v = refl
rx_run_refines (Op.arrives bytes generation now_ms ∷ ops) q v =
    let pushed = rx_push_refines q bytes (length bytes) generation now_ms v (omega arith) in
    rw (
      rx_run_refines ops (rx_push q (some bytes) (length bytes) generation now_ms).1 pushed.0,
      ← pushed.1,
    )
rx_run_refines (Op.drains ∷ ops) q v =
    let taken = rx_pop_refines q v in rw (rx_run_refines ops (rx_pop q).1 taken.0, ← taken.1)
