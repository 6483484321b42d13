-- ===== src/Transport.antt =====
-- components/opendisplay/ble_transport.h and ble_transport.cpp: the receive ring between the BLE
-- callback and the loop, and the transmit ring. Each call is one step. Indices stay below the
-- number of slots, so no `size_t` sum or difference of them wraps.
pub mod Window
pub mod Fifo
pub mod Rx
pub mod Tx
pub mod Shared
use od_esphome.Base.{
  ℕ, ◌+◌, ◌-◌, ◌%◌, Bool, true, false, not, ◌&&◌, ◌||◌, Option, none, some, List, [], ◌∷◌, ◌++◌,
  ltb, leb, ◌==◌, if◌then◌else◌, get_or, set, take, drop, replicate, u16, u32,
}
use od_esphome.Wire.{pipe_max_frame}
use od_esphome.Protocol.Response.{Response, is_empty}

abbrev pub rx_slot_bytes : ℕ
rx_slot_bytes = pipe_max_frame

abbrev pub rx_queue_slots : ℕ
rx_queue_slots = 24

abbrev pub tx_queue_slots : ℕ
tx_queue_slots = 16

abbrev pub tx_reserved_for_terminal : ℕ
tx_reserved_for_terminal = 4

abbrev pub next_index : ℕ → ℕ → ℕ
next_index i cap = (i + 1) % cap

pub record RxPacket : Type 0 where
  pub connection_generation : ℕ  -- uint32_t
  pub payload_length : ℕ  -- uint16_t
  pub arrival_ms : ℕ  -- uint32_t
  pub payload : List ℕ  -- RX_SLOT_BYTES bytes

abbrev pub empty_packet : RxPacket
empty_packet = record {
  connection_generation = 0;
  payload_length = 0;
  arrival_ms = 0;
  payload = replicate rx_slot_bytes 0;
}

pub record RxQueue : Type 0 where
  pub slots : List RxPacket
  pub head : ℕ
  pub tail : ℕ
  pub high_water : ℕ
  pub overflows : ℕ  -- uint32_t

abbrev pub empty_rx : RxQueue
empty_rx = record {
  slots = replicate rx_queue_slots empty_packet;
  head = 0;
  tail = 0;
  high_water = 0;
  overflows = 0;
}

-- The slot after the copy: `memcpy` overwrites its first `len` bytes.
abbrev pub fill_slot : RxPacket → List ℕ → ℕ → ℕ → ℕ → RxPacket
fill_slot slot bytes len generation now_ms = record {
  connection_generation = generation;
  payload_length = u16 len;
  arrival_ms = now_ms;
  payload = take len bytes ++ drop len slot.payload;
}

-- `RxQueue::push`.
unfoldable pub rx_push : RxQueue → Option (List ℕ) → ℕ → ℕ → ℕ → Bool × RxQueue
rx_push q none len generation now_ms = (false, q)
rx_push q (some bytes) len generation now_ms =
    if len == 0 || ltb rx_slot_bytes len
    then (false, q)
    else let next = next_index q.head rx_queue_slots in
      if next == q.tail
      then (false, record q { overflows = u32 (q.overflows + 1) })
      else let depth = (next + rx_queue_slots - q.tail) % rx_queue_slots in
        (
          true,
          record {
            slots =
                set q.slots q.head
                  (fill_slot (get_or q.slots q.head empty_packet) bytes len generation now_ms);
            head = next;
            tail = q.tail;
            high_water = if ltb q.high_water depth then depth else q.high_water;
            overflows = q.overflows;
          },
        )

-- `RxQueue::pop`: `none` is the result false.
unfoldable pub rx_pop : RxQueue → Option RxPacket × RxQueue
rx_pop q = if q.tail == q.head then (none, q) else (
  some (get_or q.slots q.tail empty_packet),
  record q { tail = next_index q.tail rx_queue_slots },
)

pub record TxQueue : Type 0 where
  pub slots : List Response
  pub head : ℕ
  pub tail : ℕ

abbrev pub empty_tx : TxQueue
empty_tx = record { slots = replicate tx_queue_slots []; head = 0; tail = 0 }

-- `TxQueue::push`.
unfoldable pub tx_push : TxQueue → Response → Bool → Bool × TxQueue
tx_push q r terminal =
    if is_empty r
    then (true, q)
    else let next = next_index q.head tx_queue_slots in
      if next == q.tail
      then (false, q)
      else let used = (q.head + tx_queue_slots - q.tail) % tx_queue_slots in
        if not terminal && leb tx_queue_slots (used + tx_reserved_for_terminal)
        then (false, q)
        else (true, record q { slots = set q.slots q.head r; head = next })

-- `TxQueue::pop`: `none` is the result false.
unfoldable pub tx_pop : TxQueue → Option Response × TxQueue
tx_pop q =
    if q.tail == q.head
    then (none, q)
    else (some (get_or q.slots q.tail []), record q { tail = next_index q.tail tx_queue_slots })

-- `TxQueue::empty`.
abbrev pub tx_empty : TxQueue → Bool
tx_empty q = q.head == q.tail
