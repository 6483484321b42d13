-- ===== src/Transport/Tx.antt =====
-- The transmit ring is a queue of at most 15 frames, of which a normal frame may fill 12.
use od_esphome.Transport.Window.{window, length-window, window-push, window-pop}
use od_esphome.Transport.Fifo.{offer, poll}
use od_esphome.Transport.{TxQueue, tx_push, tx_pop, empty_tx, tx_queue_slots, next_index}
use od_esphome.Base.{
  Bool, arith, ℕ, List, length, ◌≡◌, if◌then◌else◌, ◌+◌, [], false, ◌-◌, ◌<◌, ◌%◌, length-set, ap,
  ◌≢◌, get_or, ◌∷◌, suc, ◌∙◌,
}
use od_esphome.Protocol.Response.{Response, is_empty}

pub record IsValid (q : TxQueue) : Type 0 where
  pub slots : length q.slots ≡ tx_queue_slots
  pub head_in : q.head < tx_queue_slots
  pub tail_in : q.tail < tx_queue_slots

abbrev pub used : TxQueue → ℕ
used q = (q.head + tx_queue_slots - q.tail) % tx_queue_slots

abbrev pub contents : TxQueue → List Response
contents q = window [] tx_queue_slots q.slots q.tail (used q)

pub empty_tx-IsValid : IsValid empty_tx
empty_tx-IsValid = omega arith

-- How many queued frames leave room for one more.
abbrev pub limit : Bool → ℕ
limit terminal = if terminal then 15 else 12

-- `TxQueue::push` keeps the ring valid, and queues a frame that is not empty exactly when fewer
-- than 12 frames are queued, or fewer than 15 for a terminal one; the frame goes to the end.
pub tx_push_refines :
    (q : TxQueue) (r : Response) (terminal : Bool)
    → IsValid q
    → is_empty r ≡ false
    → let (sent, q') = tx_push q r terminal in
      IsValid q' × ((sent, contents q') ≡ offer (limit terminal) (contents q) r)
unfolding tx_push offer
tx_push_refines q r terminal v e =
    let n = used q in
    let push = window-push [] tx_queue_slots q.slots q.tail n q.head r in
    ground (
      arith,
      length-set q.slots q.head r,
      length-window [] tx_queue_slots q.slots q.tail n,
      push (omega (arith, v)) (omega (arith, v)) (λ k h. omega (arith, v)),
    )

contents-cons :
    (q : TxQueue)
    → IsValid q
    → q.tail ≢ q.head
    → contents q
      ≡ get_or q.slots q.tail [] ∷ contents (record q { tail = next_index q.tail tx_queue_slots })
contents-cons q v ne =
    let rest = used (record q { tail = next_index q.tail tx_queue_slots }) in
    let one_more : used q ≡ suc rest = omega (arith, v) in
    ap (window [] tx_queue_slots q.slots q.tail) one_more
    ∙ window-pop [] tx_queue_slots q.slots q.tail rest v.tail_in (λ k. omega (arith, v))

contents-nil : (q : TxQueue) → IsValid q → q.tail ≡ q.head → contents q ≡ []
contents-nil q v e =
    let empty : used q ≡ 0 = omega (arith, v) in ap (window [] tx_queue_slots q.slots q.tail) empty

-- `TxQueue::pop` keeps the ring valid and takes the oldest frame, or none of an empty ring.
pub tx_pop_refines :
    (q : TxQueue)
    → IsValid q
    → let (r, q') = tx_pop q in IsValid q' × ((r, contents q') ≡ poll (contents q))
unfolding tx_pop poll
tx_pop_refines q v = ground (arith, contents-nil q v, contents-cons q v)
