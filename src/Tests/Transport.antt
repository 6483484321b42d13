-- ===== src/Tests/Transport.antt =====
-- ble_transport.cpp on concrete rings.
use od_esphome.Transport.{RxQueue, TxQueue, empty_rx, empty_tx, rx_push, rx_pop, tx_push}
use od_esphome.Transport.Rx
use od_esphome.Transport.Rx.{
  Op, Reply, arrived, rx_push_refines, rx_pop_refines, rx_run_refines, received, run, run_queue,
  acceptable, empty_rx-IsValid,
}
use od_esphome.Transport.Tx
use od_esphome.Transport.Tx.{tx_push_refines, tx_pop_refines, empty_tx-IsValid}
use od_esphome.Transport.Fifo.{offer}
use od_esphome.Base.{List, [], ◌∷◌, true, false, some, none, refl, ◌≡◌, arith, set}

-- A ring whose indices stand at its end.
abbrev at_end : RxQueue
at_end = record empty_rx { head = 23; tail = 23 }

abbrev one_frame : TxQueue
one_frame = record empty_tx { slots = set empty_tx.slots 15 (0 ∷ 112 ∷ []); head = 0; tail = 15 }

abbrev traffic : List Op
traffic = Op.arrives (0 ∷ 113 ∷ 7 ∷ []) 2 50 ∷ Op.arrives [] 2 51 ∷ Op.drains ∷ Op.drains ∷ []

abbrev answers : List Reply
answers =
    Reply.queued true
    ∷ Reply.queued false
    ∷ Reply.popped (some (record { generation = 2; arrival_ms = 50; bytes = 0 ∷ 113 ∷ 7 ∷ [] }))
    ∷ Reply.popped none
    ∷ []

run-traffic : run at_end traffic ≡ answers
unfolding run rx_push rx_pop
run-traffic = refl

at_end-IsValid : Rx.IsValid at_end
at_end-IsValid = omega arith

one_frame-IsValid : Tx.IsValid one_frame
one_frame-IsValid = omega arith

rx_run_refines_example : run at_end traffic ≡ run_queue (Rx.contents at_end) traffic
rx_run_refines_example = rx_run_refines traffic at_end at_end-IsValid

tx_push_refines_example :
    let (sent, q') = tx_push one_frame (0 ∷ 113 ∷ []) false in
    Tx.IsValid q' × ((sent, Tx.contents q') ≡ offer 12 (Tx.contents one_frame) (0 ∷ 113 ∷ []))
tx_push_refines_example = tx_push_refines one_frame (0 ∷ 113 ∷ []) false one_frame-IsValid refl
