-- ===== src/Component/Order.antt =====
-- The order of the frames that `apply_result_` queues, and the end of the loop of `send_config_`.
use od_esphome.Base.{
  ℕ, zero, suc, ◌+◌, ◌<◌, ◌≡◌, true, false, List, [], ◌∷◌, ◌++◌, length, arith, refl, Bool, ap, ◌∙◌,
}
use od_esphome.Protocol.Response.{Response, is_empty}
use od_esphome.Protocol.Chunk.{encode_config_chunk}
use od_esphome.Protocol.Chunk.Delivery.{chunks_end}
use od_esphome.Transport.{TxQueue, tx_push}
use od_esphome.Transport.Tx
use od_esphome.Transport.Tx.{tx_push_refines}
use od_esphome.Transport.Fifo.{offer}
use od_esphome.Engine.State.{answer, take_tail_sack}
use od_esphome.Component.State.{Component}
use od_esphome.Component.Respond.{
  apply_result, send, send_tail, send_chunks, report_start, report_counts, report_complete,
  report_timeout, report_failure,
}

-- A frame that fits is queued behind the others.
pub tx_push-fits :
    (q : TxQueue) (r : Response) (terminal : Bool)
    → Tx.IsValid q
    → is_empty r ≡ false
    → length (Tx.contents q) < 12
    → Tx.IsValid (tx_push q r terminal).1
      × (Tx.contents (tx_push q r terminal).1 ≡ Tx.contents q ++ (r ∷ []))
unfolding offer
tx_push-fits q r terminal v e fits =
    let pushed = tx_push_refines q r terminal v e in ground (arith, pushed)

pub tx_push-sent :
    (q : TxQueue) (r : Response) (terminal : Bool)
    → Tx.IsValid q
    → is_empty r ≡ false
    → length (Tx.contents q) < 12
    → (tx_push q r terminal).0 ≡ true
unfolding offer
tx_push-sent q r terminal v e fits =
    let pushed = tx_push_refines q r terminal v e in ground (arith, pushed)

pub length-snoc : (l : List Response) (r : Response) → length (l ++ (r ∷ [])) ≡ suc (length l)
length-snoc [] r = refl
length-snoc (x ∷ l) r = ap suc (length-snoc l r)

pub append-snoc :
    (l : List Response) (r s : Response) → (l ++ (r ∷ [])) ++ (s ∷ []) ≡ l ++ (r ∷ s ∷ [])
append-snoc [] r s = refl
append-snoc (x ∷ l) r s = ap (◌∷◌ x) (append-snoc l r s)

module _ {D : Type 0} where
  -- With fewer than 11 frames queued, a staged tail SACK and an answer without flags, such as that
  -- to an END, neither of them empty: the SACK is queued first and the answer directly behind it,
  -- and the SACK is no longer staged.
  pub tail_sack_precedes_answer :
      (c : Component D) (r : Response)
      → Tx.IsValid c.tx
      → length (Tx.contents c.tx) < 11
      → c.engine.has_tail_sack ≡ true
      → is_empty c.engine.pending_tail_sack ≡ false
      → is_empty r ≡ false
      → let c' = apply_result c (answer r) in
        (Tx.contents c'.tx ≡ Tx.contents c.tx ++ (c.engine.pending_tail_sack ∷ r ∷ []))
        × (c'.engine.has_tail_sack ≡ false)
  unfolding apply_result send send_tail take_tail_sack report_start report_counts report_complete
      report_timeout report_failure
  tail_sack_precedes_answer c r v room staged tail full =
      let first = tx_push-fits c.tx c.engine.pending_tail_sack true v tail (omega arith) in
      let q = (tx_push c.tx c.engine.pending_tail_sack true).1 in
      let second = tx_push-fits q r false first.0 full (
        omega
          (arith, ap length first.1, length-snoc (Tx.contents c.tx) c.engine.pending_tail_sack)) in
      ground (arith, first, second, append-snoc (Tx.contents c.tx) c.engine.pending_tail_sack r)

send_chunks-more :
    (n k i : ℕ) (blob : List ℕ) (tx : TxQueue)
    → encode_config_chunk blob (i + n) ≡ []
    → send_chunks (suc (n + k)) blob tx i ≡ send_chunks (suc n) blob tx i
unfolding send_chunks
send_chunks-more zero k i blob tx h =
    let last : encode_config_chunk blob i ≡ [] = ap (encode_config_chunk blob) (omega arith) ∙ h in
    rw last refl
send_chunks-more (suc n) k i blob tx h =
    let tx' = (tx_push tx (encode_config_chunk blob i) false).1 in
    let one_less : suc n + k ≡ suc (n + k) = omega arith in
    let later : encode_config_chunk blob (i + 1 + n) ≡ [] =
      ap (encode_config_chunk blob) (omega arith) ∙ h in
    let rest : send_chunks (suc n + k) blob tx' (i + 1) ≡ send_chunks (suc n) blob tx' (i + 1) =
      ap (λ f. send_chunks f blob tx' (i + 1)) one_less
      ∙ send_chunks-more n k (i + 1) blob tx' later in
    rw rest refl

-- The fuel of `send_config_`'s loop is enough: with more of it the ring comes out the same.
pub send_chunks_fuel_enough :
    (blob : List ℕ) (tx : TxQueue) (k : ℕ)
    → send_chunks (suc (length blob) + k) blob tx 0 ≡ send_chunks (suc (length blob)) blob tx 0
send_chunks_fuel_enough blob tx k =
    let n = length blob in
    let one_less : suc n + k ≡ suc (n + k) = omega arith in
    let last : encode_config_chunk blob (0 + n) ≡ [] =
      ap (encode_config_chunk blob) (omega arith) ∙ chunks_end blob in
    ap (λ f. send_chunks f blob tx 0) one_less ∙ send_chunks-more n k 0 blob tx last
