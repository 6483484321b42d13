-- ===== src/Component/Config.antt =====
-- opendisplay.cpp `send_config_` and `drain_tx_`: the chunks that are queued and notified.
pub mod Delivered
use mathlib.Core.List.{append-nil, append_assoc}
use od_esphome.Base.{
  none, some, ℕ, List, length, ◌≡◌, ◌∷◌, ◌<◌, ◌++◌, [], ◌≤◌, leb, suc, ◌+◌, zero, arith, ap, ◌∙◌,
  sym, refl, true, Option, false, Bool-cases, inl, inr,
}
use od_esphome.Wire.{cmd_config_read, config_blob_max}
use od_esphome.Backend.{Backend}
use od_esphome.Protocol.Frame.{Frame}
use od_esphome.Protocol.Response.{Response, is_empty}
use od_esphome.Protocol.Chunk.{encode_config_chunk, chunk_offset}
use od_esphome.Protocol.Chunk.Delivery.{body, assemble, chunks_deliver}
use od_esphome.Transport.{TxQueue, tx_push, tx_pop}
use od_esphome.Transport.Tx
use od_esphome.Transport.Tx.{tx_pop_refines}
use od_esphome.Transport.Fifo.{poll}
use od_esphome.Component.State.{Component}
use od_esphome.Component.Respond.{send_chunks, send_config, notify_frames, drain_tx}
use od_esphome.Component.Dispatch.{handle_frame}
use od_esphome.Component.Order.{tx_push-sent, tx_push-fits, length-snoc}

-- The client's buffer after some notifications, the first of them numbered `i`.
abbrev pub reassemble : List Response → ℕ → List ℕ
reassemble [] i = []
reassemble (r ∷ rs) i = body r i ++ reassemble rs (i + 1)

-- The `n` chunks from `i` on.
abbrev pub chunks_from : List ℕ → ℕ → ℕ → List Response
chunks_from blob i zero = []
chunks_from blob i (suc n) = encode_config_chunk blob i ∷ chunks_from blob (i + 1) n

pub length-chunks_from : (n i : ℕ) (blob : List ℕ) → length (chunks_from blob i n) ≡ n
length-chunks_from zero i blob = refl
length-chunks_from (suc n) i blob = ap suc (length-chunks_from n (i + 1) blob)

zero_more : (i : ℕ) → i + 0 ≡ i
zero_more i = omega arith

one_more : (i n : ℕ) → i + suc n ≡ i + 1 + n
one_more i n = omega arith

pub assemble-reassemble :
    (n i : ℕ) (blob : List ℕ)
    → assemble blob i ++ reassemble (chunks_from blob i n) i ≡ assemble blob (i + n)
unfolding assemble
assemble-reassemble zero i blob =
    append-nil (assemble blob i) ∙ ap (assemble blob) (sym (zero_more i))
assemble-reassemble (suc n) i blob =
    let one_more : i + 1 ≡ suc i = omega arith in
    let sum : suc i + n ≡ i + suc n = omega arith in
    let rest = assemble-reassemble n (suc i) blob in
    ap
      (λ j.
        assemble blob i
        ++ (body (encode_config_chunk blob i) i ++ reassemble (chunks_from blob j n) j))
      one_more
    ∙ sym (
        append_assoc (assemble blob i) (body (encode_config_chunk blob i) i)
          (reassemble (chunks_from blob (suc i) n) (suc i)))
    ∙ rest
    ∙ ap (assemble blob) sum

chunk-empty :
    (blob : List ℕ) (i : ℕ)
    → is_empty (encode_config_chunk blob i) ≡ leb (length blob) (chunk_offset i)
unfolding encode_config_chunk
chunk-empty blob i = ground arith

pub chunk-none :
    (blob : List ℕ) (i : ℕ) → length blob ≤ chunk_offset i → encode_config_chunk blob i ≡ []
unfolding encode_config_chunk
chunk-none blob i h = ground arith

-- What the loop of `send_config_` queues.
pub send_chunks-contents :
    (n fuel i : ℕ) (blob : List ℕ) (tx : TxQueue)
    → n < fuel
    → Tx.IsValid tx
    → length blob ≤ chunk_offset (i + n)
    → ((j : ℕ) → j < n → chunk_offset (i + j) < length blob)
    → length (Tx.contents tx) + n ≤ 12
    → let tx' = send_chunks fuel blob tx i in
      Tx.IsValid tx' × (Tx.contents tx' ≡ Tx.contents tx ++ chunks_from blob i n)
unfolding send_chunks
send_chunks-contents n zero i blob tx h v last more room = absurd (omega arith)
send_chunks-contents zero (suc fuel) i blob tx h v last more room =
    let empty : is_empty (encode_config_chunk blob i) ≡ true =
      ground (arith, chunk-empty blob i, ap chunk_offset (zero_more i)) in
    rw empty (v, sym (append-nil (Tx.contents tx)))
send_chunks-contents (suc n) (suc fuel) i blob tx h v last more room =
    let r = encode_config_chunk blob i in
    let full : is_empty r ≡ false =
      ground (arith, chunk-empty blob i, more 0 (omega arith), ap chunk_offset (zero_more i)) in
    let pushed = tx_push-fits tx r false v full (omega arith) in
    let tx' = (tx_push tx r false).1 in
    let rest =
      send_chunks-contents n fuel (i + 1) blob tx' (omega arith) pushed.0
        (omega (arith, last, ap chunk_offset (one_more i n)))
        (λ j k. omega (arith, more (suc j) (omega arith), ap chunk_offset (one_more i j)))
        (omega (arith, ap length pushed.1, length-snoc (Tx.contents tx) r)) in
    rw (full, tx_push-sent tx r false v full (omega arith))
      (
        rest.0,
        rest.1
            ∙ ap (λ l. l ++ chunks_from blob (i + 1) n) pushed.1
            ∙ append_assoc (Tx.contents tx) (r ∷ []) (chunks_from blob (i + 1) n),
      )

append-short : (xs ys : List Response) → length ys ≤ 0 → xs ++ ys ≡ xs
append-short xs [] h = append-nil xs
append-short xs (y ∷ ys) h = absurd (omega arith)

pub length-poll :
    (n : ℕ) (l l' : List Response) (o : Option Response)
    → (o, l') ≡ poll l
    → length l ≤ suc n
    → length l' ≤ n
unfolding poll
length-poll n [] l' o p h = ground (arith, p)
length-poll n (x ∷ l) l' o p h = ground (arith, p)

module _ {D : Type 0} where
  -- One round of the loop of `drain_tx_`.
  notify-popped :
      (n : ℕ) (c : Component D) (l : List Response) (o : Option Response) (tx : TxQueue)
      → (o, Tx.contents tx) ≡ poll l
      → ((r : Response)
          → (notify_frames n (record c { tx = tx; notified = c.notified ++ (r ∷ []) })).notified
            ≡ (c.notified ++ (r ∷ [])) ++ Tx.contents tx)
      → (elim o as (λ x. Component D) [
        | none ↦ record c { tx = tx }
        | some r ↦ notify_frames n (record c { tx = tx; notified = c.notified ++ (r ∷ []) })
      ]).notified
        ≡ c.notified ++ l
  unfolding poll
  notify-popped n c [] none tx p rest = sym (append-nil c.notified)
  notify-popped n c [] (some r) tx p rest = ground arith
  notify-popped n c (x ∷ l) none tx p rest = ground arith
  notify-popped n c (x ∷ l) (some r) tx p rest =
      ground (arith, p, rest r, append_assoc c.notified (r ∷ []) l)

  pub notify_frames-all :
      (n : ℕ) (c : Component D)
      → Tx.IsValid c.tx
      → length (Tx.contents c.tx) ≤ n
      → (notify_frames n c).notified ≡ c.notified ++ Tx.contents c.tx
  unfolding notify_frames
  notify_frames-all zero c v h = sym (append-short c.notified (Tx.contents c.tx) h)
  notify_frames-all (suc n) c v h =
      let popped = tx_pop_refines c.tx v in
      let (o, tx) = tx_pop c.tx in
      notify-popped n c (Tx.contents c.tx) o tx popped.1 (λ r.
        notify_frames-all n (record c { tx = tx; notified = c.notified ++ (r ∷ []) }) popped.0
          (length-poll n (Tx.contents c.tx) (Tx.contents tx) o popped.1 h))

-- How many chunks a blob of the greatest length has.
pub chunk_count :
    (blob : List ℕ)
    → length blob ≤ config_blob_max
    → (n : ℕ) × (n ≤ 2)
      × (length blob ≤ chunk_offset n)
      × ((j : ℕ) → j < n → chunk_offset j < length blob)
chunk_count blob h = elim (Bool-cases (leb (length blob) (chunk_offset 0))) [
  | inl none_ ↦ (0, omega arith, ground (arith, none_), λ j k. absurd (omega arith))
  | inr some_ ↦ elim (Bool-cases (leb (length blob) (chunk_offset 1))) [
    | inl one ↦ (1, omega arith, ground (arith, one), λ j k. ground (arith, some_))
    | inr two ↦ (2, omega arith, omega arith, λ j k. ground (arith, some_, two))
  ]
]

pub zero_plus : (n : ℕ) → 0 + n ≡ n
zero_plus n = omega arith

pub chunk_count-small :
    (blob : List ℕ) (n : ℕ)
    → n ≤ 2
    → ((j : ℕ) → j < n → chunk_offset j < length blob)
    → n < suc (length blob)
chunk_count-small blob zero two more = omega arith
chunk_count-small blob (suc zero) two more = omega (arith, more 0 (omega arith))
chunk_count-small blob (suc (suc n)) two more = omega (arith, more 1 (omega arith))
