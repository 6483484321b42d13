-- ===== src/Component/Answered/Outbox.antt =====
-- opendisplay.cpp: what waits to be sent to the client and what has been sent, behind the parts of
-- a pass.
use mathlib.Core.Path.{subst}
use od_esphome.Base.{
  ℕ, zero, suc, ◌≡◌, ◌≤◌, ◌++◌, ◌∷◌, [], List, length, Option, none, some, true, Bool, arith, ◌∙◌,
  refl, sym,
}
use od_esphome.Protocol.Response.{Response}
use od_esphome.Protocol.Msd.{Encoded}
use od_esphome.Transport.{TxQueue, tx_pop}
use od_esphome.Transport.Tx
use od_esphome.Transport.Tx.{tx_pop_refines}
use od_esphome.Transport.Fifo.{poll}
use od_esphome.Component.State.{Component}
use od_esphome.Component.Respond.{notify_frames, drain_tx}
use od_esphome.Component.Dispatch.{update_msd, publish_changes, publish_state}
use od_esphome.Component.Config.{notify_frames-all, length-poll}

-- What the rest of a pass leaves alone.
pub record Outbox : Type 0 where
  pub tx : TxQueue
  pub notified : List Response
  pub charact : Bool

nil-of_short : (l : List Response) → length l ≤ 0 → l ≡ []
nil-of_short [] h = refl
nil-of_short (x ∷ l) h = absurd (omega arith)

poll-none : (l l' : List Response) → (none, l') ≡ poll l → l' ≡ []
unfolding poll
poll-none [] l' p = ground (arith, p)
poll-none (x ∷ l) l' p = ground (arith, p)

module _ {D : Type 0} where
  abbrev pub DrainedTx : Component D → Type 0
  DrainedTx c = Tx.IsValid c.tx × (Tx.contents c.tx ≡ [])

  drained-popped :
      (n : ℕ) (c : Component D) (l : List Response) (o : Option Response) (tx : TxQueue)
      → Tx.IsValid tx
      → (o, Tx.contents tx) ≡ poll l
      → length l ≤ suc n
      → ((c' : Component D)
          → Tx.IsValid c'.tx
          → length (Tx.contents c'.tx) ≤ n
          → DrainedTx (notify_frames n c'))
      → DrainedTx (elim o as (λ x. Component D) [
        | none ↦ record c { tx = tx }
        | some r ↦ notify_frames n (record c { tx = tx; notified = c.notified ++ (r ∷ []) })
      ])
  drained-popped n c l none tx v p h rest = (v, poll-none l (Tx.contents tx) p)
  drained-popped n c l (some r) tx v p h rest =
      rest (record c { tx = tx; notified = c.notified ++ (r ∷ []) }) v
        (length-poll n l (Tx.contents tx) (some r) p h)

  -- `drain_tx_` leaves nothing behind of up to four frames.
  notify_frames-drained :
      (n : ℕ) (c : Component D)
      → Tx.IsValid c.tx
      → length (Tx.contents c.tx) ≤ n
      → DrainedTx (notify_frames n c)
  unfolding notify_frames
  notify_frames-drained zero c v h = (v, nil-of_short (Tx.contents c.tx) h)
  notify_frames-drained (suc n) c v h =
      let popped = tx_pop_refines c.tx v in
      drained-popped n c (Tx.contents c.tx) (tx_pop c.tx).0 (tx_pop c.tx).1 popped.0 popped.1 h
        (notify_frames-drained n)

  abbrev pub outbox : Component D → Outbox
  outbox c = record { tx = c.tx; notified = c.notified; charact = c.has_characteristic }

  pub outbox-update_msd :
      (c : Component D) (now_ms : ℕ) (temperature : Encoded)
      → outbox (update_msd c now_ms temperature) ≡ outbox c
  unfolding update_msd
  outbox-update_msd c now_ms temperature = ground arith

  pub outbox-publish_changes : (c : Component D) → outbox (publish_changes c) ≡ outbox c
  unfolding publish_changes publish_state
  outbox-publish_changes c = ground arith

  charact-notify_frames :
      (n : ℕ) (c : Component D) → (notify_frames n c).has_characteristic ≡ c.has_characteristic
  unfolding notify_frames
  charact-notify_frames zero c = refl
  charact-notify_frames (suc n) c = popped (charact-notify_frames n) (tx_pop c.tx).0 (tx_pop c.tx).1
    where
      popped :
          ((c' : Component D) → (notify_frames n c').has_characteristic ≡ c'.has_characteristic)
          → (o : Option Response) (tx : TxQueue)
          → (elim o as (λ x. Component D) [
            | none ↦ record c { tx = tx }
            | some r ↦ notify_frames n (record c { tx = tx; notified = c.notified ++ (r ∷ []) })
          ]).has_characteristic
            ≡ c.has_characteristic
      popped rest none tx = refl
      popped rest (some r) tx = rest (record c { tx = tx; notified = c.notified ++ (r ∷ []) })

  pub drained-drain_tx :
      (c : Component D)
      → Tx.IsValid c.tx
      → length (Tx.contents c.tx) ≤ 4
      → c.connected ≡ true
      → c.has_characteristic ≡ true
      → DrainedTx (drain_tx c)
        × ((drain_tx c).notified ≡ c.notified ++ Tx.contents c.tx)
        × ((drain_tx c).has_characteristic ≡ true)
  unfolding drain_tx
  drained-drain_tx c v h conn charact =
      let same : drain_tx c ≡ notify_frames 4 c = ground (arith, conn, charact) in
      subst
        (λ k.
          DrainedTx k
          × (k.notified ≡ c.notified ++ Tx.contents c.tx)
          × (k.has_characteristic ≡ true))
        (sym same)
        (
          notify_frames-drained 4 c v h,
          notify_frames-all 4 c v h,
          charact-notify_frames 4 c ∙ charact,
        )
