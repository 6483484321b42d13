-- ===== src/Component/Answered/Pass.antt =====
-- opendisplay.cpp `loop` on a component that has sent everything and finds no packet.
use mathlib.Core.Path.{subst}
use od_esphome.Base.{
  ◌≤◌, true, length-append, ℕ, ◌≡◌, ◌++◌, [], List, length, Option, none, false, if◌then◌else◌,
  arith, ap, ◌∙◌, refl, sym, ap₂,
}
use od_esphome.Protocol.Response.{Response}
use od_esphome.Protocol.Msd.{Encoded}
use od_esphome.Backend.{Backend}
use od_esphome.Transport.{rx_pop}
use od_esphome.Transport.Tx
use od_esphome.Transport.Tx.{tx_pop_refines}
use od_esphome.Engine.State.{Engine, EngineResult, take_tail_sack, on_disconnect}
use od_esphome.Engine.Tick.{tick}
use od_esphome.Component.State.{Component}
use od_esphome.Component.Respond.{drain_tx}
use od_esphome.Component.Dispatch.{apply_call, update_msd, publish_changes, loop, drain_rx}
use od_esphome.Component.Visit.{IsAttending, IsDrained, drain_rx-none}
use od_esphome.Component.Kept.{
  core, core-publish_changes, core-drain_tx, core-update_msd, core-apply_result, Core,
}
use od_esphome.Component.Answered.{IsQuiet, told, length-told}
use od_esphome.Component.Answered.Queued.{frames_of}
use od_esphome.Component.Answered.Applied.{apply_call-Queued}
use od_esphome.Component.Answered.Outbox.{
  Outbox, outbox, outbox-update_msd, outbox-publish_changes, drained-drain_tx,
}

module _ {D : Type 0} where
  -- The engine behind the fetch of a tail SACK.
  abbrev pub untail : Engine D → Engine D
  untail e = (take_tail_sack e).1

  pub untail-no_tail : (e : Engine D) → (untail e).has_tail_sack ≡ false
  unfolding take_tail_sack
  untail-no_tail e = ground arith

  pub untail-same : (e : Engine D) → e.has_tail_sack ≡ false → untail e ≡ e
  unfolding take_tail_sack
  untail-same e h = rw h refl

  pub core-applied :
      (c : Component D) (called : EngineResult × Engine D)
      → core (apply_call c called) ≡ core (record c { engine = untail called.1 })
  unfolding apply_call
  core-applied c (res, e) = core-apply_result (record c { engine = e }) res

  -- The rest of a pass behind a call of the engine: what is queued and what the call adds to it is
  -- sent, if that is not more than four frames.
  pub rest-IsQuiet :
      (c : Component D) (called : EngineResult × Engine D) (now_ms : ℕ) (temperature : Encoded)
      → IsAttending c
      → c.has_characteristic ≡ true
      → Tx.IsValid c.tx
      → length (Tx.contents c.tx ++ frames_of called) ≤ 4
      → let c' = publish_changes (drain_tx (update_msd (apply_call c called) now_ms temperature)) in
        IsQuiet c'
        × (c'.engine ≡ untail called.1)
        × (c'.notified ≡ c.notified ++ (Tx.contents c.tx ++ frames_of called))
  rest-IsQuiet c called now_ms temperature attending has v few =
      let (res, e) = called in
      let ticked = apply_call c called in
      let updated = update_msd ticked now_ms temperature in
      let c' = publish_changes (drain_tx updated) in
      let applied =
        apply_call-Queued c called v
          (omega (arith, few, length-append (Tx.contents c.tx) (frames_of called))) in
      let kept : outbox updated ≡ outbox ticked = outbox-update_msd ticked now_ms temperature in
      let same_tx : updated.tx ≡ ticked.tx = ap (λ (o : Outbox). o.tx) kept in
      let frames : Tx.contents updated.tx ≡ Tx.contents c.tx ++ frames_of called =
        ap Tx.contents same_tx ∙ applied.contents in
      let before : core updated ≡ core (record c { engine = untail e }) =
        core-update_msd ticked now_ms temperature ∙ core-applied c called in
      let (empty_tx, said, charact) =
        drained-drain_tx updated (subst Tx.IsValid (sym same_tx) applied.valid)
          (omega (arith, ap length frames, few))
          (ap (λ (k : Core D). k.connected) before ∙ attending.connected)
          (ap (λ (o : Outbox). o.charact) kept ∙ applied.charact ∙ has) in
      let out : outbox c' ≡ outbox (drain_tx updated) = outbox-publish_changes (drain_tx updated) in
      let last_tx : c'.tx ≡ (drain_tx updated).tx = ap (λ (o : Outbox). o.tx) out in
      let cored : core c' ≡ core (record c { engine = untail e }) =
        core-publish_changes (drain_tx updated) ∙ core-drain_tx updated ∙ before in
      let engine : c'.engine ≡ untail e = ap (λ (k : Core D). k.engine) cored in
      let quiet : IsQuiet c' = record {
        attending = record {
          drained = subst IsDrained (sym (ap (λ (k : Core D). k.rx) cored)) attending.drained;
          connected = ap (λ (k : Core D). k.connected) cored ∙ attending.connected;
        };
        charact = ap (λ (o : Outbox). o.charact) out ∙ charact;
        valid = subst Tx.IsValid (sym last_tx) empty_tx.0;
        sent = ap Tx.contents last_tx ∙ empty_tx.1;
        no_tail = ap (λ (g : Engine D). g.has_tail_sack) engine ∙ untail-no_tail e;
      } in
      (
        quiet,
        engine,
        ap (λ (o : Outbox). o.notified) out
            ∙ said
            ∙ ap₂ (λ (l m : List Response). l ++ m)
                (ap (λ (o : Outbox). o.notified) kept ∙ applied.notified) frames,
      )

  told-frames_of :
      (res : EngineResult) (e : Engine D)
      → res.response ≡ []
      → e.has_tail_sack ≡ false
      → frames_of (res, e) ≡ told res
  told-frames_of res e empty no_tail = rw (empty, no_tail) refl

module _ {D : Type 0} (api : Backend D) (version : Option (List ℕ)) where
  loop-quiet :
      (c : Component D) (now_ms : ℕ) (clock : ℕ → ℕ) (temperature : Encoded)
      → IsQuiet c
      → loop api version c now_ms clock temperature
        ≡ publish_changes
            (drain_tx (update_msd (apply_call c (tick api c.engine now_ms)) now_ms temperature))
  unfolding loop rx_pop
  loop-quiet c now_ms clock temperature q =
      let pass = λ (k : Component D).
        publish_changes
          (drain_tx (update_msd (apply_call k (tick api k.engine now_ms)) now_ms temperature)) in
      let checked : (if c.connected
            then c
            else record c { engine = on_disconnect api c.engine c.connection_generation })
          ≡ c =
        rw q.attending.connected refl in
      let empty : rx_pop c.rx ≡ (none, c.rx) = ground (arith, q.attending.drained) in
      ap (λ k. pass (drain_rx api version 8 k clock)) checked
      ∙ ap pass (drain_rx-none api version 7 c clock c.rx empty)

  -- A pass tells the client what the flags of `tick`'s result say, and leaves it quiet again.
  pub loop-IsQuiet :
      (c : Component D) (now_ms : ℕ) (clock : ℕ → ℕ) (temperature : Encoded)
      → IsQuiet c
      → let (res, e) = tick api c.engine now_ms in
        let c' = loop api version c now_ms clock temperature in
        res.response ≡ []
        → e.has_tail_sack ≡ false
        → IsQuiet c' × (c'.engine ≡ e) × (c'.notified ≡ c.notified ++ told res)
  loop-IsQuiet c now_ms clock temperature q empty no_tail =
      let (res, e) = tick api c.engine now_ms in
      let frames : Tx.contents c.tx ++ frames_of (res, e) ≡ told res =
        ap (λ (l : List Response). l ++ frames_of (res, e)) q.sent
        ∙ told-frames_of res e empty no_tail in
      let (quiet, engine, said) =
        rest-IsQuiet c (res, e) now_ms temperature q.attending q.charact q.valid
          (omega (arith, ap length frames, length-told res)) in
      subst
        (λ (k : Component D). IsQuiet k × (k.engine ≡ e) × (k.notified ≡ c.notified ++ told res))
        (sym (loop-quiet c now_ms clock temperature q))
        (
          quiet,
          engine ∙ untail-same e no_tail,
          said ∙ ap (λ (l : List Response). c.notified ++ l) frames,
        )
