-- ===== src/Component/Answered/Once.antt =====
-- opendisplay.cpp `loop` and transfer_engine.cpp `tick` over the passes that follow the start of a
-- refresh.
use mathlib.Core.List.{append-nil}
use mathlib.Core.Path.{subst}
use od_esphome.Base.{
  Bool-cases, inl, inr, ℕ, ◌≡◌, ◌++◌, ◌∷◌, [], List, Option, some, true, false, Bool, if◌then◌else◌,
  arith, ap, ◌∙◌, refl, sym,
}
use od_esphome.Types.{State, PollResult, is_idle}
use od_esphome.Protocol.Response.{Response}
use od_esphome.Protocol.Msd.{Encoded}
use od_esphome.Backend.{Backend}
use od_esphome.Engine.State.{Engine, deadline_passed}
use od_esphome.Engine.Tick.{tick}
use od_esphome.Component.State.{Component}
use od_esphome.Component.History.{Happening, happen, history}
use od_esphome.Component.Answered.Pass.{loop-IsQuiet}
use od_esphome.Component.Answered.{IsQuiet, told, success_frame, timeout_frame}
use od_esphome.Component.Dispatch.{loop}

-- Whether a pass ends the refresh, and what the client is told, by the backend's answer and by
-- whether the refresh deadline has passed.
abbrev pub ends_refresh : PollResult → Bool → Bool
ends_refresh PollResult.pending late = late
ends_refresh _ late = true

abbrev pub refresh_answer : PollResult → Bool → List Response
refresh_answer PollResult.complete late = success_frame ∷ []
refresh_answer PollResult.failed late = []
refresh_answer PollResult.pending late = if late then timeout_frame ∷ [] else []

pub nothing_yet :
    (p : PollResult) (late : Bool) → ends_refresh p late ≡ false → refresh_answer p late ≡ []
nothing_yet PollResult.pending late h = rw h refl
nothing_yet PollResult.complete late h = ground (arith, h)
nothing_yet PollResult.failed late h = refl

abbrev pub passes : List ℕ → Encoded → List Happening
passes [] temperature = []
passes (t ∷ ts) temperature = Happening.loops t (λ i. t) temperature ∷ passes ts temperature

pub record Refreshing {D : Type 0} (e : Engine D) (d : D) (deadline : ℕ) : Type 0 where
  pub is_backend : e.backend ≡ some d
  pub owned : e.hw_owned ≡ true
  pub phase : e.txn.state ≡ State.refreshing
  pub until : e.txn.refresh_deadline_ms ≡ deadline

module _ {D : Type 0} (api : Backend D) where
  -- The answer to a refresh over the passes at some times, and whether it is over behind them.
  unfoldable pub answered : D → ℕ → List ℕ → List Response × Bool
  answered d deadline [] = ([], false)
  answered d deadline (t ∷ ts) =
      let (p, d') = api.poll_refresh d in
      let late = deadline_passed t deadline in
      let rest = answered d' deadline ts in
      if ends_refresh p late then (refresh_answer p late, true) else rest

  pub tick-Refreshing :
      (e : Engine D) (d : D) (deadline now_ms : ℕ)
      → Refreshing e d deadline
      → e.has_tail_sack ≡ false
      → let (p, d') = api.poll_refresh d in
        let late = deadline_passed now_ms deadline in
        let (res, e') = tick api e now_ms in
        (res.response ≡ [])
        × (e'.has_tail_sack ≡ false)
        × (told res ≡ refresh_answer p late)
        × (ends_refresh p late ≡ true → e'.txn.state ≡ State.idle)
        × (ends_refresh p late ≡ false → Refreshing e' d' deadline)
  unfolding tick
  tick-Refreshing e d deadline now_ms r no_tail = ground (arith, r, no_tail)

  tick-idle :
      (e : Engine D) (now_ms : ℕ)
      → e.txn.state ≡ State.idle
      → e.has_tail_sack ≡ false
      → let (res, e') = tick api e now_ms in
        (res.response ≡ [])
        × (e'.has_tail_sack ≡ false)
        × (told res ≡ [])
        × (e'.txn.state ≡ State.idle)
  unfolding tick
  tick-idle e now_ms idle no_tail = ground (arith, idle, no_tail)

module _ {D : Type 0} (api : Backend D) (version : Option (List ℕ)) where
  -- One pass of the loop while no transaction goes on.
  pub idle_pass :
      (c : Component D) (t : ℕ) (temperature : Encoded)
      → IsQuiet c
      → c.engine.txn.state ≡ State.idle
      → let c1 = loop api version c t (λ i. t) temperature in
        IsQuiet c1 × (c1.notified ≡ c.notified) × (c1.engine.txn.state ≡ State.idle)
  idle_pass c t temperature q idle =
      let (empty, no_tail, silent, still) = tick-idle api c.engine t idle q.no_tail in
      let (quiet, engine, said) =
        loop-IsQuiet api version c t (λ i. t) temperature q empty no_tail in
      (
        quiet,
        said ∙ ap (λ (l : List Response). c.notified ++ l) silent ∙ append-nil c.notified,
        ap (λ (e : Engine D). e.txn.state) engine ∙ still,
      )

  idle_passes :
      (ts : List ℕ) (c : Component D) (temperature : Encoded)
      → IsQuiet c
      → c.engine.txn.state ≡ State.idle
      → let c' = history api version c (passes ts temperature) in
        (c'.notified ≡ c.notified) × (c'.engine.txn.state ≡ State.idle)
  unfolding history happen
  idle_passes [] c temperature q idle = (refl, idle)
  idle_passes (t ∷ ts) c temperature q idle =
      let (quiet, said, still) = idle_pass c t temperature q idle in
      let rest =
        idle_passes ts (loop api version c t (λ i. t) temperature) temperature quiet still in
      (rest.0 ∙ said, rest.1)

  -- One pass of the loop while a refresh goes on.
  pub refresh_pass :
      (c : Component D) (d : D) (deadline t : ℕ) (temperature : Encoded)
      → IsQuiet c
      → Refreshing c.engine d deadline
      → let (p, d') = api.poll_refresh d in
        let late = deadline_passed t deadline in
        let c1 = loop api version c t (λ i. t) temperature in
        IsQuiet c1
        × (c1.notified ≡ c.notified ++ refresh_answer p late)
        × (ends_refresh p late ≡ true → c1.engine.txn.state ≡ State.idle)
        × (ends_refresh p late ≡ false
            → Refreshing c1.engine d' deadline × (c1.notified ≡ c.notified))
  refresh_pass c d deadline t temperature q r =
      let (p, d') = api.poll_refresh d in
      let late = deadline_passed t deadline in
      let (empty, no_tail, tells, ended, goes_on) =
        tick-Refreshing api c.engine d deadline t r q.no_tail in
      let (quiet, engine, said) =
        loop-IsQuiet api version c t (λ i. t) temperature q empty no_tail in
      let heard = said ∙ ap (λ (l : List Response). c.notified ++ l) tells in
      (
        quiet,
        heard,
        λ over. ap (λ (e : Engine D). e.txn.state) engine ∙ ended over,
        λ still. (
          subst (λ (e : Engine D). Refreshing e d' deadline) (sym engine) (goes_on still),
          heard
              ∙ ap (λ (l : List Response). c.notified ++ l) (nothing_yet p late still)
              ∙ append-nil c.notified,
        ),
      )

  -- While a connected client that has been sent everything writes nothing, any number of passes of
  -- the loop that follow the start of a refresh, at any times, tell it of the refresh exactly once:
  -- the first pass that finds the refresh complete sends the success frame, one that finds it
  -- failed sends nothing, and the first that finds it pending behind the deadline sends the timeout
  -- frame. From that pass on, and not before, the transaction is idle.
  pub refresh_answered_once :
      (ts : List ℕ) (c : Component D) (d : D) (deadline : ℕ) (temperature : Encoded)
      → IsQuiet c
      → Refreshing c.engine d deadline
      → let c' = history api version c (passes ts temperature) in
        let (frames, over) = answered api d deadline ts in
        (c'.notified ≡ c.notified ++ frames) × (is_idle c'.engine.txn.state ≡ over)
  unfolding history happen answered
  refresh_answered_once [] c d deadline temperature q r =
      (sym (append-nil c.notified), ap is_idle r.phase)
  refresh_answered_once (t ∷ ts) c d deadline temperature q r =
      let (p, d') = api.poll_refresh d in
      let late = deadline_passed t deadline in
      let c1 = loop api version c t (λ i. t) temperature in
      let (quiet, heard, ended, goes_on) = refresh_pass c d deadline t temperature q r in
      elim (Bool-cases (ends_refresh p late)) [
        | inl done ↦
            let rest = idle_passes ts c1 temperature quiet (ended done) in
            rw done (rest.0 ∙ heard, ap is_idle rest.1)
        | inr still ↦
            let (r1, silent) = goes_on still in
            let rest = refresh_answered_once ts c1 d' deadline temperature quiet r1 in
            rw still (
              rest.0 ∙ ap (λ (l : List Response). l ++ (answered api d' deadline ts).0) silent,
              rest.1,
            )
      ]
