-- ===== src/Component/Answered/Living.antt =====
-- opendisplay.cpp `loop` over the passes that follow the start of a refresh, with a backend that may
-- change by itself between them.
use mathlib.Core.Option
use mathlib.Core.List.{append-nil}
use od_esphome.Base.{
  Bool-cases, inl, inr, ℕ, ◌≡◌, ◌++◌, ◌∷◌, [], List, Option, true, false, Bool, if◌then◌else◌, ap,
  ◌∙◌, refl, sym,
}
use od_esphome.Types.{State, is_idle}
use od_esphome.Protocol.Response.{Response}
use od_esphome.Protocol.Msd.{Encoded}
use od_esphome.Backend.{Backend}
use od_esphome.Engine.State.{deadline_passed}
use od_esphome.Component.State.{Component}
use od_esphome.Component.Dispatch.{loop}
use od_esphome.Component.Answered.{IsQuiet}
use od_esphome.Component.Answered.Once.{
  Refreshing, ends_refresh, refresh_answer, idle_pass, refresh_pass,
}

-- The time of a pass, and what has become of the backend before it.
abbrev pub Passing : Type 0 → Type 0
Passing D = ℕ × (D → D)

-- The component when its backend has changed by itself.
abbrev pub elapse : {D : Type 0} → Component D → (D → D) → Component D
elapse c world = record c {
  engine = record (c.engine) { backend = Option.map world c.engine.backend };
}

module _ {D : Type 0} (api : Backend D) (version : Option (List ℕ)) where
  unfoldable pub lived : Component D → List (Passing D) → Encoded → Component D
  lived c [] temperature = c
  lived c ((t, world) ∷ ts) temperature =
      lived (loop api version (elapse c world) t (λ i. t) temperature) ts temperature

module _ {D : Type 0} (api : Backend D) where
  -- The answer to a refresh over such passes, and whether it is over behind them.
  unfoldable pub answered_living : D → ℕ → List (Passing D) → List Response × Bool
  answered_living d deadline [] = ([], false)
  answered_living d deadline ((t, world) ∷ ts) =
      let (p, d') = api.poll_refresh (world d) in
      let late = deadline_passed t deadline in
      let rest = answered_living d' deadline ts in
      if ends_refresh p late then (refresh_answer p late, true) else rest

module _ {D : Type 0} (api : Backend D) (version : Option (List ℕ)) where
  elapse-IsQuiet : (c : Component D) (world : D → D) → IsQuiet c → IsQuiet (elapse c world)
  elapse-IsQuiet c world q = record {
    attending = record { drained = q.attending.drained; connected = q.attending.connected };
    charact = q.charact;
    valid = q.valid;
    sent = q.sent;
    no_tail = q.no_tail;
  }

  pub idle_lived :
      (ts : List (Passing D)) (c : Component D) (temperature : Encoded)
      → IsQuiet c
      → c.engine.txn.state ≡ State.idle
      → let c' = lived api version c ts temperature in
        (c'.notified ≡ c.notified) × (c'.engine.txn.state ≡ State.idle)
  unfolding lived
  idle_lived [] c temperature q idle = (refl, idle)
  idle_lived ((t, world) ∷ ts) c temperature q idle =
      let k = elapse c world in
      let (quiet, said, still) =
        idle_pass api version k t temperature (elapse-IsQuiet c world q) idle in
      let rest =
        idle_lived ts (loop api version k t (λ i. t) temperature) temperature quiet still in
      (rest.0 ∙ said, rest.1)

  pub refresh_lived :
      (ts : List (Passing D)) (c : Component D) (d : D) (deadline : ℕ) (temperature : Encoded)
      → IsQuiet c
      → Refreshing c.engine d deadline
      → let c' = lived api version c ts temperature in
        let (frames, over) = answered_living api d deadline ts in
        (c'.notified ≡ c.notified ++ frames) × (is_idle c'.engine.txn.state ≡ over)
  unfolding lived answered_living
  refresh_lived [] c d deadline temperature q r = (sym (append-nil c.notified), ap is_idle r.phase)
  refresh_lived ((t, world) ∷ ts) c d deadline temperature q r =
      let k = elapse c world in
      let (p, d') = api.poll_refresh (world d) in
      let late = deadline_passed t deadline in
      let c1 = loop api version k t (λ i. t) temperature in
      let r0 : Refreshing k.engine (world d) deadline = record {
        is_backend = ap (Option.map world) r.is_backend;
        owned = r.owned;
        phase = r.phase;
        until = r.until;
      } in
      let (quiet, heard, ended, goes_on) =
        refresh_pass api version k (world d) deadline t temperature (elapse-IsQuiet c world q) r0 in
      elim (Bool-cases (ends_refresh p late)) [
        | inl done ↦
            let rest = idle_lived ts c1 temperature quiet (ended done) in
            rw done (rest.0 ∙ heard, ap is_idle rest.1)
        | inr still ↦
            let (r1, silent) = goes_on still in
            let rest = refresh_lived ts c1 d' deadline temperature quiet r1 in
            rw still (
              rest.0
                  ∙ ap (λ (l : List Response). l ++ (answered_living api d' deadline ts).0) silent,
              rest.1,
            )
      ]
