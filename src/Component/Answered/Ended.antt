-- ===== src/Component/Answered/Ended.antt =====
-- opendisplay.cpp `loop` and transfer_engine.cpp `tick`: a refresh from the pass on in which it is
-- started.
use mathlib.Core.List.{append-nil}
use mathlib.Core.Path.{subst}
use od_esphome.Base.{
  Bool-cases, inl, inr, ℕ, ◌≡◌, ◌++◌, ◌∷◌, [], List, Option, false, ap, ◌∙◌, refl, sym,
}
use od_esphome.Types.{is_idle}
use od_esphome.Protocol.Response.{Response}
use od_esphome.Protocol.Msd.{Encoded}
use od_esphome.Backend.{Backend}
use od_esphome.Engine.State.{Engine, EngineResult, deadline_passed}
use od_esphome.Engine.Tick.{tick}
use od_esphome.Component.State.{Component}
use od_esphome.Component.Answered.Queued.{frames_of, tail_of, frame_of}
use od_esphome.Component.Answered.Pass.{untail, untail-same}
use od_esphome.Component.Answered.{IsQuiet, told}
use od_esphome.Component.Answered.Once.{
  Refreshing, ends_refresh, refresh_answer, tick-Refreshing, nothing_yet,
}
use od_esphome.Component.Answered.Living.{
  Passing, lived, answered_living, idle_lived, refresh_lived,
}

module _ {D : Type 0} (api : Backend D) (version : Option (List ℕ)) where
  -- What a `tick` that finds the refresh going on or ended has to send.
  refresh_frames :
      (res : EngineResult) (e : Engine D) (frames : List Response)
      → res.response ≡ []
      → e.has_tail_sack ≡ false
      → told res ≡ frames
      → frames_of (res, e) ≡ frames
  refresh_frames res e frames empty no_tail tells =
      ap (λ (l : List Response). tail_of e ++ (frame_of res.response ++ l)) tells
      ∙ ap (λ (r : Response). tail_of e ++ (frame_of r ++ frames)) empty
      ∙ rw no_tail refl

  -- A component behind the pass at `now_ms` in which a handler has left the engine `e` with a
  -- started refresh, and what it has told the client but for that refresh.
  pub record StartedRefresh (c : Component D) (e : Engine D) (d : D) (deadline now_ms : ℕ)
      (said : List Response) : Type 0 where
    pub quiet : IsQuiet c
    pub refreshing : Refreshing e d deadline
    pub no_tail : e.has_tail_sack ≡ false
    pub engine : c.engine ≡ untail (tick api e now_ms).1
    pub notified : c.notified ≡ said ++ frames_of (tick api e now_ms)

  pub begun_answered :
      (ts : List (Passing D)) (c : Component D) (e : Engine D) (d : D) (deadline now_ms : ℕ)
      (said : List Response) (temperature : Encoded)
      → StartedRefresh c e d deadline now_ms said
      → let c' = lived api version c ts temperature in
        let (frames, over) = answered_living api d deadline ((now_ms, λ x. x) ∷ ts) in
        (c'.notified ≡ said ++ frames) × (is_idle c'.engine.txn.state ≡ over)
  unfolding answered_living
  begun_answered ts c e d deadline now_ms said temperature b =
      let (p, d') = api.poll_refresh d in
      let late = deadline_passed now_ms deadline in
      let (res, e') = tick api e now_ms in
      let (empty, no_tail, tells, ended, goes_on) =
        tick-Refreshing api e d deadline now_ms b.refreshing b.no_tail in
      let engine : c.engine ≡ e' = b.engine ∙ untail-same e' no_tail in
      let frames = refresh_frames res e' (refresh_answer p late) empty no_tail tells in
      let heard : c.notified ≡ said ++ refresh_answer p late =
        b.notified ∙ ap (λ (l : List Response). said ++ l) frames in
      elim (Bool-cases (ends_refresh p late)) [
        | inl done ↦
            let rest =
              idle_lived api version ts c temperature b.quiet
                (ap (λ (k : Engine D). k.txn.state) engine ∙ ended done) in
            rw done (rest.0 ∙ heard, ap is_idle rest.1)
        | inr still ↦
            let r1 : Refreshing c.engine d' deadline =
              subst (λ (k : Engine D). Refreshing k d' deadline) (sym engine) (goes_on still) in
            let rest = refresh_lived api version ts c d' deadline temperature b.quiet r1 in
            let silent : c.notified ≡ said =
              heard
              ∙ ap (λ (l : List Response). said ++ l) (nothing_yet p late still)
              ∙ append-nil said in
            rw still (
              rest.0
                  ∙ ap (λ (l : List Response). l ++ (answered_living api d' deadline ts).0) silent,
              rest.1,
            )
      ]
