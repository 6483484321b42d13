-- ===== src/Component/Frames.antt =====
-- The engine's record of backend calls, under the whole component from its setup on.
use od_esphome.Base.{
  ℕ, ◌≡◌, ◌∙◌, ap, Bool, false, not, Option, none, some, List, [], arith, refl, Bool-cases, inl,
  inr, if◌then◌else◌,
}
use od_esphome.Types.{State}
use od_esphome.Wire.{config_blob_max}
use od_esphome.Backend.{Backend}
use od_esphome.Protocol.Msd.{Encoded}
use od_esphome.Protocol.Config.{Built, build_config_blob}
use od_esphome.Engine.State.{Engine, construct, set_timeouts}
use od_esphome.Engine.Calls.{run}
use od_esphome.Engine.Invariant.{Inv}
use od_esphome.Engine.Trace.{Logged, logged, IsSound, Agrees}
use od_esphome.Engine.Trace.Steps.{run-Agrees, Agrees-IsSound, log_of}
use od_esphome.Component.State.{Component}
use od_esphome.Component.Dispatch.{update_msd}
use od_esphome.Component.Setup.{setup, configure, keep_config}
use od_esphome.Component.Kept.{Core, core, core-update_msd, core-publish_state}
use od_esphome.Component.History.{Happening, history, history_calls}
use od_esphome.Component.Refine.{history_refines}

module _ {D : Type 0} (api : Backend D) where
  core-keep_config : (c : Component D) (b : Built) → core (keep_config c b) ≡ core c
  core-keep_config c (Built.blob b) = refl
  core-keep_config c (Built.error why) = refl

  engine-configure :
      (c : Component D) (d : D) (ic_type transfer_ms refresh_ms : ℕ) (temperature : Encoded)
      (has_gatt : Bool)
      → (configure api c d ic_type transfer_ms refresh_ms temperature has_gatt).1.engine
        ≡ set_timeouts c.engine transfer_ms refresh_ms
  unfolding configure
  engine-configure c d ic_type transfer_ms refresh_ms temperature has_gatt =
      let timed = record c { engine = set_timeouts c.engine transfer_ms refresh_ms } in
      let built = build_config_blob (api.capabilities d) ic_type config_blob_max in
      let advertised = update_msd (keep_config timed built) 0 temperature in
      ap (λ (k : Core D). k.engine)
        (core-publish_state (record advertised { has_characteristic = has_gatt })
          ∙ core-update_msd (keep_config timed built) 0 temperature
          ∙ core-keep_config timed built)

  -- What `setup` makes of the engine.
  abbrev prepared : Engine D → Option D → ℕ → ℕ → Engine D
  prepared e none transfer_ms refresh_ms = e
  prepared e (some d) transfer_ms refresh_ms =
      let e' = record e { backend = some (api.init d).1 } in
      if not (api.init d).0 then e' else set_timeouts e' transfer_ms refresh_ms

  engine-setup :
      (c : Component D) (ic_type transfer_ms refresh_ms : ℕ) (temperature : Encoded)
      (has_gatt : Bool)
      → (setup api c ic_type transfer_ms refresh_ms temperature has_gatt).1.engine
        ≡ prepared c.engine c.engine.backend transfer_ms refresh_ms
  unfolding setup
  engine-setup c ic_type transfer_ms refresh_ms temperature has_gatt = held c.engine.backend
    where
      held :
          (o : Option D)
          → (elim o as (λ x. Bool × Component D) [
            | none ↦ (false, c)
            | some d ↦
                let (working, d') = api.init d in
                let c' = record c { engine = record (c.engine) { backend = some d' } } in
                if not working
                then (false, c')
                else configure api c' d' ic_type transfer_ms refresh_ms temperature has_gatt
          ]).1.engine
            ≡ prepared c.engine o transfer_ms refresh_ms
      held none = refl
      held (some d) =
          let d' = (api.init d).1 in
          let c' = record c { engine = record (c.engine) { backend = some d' } } in
          ground (arith, engine-configure c' d' ic_type transfer_ms refresh_ms temperature has_gatt)

-- An engine that has recorded nothing and is idle.
abbrev IsBlank : {D : Type 0} → Engine (Logged D) → Type 0
IsBlank e = Inv e × (e.txn.state ≡ State.idle) × (log_of e.backend ≡ [])

blank-Agrees :
    {D : Type 0} (e : Engine (Logged D)) (o : Option (Logged D))
    → e.txn.state ≡ State.idle
    → log_of o ≡ []
    → Agrees e o
blank-Agrees e none idle l = tt
blank-Agrees e (some b) idle l = (rw l tt, λ r. cc)

prepared-IsBlank :
    {D : Type 0} (api : Backend D) (d : D) (transfer_ms refresh_ms : ℕ)
    → IsBlank (
        prepared
          (logged api)
          (construct (some (record { dev = d; log = [] })))
          (some (record { dev = d; log = [] }))
          transfer_ms
          refresh_ms)
unfolding construct set_timeouts
prepared-IsBlank api d transfer_ms refresh_ms = elim (Bool-cases (api.init d).0) [
  | inl works ↦ rw works (ground arith, refl, refl)
  | inr fails ↦ rw fails (ground arith, refl, refl)
]

-- From the setup of a component with a new engine on, whatever the backend answers and whatever
-- packets, connections, aborts and passes of the loop follow, a refresh is only ever begun for a
-- frame that `begin_frame` accepted and that was then written whole.
pub component_refreshes_whole_frames :
    {D : Type 0} (api : Backend D) (version : Option (List ℕ)) (c : Component (Logged D)) (d : D)
    (ic_type transfer_ms refresh_ms : ℕ) (temperature : Encoded) (has_gatt : Bool)
    (hs : List Happening)
    → c.engine ≡ construct (some (record { dev = d; log = [] }))
    → let c' = (setup (logged api) c ic_type transfer_ms refresh_ms temperature has_gatt).1 in
      IsSound (log_of (history (logged api) version c' hs).engine.backend)
unfolding construct
component_refreshes_whole_frames {D = D} api version c d ic_type transfer_ms refresh_ms temperature
      has_gatt hs new =
    let c' = (setup (logged api) c ic_type transfer_ms refresh_ms temperature has_gatt).1 in
    let start =
      prepared (logged api) (construct (some (record { dev = d; log = [] })))
        (some (record { dev = d; log = [] })) transfer_ms refresh_ms in
    let is_start : c'.engine ≡ start =
      engine-setup (logged api) c ic_type transfer_ms refresh_ms temperature has_gatt
      ∙ ap (λ (e : Engine (Logged D)). prepared (logged api) e e.backend transfer_ms refresh_ms)
          new in
    let cs = history_calls (logged api) version c' hs in
    let blank = prepared-IsBlank api d transfer_ms refresh_ms in
    let e' = run (logged api) start cs in
    let whole : (history (logged api) version c' hs).engine ≡ e' =
      history_refines (logged api) version hs c' ∙ ap (λ e. run (logged api) e cs) is_start in
    rw whole (
      Agrees-IsSound e' e'.backend
        (run-Agrees api cs start blank.0 (blank-Agrees start start.backend blank.1 blank.2)))
