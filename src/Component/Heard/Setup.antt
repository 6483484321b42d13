-- ===== src/Component/Heard/Setup.antt =====
-- The busy sensor from the setup of the component on.
use od_esphome.Component.Heard.Loop.{Follows, loop-Follows, history-Follows}
use mathlib.Core.Path.{subst}
use od_esphome.Engine.State.{set_timeouts}
use od_esphome.Protocol.Config.{Built, build_config_blob}
use od_esphome.Wire.{config_blob_max}
use od_esphome.Base.{
  not, Bool-cases, inl, inr, sym, if◌then◌else◌, ℕ, ◌≡◌, Bool, true, false, Option, none, some,
  List, arith, refl, ◌∙◌, ap,
}
use od_esphome.Protocol.Msd.{Encoded}
use od_esphome.Backend.{Backend}
use od_esphome.Engine.State.{is_busy}
use od_esphome.Component.State.{Component}
use od_esphome.Component.Dispatch.{update_msd, loop}
use od_esphome.Component.Setup.{setup, configure, keep_config}
use od_esphome.Component.History.{Happening, history}
use od_esphome.Component.Heard.{Ear, ear, last_busy, ear-update_msd, ear-publish_state}

module _ {D : Type 0} (api : Backend D) (version : Option (List ℕ)) where
  keep_config-ear : (c : Component D) (b : Built) → ear (keep_config c b) ≡ ear c
  keep_config-ear c (Built.blob b) = refl
  keep_config-ear c (Built.error why) = refl

  configure-Follows :
      (c : Component D) (d : D) (ic_type transfer_ms refresh_ms : ℕ) (temperature : Encoded)
      (has_gatt : Bool)
      → c.has_busy_sensor ≡ true
      → Follows (ear (configure api c d ic_type transfer_ms refresh_ms temperature has_gatt).1)
  unfolding configure
  configure-Follows c d ic_type transfer_ms refresh_ms temperature has_gatt sensor =
      let timed = record c { engine = set_timeouts c.engine transfer_ms refresh_ms } in
      let built = build_config_blob (api.capabilities d) ic_type config_blob_max in
      let kept = keep_config timed built in
      let advertised = update_msd kept 0 temperature in
      let same : ear advertised ≡ ear c =
        ear-update_msd kept 0 temperature ∙ keep_config-ear timed built in
      let told =
        ear-publish_state (record advertised { has_characteristic = has_gatt })
          (ap (λ (k : Ear). k.has_busy_sensor) same ∙ sensor) in
      subst Follows (sym told) (refl, refl)

  setup-Follows :
      (c : Component D) (ic_type transfer_ms refresh_ms : ℕ) (temperature : Encoded)
      (has_gatt : Bool)
      → c.has_busy_sensor ≡ true
      → (setup api c ic_type transfer_ms refresh_ms temperature has_gatt).0 ≡ true
      → Follows (ear (setup api c ic_type transfer_ms refresh_ms temperature has_gatt).1)
  unfolding setup
  setup-Follows c ic_type transfer_ms refresh_ms temperature has_gatt sensor = held c.engine.backend
    where
      held :
          (o : Option D)
          → let s = elim o as (λ x. Bool × Component D) [
            | none ↦ (false, c)
            | some d ↦
                let (working, d') = api.init d in
                let c' = record c { engine = record (c.engine) { backend = some d' } } in
                if not working
                then (false, c')
                else configure api c' d' ic_type transfer_ms refresh_ms temperature has_gatt
          ] in
            s.0 ≡ true → Follows (ear s.1)
      held none ok = ground arith
      held (some d) ok =
          let d' = (api.init d).1 in
          let c' = record c { engine = record (c.engine) { backend = some d' } } in
          let configured =
            configure-Follows c' d' ic_type transfer_ms refresh_ms temperature has_gatt sensor in
          elim (Bool-cases (api.init d).0) [
            | inl works ↦ rw works configured
            | inr fails ↦ ground (arith, fails, ok)
          ]

  -- After a setup that does not mark the component failed, whatever packets, connections, aborts and
  -- passes of the loop follow, at the end of every pass the busy sensor, if there is one, shows
  -- whether the engine is busy.
  pub busy_sensor_follows :
      (c : Component D) (ic_type transfer_ms refresh_ms : ℕ) (start_temperature : Encoded)
      (has_gatt : Bool) (hs : List Happening) (now_ms : ℕ) (clock : ℕ → ℕ) (temperature : Encoded)
      → c.has_busy_sensor ≡ true
      → (setup api c ic_type transfer_ms refresh_ms start_temperature has_gatt).0 ≡ true
      → let c' = (setup api c ic_type transfer_ms refresh_ms start_temperature has_gatt).1 in
        let c'' = loop api version (history api version c' hs) now_ms clock temperature in
        last_busy c''.notices ≡ some (is_busy c''.engine)
  busy_sensor_follows c ic_type transfer_ms refresh_ms start_temperature has_gatt hs now_ms clock
        temperature sensor ok =
      let c' = (setup api c ic_type transfer_ms refresh_ms start_temperature has_gatt).1 in
      let follows =
        setup-Follows c ic_type transfer_ms refresh_ms start_temperature has_gatt sensor ok in
      (loop-Follows api version (history api version c' hs) now_ms clock temperature
        (history-Follows api version hs c' follows)).1
