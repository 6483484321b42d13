-- ===== src/Component/Sound/Setup.antt =====
-- The component's invariant after `setup`.
use od_esphome.Base.{
  ℕ, Bool, false, Option, none, some, arith, inl, inr, Bool-cases, if◌then◌else◌, not,
}
use od_esphome.Wire.{config_blob_max}
use od_esphome.Protocol.Config.{Built, build_config_blob}
use od_esphome.Protocol.Msd.{Encoded}
use od_esphome.Backend.{Backend}
use od_esphome.Engine.State.{Engine, set_timeouts}
use od_esphome.Engine.Invariant.{Inv}
use od_esphome.Component.State.{Component}
use od_esphome.Component.Dispatch.{update_msd}
use od_esphome.Component.Setup.{setup, configure, keep_config}
use od_esphome.Component.Sound.{IsSound}
use od_esphome.Component.Sound.Publish.{update_msd-IsSound, publish_state-IsSound}

module _ {D : Type 0} (api : Backend D) where
  backend-Inv : (e : Engine D) (d : D) → Inv e → Inv (record e { backend = some d })
  backend-Inv e d v = ground arith

  set_timeouts-Inv : (e : Engine D) (t r : ℕ) → Inv e → Inv (set_timeouts e t r)
  unfolding set_timeouts
  set_timeouts-Inv e t r v = ground arith

  keep_config-IsSound : (c : Component D) (b : Built) → IsSound c → IsSound (keep_config c b)
  keep_config-IsSound c (Built.blob b) s = record { engine = s.engine; rx = s.rx; tx = s.tx }
  keep_config-IsSound c (Built.error why) s = s

  configure-IsSound :
      (c : Component D) (d : D) (ic_type transfer_ms refresh_ms : ℕ) (temperature : Encoded)
      (has_gatt : Bool)
      → IsSound c
      → IsSound (configure api c d ic_type transfer_ms refresh_ms temperature has_gatt).1
  unfolding configure
  configure-IsSound c d ic_type transfer_ms refresh_ms temperature has_gatt s =
      let timed = record c { engine = set_timeouts c.engine transfer_ms refresh_ms } in
      let built = build_config_blob (api.capabilities d) ic_type config_blob_max in
      let advertised = update_msd (keep_config timed built) 0 temperature in
      let s1 : IsSound timed = record {
        engine = set_timeouts-Inv c.engine transfer_ms refresh_ms s.engine;
        rx = s.rx;
        tx = s.tx;
      } in
      let s2 =
        update_msd-IsSound (keep_config timed built) 0 temperature
          (keep_config-IsSound timed built s1) in
      publish_state-IsSound (record advertised { has_characteristic = has_gatt })
        (record { engine = s2.engine; rx = s2.rx; tx = s2.tx })

  -- `setup` keeps the engine's invariant and both rings valid, also where it marks the component
  -- failed.
  pub setup-IsSound :
      (c : Component D) (ic_type transfer_ms refresh_ms : ℕ) (temperature : Encoded)
      (has_gatt : Bool)
      → IsSound c
      → IsSound (setup api c ic_type transfer_ms refresh_ms temperature has_gatt).1
  unfolding setup
  setup-IsSound c ic_type transfer_ms refresh_ms temperature has_gatt s = held c.engine.backend
    where
      held :
          (o : Option D)
          → IsSound
              (elim o as (λ x. Bool × Component D) [
                | none ↦ (false, c)
                | some d ↦
                    let (working, d') = api.init d in
                    let c' = record c { engine = record (c.engine) { backend = some d' } } in
                    if not working
                    then (false, c')
                    else configure api c' d' ic_type transfer_ms refresh_ms temperature has_gatt
              ]).1
      held none = s
      held (some d) =
          let d' = (api.init d).1 in
          let c' = record c { engine = record (c.engine) { backend = some d' } } in
          let s' : IsSound c' = record {
            engine = backend-Inv c.engine d' s.engine;
            rx = s.rx;
            tx = s.tx;
          } in
          elim (Bool-cases (api.init d).0) [
            | inl works ↦
                rw works
                  (configure-IsSound c' d' ic_type transfer_ms refresh_ms temperature has_gatt s')
            | inr fails ↦ rw fails s'
          ]
