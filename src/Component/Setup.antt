-- ===== src/Component/Setup.antt =====
-- opendisplay.cpp `setup`: the backend, the timeouts, the configuration blob and the first
-- advertisement. The result of `setup_gatt_`, which Gatt models, is an argument: whether
-- it made the characteristic, and it marks the component failed where it did not.
use od_esphome.Base.{ℕ, Bool, true, false, not, none, some, if◌then◌else◌}
use od_esphome.Wire.{config_blob_max}
use od_esphome.Protocol.Config.{Built, build_config_blob}
use od_esphome.Protocol.Msd.{Encoded}
use od_esphome.Backend.{Backend}
use od_esphome.Engine.State.{set_timeouts}
use od_esphome.Component.State.{Component}
use od_esphome.Component.Dispatch.{update_msd, publish_state}

module _ {D : Type 0} where
  abbrev pub keep_config : Component D → Built → Component D
  keep_config c (Built.blob b) = record c { config_blob = b; config_valid = true }
  keep_config c (Built.error why) = c

module _ {D : Type 0} (api : Backend D) where
  -- From `engine_.set_timeouts` on, with the initialised backend. The result is false where the
  -- component is marked failed.
  unfoldable pub configure :
      Component D → D → (ic_type transfer_ms refresh_ms : ℕ) → Encoded → Bool → Bool × Component D
  configure c d ic_type transfer_ms refresh_ms temperature has_gatt =
      let timed = record c { engine = set_timeouts c.engine transfer_ms refresh_ms } in
      let kept =
        keep_config timed (build_config_blob (api.capabilities d) ic_type config_blob_max) in
      let advertised = update_msd kept 0 temperature in
      (has_gatt, publish_state (record advertised { has_characteristic = has_gatt }))

  -- `setup` of the backend that the engine holds as well.
  unfoldable pub setup :
      Component D → (ic_type transfer_ms refresh_ms : ℕ) → Encoded → Bool → Bool × Component D
  unfolding configure
  setup c ic_type transfer_ms refresh_ms temperature has_gatt = elim c.engine.backend [
    | none ↦ (false, c)
    | some d ↦
        let (working, d') = api.init d in
        let c' = record c { engine = record (c.engine) { backend = some d' } } in
        if not working
        then (false, c')
        else configure c' d' ic_type transfer_ms refresh_ms temperature has_gatt
  ]
