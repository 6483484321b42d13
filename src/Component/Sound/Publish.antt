-- ===== src/Component/Sound/Publish.antt =====
-- The component's invariant under `update_msd_` and `publish_state_`.
use od_esphome.Engine.State.{is_busy}
use od_esphome.Base.{ℕ, arith}
use od_esphome.Protocol.Msd.{Encoded}
use od_esphome.Component.State.{Component}
use od_esphome.Component.Dispatch.{
  update_msd, publish_state, publish_changes, publish_busy, publish_activity,
}
use od_esphome.Component.Sound.{IsSound}

module _ {D : Type 0} where
  pub update_msd-IsSound :
      (c : Component D) (now_ms : ℕ) (temperature : Encoded)
      → IsSound c
      → IsSound (update_msd c now_ms temperature)
  unfolding update_msd
  update_msd-IsSound c now_ms temperature s = ground (arith, s)

  publish_busy-IsSound : (c : Component D) → IsSound c → IsSound (publish_busy c)
  publish_busy-IsSound c s = ground (arith, s)

  publish_activity-IsSound : (c : Component D) → IsSound c → IsSound (publish_activity c)
  publish_activity-IsSound c s = ground (arith, s)

  pub publish_state-IsSound : (c : Component D) → IsSound c → IsSound (publish_state c)
  unfolding publish_state
  publish_state-IsSound c s =
      let c' = record c {
        published_state = c.engine.txn.state;
        published_busy = is_busy c.engine;
      } in
      publish_activity-IsSound (publish_busy c')
        (publish_busy-IsSound c' (record { engine = s.engine; rx = s.rx; tx = s.tx }))

  pub publish_changes-IsSound : (c : Component D) → IsSound c → IsSound (publish_changes c)
  unfolding publish_changes
  publish_changes-IsSound c s = ground (arith, s, publish_state-IsSound c s)
