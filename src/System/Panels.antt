-- ===== src/System/Panels.antt =====
-- Both backends forget a refresh that is aborted, so a refresh that times out holds the hardware.
use od_esphome.Backend.Epaper.{Epaper, epaper_backend, poll_refresh, abort_transfer}
use od_esphome.Backend.It8951
use od_esphome.Backend.It8951.{It8951, it8951_backend}
use od_esphome.System.Stuck.{Forgets, Moment, live, refresh_timeout_sticks}
use od_esphome.Types.{PollResult, State}
use od_esphome.Backend.Driver.{Driver}
use od_esphome.Engine.State.{Engine, deadline_passed, is_busy, fail}
use od_esphome.Base.{Option, ◌≡◌, some, false, ℕ, refl, List, arith, none, true}
use od_esphome.Engine.Tick.{tick}
use od_esphome.Engine.Start.{on_direct_start}
use od_esphome.Protocol.Response.{encode_nack}
use od_esphome.Wire.{cmd_direct_write_start}

module _ {P : Type 0} (driver : Driver P) where
  -- There is a driver, and it has not failed.
  abbrev pub Works : Option P → Type 0
  Works none = ⊥
  Works (some p) = driver.is_failed p ≡ false

  abbrev pub EpaperAlive : Epaper P → Type 0
  EpaperAlive b = Works b.display

  abbrev pub EpaperQuiet : Epaper P → Type 0
  EpaperQuiet b = Works b.display × (b.refresh_started ≡ false)

  epaper_poll :
      (b : Epaper P) (o : Option P)
      → b.display ≡ o
      → Works o
      → b.refresh_started ≡ false
      → poll_refresh driver b ≡ (PollResult.pending, b)
  unfolding poll_refresh
  epaper_poll b none e w q = absurd w
  epaper_poll b (some p) e w q = ground arith

  pub epaper-Forgets : Forgets (epaper_backend driver) EpaperAlive EpaperQuiet
  unfolding abort_transfer
  epaper-Forgets = record {
    abort_quiet = λ b alive. (alive, refl);
    poll_quiet = λ b quiet. epaper_poll b b.display refl quiet.0 quiet.1;
  }

  abbrev pub It8951Alive : It8951 P → Type 0
  It8951Alive b = Works b.display

  abbrev pub It8951Quiet : It8951 P → Type 0
  It8951Quiet b = Works b.display × (b.refresh_settle_deadline_ms ≡ 0)

  it8951_poll :
      (b : It8951 P) (o : Option P)
      → b.display ≡ o
      → Works o
      → b.refresh_settle_deadline_ms ≡ 0
      → It8951.poll_refresh driver b ≡ (PollResult.pending, b)
  unfolding It8951.poll_refresh
  it8951_poll b none e w q = absurd w
  it8951_poll b (some p) e w q = ground arith

  pub it8951-Forgets : Forgets (it8951_backend driver) It8951Alive It8951Quiet
  unfolding It8951.abort_transfer
  it8951-Forgets = record {
    abort_quiet = λ b alive. (alive, refl);
    poll_quiet = λ b quiet. it8951_poll b b.display refl quiet.0 quiet.1;
  }

  -- With the epaper_spi backend: once the refresh deadline has ended a refresh that the driver is
  -- still at, the engine is busy for ever and refuses every direct START, whatever the driver does
  -- afterwards short of failing; so also when the driver has long finished the refresh.
  pub epaper_timeout_sticks :
      (e : Engine (Epaper P)) (now_ms : ℕ) (b : Epaper P) (p : P)
      (ms : List (Moment (epaper_backend driver) EpaperAlive EpaperQuiet epaper-Forgets))
      (later : ℕ)
      → e.backend ≡ some b
      → b.display ≡ some p
      → driver.is_failed p ≡ false
      → driver.is_idle p ≡ false
      → e.hw_owned ≡ true
      → e.txn.state ≡ State.refreshing
      → deadline_passed now_ms e.txn.refresh_deadline_ms ≡ true
      → let e' =
          live
            (epaper_backend driver)
            EpaperAlive
            EpaperQuiet
            epaper-Forgets
            (tick (epaper_backend driver) e now_ms).1
            ms in
        (is_busy e' ≡ true)
        × ((on_direct_start (epaper_backend driver) e' none 0 later).0
            ≡ fail (encode_nack cmd_direct_write_start))
  unfolding poll_refresh
  epaper_timeout_sticks e now_ms b p ms later held shown works busy owned state late =
      refresh_timeout_sticks (epaper_backend driver) EpaperAlive EpaperQuiet epaper-Forgets e now_ms
        b ms later held (rw shown works) owned state (ground arith) late
