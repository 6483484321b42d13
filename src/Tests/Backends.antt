-- ===== src/Tests/Backends.antt =====
-- The two backends of the repository over a small display.
use od_esphome.Base.{ℕ, false, ◌≡◌, some, List, Bool, true, arith, ◌∷◌, not, refl, []}
use od_esphome.Types.{PollResult, full_refresh, no_frame}
use od_esphome.Backend.Driver.{Driver}
use od_esphome.Backend.Epaper.{epaper_backend, new_epaper}
use od_esphome.Backend.It8951.{it8951_backend, new_it8951, begin_refresh, poll_refresh}
use od_esphome.Backend.Alike.{backends_agree}
use od_esphome.Backend.Alike.Requests.{Request, replies, served, epaper_lives, it8951_lives}
use od_esphome.Backend.Settle.{it8951_settles}

-- The time, and whether the display is at work.
record Clock : Type 0 where
  time : ℕ
  working : Bool

abbrev clock_driver : Driver Clock
clock_driver = record {
  is_failed = λ k. false;
  is_unrotated = λ k. true;
  get_native_width = λ k. 8;
  get_native_height = λ k. 2;
  is_idle = λ k. not k.working;
  update = λ k. record k { working = true };
  draw_pixel_at = λ k x y white. k;
  millis = λ k. k.time;
}

update_busy :
    (k : Clock)
    → clock_driver.is_idle k ≡ true
    → clock_driver.is_idle (clock_driver.update k) ≡ false
update_busy k idle = refl

abbrev rested : Clock → Clock
rested k = record k { working = false }

abbrev dawn : Clock
dawn = record { time = 4294967000; working = false }

abbrev requests : List (Request Clock)
requests =
    Request.inits
    ∷ Request.polls
    ∷ Request.begins (record no_frame { total_bytes = 2 })
    ∷ Request.writes 0 (some (1 ∷ 2 ∷ [])) 2
    ∷ Request.refreshes full_refresh
    ∷ Request.refreshes full_refresh
    ∷ Request.lives rested
    ∷ Request.aborts
    ∷ Request.polls
    ∷ []

backends_agree_example :
    let a = served (epaper_backend clock_driver) epaper_lives (new_epaper (some dawn)) requests in
    let b = served (it8951_backend clock_driver) it8951_lives (new_it8951 (some dawn)) requests in
    (replies (epaper_backend clock_driver) epaper_lives (new_epaper (some dawn)) requests
      ≡ replies (it8951_backend clock_driver) it8951_lives (new_it8951 (some dawn)) requests)
    × ((a.display ≡ b.display) × (a.caps ≡ b.caps))
backends_agree_example = backends_agree clock_driver update_busy (some dawn) requests refl

-- Five seconds after a refresh that began shortly before the clock wrapped.
it8951_settles_example :
    let begun = (begin_refresh clock_driver (new_it8951 (some dawn)) full_refresh).1 in
    (poll_refresh clock_driver
      (record begun { display = some (record { time = 4704; working = false }) })).0
    ≡ PollResult.complete
it8951_settles_example =
    it8951_settles clock_driver (new_it8951 (some dawn)) dawn
      (record { time = 4704; working = false }) full_refresh 4294967000 5000 refl refl refl refl
      refl (omega arith)
