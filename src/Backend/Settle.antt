-- ===== src/Backend/Settle.antt =====
-- backend_it8951.cpp: when `poll_refresh` reports the end of a refresh.
use od_esphome.Base.{
  ℕ, ◌≡◌, some, true, false, u32, ◌+◌, ◌<◌, ◌^◌, if◌then◌else◌, not, ◌==◌, ◌&&◌, leb, arith,
}
use od_esphome.Types.{PollResult, RefreshRequest}
use od_esphome.Backend.Driver.{Driver}
use od_esphome.Backend.It8951.{It8951, begin_refresh, poll_refresh, it8951_refresh_settle_ms}

-- A refresh that the IT8951 backend begins on an idle panel, while the clock of the panel shows
-- `start`, is reported complete exactly when 5000 milliseconds have gone by, also where the 32-bit
-- clock wraps in between, if the panel has not failed and less than 2 ^ 31 milliseconds have gone
-- by. The exception is a deadline that wraps to zero: such a refresh is never reported complete.
pub it8951_settles :
    {P : Type 0} (driver : Driver P) (b : It8951 P) (p q : P) (request : RefreshRequest)
    (start later : ℕ)
    → b.display ≡ some p
    → driver.is_idle p ≡ true
    → driver.millis (driver.update p) ≡ start
    → driver.is_failed q ≡ false
    → driver.millis q ≡ u32 (start + later)
    → later < 2 ^ 31
    → let begun = (begin_refresh driver b request).1 in
      (poll_refresh driver (record begun { display = some q })).0 ≡ (
        if not (u32 (start + it8951_refresh_settle_ms) == 0) && leb it8951_refresh_settle_ms later
        then PollResult.complete
        else PollResult.pending)
unfolding begin_refresh poll_refresh
it8951_settles driver b p q request start later shown idle now fine clock small =
    let deadline : (begin_refresh driver b request).1.refresh_settle_deadline_ms
        ≡ u32 (start + it8951_refresh_settle_ms) =
      ground (arith, shown, idle, now) in
    ground (arith, deadline, fine, clock)
