-- ===== src/Budget/Pause.antt =====
-- How long a pause and an exhausted budget hold (adapters/forecastproviders/openweather/budget.go).
use forecastiq.Prelude.{ℕ, ◌+◌, ◌≤◌, ◌<◌, ◌≡◌, true, false, arith}
use forecastiq.Budget.{
  DailyBudget, utc_day, until_next_utc_day, rollover, take, check_pause, reserve, pause,
}

-- After a 429 at `now` with a positive `Retry-After` of `d`, for a budget whose day is not later
-- than that of `now`, every reservation on the same UTC day, from `now` on and before `now + d`,
-- is refused.
pub reserve-pause :
    (b : DailyBudget) (now d later : ℕ)
    → b.day ≤ utc_day now
    → 0 < d
    → now ≤ later
    → utc_day later ≡ utc_day now
    → later < now + d
    → (reserve later (pause now d b)).1.granted ≡ false
unfolding reserve check_pause take rollover pause
reserve-pause b now d later h p l same before = ground arith

-- After a 429 at `now`, for a budget that allows any call and whose day is not later than that of
-- `now`, the first reservation of any later UTC day is granted, however long the `Retry-After`
-- was.
pub reserve-pause_cut :
    (b : DailyBudget) (now d later : ℕ)
    → b.day ≤ utc_day now
    → 0 < b.max
    → utc_day now < utc_day later
    → (reserve later (pause now d b)).1.granted ≡ true
unfolding reserve check_pause take rollover pause
reserve-pause_cut b now d later h m next = ground arith

-- For a budget that allows any call and whose day is not later than that of `now`: a reservation
-- that is refused while no pause reaches past `now` names a positive time to wait, and the
-- reservation at the end of that wait is granted.
pub reserve-retry_after :
    (b : DailyBudget) (now : ℕ)
    → 0 < b.max
    → b.day ≤ utc_day now
    → b.paused_til ≤ now
    → (reserve now b).1.granted ≡ false
    → (0 < (reserve now b).1.retry_after)
      × ((reserve (now + (reserve now b).1.retry_after) (reserve now b).0).1.granted ≡ true)
unfolding reserve check_pause take rollover until_next_utc_day utc_day
reserve-retry_after b now m h p refused = ground arith
