-- ===== src/Budget.antt =====
-- `dailyBudget` (adapters/forecastproviders/openweather/budget.go). Instants are the nanoseconds
-- since Go's zero time, which is a UTC midnight; a duration that is not positive is 0, and `max` is
-- not negative. The mutex makes every method one step.
pub mod Daily
pub mod Pause
use forecastiq.Prelude.{
  ℕ, ◌+◌, ◌-◌, ◌%◌, min, Bool, true, false, Option, none, some, List, [], ◌∷◌, ltb, leb, ◌==◌,
  if◌then◌else◌,
}

abbrev pub day_length : ℕ
day_length = 86400000000000

-- `pausedTil` is 0 while nothing is paused.
pub record DailyBudget : Type 0 where
  pub max : ℕ
  pub day : ℕ
  pub used : ℕ
  pub paused_til : ℕ

unfoldable pub utc_day : ℕ → ℕ
utc_day t = t - t % day_length

unfoldable pub until_next_utc_day : ℕ → ℕ
until_next_utc_day now = utc_day now + day_length - now

unfoldable pub new_daily_budget : ℕ → ℕ → DailyBudget
new_daily_budget max now = record { max = max; day = utc_day now; used = 0; paused_til = 0 }

unfoldable pub rollover : ℕ → DailyBudget → DailyBudget
rollover now b =
    if ltb b.day (utc_day now) then record b { day = utc_day now; used = 0; paused_til = 0 } else b

-- `true` with 0, or `false` with `retryAfter`.
pub record Reservation : Type 0 where
  pub granted : Bool
  pub retry_after : ℕ

unfoldable pub take : ℕ → DailyBudget → DailyBudget × Reservation
take now b =
    if leb b.max b.used
    then (b, record { granted = false; retry_after = until_next_utc_day now })
    else (record b { used = b.used + 1 }, record { granted = true; retry_after = 0 })

unfoldable pub check_pause : ℕ → DailyBudget → DailyBudget × Reservation
check_pause now b =
    if b.paused_til == 0
    then take now b
    else if ltb now b.paused_til
    then (b, record { granted = false; retry_after = b.paused_til - now })
    else take now (record b { paused_til = 0 })

unfoldable pub reserve : ℕ → DailyBudget → DailyBudget × Reservation
reserve now b = check_pause now (rollover now b)

abbrev pause_end : ℕ → ℕ → ℕ
pause_end now d = if ltb 0 d then now + d else now + until_next_utc_day now

abbrev extend : ℕ → DailyBudget → DailyBudget
extend until b = if ltb b.paused_til until then record b { paused_til = until } else b

unfoldable pub pause : ℕ → ℕ → DailyBudget → DailyBudget
pause now d b = extend (pause_end now d) (rollover now b)

abbrev debit : ℕ → DailyBudget → DailyBudget
debit n b = record b { used = if ltb b.max (b.used + n) then b.max else b.used + n }

unfoldable pub consume : ℕ → ℕ → DailyBudget → DailyBudget
consume n now b = if n == 0 then b else debit n (rollover now b)

-- The calls of the budget by the adapter, each with the instant of the call.
pub data Call : Type 0 where
  reserving : ℕ → Call
  pausing : ℕ → ℕ → Call
  consuming : ℕ → ℕ → Call

abbrev pub instant : Call → ℕ
instant (reserving now) = now
instant (pausing now d) = now
instant (consuming n now) = now

unfoldable pub step : DailyBudget → Call → DailyBudget
step b (reserving now) = (reserve now b).0
step b (pausing now d) = pause now d b
step b (consuming n now) = consume n now b

unfoldable pub is_granted : DailyBudget → Call → Bool
is_granted b (reserving now) = (reserve now b).1.granted
is_granted b _ = false
