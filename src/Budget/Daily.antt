-- ===== src/Budget/Daily.antt =====
-- The cap of the calls in one UTC day (adapters/forecastproviders/openweather/budget.go).
use forecastiq.Prelude.{ℕ, ◌+◌, ◌-◌, ◌≤◌, ◌≡◌, ◌&&◌, List, [], ◌∷◌, ltb, ◌==◌, if◌then◌else◌, arith}
use forecastiq.Budget.{
  DailyBudget, Call, reserving, pausing, consuming, utc_day, rollover, take, check_pause, reserve,
  pause, consume, step, is_granted, instant, new_daily_budget,
}

-- The reservations granted on the day that starts at `d`.
unfoldable pub granted_on : ℕ → DailyBudget → List Call → ℕ
granted_on d b [] = 0
granted_on d b (c ∷ cs) =
    let rest = granted_on d (step b c) cs in
    if is_granted b c && (utc_day (instant c) == d) then rest + 1 else rest

-- The clock does not go back to an earlier day.
abbrev pub IsForward : ℕ → List Call → Type 0
IsForward d [] = Unit {0}
IsForward d (c ∷ cs) = (d ≤ utc_day (instant c)) × IsForward (utc_day (instant c)) cs

-- What the day of the budget still allows on the day `d`.
abbrev allowance : ℕ → DailyBudget → ℕ
allowance d b = if d == b.day then b.max - b.used else if ltb b.day d then b.max else 0

step-max : (b : DailyBudget) (c : Call) → (step b c).max ≡ b.max
unfolding step reserve check_pause take rollover pause consume
step-max b (reserving now) = ground arith
step-max b (pausing now d) = ground arith
step-max b (consuming n now) = ground arith

-- A call on a day no earlier than the budget's moves the budget to that day and uses what it grants.
step-day :
    (b : DailyBudget) (c : Call)
    → b.day ≤ utc_day (instant c)
    → b.used ≤ b.max
    → (d : ℕ)
    → ((step b c).used ≤ b.max)
      × ((if is_granted b c && (utc_day (instant c) == d) then 1 else 0) + allowance d (step b c)
          ≤ allowance d b)
unfolding step is_granted reserve check_pause take rollover pause consume
step-day b (reserving now) h k d = ground arith
step-day b (pausing now t) h k d = ground arith
step-day b (consuming n now) h k d = ground arith

step-day_le :
    (b : DailyBudget) (c : Call)
    → b.day ≤ utc_day (instant c)
    → (step b c).day ≤ utc_day (instant c)
unfolding step reserve check_pause take rollover pause consume
step-day_le b (reserving now) h = ground arith
step-day_le b (pausing now t) h = ground arith
step-day_le b (consuming n now) h = ground arith

IsForward-le : (d e : ℕ) (cs : List Call) → d ≤ e → IsForward e cs → IsForward d cs
IsForward-le d e [] h _ = tt
IsForward-le d e (c ∷ cs) h (k, ks) = (omega arith, ks)

granted_on-allowance :
    (d : ℕ) (b : DailyBudget) (cs : List Call)
    → b.used ≤ b.max
    → IsForward b.day cs
    → granted_on d b cs ≤ allowance d b
unfolding granted_on
granted_on-allowance d b [] h f = ground arith
granted_on-allowance d b (c ∷ cs) h (k, ks) =
    ground (arith, step-day b c k h d, granted_on-allowance d (step b c) cs used forward)
  where
    used : (step b c).used ≤ (step b c).max
    used = omega (arith, step-max b c, (step-day b c k h d).0)

    forward : IsForward (step b c).day cs
    forward = IsForward-le _ _ cs (step-day_le b c k) ks

allowance_le : (d max now : ℕ) → allowance d (new_daily_budget max now) ≤ max
unfolding new_daily_budget
allowance_le d max now = ground arith

-- While the clock does not go back to an earlier UTC day, the calls of a new budget grant at most `max`
-- reservations on any one day, whatever pauses and extra debits stand among them.
pub granted_on_le :
    (max start : ℕ) (cs : List Call)
    → IsForward (utc_day start) cs
    → (d : ℕ) → granted_on d (new_daily_budget max start) cs ≤ max
unfolding new_daily_budget
granted_on_le max start cs f d = omega (
  arith,
  granted_on-allowance d (new_daily_budget max start) cs (ground arith) f,
  allowance_le d max start,
)
