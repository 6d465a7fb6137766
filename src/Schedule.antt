-- ===== src/Schedule.antt =====
-- The instants of the slots: `Schedule.SlotTimes` (internal/catalog/domain/configuration.go) and
-- `analysisSlotTimes` (internal/scheduler/scheduler.go). Instants are nanoseconds since Go's zero
-- time, from which `Truncate` counts the hours; the offsets of the analysis are not negative.
pub mod Instants
pub mod Analysis
use forecastiq.Prelude.{
  ℕ, zero, suc, ◌+◌, ◌-◌, ◌*◌, ◌/◌, ◌%◌, Bool, true, false, not, ◌&&◌, ◌||◌, List, [], ◌∷◌, ◌++◌,
  ltb, leb, if◌then◌else◌,
}
use forecastiq.Prelude.Int.{ℤ, pos, negsuc}

abbrev pub minute_length : ℕ
minute_length = 60000000000

abbrev pub hour_length : ℕ
hour_length = 3600000000000

abbrev pub truncate_hour : ℕ → ℕ
truncate_hour t = t - t % hour_length

-- `hourly`, or any other string.
pub data Interval : Type 0 where
  hourly : Interval
  other : Interval

pub record Schedule : Type 0 where
  pub interval : Interval
  pub minute_offset : ℤ

unfoldable pub is_hourly : Interval → Bool
is_hourly hourly = true
is_hourly other = false

-- The offset of a negative number of minutes is never used.
unfoldable pub minutes : ℤ → ℕ
minutes (pos n) = n
minutes (negsuc n) = 0

unfoldable pub in_hour : ℤ → Bool
in_hour (pos n) = leb n 59
in_hour (negsuc n) = false

unfoldable pub valid : Schedule → Bool
valid s = is_hourly s.interval && in_hour s.minute_offset

unfoldable pub default_schedule : Schedule
default_schedule = record { interval = hourly; minute_offset = pos 0 }

-- `for cursor.Before(to)`, on fuel.
unfoldable pub every_hour : ℕ → ℕ → ℕ → List ℕ
every_hour zero cursor to = []
every_hour (suc fuel) cursor to =
    let rest = every_hour fuel (cursor + hour_length) to in
    if ltb cursor to then cursor ∷ rest else []

unfoldable pub first_cursor : ℕ → ℕ → ℕ
first_cursor offset from =
    let cursor = truncate_hour from + offset * minute_length in
    if ltb cursor from then cursor + hour_length else cursor

-- One round of the loop for each hour that starts in the window, and one more.
unfoldable pub slot_times : Schedule → ℕ → ℕ → List ℕ
slot_times s from to =
    if not (valid s) || leb to from
    then []
    else every_hour ((to - from) / hour_length + 1) (first_cursor (minutes s.minute_offset) from) to

abbrev pub default_offsets : List ℕ → List ℕ
default_offsets [] = 10 ∷ 40 ∷ []
default_offsets (o ∷ os) = o ∷ os

-- The inner loop over the offsets of the hour `h`.
unfoldable pub at_offsets : ℕ → ℕ → ℕ → List ℕ → List ℕ
at_offsets from to h [] = []
at_offsets from to h (off ∷ offs) =
    let t = h + off * minute_length in
    let rest = at_offsets from to h offs in if leb from t && ltb t to then t ∷ rest else rest

unfoldable pub hours_from : ℕ → ℕ → ℕ → ℕ → List ℕ → List ℕ
hours_from zero from to h offs = []
hours_from (suc fuel) from to h offs =
    let rest = hours_from fuel from to (h + hour_length) offs in
    if ltb h to then at_offsets from to h offs ++ rest else []

unfoldable pub analysis_slot_times : ℕ → ℕ → List ℕ → List ℕ
analysis_slot_times from to offsets =
    hours_from ((to - from) / hour_length + 2) from to (truncate_hour from)
      (default_offsets offsets)
