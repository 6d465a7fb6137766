-- ===== src/Schedule/Instants.antt =====
-- Which instants the schedules give (internal/catalog/domain/configuration.go,
-- internal/scheduler/scheduler.go).
use forecastiq.Prelude.{
  ℕ, zero, suc, ◌+◌, ◌-◌, ◌*◌, ◌/◌, ◌%◌, ◌≤◌, ◌≡◌, ◌&&◌, ltb, leb, ◌==◌, arith, mem,
}
use forecastiq.Prelude.Int.{ℤ, pos, negsuc}
use forecastiq.Schedule.{
  Schedule, Interval, is_hourly, minutes, in_hour, valid, every_hour, first_cursor, slot_times,
  minute_length, hour_length,
}

mem-every_hour :
    (t fuel cursor to : ℕ)
    → to ≤ cursor + fuel * hour_length
    → mem t (every_hour fuel cursor to)
      ≡ (leb cursor t && ltb t to && (t % hour_length == cursor % hour_length))
unfolding mem every_hour
mem-every_hour t zero cursor to h = ground arith
mem-every_hour t (suc fuel) cursor to h =
    ground (arith, mem-every_hour t fuel (cursor + hour_length) to (omega arith))

last_round :
    (from to cursor : ℕ)
    → from ≤ cursor
    → to ≤ cursor + ((to - from) / hour_length + 1) * hour_length
last_round from to cursor h = omega arith

mem-every_cursor :
    (t from to n : ℕ)
    → n ≤ 59
    → mem t (every_hour ((to - from) / hour_length + 1) (first_cursor n from) to)
      ≡ (leb from t && ltb t to && (t % hour_length == n * minute_length))
unfolding first_cursor
mem-every_cursor t from to n small =
    ground (arith, mem-every_hour t ((to - from) / hour_length + 1) (first_cursor n from) to)

mem-slot_times_of :
    (i : Interval) (m : ℤ) (from to t : ℕ)
    → mem t (slot_times (record { interval = i; minute_offset = m }) from to) ≡ (
        is_hourly i
        && in_hour m
        && leb from t
        && ltb t to
        && (t % hour_length == minutes m * minute_length))
unfolding slot_times mem valid minutes in_hour is_hourly
mem-slot_times_of i (negsuc n) from to t = ground arith
mem-slot_times_of i (pos n) from to t = ground (arith, mem-every_cursor t from to n)

-- A schedule gives exactly the instants of the window, its end excluded, that lie at its offset
-- past an hour if it is valid, and none if it is not.
pub mem-slot_times :
    (s : Schedule) (from to t : ℕ)
    → mem t (slot_times s from to) ≡ (
        valid s
        && leb from t
        && ltb t to
        && (t % hour_length == minutes s.minute_offset * minute_length))
unfolding valid
mem-slot_times s from to t = ground (arith, mem-slot_times_of s.interval s.minute_offset from to t)
