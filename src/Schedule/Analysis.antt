-- ===== src/Schedule/Analysis.antt =====
-- Which instants the analysis batch runs at (internal/scheduler/scheduler.go, `analysisSlotTimes`).
use forecastiq.Prelude.{
  ℕ, zero, suc, ◌+◌, ◌-◌, ◌*◌, ◌/◌, ◌%◌, ◌≤◌, ◌≡◌, Bool, false, ◌&&◌, ◌||◌, List, [], ◌∷◌, ltb, leb,
  ◌==◌, arith, All, mem, mem-append,
}
use forecastiq.Schedule.{
  at_offsets, hours_from, analysis_slot_times, default_offsets, minute_length, hour_length,
  truncate_hour,
}

-- Some offset of the list is `m` minutes.
unfoldable pub at_some : ℕ → List ℕ → Bool
at_some past [] = false
at_some past (off ∷ offs) = (past == off * minute_length) || at_some past offs

mem-at_offsets :
    (t from to h : ℕ) (offs : List ℕ)
    → All (λ o. o ≤ 59) offs
    → h % hour_length ≡ 0
    → mem t (at_offsets from to h offs) ≡ (
        leb from t
        && ltb t to
        && leb h t
        && ltb t (h + hour_length)
        && at_some (t % hour_length) offs)
unfolding mem at_offsets at_some
mem-at_offsets t from to h [] _ k = ground arith
mem-at_offsets t from to h (o ∷ os) (p, ps) k = ground (arith, mem-at_offsets t from to h os ps k)

mem-hours_from :
    (t fuel from to h : ℕ) (offs : List ℕ)
    → All (λ o. o ≤ 59) offs
    → h % hour_length ≡ 0
    → to ≤ h + fuel * hour_length
    → mem t (hours_from fuel from to h offs)
      ≡ (leb from t && ltb t to && leb h t && at_some (t % hour_length) offs)
unfolding mem hours_from
mem-hours_from t zero from to h offs ps k e = ground arith
mem-hours_from t (suc fuel) from to h offs ps k e = ground (
  arith,
  mem-append t (at_offsets from to h offs) (hours_from fuel from to (h + hour_length) offs),
  mem-at_offsets t from to h offs ps k,
  mem-hours_from t fuel from to (h + hour_length) offs ps (omega arith) (omega arith),
)

All-default_offsets :
    (offs : List ℕ) → All (λ o. o ≤ 59) offs → All (λ o. o ≤ 59) (default_offsets offs)
All-default_offsets [] _ = (omega arith, (omega arith, tt))
All-default_offsets (o ∷ os) p = p

-- For offsets of at most 59 minutes the analysis batch gets exactly the instants of the window, its end
-- excluded, that lie at one of the offsets past an hour, with 10 and 40 for an empty list.
pub mem-analysis_slot_times :
    (t from to : ℕ) (offs : List ℕ)
    → All (λ o. o ≤ 59) offs
    → mem t (analysis_slot_times from to offs)
      ≡ (leb from t && ltb t to && at_some (t % hour_length) (default_offsets offs))
unfolding analysis_slot_times
mem-analysis_slot_times t from to offs p = ground (
  arith,
  mem-hours_from t ((to - from) / hour_length + 2) from to (truncate_hour from)
      (default_offsets offs) (All-default_offsets offs p) (omega arith) (omega arith),
)
