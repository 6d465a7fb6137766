-- ===== src/Tests/Observations.antt =====
-- The collection of observations at concrete inputs.
use forecastiq.Prelude.{
  ℕ, ◌≡◌, refl, true, false, none, some, List, [], ◌∷◌, arith, ok, is_ok, All, mem, ◌⊎◌,
}
use forecastiq.Prelude.Int.{ℤ, pos, ◌-ℤ◌}
use forecastiq.Float.Fixed.{fixed_float}
use forecastiq.Observed.{reanalysis, valid}
use forecastiq.Observation.{Observation, differs_from, float_differs}
use forecastiq.Observe.{
  Row, Columns, live_key, live_at, list_current, is_target, has_target, mark, supersede, insert_row,
  insert_batch, stored_values, cast_values, checked, column, at_least, at_most, has_key,
}
use forecastiq.Observe.Service.{
  Fetched, Faults, Request, by_hour, supersede_all, to_insert, corrections, store, persist, observe,
}
use forecastiq.Observe.OneLive.{OneLiveAt, observe-OneLiveAt}
use forecastiq.Observe.Close.{IsClose}
use forecastiq.Observe.Current.{IsCurrent, observe-IsCurrent}
use forecastiq.Observe.Repeat.{observe-repeat}
use forecastiq.Observe.Refused.{observe-refused}

-- Columns that keep every value.
abbrev exact : Columns ℤ
exact = record {
  temperature_c = some;
  humidity_pct = some;
  wind_speed_ms = some;
  wind_direction_deg = some;
  pressure_hpa = some;
  precipitation_mm = some;
}

exact-IsClose : IsClose exact
unfolding float_differs ◌-ℤ◌
exact-IsClose = record {
  temperature = λ v w e. ground arith;
  humidity = λ v w e. ground arith;
  wind_speed = λ v w e. ground arith;
  wind_direction = λ v w e. ground arith;
  pressure = λ v w e. ground arith;
  precipitation = λ v w e. ground arith;
}

abbrev no_faults : Faults
no_faults = record {
  begins = true;
  ensures = true;
  lists = true;
  supersedes = true;
  inserts = true;
  commits = true;
}

abbrev request : Request
request = record {
  active = true;
  source = 1;
  location_id = 2;
  window_start = 100;
  window_end = 200;
}

-- A temperature in thousandths of a degree, and nothing else.
abbrev degrees : ℕ → Observation ℤ
degrees n = record {
  temperature_c = some (pos n);
  humidity_pct = none;
  wind_speed_ms = none;
  wind_direction_deg = none;
  pressure_hpa = none;
  precipitation_mm = none;
}

abbrev row : ℕ → ℕ → Observation ℤ → Row ℤ
row id observed_at values = record {
  id = id;
  location_id = 2;
  source = 1;
  observation_type = reanalysis;
  observed_at = observed_at;
  values = values;
  quality_flag = valid;
  superseded_observation_id = none;
}

abbrev stored_before : List (Row ℤ)
stored_before = row 1 100 (degrees 20000) ∷ row 2 150 (degrees 21000) ∷ []

-- A correction of the first hour, noise at the second, and a new hour.
abbrev fetched : Fetched ℤ
fetched = record {
  success = true;
  observations =
      row 3 100 (degrees 25000) ∷ row 4 150 (degrees 21050) ∷ row 5 200 (degrees 18000) ∷ [];
}

abbrev fetched_again : Fetched ℤ
fetched_again = record {
  success = true;
  observations =
      row 6 100 (degrees 25000) ∷ row 7 150 (degrees 21050) ∷ row 8 200 (degrees 18000) ∷ [];
}

stored_count : (observe exact no_faults request (some fetched) stored_before).1 ≡ ok 2
unfolding observe persist store to_insert corrections by_hour list_current supersede_all supersede
    is_target has_target mark insert_row insert_batch stored_values cast_values checked column
    at_least at_most has_key live_at live_key differs_from float_differs ◌-ℤ◌
stored_count = refl

before-OneLiveAt : (h : ℕ) → OneLiveAt 1 2 h stored_before
unfolding live_at live_key
before-OneLiveAt h = (λ k. ground arith, (λ k. refl, tt))

observe-OneLiveAt_example :
    OneLiveAt 1 2 100 (observe exact no_faults request (some fetched) stored_before).0
observe-OneLiveAt_example =
    observe-OneLiveAt exact no_faults request (some fetched) stored_before 1 2 100
      (before-OneLiveAt 100)

observe-IsCurrent_example :
    All
      (IsCurrent 1 2 (observe exact no_faults request (some fetched) stored_before).0)
      fetched.observations
unfolding mem
observe-IsCurrent_example =
    observe-IsCurrent exact request no_faults fetched stored_before 2 exact-IsClose before-OneLiveAt
      (refl, (refl, (refl, tt))) ((refl, refl), ((refl, refl), ((refl, refl), tt)))
      ((omega arith, omega arith), ((omega arith, omega arith), ((omega arith, omega arith), tt)))
      stored_count

observe-repeat_example :
    let again =
      observe exact no_faults request
        (some fetched_again)
        (observe exact no_faults request (some fetched) stored_before).0 in
    (again.0 ≡ (observe exact no_faults request (some fetched) stored_before).0)
    × ((again.1 ≡ ok 0) ⊎ (is_ok again.1 ≡ false))
unfolding mem
observe-repeat_example =
    observe-repeat exact request no_faults no_faults fetched fetched_again stored_before 2
      exact-IsClose before-OneLiveAt (refl, (refl, (refl, tt)))
      ((refl, refl), ((refl, refl), ((refl, refl), tt)))
      ((omega arith, omega arith), ((omega arith, omega arith), ((omega arith, omega arith), tt)))
      stored_count ((refl, refl, (refl, refl, (refl, refl, tt))))

-- A humidity of 104 %.
abbrev humid : Observation ℤ
humid = record {
  temperature_c = some (pos 20000);
  humidity_pct = some (pos 104000);
  wind_speed_ms = none;
  wind_direction_deg = none;
  pressure_hpa = none;
  precipitation_mm = none;
}

abbrev with_humid : Fetched ℤ
with_humid = record {
  success = true;
  observations = row 3 180 (degrees 25000) ∷ row 4 190 humid ∷ [];
}

observe-refused_example :
    ((observe exact no_faults request (some with_humid) stored_before).0 ≡ stored_before)
    × (is_ok (observe exact no_faults request (some with_humid) stored_before).1 ≡ false)
unfolding live_at live_key cast_values column checked at_least at_most
observe-refused_example =
    observe-refused exact no_faults request with_humid (row 3 180 (degrees 25000) ∷ []) []
      (row 4 190 humid) humid stored_before refl (omega arith, omega arith) refl refl refl
