-- ===== src/Tests/Numbers.antt =====
-- The metrics and the ranking at concrete inputs, over numbers with three decimals.
use forecastiq.Prelude.{◌≡◌, refl, Bool, true, false, none, some, List, [], ◌∷◌, All, length}
use forecastiq.Prelude.Int.{ℤ, pos, negsuc}
use mathlib.Core.List.{Perm, Permᴰ}
use forecastiq.Float.Fixed.{fixed_float, Fixed-IsLinear, Fixed-IsRounded, Fixed-IsSymmetric}
use forecastiq.Observed.{reanalysis, valid, suspect}
use forecastiq.Eval.Continuous.{Continuous, Brier, bias, mae, rmse, score, brier_empty, brier_add}
use forecastiq.Eval.Continuous
use forecastiq.Aggregate.{Cell, Period, PairRecord, VariableCounts, compute_rows}
use forecastiq.Aggregate.Checks.{PassesChecks}
use forecastiq.Aggregate.Checks.Table.{compute_rows-PassChecks}
use forecastiq.Observation.{Observation, ForecastSnapshot}
use forecastiq.Ranking.{ProviderInput}
use forecastiq.Ranking.Env.{rank_cohort}
use forecastiq.Ranking.Row.{IsPublishable, rank_cohort-IsPublishable}
use forecastiq.Ranking.Permute.{rank_cohort-perm}
use forecastiq.Ranking.Order.{rank_groups, scored}
use forecastiq.Ranking.Order.Groups.{concat, IsDescending, rank_groups-IsDescending}

abbrev rain_pairs : List (Bool × Bool × ℤ)
rain_pairs = (true, true, pos 800) ∷ (true, false, pos 1000) ∷ (false, true, pos 500) ∷ []

abbrev error_pairs : List (ℤ × ℤ × ℤ)
error_pairs = (pos 21500, pos 20000, pos 1000) ∷ (negsuc 499, pos 1000, pos 800) ∷ []

abbrev errors : Continuous ℤ
errors = Continuous.add_all Continuous.empty error_pairs

abbrev rain_scores : Brier ℤ
rain_scores = brier_add brier_empty (pos 700) true (pos 1000)

abbrev cell : Cell
cell = record { provider_id = 1; location_id = 2; horizon_minutes = 60 }

abbrev period : Period
period = record { start = 0; end = 100 }

abbrev pair : PairRecord ℤ
pair = record {
  observation_type = reanalysis;
  quality_flag = valid;
  f_temperature = some (pos 21500);
  f_wind_speed = some (pos 3000);
  f_humidity = none;
  f_pressure = none;
  f_precip_mm = some (pos 200);
  f_precip_prob = some (pos 700);
  o_temperature = some (pos 20000);
  o_wind_speed = some (pos 3500);
  o_humidity = some (pos 60000);
  o_pressure = none;
  o_precip_mm = some (pos 0);
}

abbrev counts : VariableCounts
counts = record {
  temperature_count = 1;
  wind_speed_count = 1;
  humidity_count = 0;
  pressure_count = 0;
  precipitation_count = 1;
}

compute_rows-PassChecks_example :
    All PassesChecks
      (compute_rows cell period (pair ∷ record pair { quality_flag = suspect } ∷ []) counts 24 20)
    × (length (
          compute_rows cell period
            (pair ∷ record pair { quality_flag = suspect } ∷ [])
            counts
            24
            20)
        ≡ 27)
compute_rows-PassChecks_example =
    compute_rows-PassChecks Fixed-IsLinear Fixed-IsRounded Fixed-IsSymmetric cell period
      (pair ∷ record pair { quality_flag = suspect } ∷ []) counts 24 20

abbrev first_provider : ProviderInput ℤ
first_provider = record {
  provider_id = 1;
  values = λ k. some (pos 500);
  ci_half = λ k. some (pos 10);
  temp_sample_count = 40;
  precip_sample_count = 35;
  calendar_days = 9;
  coverage = some (pos 900);
  reliability = some (pos 1000);
}

abbrev second_provider : ProviderInput ℤ
second_provider = record first_provider {
  provider_id = 2;
  values = λ k. some (pos 800);
  temp_sample_count = 12;
  coverage = some (pos 600);
}

abbrev cohort : List (ProviderInput ℤ)
cohort = first_provider ∷ second_provider ∷ []

rank_cohort-IsPublishable_example : All IsPublishable (rank_cohort cohort)
rank_cohort-IsPublishable_example =
    rank_cohort-IsPublishable Fixed-IsLinear Fixed-IsRounded Fixed-IsSymmetric cohort

rank_cohort-perm_example :
    Perm (rank_cohort cohort) (rank_cohort (second_provider ∷ first_provider ∷ []))
rank_cohort-perm_example =
    rank_cohort-perm Fixed-IsLinear cohort (second_provider ∷ first_provider ∷ [])
      ∣ Permᴰ.swap refl refl ∣₁

rank_groups-IsDescending_example :
    Permᴰ (concat (rank_groups (rank_cohort cohort))) (scored 0 (rank_cohort cohort))
    × IsDescending (concat (rank_groups (rank_cohort cohort)))
rank_groups-IsDescending_example = rank_groups-IsDescending Fixed-IsLinear (rank_cohort cohort)

abbrev observation : Observation ℤ
observation = record {
  temperature_c = some (pos 61000);
  humidity_pct = some (pos 40000);
  wind_speed_ms = none;
  wind_direction_deg = some (pos 360000);
  pressure_hpa = some (pos 1013000);
  precipitation_mm = some (pos 0);
}

abbrev forecast : ForecastSnapshot ℤ
forecast = record {
  issued_at = 5;
  target_time = 5;
  forecast_horizon_minutes = 60;
  temperature_c = some (pos 20000);
  feels_like_temperature_c = none;
  precipitation_probability = some (pos 700);
  precipitation_amount_mm = none;
  humidity_pct = none;
  wind_speed_ms = none;
  wind_direction_deg = none;
  pressure_hpa = none;
  cloud_cover_pct = some (pos 101000);
}
