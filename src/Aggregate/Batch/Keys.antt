-- ===== src/Aggregate/Batch/Keys.antt =====
-- The keys of the rows of a cell and period (internal/analysis/aggregate.go).
use forecastiq.Prelude.{ℕ, ◌≡◌, refl, Option, none, some, List, [], ◌∷◌, ◌++◌, map, arith}
use forecastiq.Float.{Float}
use forecastiq.Aggregate.{
  Variable, temperature, wind_speed, humidity, pressure, precipitation, all_variables, MetricType,
  metric_mae, metric_rmse, metric_bias, metric_rain_mae_all, metric_rain_mae_wet, metric_recall,
  metric_precision, metric_f1, metric_far, metric_threat_score, metric_occurrence_agreement,
  metric_brier, metric_coverage, metric_reliability, Cell, Period, PairRecord, VariableCounts,
  metric, ratio_row, rateless_row, continuous_rows, rain_rows, rows_of, compute_rows,
}
use forecastiq.Aggregate.Batch.{MetricKey, same_metric_key, key_of}
use forecastiq.Publish.Keys.{Distinct, has_key}

module _ (cell : Cell) (period : Period) where
  abbrev pub at : Variable → MetricType → MetricKey
  at v t = record { cell = cell; variable = v; metric_type = t; period = period }

  abbrev pub continuous_keys : Variable → List MetricKey
  continuous_keys v = at v metric_mae ∷ at v metric_rmse ∷ at v metric_bias ∷ []

  abbrev pub rain_keys : List MetricKey
  rain_keys =
      at precipitation metric_rain_mae_all
      ∷ at precipitation metric_rain_mae_wet
      ∷ at precipitation metric_recall
      ∷ at precipitation metric_precision
      ∷ at precipitation metric_f1
      ∷ at precipitation metric_far
      ∷ at precipitation metric_threat_score
      ∷ at precipitation metric_occurrence_agreement
      ∷ at precipitation metric_brier
      ∷ at temperature metric_coverage
      ∷ at wind_speed metric_coverage
      ∷ at humidity metric_coverage
      ∷ at pressure metric_coverage
      ∷ at precipitation metric_coverage
      ∷ at all_variables metric_reliability
      ∷ []

  -- The keys of all rows of the cell and period.
  abbrev pub metric_keys : List MetricKey
  metric_keys =
      continuous_keys temperature
      ++ (continuous_keys wind_speed
          ++ (continuous_keys humidity ++ (continuous_keys pressure ++ rain_keys)))

  pub metric_keys-Distinct : Distinct same_metric_key metric_keys
  unfolding has_key
  metric_keys-Distinct = ground arith

  key_of-rateless_row :
      (F : Type 0) ⦃f : Float F⦄ (v : Variable) (t : MetricType) (numerator denom : ℕ)
      → key_of {F = F} (rateless_row cell period v t numerator denom) ≡ at v t
  unfolding rateless_row metric
  key_of-rateless_row F v t numerator denom = ground arith

  module _ {F : Type 0} ⦃f : Float F⦄ where
    key_of-metric :
        (v : Variable) (t : MetricType) (o : Option F) (ci : Option F × Option F) (n : ℕ)
        → key_of (metric cell period v t o ci n) ≡ at v t
    unfolding metric
    key_of-metric v t none ci n = refl
    key_of-metric v t (some x) (lower, upper) n = refl

    key_of-ratio_row :
        (t : MetricType) (o : Option F) (denom : F) (n : ℕ)
        → key_of (ratio_row cell period t o denom n) ≡ at precipitation t
    unfolding ratio_row
    key_of-ratio_row t none denom n = refl
    key_of-ratio_row t (some v) denom n = refl

    pub map-key_of-compute_rows :
        (pairs : List (PairRecord F)) (counts : VariableCounts) (scheduled success : ℕ)
        → map key_of (compute_rows cell period pairs counts scheduled success) ≡ metric_keys
    unfolding compute_rows rows_of rain_rows continuous_rows
    map-key_of-compute_rows pairs counts scheduled success =
        simp (key_of-metric, key_of-ratio_row, key_of-rateless_row F)
