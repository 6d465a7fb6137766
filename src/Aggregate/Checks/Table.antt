-- ===== src/Aggregate/Checks/Table.antt =====
-- The whole result of `computeRows` (internal/analysis/aggregate.go).
use forecastiq.Prelude.{ℕ, ◌≡◌, List, ◌++◌, All, All-append, length, refl}
use forecastiq.Float.{Float, IsLinear, IsRounded, IsSymmetric}
use forecastiq.Aggregate.{
  Variable, temperature, wind_speed, humidity, pressure, precipitation, all_variables, MetricType,
  metric_coverage, metric_reliability, metric_rain_mae_all, metric_rain_mae_wet, Cell, Period,
  PairRecord, VariableCounts, AccuracyMetric, Sums, continuous_rows, rain_rows, rows_of,
  compute_rows, absorb_all, no_sums,
}
use forecastiq.Aggregate.Checks.{PassesChecks, IsWeighed}
use forecastiq.Aggregate.Checks.Counts.{absorb_all-IsWeighed}
use forecastiq.Aggregate.Checks.Rows.{
  rateless-PassesChecks, mae-PassesChecks, continuous-PassesChecks, brier-PassesChecks, ratios-pass,
}

module _ {F : Type 0} ⦃f : Float F⦄ (o : IsLinear F) (r : IsRounded F) (s : IsSymmetric F)
    (cell : Cell) (period : Period) where
  rain_rows-PassChecks :
      (t : Sums F) (counts : VariableCounts) (scheduled success : ℕ)
      → IsWeighed t
      → All PassesChecks (rain_rows cell period t counts scheduled success)
  unfolding rain_rows
  rain_rows-PassChecks t counts scheduled success h =
      let rate = λ (v : Variable) (m : MetricType) (k : ℕ).
        rateless-PassesChecks o r cell period v m k scheduled in
      let (recall_ok, precision_ok, f1_ok, far_ok, threat_ok, agree_ok) =
        ratios-pass o r s cell period t.occ t.occ_n h.occ_counted h.occ_ok in
      (
        mae-PassesChecks o r s cell period precipitation metric_rain_mae_all t.rain_all
            h.rain_all_ok,
        (
          mae-PassesChecks o r s cell period precipitation metric_rain_mae_wet t.rain_wet
              h.rain_wet_ok,
          (
            recall_ok,
            (
              precision_ok,
              (
                f1_ok,
                (
                  far_ok,
                  (
                    threat_ok,
                    (
                      agree_ok,
                      (
                        brier-PassesChecks o r s cell period t.brier t.occ_n h.brier_ok,
                        (
                          rate temperature metric_coverage counts.temperature_count,
                          (
                            rate wind_speed metric_coverage counts.wind_speed_count,
                            (
                              rate humidity metric_coverage counts.humidity_count,
                              (
                                rate pressure metric_coverage counts.pressure_count,
                                (
                                  rate precipitation metric_coverage counts.precipitation_count,
                                  (rate all_variables metric_reliability success, tt),
                                ),
                              ),
                            ),
                          ),
                        ),
                      ),
                    ),
                  ),
                ),
              ),
            ),
          ),
        ),
      )

  -- Four continuous variables, then the rest.
  append_four :
      (a b c d e : List (AccuracyMetric F))
      → All PassesChecks a
      → All PassesChecks b
      → All PassesChecks c
      → All PassesChecks d
      → All PassesChecks e
      → All PassesChecks (a ++ (b ++ (c ++ (d ++ e))))
  append_four a b c d e p q u v w = All-append PassesChecks a (b ++ (c ++ (d ++ e))) p (
      All-append PassesChecks b (c ++ (d ++ e)) q
        (All-append PassesChecks c (d ++ e) u (All-append PassesChecks d e v w)))

  rows_of-PassChecks :
      (t : Sums F) (counts : VariableCounts) (scheduled success : ℕ)
      → IsWeighed t
      → All PassesChecks (rows_of cell period t counts scheduled success)
  unfolding rows_of
  rows_of-PassChecks t counts scheduled success h =
      let cont = λ (v : Variable). continuous-PassesChecks o r s cell period v in
      append_four (continuous_rows cell period temperature t.temp)
        (continuous_rows cell period wind_speed t.wind)
        (continuous_rows cell period humidity t.humid)
        (continuous_rows cell period pressure t.press)
        (rain_rows cell period t counts scheduled success) (cont temperature t.temp h.temp_ok)
        (cont wind_speed t.wind h.wind_ok) (cont humidity t.humid h.humid_ok)
        (cont pressure t.press h.press_ok) (rain_rows-PassChecks t counts scheduled success h)

  -- For any pairs and counts of a cell and period, over finite doubles whose operations keep the stated
  -- laws of rounding: each of the 27 rows has a null value exactly with no samples, and an interval
  -- that is absent or brackets its value, as the CHECK constraints of `accuracy_metrics` ask.
  pub compute_rows-PassChecks :
      (pairs : List (PairRecord F)) (counts : VariableCounts) (scheduled success : ℕ)
      → All PassesChecks (compute_rows cell period pairs counts scheduled success)
        × (length (compute_rows cell period pairs counts scheduled success) ≡ 27)
  unfolding compute_rows rows_of rain_rows continuous_rows
  compute_rows-PassChecks pairs counts scheduled success = (
    rows_of-PassChecks (absorb_all no_sums pairs) counts scheduled success
        (absorb_all-IsWeighed o r pairs),
    refl,
  )
