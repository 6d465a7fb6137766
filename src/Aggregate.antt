-- ===== src/Aggregate.antt =====
-- The accuracy metrics of a cell and period: `computeRows` and its row builders in
-- internal/analysis/aggregate.go, over the rows of internal/analysis/domain/metric.go. The ids that
-- are drawn for new rows are left out.
pub mod Checks
pub mod Batch
use forecastiq.Prelude.{
  ℕ, ◌+◌, Bool, true, false, not, ◌&&◌, Option, none, some, List, [], ◌∷◌, ◌++◌, if◌then◌else◌,
  ◌==◌,
}
use forecastiq.Float.{Float, ◌≺◌, ◌⪯◌, ◌⊕◌, ◌⊗◌, ◌⊘◌, fone}
use forecastiq.Observed.{ObservationType, QualityFlag, is_suspect}
use forecastiq.Eval.{provenance_weight, eligible, forecast_rain, observed_rain}
use forecastiq.Eval.Confusion.{
  Confusion, recall, precision, f1, false_alarm_rate, threat_score, occurrence_agreement,
}
use forecastiq.Eval.Confusion
use forecastiq.Eval.Continuous.{Continuous, Brier, mae, rmse, bias, brier_empty, brier_add, score}
use forecastiq.Eval.Continuous
use forecastiq.Eval.Interval.{wilson, mae_ci, rmse_ci, bias_ci, score_ci}

pub data Variable : Type 0 where
  temperature wind_speed humidity pressure precipitation all_variables : Variable

pub data MetricType : Type 0 where
  metric_mae metric_rmse metric_bias metric_rain_mae_all metric_rain_mae_wet : MetricType
  metric_recall metric_precision metric_f1 metric_far metric_threat_score : MetricType
  metric_occurrence_agreement metric_brier metric_coverage metric_reliability : MetricType

pub record Cell : Type 0 where
  pub provider_id : ℕ
  pub location_id : ℕ
  pub horizon_minutes : ℕ

pub record Period : Type 0 where
  pub start : ℕ
  pub end : ℕ

pub record PairRecord (F : Type 0) : Type 0 where
  pub observation_type : ObservationType
  pub quality_flag : QualityFlag
  pub f_temperature : Option F
  pub f_wind_speed : Option F
  pub f_humidity : Option F
  pub f_pressure : Option F
  pub f_precip_mm : Option F
  pub f_precip_prob : Option F
  pub o_temperature : Option F
  pub o_wind_speed : Option F
  pub o_humidity : Option F
  pub o_pressure : Option F
  pub o_precip_mm : Option F

pub record VariableCounts : Type 0 where
  pub temperature_count : ℕ
  pub wind_speed_count : ℕ
  pub humidity_count : ℕ
  pub pressure_count : ℕ
  pub precipitation_count : ℕ

pub record AccuracyMetric (F : Type 0) : Type 0 where
  pub cell : Cell
  pub period : Period
  pub variable : Variable
  pub metric_type : MetricType
  pub value : Option F
  pub ci_lower : Option F
  pub ci_upper : Option F
  pub sample_count : ℕ

-- The accumulators of `computeRows`.
pub record Sums (F : Type 0) : Type 0 where
  pub temp : Continuous F
  pub wind : Continuous F
  pub humid : Continuous F
  pub press : Continuous F
  pub rain_all : Continuous F
  pub rain_wet : Continuous F
  pub occ : Confusion F
  pub brier : Brier F
  pub occ_n : ℕ

module _ {F : Type 0} ⦃f : Float F⦄ where
  unfoldable pub no_sums : Sums F
  no_sums = record {
    temp = Continuous.empty;
    wind = Continuous.empty;
    humid = Continuous.empty;
    press = Continuous.empty;
    rain_all = Continuous.empty;
    rain_wet = Continuous.empty;
    occ = Confusion.empty;
    brier = brier_empty;
    occ_n = 0;
  }

  -- `if eval.Eligible(...) { c.Add(...) }`
  unfoldable pub add_eligible : Continuous F → Option F → Option F → QualityFlag → F → Continuous F
  add_eligible c (some forecast) (some observed) quality w =
      if eligible (some forecast) (some observed) quality
      then Continuous.add c forecast observed w
      else c
  add_eligible c _ _ quality w = c

  -- The accumulator of wet hours also asks for `*p.OPrecipMM >= 0.1`.
  unfoldable pub add_wet : Continuous F → Option F → Option F → QualityFlag → F → Continuous F
  add_wet c (some forecast) (some observed) quality w =
      if eligible (some forecast) (some observed) quality && f.ratio 1 10 ⪯ observed
      then Continuous.add c forecast observed w
      else c
  add_wet c _ _ quality w = c

  abbrev pub occurs : Option F → QualityFlag → Bool
  occurs none quality = false
  occurs (some mm) quality = not (is_suspect quality)

  unfoldable pub add_brier : Brier F → Option F → Bool → F → Brier F
  add_brier b none observed w = b
  add_brier b (some probability) observed w = brier_add b probability observed w

  -- One round of the loop of `computeRows`.
  unfoldable pub absorb : Sums F → PairRecord F → Sums F
  absorb s p =
      let w = provenance_weight p.observation_type in
      let q = p.quality_flag in
      let rain = observed_rain p.o_precip_mm in
      let counts = occurs p.o_precip_mm q in
      record {
        temp = add_eligible s.temp p.f_temperature p.o_temperature q w;
        wind = add_eligible s.wind p.f_wind_speed p.o_wind_speed q w;
        humid = add_eligible s.humid p.f_humidity p.o_humidity q w;
        press = add_eligible s.press p.f_pressure p.o_pressure q w;
        rain_all = add_eligible s.rain_all p.f_precip_mm p.o_precip_mm q w;
        rain_wet = add_wet s.rain_wet p.f_precip_mm p.o_precip_mm q w;
        occ =
            if counts
            then Confusion.add s.occ (forecast_rain p.f_precip_prob p.f_precip_mm) rain w
            else s.occ;
        brier = if counts then add_brier s.brier p.f_precip_prob rain w else s.brier;
        occ_n = if counts then s.occ_n + 1 else s.occ_n;
      }

  unfoldable pub absorb_all : Sums F → List (PairRecord F) → Sums F
  absorb_all s [] = s
  absorb_all s (p ∷ pairs) = absorb_all (absorb s p) pairs

  -- A row, which has no interval and no samples if its value is null.
  unfoldable pub metric :
      Cell → Period → Variable → MetricType → Option F → Option F × Option F → ℕ → AccuracyMetric F
  metric cell period variable type none ci n = record {
    cell = cell;
    period = period;
    variable = variable;
    metric_type = type;
    value = none;
    ci_lower = none;
    ci_upper = none;
    sample_count = 0;
  }
  metric cell period variable type (some v) (lower, upper) n = record {
    cell = cell;
    period = period;
    variable = variable;
    metric_type = type;
    value = some v;
    ci_lower = lower;
    ci_upper = upper;
    sample_count = n;
  }

  unfoldable pub continuous_rows : Cell → Period → Variable → Continuous F → List (AccuracyMetric F)
  continuous_rows cell period variable c =
      metric cell period variable metric_mae (mae c) (mae_ci c) c.n
      ∷ metric cell period variable metric_rmse (rmse c) (rmse_ci c) c.n
      ∷ metric cell period variable metric_bias (bias c) (bias_ci c) c.n
      ∷ []

  unfoldable pub ratio_row : Cell → Period → MetricType → Option F → F → ℕ → AccuracyMetric F
  unfolding metric
  ratio_row cell period type none denom n =
      metric cell period precipitation type none (none, none) 0
  ratio_row cell period type (some v) denom n =
      let (lower, upper) = wilson v denom in
      metric cell period precipitation type (some v) (some lower, some upper) n

  -- Coverage and reliability: at most 1, and null without a denominator.
  unfoldable pub rateless_row : Cell → Period → Variable → MetricType → ℕ → ℕ → AccuracyMetric F
  unfolding metric
  rateless_row cell period variable type numerator denom =
      let v = f.ratio numerator 1 ⊘ f.ratio denom 1 in
      if denom == 0
      then metric cell period variable type none (none, none) 0
      else metric cell period variable type (some (if fone ≺ v then fone else v)) (none, none) denom

  -- The rows from the rain amounts on.
  unfoldable pub rain_rows :
      Cell → Period → Sums F → VariableCounts → ℕ → ℕ → List (AccuracyMetric F)
  rain_rows cell period s counts scheduled success =
      let c = s.occ in
      metric cell period precipitation metric_rain_mae_all (mae s.rain_all) (mae_ci s.rain_all)
        s.rain_all.n
      ∷ metric cell period precipitation metric_rain_mae_wet (mae s.rain_wet) (mae_ci s.rain_wet)
          s.rain_wet.n
      ∷ ratio_row cell period metric_recall (recall c) (c.tp ⊕ c.fn) s.occ_n
      ∷ ratio_row cell period metric_precision (precision c) (c.tp ⊕ c.fp) s.occ_n
      ∷ ratio_row cell period metric_f1 (f1 c) (f.ratio 2 1 ⊗ c.tp ⊕ c.fp ⊕ c.fn) s.occ_n
      ∷ ratio_row cell period metric_far (false_alarm_rate c) (c.fp ⊕ c.tn) s.occ_n
      ∷ ratio_row cell period metric_threat_score (threat_score c) (c.tp ⊕ c.fp ⊕ c.fn) s.occ_n
      ∷ ratio_row cell period metric_occurrence_agreement (occurrence_agreement c) (Confusion.n c)
          s.occ_n
      ∷ metric cell period precipitation metric_brier (score s.brier) (score_ci s.brier) s.occ_n
      ∷ rateless_row cell period temperature metric_coverage counts.temperature_count scheduled
      ∷ rateless_row cell period wind_speed metric_coverage counts.wind_speed_count scheduled
      ∷ rateless_row cell period humidity metric_coverage counts.humidity_count scheduled
      ∷ rateless_row cell period pressure metric_coverage counts.pressure_count scheduled
      ∷ rateless_row cell period precipitation metric_coverage counts.precipitation_count scheduled
      ∷ rateless_row cell period all_variables metric_reliability success scheduled
      ∷ []

  unfoldable pub rows_of : Cell → Period → Sums F → VariableCounts → ℕ → ℕ → List (AccuracyMetric F)
  rows_of cell period s counts scheduled success =
      continuous_rows cell period temperature s.temp
      ++ (continuous_rows cell period wind_speed s.wind
          ++ (continuous_rows cell period humidity s.humid
              ++ (continuous_rows cell period pressure s.press
                  ++ rain_rows cell period s counts scheduled success)))

  unfoldable pub compute_rows :
      Cell → Period → List (PairRecord F) → VariableCounts → ℕ → ℕ → List (AccuracyMetric F)
  compute_rows cell period pairs counts scheduled success =
      rows_of cell period (absorb_all no_sums pairs) counts scheduled success
