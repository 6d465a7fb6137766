-- ===== src/Aggregate/Batch.antt =====
-- The metric batch for one period: `AggregatePeriod` and `aggregateCellPeriod` of
-- internal/analysis/aggregate.go over the table `accuracy_metrics`
-- (adapters/persistence/analysispg/metricspg.go).
pub mod Keys
pub mod Published
use forecastiq.Prelude.{
  ℕ, Bool, true, false, not, ◌&&◌, Option, none, some, List, [], ◌∷◌, ◌==◌, ltb, leb, is_some,
  Result, err,
}
use forecastiq.Float.{Float, ◌⪯◌}
use forecastiq.Aggregate.{
  Variable, temperature, wind_speed, humidity, pressure, precipitation, all_variables, MetricType,
  metric_mae, metric_rmse, metric_bias, metric_rain_mae_all, metric_rain_mae_wet, metric_recall,
  metric_precision, metric_f1, metric_far, metric_threat_score, metric_occurrence_agreement,
  metric_brier, metric_coverage, metric_reliability, Cell, Period, PairRecord, VariableCounts,
  AccuracyMetric, compute_rows,
}
use forecastiq.Publish.{Version, Faults, CellRun, publish_cells}
use forecastiq.Publish.Keys.{number}

abbrev pub variable_number : Variable → ℕ
variable_number temperature = 0
variable_number wind_speed = 1
variable_number humidity = 2
variable_number pressure = 3
variable_number precipitation = 4
variable_number all_variables = 5

abbrev pub type_number : MetricType → ℕ
type_number metric_mae = 0
type_number metric_rmse = 1
type_number metric_bias = 2
type_number metric_rain_mae_all = 3
type_number metric_rain_mae_wet = 4
type_number metric_recall = 5
type_number metric_precision = 6
type_number metric_f1 = 7
type_number metric_far = 8
type_number metric_threat_score = 9
type_number metric_occurrence_agreement = 10
type_number metric_brier = 11
type_number metric_coverage = 12
type_number metric_reliability = 13

-- The logical key of a metric.
pub record MetricKey : Type 0 where
  pub cell : Cell
  pub variable : Variable
  pub metric_type : MetricType
  pub period : Period

abbrev pub same_cell : Cell → Cell → Bool
same_cell a b =
    (a.provider_id == b.provider_id)
    && (a.location_id == b.location_id)
    && (a.horizon_minutes == b.horizon_minutes)

-- The `WHERE` of `SupersedePrevious`.
abbrev pub same_metric_key : MetricKey → MetricKey → Bool
same_metric_key a b =
    (variable_number a.variable == variable_number b.variable)
    && (type_number a.metric_type == type_number b.metric_type)
    && same_cell a.cell b.cell
    && (a.period.start == b.period.start)
    && (a.period.end == b.period.end)

-- What the reads of a cell return, none if one of them fails, which statements of its transaction
-- succeed, and the ids that `ids.New` draws.
pub record CellData (F : Type 0) : Type 0 where
  pub pairs : List (PairRecord F)
  pub counts : VariableCounts
  pub scheduled : ℕ
  pub success : ℕ

pub record CellReads (F : Type 0) : Type 0 where
  pub data_of : Option (CellData F)
  pub faults : Faults
  pub new_id : ℕ → ℕ

abbrev pub key_of : {F : Type 0} → AccuracyMetric F → MetricKey
key_of m = record {
  cell = m.cell;
  variable = m.variable;
  metric_type = m.metric_type;
  period = m.period;
}

module _ {F : Type 0} ⦃f : Float F⦄ where
  -- `CHECK ((value IS NULL) = (sample_count = 0))`
  abbrev pub is_coupled : Option F → ℕ → Bool
  is_coupled none n = n == 0
  is_coupled (some v) n = ltb 0 n

  -- `CHECK (ci_lower IS NULL OR (ci_lower <= value AND value <= ci_upper))`, which holds where the
  -- comparison is null.
  abbrev pub is_bracketed : Option F → Option F → Option F → Bool
  is_bracketed none v upper = true
  is_bracketed (some lower) none upper = true
  is_bracketed (some lower) (some v) none = lower ⪯ v
  is_bracketed (some lower) (some v) (some upper) = lower ⪯ v && v ⪯ upper

  -- The `CHECK` constraints of a row.
  unfoldable pub row_passes : AccuracyMetric F → Bool
  row_passes m =
      is_coupled m.value m.sample_count
      && is_bracketed m.ci_lower m.value m.ci_upper
      && ltb m.period.start m.period.end

  module _ (period : Period) (reads : Cell → CellReads F) where
    -- The rows of a cell with these data.
    unfoldable pub rows_of : Cell → CellData F → List (Version (AccuracyMetric F))
    rows_of cell d =
        number (reads cell).new_id 0
          (compute_rows cell period d.pairs d.counts d.scheduled d.success)

    abbrev pub rows_if_read :
        Cell → Option (CellData F) → Option (List (Version (AccuracyMetric F)))
    rows_if_read cell none = none
    rows_if_read cell (some d) = some (rows_of cell d)

    -- `aggregateCellPeriod`
    abbrev pub aggregate_run : Cell → CellRun (AccuracyMetric F)
    aggregate_run cell = record {
      rows = rows_if_read cell (reads cell).data_of;
      faults = (reads cell).faults;
    }

    -- `AggregatePeriod`, from what `ListCells` returns.
    unfoldable pub aggregate_period :
        Option (List Cell)
        → List (Version (AccuracyMetric F))
        → List (Version (AccuracyMetric F)) × Result ℕ ℕ
    aggregate_period none table = (table, err 0)
    aggregate_period (some cells) table =
        publish_cells same_metric_key key_of row_passes aggregate_run cells 0 table
