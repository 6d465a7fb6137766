-- ===== src/Ranking/Batch.antt =====
-- The ranking batch: `RankPeriod` and `buildCohort` of internal/analysis/rank.go over the table
-- `provider_rankings` (adapters/persistence/analysispg/rankingpg.go). Of a row the constant versions of
-- the methodology and the weights are left out.
pub mod Cohort
pub mod Published
use forecastiq.Prelude.{
  ℕ, ◌-◌, ◌*◌, ◌/◌, ◌+◌, Bool, true, false, not, ◌&&◌, Option, none, some, List, [], ◌∷◌, ◌++◌, map,
  ◌==◌, is_some, ltb, length, if◌then◌else◌, Result, ok, err,
}
use forecastiq.Float.{Float, ◌⪯◌, ◌⊖◌, ◌⊘◌, fzero, fone}
use forecastiq.Aggregate.{
  Variable, temperature, wind_speed, precipitation, all_variables, MetricType, metric_mae,
  metric_bias, metric_f1, metric_rain_mae_all, metric_coverage, metric_reliability, Period,
}
use forecastiq.Ranking.{
  Key, temp_mae, precip_f1, rain_mae_all, wind_mae, temp_bias_abs, coverage_key, reliability_key,
  ProviderInput, ProviderRanking, ComponentScore, Status, ranked, provisionally_ranked, unranked,
}
use forecastiq.Ranking.Env.{extreme, smaller, rank_cohort}
use forecastiq.Publish.{Version, Faults, CellRun, publish_cells}

pub record LocationHorizon : Type 0 where
  pub location_id : ℕ
  pub horizon_minutes : ℕ

pub record MetricValue (F : Type 0) : Type 0 where
  pub provider_id : ℕ
  pub variable : Variable
  pub metric_type : MetricType
  pub value : Option F
  pub ci_lower : Option F
  pub ci_upper : Option F
  pub sample_count : ℕ

-- `acc`, with the provider that it belongs to.
pub record Acc (F : Type 0) : Type 0 where
  pub provider_id : ℕ
  pub values : Key → Option F
  pub ci_half : Key → Option F
  pub temp_sample : ℕ
  pub precip_sample : ℕ
  pub coverages : List F

abbrev pub key_number : Key → ℕ
key_number temp_mae = 0
key_number precip_f1 = 1
key_number rain_mae_all = 2
key_number wind_mae = 3
key_number temp_bias_abs = 4
key_number coverage_key = 5
key_number reliability_key = 6

-- The logical key of a ranking.
pub record RankingKey : Type 0 where
  pub provider_id : ℕ
  pub location_id : ℕ
  pub horizon_minutes : ℕ
  pub horizon_profile : ℕ
  pub period_start : ℕ
  pub period_end : ℕ

abbrev pub same_ranking_key : RankingKey → RankingKey → Bool
same_ranking_key a b =
    (a.provider_id == b.provider_id)
    && (a.location_id == b.location_id)
    && (a.horizon_minutes == b.horizon_minutes)
    && (a.horizon_profile == b.horizon_profile)
    && (a.period_start == b.period_start)
    && (a.period_end == b.period_end)

-- The one profile, `uniform`.
abbrev pub profile_uniform : ℕ
profile_uniform = 0

pub record RankingRow (F : Type 0) : Type 0 where
  pub key : RankingKey
  pub ranking : ProviderRanking F

abbrev pub key_of : {F : Type 0} → RankingRow F → RankingKey
key_of r = r.key

module _ {F : Type 0} where
  -- `m[k] = v`
  unfoldable pub set : Key → Option F → (Key → Option F) → Key → Option F
  set k v m k' = if key_number k == key_number k' then v else m k'

  abbrev pub new_acc : ℕ → Acc F
  new_acc id = record {
    provider_id = id;
    values = λ k. none;
    ci_half = λ k. none;
    temp_sample = 0;
    precip_sample = 0;
    coverages = [];
  }

  unfoldable pub to_row : LocationHorizon → Period → ProviderRanking F → RankingRow F
  to_row cell period r = record {
    key = record {
      provider_id = r.provider_id;
      location_id = cell.location_id;
      horizon_minutes = cell.horizon_minutes;
      horizon_profile = profile_uniform;
      period_start = period.start;
      period_end = period.end;
    };
    ranking = r;
  }

module _ {F : Type 0} ⦃f : Float F⦄ where
  abbrev pub half_of : Option F → Option F → Option F
  half_of (some lower) (some upper) = some ((upper ⊖ lower) ⊘ f.ratio 2 1)
  half_of _ _ = none

  abbrev pub half : MetricValue F → Option F
  half m = half_of m.ci_lower m.ci_upper

  -- The body of the loop over the metrics, for the accumulator of the metric's provider.
  unfoldable pub record_metric : Variable → MetricType → MetricValue F → Acc F → Acc F
  record_metric temperature metric_mae m a = record a {
    values = set temp_mae m.value a.values;
    ci_half = set temp_mae (half m) a.ci_half;
    temp_sample = m.sample_count;
  }
  record_metric temperature metric_bias m a = record a {
    values = elim m.value [
      | none ↦ a.values
      | some v ↦ set temp_bias_abs (some (f.abs v)) a.values
    ];
    ci_half = set temp_bias_abs (half m) a.ci_half;
  }
  record_metric precipitation metric_f1 m a = record a {
    values = set precip_f1 m.value a.values;
    ci_half = set precip_f1 (half m) a.ci_half;
    precip_sample = m.sample_count;
  }
  record_metric precipitation metric_rain_mae_all m a = record a {
    values = set rain_mae_all m.value a.values;
    ci_half = set rain_mae_all (half m) a.ci_half;
  }
  record_metric wind_speed metric_mae m a = record a {
    values = set wind_mae m.value a.values;
    ci_half = set wind_mae (half m) a.ci_half;
  }
  record_metric variable metric_coverage m a = record a {
    coverages = elim m.value [ none ↦ a.coverages | some v ↦ a.coverages ++ (v ∷ []) ];
  }
  record_metric all_variables metric_reliability m a = record a {
    values = set reliability_key m.value a.values;
  }
  record_metric _ _ m a = a

  -- The accumulators in the order in which their providers first appear.
  unfoldable pub add_metric : MetricValue F → List (Acc F) → List (Acc F)
  add_metric m [] = record_metric m.variable m.metric_type m (new_acc m.provider_id) ∷ []
  add_metric m (a ∷ others) =
      let rest = add_metric m others in
      if a.provider_id == m.provider_id
      then record_metric m.variable m.metric_type m a ∷ others
      else a ∷ rest

  unfoldable pub add_metrics : List (MetricValue F) → List (Acc F) → List (Acc F)
  add_metrics [] accs = accs
  add_metrics (m ∷ ms) accs = add_metrics ms (add_metric m accs)

  abbrev pub least : List F → Option F
  least [] = none
  least (c ∷ cs) = some (extreme smaller (c ∷ cs))

  unfoldable pub input_of : ℕ → Acc F → ProviderInput F
  input_of calendar_days a =
      let values = set coverage_key (least a.coverages) a.values in
      record {
        provider_id = a.provider_id;
        values = values;
        ci_half = a.ci_half;
        temp_sample_count = a.temp_sample;
        precip_sample_count = a.precip_sample;
        calendar_days = calendar_days;
        coverage = least a.coverages;
        reliability = values reliability_key;
      }

  unfoldable pub build_cohort : List (MetricValue F) → ℕ → List (ProviderInput F)
  build_cohort vals calendar_days = map (input_of calendar_days) (add_metrics vals [])

  -- `CHECK (v BETWEEN 0 AND 1)` on a nullable column.
  abbrev pub in_unit : Option F → Bool
  in_unit none = true
  in_unit (some v) = fzero ⪯ v && v ⪯ fone

  abbrev pub scored_as : Status → Option F → Bool
  scored_as unranked none = true
  scored_as unranked (some v) = false
  scored_as s none = false
  scored_as s (some v) = true

  -- The `CHECK` constraints of a row.
  unfoldable pub row_passes : RankingRow F → Bool
  row_passes r =
      ltb r.key.period_start r.key.period_end
      && scored_as r.ranking.status r.ranking.composite_score
      && in_unit r.ranking.composite_score
      && in_unit r.ranking.coverage
      && in_unit r.ranking.reliability

-- What the read of a cell returns, which statements of its transaction succeed, and the ids that
-- `ids.New` draws for the rows.
pub record CellRead (F : Type 0) : Type 0 where
  pub metrics : Option (List (MetricValue F))
  pub faults : Faults
  pub new_id : ℕ → ℕ

module _ {F : Type 0} (period : Period) (new_id : ℕ → ℕ) (cell : LocationHorizon) where
  unfoldable pub versions : List (ProviderRanking F) → List (Version (RankingRow F))
  versions [] = []
  versions (r ∷ rs) =
      record { id = new_id r.provider_id; value = to_row cell period r; superseded_by = none }
      ∷ versions rs

-- `int(period.End.Sub(period.Start).Hours() / 24)`, with instants in nanoseconds.
abbrev pub days_of : Period → ℕ
days_of period = (period.end - period.start) / (24 * 3600 * 1_000_000_000)

module _ {F : Type 0} ⦃f : Float F⦄ (period : Period) (reads : LocationHorizon → CellRead F) where
  -- The rows of a cell with these metrics.
  unfoldable pub rows_of : LocationHorizon → List (MetricValue F) → List (Version (RankingRow F))
  rows_of cell vals =
      versions period (reads cell).new_id cell (rank_cohort (build_cohort vals (days_of period)))

  abbrev pub rows_if_read :
      LocationHorizon → Option (List (MetricValue F)) → Option (List (Version (RankingRow F)))
  rows_if_read cell none = none
  rows_if_read cell (some vals) = some (rows_of cell vals)

  abbrev pub ranking_run : LocationHorizon → CellRun (RankingRow F)
  ranking_run cell = record {
    rows = rows_if_read cell (reads cell).metrics;
    faults = (reads cell).faults;
  }

  -- `RankPeriod`, from what `ListRankingCells` returns.
  unfoldable pub rank_period :
      Option (List LocationHorizon)
      → List (Version (RankingRow F))
      → List (Version (RankingRow F)) × Result ℕ ℕ
  rank_period none table = (table, err 0)
  rank_period (some cells) table =
      publish_cells same_ranking_key key_of row_passes ranking_run cells 0 table
