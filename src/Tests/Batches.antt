-- ===== src/Tests/Batches.antt =====
-- The metric batch and the ranking batch at concrete inputs, over numbers with three decimals.
use forecastiq.Prelude.{
  ℕ, ◌*◌, ◌+◌, ◌≡◌, refl, Bool, true, false, Option, none, some, List, [], ◌∷◌, length, Result, ok,
  ap, map, All,
}
use forecastiq.Prelude.Int.{ℤ, pos, negsuc}
use forecastiq.Float.Fixed.{fixed_float}
use forecastiq.Observed.{reanalysis, valid}
use forecastiq.Aggregate.{
  Variable, MetricType, temperature, precipitation, metric_mae, metric_f1, metric_bias,
  metric_coverage, Cell, Period, PairRecord, VariableCounts, AccuracyMetric,
}
use forecastiq.Aggregate.Batch.{MetricKey, same_cell, same_metric_key, CellReads, aggregate_period}
use forecastiq.Aggregate.Batch.Published as Metrics
use forecastiq.Aggregate.Batch.Published.{aggregate_period-publishes}
use forecastiq.Publish.{Version, published, Faults, live, all_rows, publish_cells}
use forecastiq.Publish.Keys.{Distinct, has_key}
use mathlib.Core.List.{Permᴰ}
use forecastiq.Ranking.Read.{RankingReadRow, order_rankings}
use forecastiq.Ranking.Read.Complete.{IsRankedAs, order_rankings_complete}
use forecastiq.Ranking.{Status, ranked, provisionally_ranked, unranked}
use forecastiq.Ranking.Env.{rank_cohort}
use forecastiq.Ranking.Batch.{
  LocationHorizon, MetricValue, RankingKey, same_ranking_key, RankingRow, CellRead, build_cohort,
  rank_period, to_row,
}
use forecastiq.Ranking.Batch.Cohort.{has_metric, has_ranking, OneRanking, rank_cohort-build_cohort}
use forecastiq.Ranking.Batch.Published as Rankings
use forecastiq.Ranking.Batch.Published.{rank_period-publishes}

abbrev ranking_key : RankingRow ℤ → RankingKey
ranking_key r = r.key

abbrev metric_key : AccuracyMetric ℤ → MetricKey
metric_key m = record {
  cell = m.cell;
  variable = m.variable;
  metric_type = m.metric_type;
  period = m.period;
}

abbrev no_faults : Faults
no_faults = record { begins = true; inserts = true; supersedes = true; commits = true }

abbrev june : Period
june = record { start = 0; end = 30 * 86_400_000_000_000 }

abbrev measured :
    (provider_id : ℕ) (variable : Variable) (type : MetricType) (value : ℤ) → MetricValue ℤ
measured p v t x = record {
  provider_id = p;
  variable = v;
  metric_type = t;
  value = some x;
  ci_lower = some (pos 100);
  ci_upper = some (pos 300);
  sample_count = 40;
}

abbrev cohort_metrics : List (MetricValue ℤ)
cohort_metrics =
    measured 1 temperature metric_mae (pos 200)
    ∷ measured 2 temperature metric_mae (pos 400)
    ∷ measured 1 precipitation metric_f1 (pos 900)
    ∷ measured 2 precipitation metric_f1 (pos 800)
    ∷ measured 2 temperature metric_bias (negsuc 99)
    ∷ measured 1 temperature metric_coverage (pos 950)
    ∷ measured 1 precipitation metric_coverage (pos 900)
    ∷ []

rank_cohort-build_cohort_example :
    OneRanking (rank_cohort (build_cohort cohort_metrics 30))
    × ((id : ℕ)
        → has_ranking id (rank_cohort (build_cohort cohort_metrics 30))
          ≡ has_metric id cohort_metrics)
rank_cohort-build_cohort_example = rank_cohort-build_cohort cohort_metrics 30

abbrev town : LocationHorizon
town = record { location_id = 5; horizon_minutes = 60 }

abbrev reads : LocationHorizon → CellRead ℤ
reads cell = record { metrics = some cohort_metrics; faults = no_faults; new_id = λ p. p + 10 }

-- A table with the live ranking of an earlier batch, of the first provider.
abbrev rankings : List (Version (RankingRow ℤ))
rankings =
    record {
      id = 7;
      value = to_row town june (record {
        provider_id = 1;
        composite_score = none;
        ci_lower = none;
        ci_upper = none;
        status = unranked;
        sample_count = 0;
        coverage = none;
        reliability = none;
        component_scores = [];
      });
      superseded_by = none;
    }
    ∷ []

abbrev rankings_after : List (Version (RankingRow ℤ))
rankings_after = (rank_period june reads (some (town ∷ [])) rankings).0

one_town : Distinct Rankings.same_cell (town ∷ [])
unfolding has_key
one_town = (refl, tt)

ranks_two : (rank_period june reads (some (town ∷ [])) rankings).1 ≡ ok 2
unfolding rank_period publish_cells forecastiq.Publish.publish forecastiq.Publish.insert_versions
    forecastiq.Ranking.Batch.rows_of forecastiq.Ranking.Batch.versions rank_cohort build_cohort
    forecastiq.Ranking.Batch.add_metrics forecastiq.Ranking.Batch.add_metric
    forecastiq.Ranking.Batch.record_metric forecastiq.Ranking.Batch.row_passes to_row
    forecastiq.Ranking.Env.rank_provider forecastiq.Ranking.status forecastiq.Ranking.Batch.input_of
    forecastiq.Ranking.Env.extreme forecastiq.Ranking.Env.composite
    forecastiq.Ranking.Env.add_component forecastiq.Publish.has_id forecastiq.Publish.supersede_each
    forecastiq.Publish.supersede_previous forecastiq.Ranking.Batch.set forecastiq.Ranking.Env.active
    forecastiq.Ranking.Env.best_shift forecastiq.Ranking.Env.have_values
    forecastiq.Ranking.Env.publish forecastiq.Ranking.Env.weight_from forecastiq.Ranking.clamp01
    forecastiq.Ranking.normalize forecastiq.Prelude.Int.◌+ℤ◌ forecastiq.Prelude.Int.◌-ℤ◌
ranks_two = refl

rank_period-publishes_example :
    (2 ≡ length (all_rows (Rankings.run june reads) (town ∷ [])))
    × ((k : RankingKey)
        → live same_ranking_key ranking_key k rankings_after
          ≡ published
              (Rankings.latest k (all_rows (Rankings.run june reads) (town ∷ [])))
              (live same_ranking_key ranking_key k rankings))
rank_period-publishes_example =
    rank_period-publishes june reads (town ∷ []) 2 rankings rankings_after one_town
      (ap (λ n. (rankings_after, n)) ranks_two)

abbrev cell : Cell
cell = record { provider_id = 1; location_id = 5; horizon_minutes = 60 }

abbrev pair : PairRecord ℤ
pair = record {
  observation_type = reanalysis;
  quality_flag = valid;
  f_temperature = some (pos 21500);
  f_wind_speed = some (pos 3000);
  f_humidity = none;
  f_pressure = none;
  f_precip_mm = some (pos 200);
  f_precip_prob = some (pos 700);
  o_temperature = some (pos 20000);
  o_wind_speed = some (pos 3500);
  o_humidity = some (pos 60000);
  o_pressure = none;
  o_precip_mm = some (pos 0);
}

abbrev metric_reads : (ℕ → ℕ) → Cell → CellReads ℤ
metric_reads new_id c = record {
  data_of = some (record {
    pairs = pair ∷ [];
    counts = record {
      temperature_count = 1;
      wind_speed_count = 1;
      humidity_count = 0;
      pressure_count = 0;
      precipitation_count = 1;
    };
    scheduled = 24;
    success = 20;
  });
  faults = no_faults;
  new_id = new_id;
}

-- A table with the live mean absolute error of an earlier batch.
abbrev metrics : List (Version (AccuracyMetric ℤ))
metrics =
    record {
      id = 7;
      value = record {
        cell = cell;
        period = june;
        variable = temperature;
        metric_type = metric_mae;
        value = some (pos 900);
        ci_lower = none;
        ci_upper = none;
        sample_count = 3;
      };
      superseded_by = none;
    }
    ∷ []

abbrev second_reads : Cell → CellReads ℤ
second_reads = metric_reads (λ i. i + 100)

abbrev metrics_after : List (Version (AccuracyMetric ℤ))
metrics_after = (aggregate_period june second_reads (some (cell ∷ [])) metrics).0

one_cell : Distinct same_cell (cell ∷ [])
unfolding has_key
one_cell = (refl, tt)

aggregates_all : (aggregate_period june second_reads (some (cell ∷ [])) metrics).1 ≡ ok 27
unfolding aggregate_period publish_cells forecastiq.Publish.publish
    forecastiq.Publish.insert_versions forecastiq.Publish.has_id forecastiq.Publish.supersede_each
    forecastiq.Publish.supersede_previous forecastiq.Aggregate.Batch.rows_of
    forecastiq.Publish.Keys.number forecastiq.Aggregate.compute_rows forecastiq.Aggregate.rows_of
    forecastiq.Aggregate.continuous_rows forecastiq.Aggregate.rain_rows forecastiq.Aggregate.metric
    forecastiq.Aggregate.ratio_row forecastiq.Aggregate.rateless_row
    forecastiq.Aggregate.Batch.row_passes forecastiq.Aggregate.absorb_all
    forecastiq.Aggregate.absorb forecastiq.Aggregate.no_sums forecastiq.Prelude.Int.◌+ℤ◌
    forecastiq.Prelude.Int.◌-ℤ◌ forecastiq.Eval.Continuous.mae forecastiq.Aggregate.add_eligible
    forecastiq.Eval.eligible forecastiq.Eval.Continuous.add forecastiq.Eval.Continuous.empty
    forecastiq.Eval.provenance_weight forecastiq.Eval.Interval.mae_ci
    forecastiq.Eval.Interval.ci_from_moments forecastiq.Eval.Continuous.rmse
    forecastiq.Eval.Interval.rmse_ci forecastiq.Eval.Continuous.bias
    forecastiq.Eval.Interval.bias_ci forecastiq.Aggregate.add_wet forecastiq.Eval.Confusion.recall
    forecastiq.Eval.Confusion.add forecastiq.Eval.forecast_rain forecastiq.Eval.observed_rain
    forecastiq.Aggregate.add_brier forecastiq.Eval.Confusion.empty forecastiq.Eval.Confusion.f1
    forecastiq.Eval.Confusion.false_alarm_rate forecastiq.Eval.Confusion.n
    forecastiq.Eval.Confusion.occurrence_agreement forecastiq.Eval.Confusion.precision
    forecastiq.Eval.Confusion.threat_score forecastiq.Eval.Continuous.brier_add
    forecastiq.Eval.Continuous.brier_empty forecastiq.Eval.Continuous.score
    forecastiq.Eval.Interval.half_width forecastiq.Eval.Interval.score_ci
    forecastiq.Eval.Interval.wilson forecastiq.Float.Fixed.fixed_sqrt
aggregates_all = refl

aggregate_period-publishes_example :
    (27 ≡ length (all_rows (Metrics.run june second_reads) (cell ∷ [])))
    × ((k : MetricKey)
        → live same_metric_key metric_key k metrics_after
          ≡ published
              (Metrics.latest june second_reads k
                (all_rows (Metrics.run june second_reads) (cell ∷ [])))
              (live same_metric_key metric_key k metrics))
aggregate_period-publishes_example =
    aggregate_period-publishes june second_reads (cell ∷ []) 27 metrics metrics_after one_cell
      (ap (λ n. (metrics_after, n)) aggregates_all)

abbrev shown_row : ℕ → Status → Option ℤ → RankingReadRow ℤ
shown_row p s score = record {
  provider_id = p;
  composite_score = score;
  ci_lower = score;
  ci_upper = score;
  status = s;
  sample_count = 40;
  coverage = none;
  reliability = none;
  period_start = 100;
  period_end = 200;
  calculated_at = 150;
}

abbrev shown_rows : List (RankingReadRow ℤ)
shown_rows =
    shown_row 1 unranked none
    ∷ shown_row 2 provisionally_ranked (some (pos 950))
    ∷ shown_row 3 ranked (some (pos 700))
    ∷ shown_row 4 ranked (some (pos 700))
    ∷ []

order_rankings_complete_example :
    Permᴰ (map (λ x. x.row) (order_rankings shown_rows)) shown_rows
    × All IsRankedAs (order_rankings shown_rows)
order_rankings_complete_example =
    order_rankings_complete shown_rows (refl, (refl, (refl, (refl, tt))))
