-- ===== src/Ranking/Batch/Cohort.antt =====
-- `buildCohort` makes one input for each provider of its metrics (internal/analysis/rank.go).
use forecastiq.Prelude.{
  ℕ, ◌≡◌, refl, Bool, false, ◌||◌, List, [], ◌∷◌, map, ◌==◌, if_elim, arith, ap, ◌∙◌,
}
use forecastiq.Float.{Float}
use forecastiq.Aggregate.{Variable, MetricType}
use forecastiq.Ranking.{ProviderInput, ProviderRanking}
use forecastiq.Ranking.Env.{Cohort, cohort_of, rank_provider, rank_cohort, publish}
use forecastiq.Ranking.Batch.{
  MetricValue, Acc, new_acc, record_metric, add_metric, add_metrics, input_of, build_cohort,
}

module _ {F : Type 0} where
  -- The provider is one of the metrics'.
  unfoldable pub has_metric : ℕ → List (MetricValue F) → Bool
  has_metric id [] = false
  has_metric id (m ∷ ms) = (m.provider_id == id) || has_metric id ms

  unfoldable pub has_acc : ℕ → List (Acc F) → Bool
  has_acc id [] = false
  has_acc id (a ∷ rest) = (a.provider_id == id) || has_acc id rest

  unfoldable pub has_ranking : ℕ → List (ProviderRanking F) → Bool
  has_ranking id [] = false
  has_ranking id (r ∷ rs) = (r.provider_id == id) || has_ranking id rs

  abbrev pub OneAcc : List (Acc F) → Type 0
  OneAcc [] = Unit {0}
  OneAcc (a ∷ rest) = (has_acc a.provider_id rest ≡ false) × OneAcc rest

  -- No provider has two rankings.
  abbrev pub OneRanking : List (ProviderRanking F) → Type 0
  OneRanking [] = Unit {0}
  OneRanking (r ∷ rs) = (has_ranking r.provider_id rs ≡ false) × OneRanking rs

module _ {F : Type 0} ⦃f : Float F⦄ where
  record_metric-provider :
      (v : Variable) (t : MetricType) (m : MetricValue F) (a : Acc F)
      → (record_metric v t m a).provider_id ≡ a.provider_id
  unfolding record_metric
  record_metric-provider v t m a = ground arith

  has_acc-add_metric :
      (id : ℕ) (m : MetricValue F) (accs : List (Acc F))
      → has_acc id (add_metric m accs) ≡ ((m.provider_id == id) || has_acc id accs)
  unfolding has_acc add_metric
  has_acc-add_metric id m [] =
      ground (arith, record_metric-provider m.variable m.metric_type m (new_acc m.provider_id))
  has_acc-add_metric id m (a ∷ rest) =
      ground
        (arith, record_metric-provider m.variable m.metric_type m a, has_acc-add_metric id m rest)

  OneAcc-add_metric :
      (m : MetricValue F) (accs : List (Acc F)) → OneAcc accs → OneAcc (add_metric m accs)
  unfolding add_metric has_acc
  OneAcc-add_metric m [] one = (refl, tt)
  OneAcc-add_metric m (a ∷ rest) (first, one) =
      if_elim OneAcc (a.provider_id == m.provider_id) _ _
        (λ _. (
          ap (λ (id : ℕ). has_acc id rest) (record_metric-provider m.variable m.metric_type m a)
              ∙ first,
          one,
        ))
        (λ other. (
          ground (arith, has_acc-add_metric a.provider_id m rest, first, other),
          OneAcc-add_metric m rest one,
        ))

  OneAcc-add_metrics :
      (ms : List (MetricValue F)) (accs : List (Acc F)) → OneAcc accs → OneAcc (add_metrics ms accs)
  unfolding add_metrics
  OneAcc-add_metrics [] accs one = one
  OneAcc-add_metrics (m ∷ ms) accs one =
      OneAcc-add_metrics ms (add_metric m accs) (OneAcc-add_metric m accs one)

  has_acc-add_metrics :
      (id : ℕ) (ms : List (MetricValue F)) (accs : List (Acc F))
      → has_acc id (add_metrics ms accs) ≡ (has_metric id ms || has_acc id accs)
  unfolding add_metrics has_metric
  has_acc-add_metrics id [] accs = refl
  has_acc-add_metrics id (m ∷ ms) accs =
      ground (arith, has_acc-add_metrics id ms (add_metric m accs), has_acc-add_metric id m accs)

  rank_provider-provider :
      (e : Cohort F) (p : ProviderInput F) → (rank_provider e p).provider_id ≡ p.provider_id
  unfolding rank_provider publish
  rank_provider-provider e p = ground arith

  module _ (e : Cohort F) (days : ℕ) where
    abbrev ranked_all : List (Acc F) → List (ProviderRanking F)
    ranked_all accs = map (rank_provider e) (map (input_of days) accs)

    has_ranking-ranked_all :
        (id : ℕ) (accs : List (Acc F)) → has_ranking id (ranked_all accs) ≡ has_acc id accs
    unfolding has_ranking has_acc input_of
    has_ranking-ranked_all id [] = refl
    has_ranking-ranked_all id (a ∷ rest) =
        ground (arith, rank_provider-provider e (input_of days a), has_ranking-ranked_all id rest)

    OneRanking-ranked_all : (accs : List (Acc F)) → OneAcc accs → OneRanking (ranked_all accs)
    unfolding input_of
    OneRanking-ranked_all [] one = tt
    OneRanking-ranked_all (a ∷ rest) (first, one) = (
      ap (λ (id : ℕ). has_ranking id (ranked_all rest)) (rank_provider-provider e (input_of days a))
          ∙ (has_ranking-ranked_all a.provider_id rest ∙ first),
      OneRanking-ranked_all rest one,
    )

  -- The rankings of a cell's metrics: one for each provider that has a metric, and no other.
  pub rank_cohort-build_cohort :
      (vals : List (MetricValue F)) (days : ℕ)
      → OneRanking (rank_cohort (build_cohort vals days))
        × ((id : ℕ) → has_ranking id (rank_cohort (build_cohort vals days)) ≡ has_metric id vals)
  unfolding rank_cohort build_cohort has_acc
  rank_cohort-build_cohort vals days =
      let e = cohort_of (map (input_of days) (add_metrics vals [])) in
      (
        OneRanking-ranked_all e days (add_metrics vals []) (OneAcc-add_metrics vals [] tt),
        λ id.
            has_ranking-ranked_all e days id (add_metrics vals [])
            ∙ ground (arith, has_acc-add_metrics id vals []),
      )
