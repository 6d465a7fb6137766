-- ===== src/Ranking/Env.antt =====
-- `RankCohort` (internal/analysis/domain/ranking.go): what it computes of the whole cohort, and the
-- row of one provider.
use forecastiq.Prelude.{
  Bool, true, false, ◌&&◌, Option, none, some, List, [], ◌∷◌, ◌++◌, map, if◌then◌else◌, is_some,
}
use mathlib.Core.List.{foldl}
use forecastiq.Float.{Float, ◌≺◌, ◌≈◌, ◌⊕◌, ◌⊖◌, ◌⊗◌, ◌⊘◌, fzero}
use forecastiq.Ranking.{
  Status, unranked, Direction, lower_better, higher_better, direct_value, Key, Component,
  ProviderInput, ComponentScore, ProviderRanking, min_int, components, epsilon, coverage_ranked_min,
  clamp01, normalize, or_zero, status,
}

-- What the loop over the providers reads of the cohort.
pub record Cohort (F : Type 0) : Type 0 where
  pub is_active : Key → Bool
  pub total_weight : F
  pub best : Key → Direction → F × F

-- The running sums of the loop over the components.
pub record Composite (F : Type 0) : Type 0 where
  pub score : F
  pub half : F
  pub scores : List (ComponentScore F)

abbrev pub is_unranked : Status → Bool
is_unranked unranked = true
is_unranked _ = false

module _ {F : Type 0} ⦃f : Float F⦄ where
  -- Every provider has a value for the component.
  unfoldable pub have_values : Key → List (ProviderInput F) → Bool
  have_values k [] = true
  have_values k (p ∷ ps) = is_some (p.values k) && have_values k ps

  abbrev pub not_empty : List (ProviderInput F) → Bool
  not_empty [] = false
  not_empty (p ∷ ps) = true

  unfoldable pub active : List (ProviderInput F) → Key → Bool
  unfolding have_values
  active cohort k = not_empty cohort && have_values k cohort

  unfoldable pub weight_from : List (ProviderInput F) → F → List (Component F) → F
  weight_from cohort acc [] = acc
  weight_from cohort acc (c ∷ cs) =
      weight_from cohort (if active cohort c.key then acc ⊕ c.weight else acc) cs

  abbrev pub active_weight : List (ProviderInput F) → F
  active_weight cohort = weight_from cohort fzero components

  abbrev pub smaller : F → F → F
  smaller m x = if x ≺ m then x else m

  abbrev pub larger : F → F → F
  larger m x = if m ≺ x then x else m

  -- `minOf` and `maxOf`: the first value, and then a loop over the others. On no values they would
  -- panic; the code calls them for active components only, whose cohort is not empty.
  unfoldable pub extreme : (F → F → F) → List F → F
  extreme pick [] = fzero
  extreme pick (v ∷ vs) = foldl pick v vs

  -- `*p.Values[key]` for each provider. Of an active component no pointer is nil.
  abbrev pub values_of : List (ProviderInput F) → Key → List F
  values_of cohort k = map (λ p. or_zero (p.values k)) cohort

  -- The best value and the shift of an active component.
  unfoldable pub best_shift : List (ProviderInput F) → Key → Direction → F × F
  best_shift cohort k lower_better =
      let m = extreme smaller (values_of cohort k) in
      if m ≈ fzero then (m ⊕ epsilon, epsilon) else (m, fzero)
  best_shift cohort k higher_better = (extreme larger (values_of cohort k), fzero)
  best_shift cohort k direct_value = (fzero, fzero)

  abbrev pub cohort_of : List (ProviderInput F) → Cohort F
  cohort_of cohort = record {
    is_active = active cohort;
    total_weight = active_weight cohort;
    best = best_shift cohort;
  }

  -- `if h := p.CIHalf[c.Key]; h != nil && c.Direction != directValue && *p.Values[c.Key] != 0`
  abbrev pub add_half : F → Option F → Direction → F → F → F
  add_half half none d value term = half
  add_half half (some h) direct_value value term = half
  add_half half (some h) lower_better value term =
      if value ≈ fzero then half else half ⊕ term ⊗ (h ⊘ value)
  add_half half (some h) higher_better value term =
      if value ≈ fzero then half else half ⊕ term ⊗ (h ⊘ value)

  unfoldable pub add_component :
      Cohort F → ProviderInput F → Composite F → Component F → Composite F
  add_component e p s c =
      let raw = p.values c.key in
      let value = or_zero raw in
      let w = c.weight ⊘ e.total_weight in
      let (best, shift) = e.best c.key c.direction in
      let norm = normalize c.direction value best shift in
      if e.is_active c.key
      then record {
        score = s.score ⊕ w ⊗ norm;
        half = add_half s.half (p.ci_half c.key) c.direction value (w ⊗ norm);
        scores =
            s.scores
            ++ (record {
              component = c.key;
              value = raw;
              normalized = some norm;
              weight = w;
              excluded = false;
            }
                ∷ []);
      }
      else record s {
        scores =
            s.scores
            ++ (record {
              component = c.key;
              value = raw;
              normalized = none;
              weight = c.weight;
              excluded = true;
            }
                ∷ []);
      }

  unfoldable pub composite : Cohort F → ProviderInput F → Composite F
  composite e p =
      foldl (add_component e p) (record { score = fzero; half = fzero; scores = [] }) components

  -- The factor of low coverage.
  abbrev pub penalized : Option F → F → F
  penalized none x = x
  penalized (some cov) x = if cov ≺ coverage_ranked_min then x ⊗ (cov ⊘ coverage_ranked_min) else x

  -- A row before its composite is set.
  abbrev pub plain_row : Status → ProviderInput F → List (ComponentScore F) → ProviderRanking F
  plain_row st p scores = record {
    provider_id = p.provider_id;
    composite_score = none;
    ci_lower = none;
    ci_upper = none;
    status = st;
    sample_count = min_int p.temp_sample_count p.precip_sample_count;
    coverage = p.coverage;
    reliability = p.reliability;
    component_scores = scores;
  }

  -- The composite and its interval, unless the row is unranked.
  unfoldable pub publish : Status → F → F → ProviderRanking F → ProviderRanking F
  publish st score half row =
      if is_unranked st
      then row
      else if fzero ≺ half
      then record row {
        composite_score = some score;
        ci_lower = some (clamp01 (score ⊖ half));
        ci_upper = some (clamp01 (score ⊕ half));
      }
      else record row { composite_score = some score }

  unfoldable pub rank_provider : Cohort F → ProviderInput F → ProviderRanking F
  unfolding publish
  rank_provider e p =
      let s = composite e p in
      publish (status p) (clamp01 (penalized p.coverage s.score)) (penalized p.coverage s.half)
        (plain_row (status p) p s.scores)

  unfoldable pub rank_cohort : List (ProviderInput F) → List (ProviderRanking F)
  rank_cohort cohort = map (rank_provider (cohort_of cohort)) cohort
