-- ===== src/Aggregate/Checks.antt =====
-- Every row that `computeRows` builds keeps the CHECK constraints of the table `accuracy_metrics`
-- (internal/analysis/aggregate.go; migrations/20260801000009_create_accuracy_metrics.up.sql).
pub mod Counts
pub mod Rows
pub mod Table
use forecastiq.Prelude.{
  ℕ, ◌+◌, ◌<◌, ◌≡◌, ◌⊎◌, inl, inr, Bool, true, false, Option, none, some, List, [], ◌∷◌, arith, All,
  refl,
}
use forecastiq.Float.{Float, ◌≼◌, fzero, fone}
use forecastiq.Aggregate.{AccuracyMetric, Sums}
use forecastiq.Eval.Confusion.{Confusion}
use forecastiq.Eval.Confusion.Ratios.{IsCounted}
use forecastiq.Eval.Continuous.{Continuous}
use forecastiq.Eval.Interval.Bracket.{Brackets}

module _ {F : Type 0} ⦃f : Float F⦄ where
  -- `CHECK ((value IS NULL) = (sample_count = 0))`
  abbrev pub Coupled : Option F → ℕ → Type 0
  Coupled none n = n ≡ 0
  Coupled (some v) n = 0 < n

  -- Both constraints on a row's value: the coupling to its count, and
  -- `CHECK (ci_lower IS NULL OR (ci_lower <= value AND value <= ci_upper))`.
  abbrev pub PassesChecks : AccuracyMetric F → Type 0
  PassesChecks m = Coupled m.value m.sample_count × Brackets m.value (m.ci_lower, m.ci_upper)

  -- No pair was added, and no weight.
  abbrev pub Weighed : ℕ → F → Type 0
  Weighed n weight = (0 < n) ⊎ (weight ≡ fzero)

  abbrev pub IsBlank : Confusion F → Type 0
  IsBlank c = (c.tp ≡ fzero) × (c.fp ≡ fzero) × (c.fn ≡ fzero) × (c.tn ≡ fzero)

  -- What holds of the accumulators after any pairs.
  pub record IsWeighed (s : Sums F) : Type 0 where
    pub temp_ok : Weighed s.temp.n s.temp.sum_weight
    pub wind_ok : Weighed s.wind.n s.wind.sum_weight
    pub humid_ok : Weighed s.humid.n s.humid.sum_weight
    pub press_ok : Weighed s.press.n s.press.sum_weight
    pub rain_all_ok : Weighed s.rain_all.n s.rain_all.sum_weight
    pub rain_wet_ok : Weighed s.rain_wet.n s.rain_wet.sum_weight
    pub occ_counted : IsCounted s.occ
    pub occ_ok : (0 < s.occ_n) ⊎ IsBlank s.occ
    pub brier_ok : Weighed s.occ_n s.brier.sum_weight
