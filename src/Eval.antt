-- ===== src/Eval.antt =====
-- The pair-level evaluation kernel: internal/analysis/eval. A `*float64` is an `Option`; the numbers
-- are those of the interface of `float64`.
pub mod Confusion
pub mod Continuous
pub mod Interval
use forecastiq.Prelude.{ℕ, ◌≡◌, Bool, true, false, not, ◌&&◌, ◌||◌, Option, none, some, is_some}
use forecastiq.Float.{Float, IsLinear, ◌≺◌, ◌⪯◌, ◌≼◌, fzero}
use forecastiq.Observed.{
  ObservationType, station_observation, interpolated, reanalysis, provider_estimated, unrecognized,
  QualityFlag, is_suspect,
}

module _ {F : Type 0} ⦃f : Float F⦄ where
  unfoldable pub provenance_weight : ObservationType → F
  provenance_weight station_observation = f.ratio 1 1
  provenance_weight interpolated = f.ratio 8 10
  provenance_weight reanalysis = f.ratio 8 10
  provenance_weight provider_estimated = f.ratio 5 10
  provenance_weight unrecognized = f.ratio 0 1

  unfoldable pub eligible : Option F → Option F → QualityFlag → Bool
  eligible forecast observed quality =
      is_some forecast && is_some observed && not (is_suspect quality)

  -- `p != nil && *p >= ForecastRainProbability`
  abbrev pub at_least : Option F → F → Bool
  at_least none bound = false
  at_least (some v) bound = bound ⪯ v

  abbrev pub above : Option F → F → Bool
  above none bound = false
  above (some v) bound = bound ≺ v

  unfoldable pub forecast_rain : Option F → Option F → Bool
  forecast_rain probability amount = at_least probability (f.ratio 5 10) || above amount fzero

  unfoldable pub observed_rain : Option F → Bool
  observed_rain mm = at_least mm (f.ratio 1 10)
