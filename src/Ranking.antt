-- ===== src/Ranking.antt =====
-- The composite ranking of a cohort of providers: internal/analysis/domain/ranking.go. A map from
-- component keys to pointers is a function into options, and an absent key is a nil pointer.
pub mod Env
pub mod Row
pub mod Permute
pub mod Order
pub mod Batch
pub mod Read
use forecastiq.Prelude.{
  ℕ, ◌+◌, Bool, true, false, not, ◌&&◌, ◌||◌, Option, none, some, List, [], ◌∷◌, ◌++◌, map, ltb,
  if◌then◌else◌, is_some,
}
use mathlib.Core.List.{foldl}
use forecastiq.Float.{Float, ◌≺◌, ◌⪯◌, ◌≈◌, ◌⊕◌, ◌⊖◌, ◌⊗◌, ◌⊘◌, fzero, fone}

pub data Status : Type 0 where
  ranked provisionally_ranked unranked : Status

pub data Direction : Type 0 where
  lower_better higher_better direct_value : Direction

pub data Key : Type 0 where
  temp_mae precip_f1 rain_mae_all wind_mae temp_bias_abs coverage_key reliability_key : Key

pub record Component (F : Type 0) : Type 0 where
  pub key : Key
  pub weight : F
  pub direction : Direction

pub record ProviderInput (F : Type 0) : Type 0 where
  pub provider_id : ℕ
  pub values : Key → Option F
  pub ci_half : Key → Option F
  pub temp_sample_count : ℕ
  pub precip_sample_count : ℕ
  pub calendar_days : ℕ
  pub coverage : Option F
  pub reliability : Option F

pub record ComponentScore (F : Type 0) : Type 0 where
  pub component : Key
  pub value : Option F
  pub normalized : Option F
  pub weight : F
  pub excluded : Bool

pub record ProviderRanking (F : Type 0) : Type 0 where
  pub provider_id : ℕ
  pub composite_score : Option F
  pub ci_lower : Option F
  pub ci_upper : Option F
  pub status : Status
  pub sample_count : ℕ
  pub coverage : Option F
  pub reliability : Option F
  pub component_scores : List (ComponentScore F)

abbrev pub min_int : ℕ → ℕ → ℕ
min_int a b = if ltb a b then a else b

module _ {F : Type 0} ⦃f : Float F⦄ where
  abbrev pub component : Key → ℕ → Direction → Component F
  component k percent d = record { key = k; weight = f.ratio percent 100; direction = d }

  -- The weights w-2026.1.
  abbrev pub components : List (Component F)
  components =
      component temp_mae 30 lower_better
      ∷ component precip_f1 25 higher_better
      ∷ component rain_mae_all 15 lower_better
      ∷ component wind_mae 15 lower_better
      ∷ component temp_bias_abs 5 lower_better
      ∷ component coverage_key 5 direct_value
      ∷ component reliability_key 5 direct_value
      ∷ []

  abbrev pub epsilon : F
  epsilon = f.ratio 1 1_000_000_000

  abbrev pub coverage_ranked_min : F
  coverage_ranked_min = f.ratio 8 10

  abbrev pub coverage_floor : F
  coverage_floor = f.ratio 5 10

  unfoldable pub clamp01 : F → F
  clamp01 x = if x ≺ fzero then fzero else if fone ≺ x then fone else x

  -- The rule of one component's value.
  unfoldable pub normalize : Direction → F → F → F → F
  normalize lower_better value best shift = best ⊘ (value ⊕ shift)
  normalize higher_better value best shift = if best ≈ fzero then fzero else value ⊘ best
  normalize direct_value value best shift = value

  abbrev pub or_zero : Option F → F
  or_zero none = fzero
  or_zero (some v) = v

  unfoldable pub status : ProviderInput F → Status
  status p =
      let cov = or_zero p.coverage in
      if ltb p.temp_sample_count 10 || (ltb p.precip_sample_count 10 || cov ≺ coverage_floor)
      then unranked
      else if ltb p.temp_sample_count 30
          || (ltb p.precip_sample_count 30 || (cov ≺ coverage_ranked_min || ltb p.calendar_days 7))
      then provisionally_ranked
      else ranked
