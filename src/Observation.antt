-- ===== src/Observation.antt =====
-- The checks of collected weather values: `Observation.RangeReasons` and `DiffersFrom`
-- (internal/collection/domain/observation.go) and `ForecastSnapshot.Validate`
-- (internal/collection/domain/snapshot.go). A reason stands for its text; the values are those of
-- the interface of float64.
pub mod Ranges
use forecastiq.Prelude.{
  ℕ, ◌≤◌, Bool, true, false, not, ◌||◌, Option, none, some, List, [], ◌∷◌, ◌++◌, ltb, leb,
  if◌then◌else◌,
}
use forecastiq.Float.{Float, ◌≺◌, ◌⊖◌, fzero, fone}

pub data Reason : Type 0 where
  target_time_reason : Reason
  horizon_reason : Reason
  temperature_reason : Reason
  feels_like_reason : Reason
  probability_reason : Reason
  precipitation_reason : Reason
  humidity_reason : Reason
  wind_speed_reason : Reason
  wind_direction_reason : Reason
  pressure_reason : Reason
  cloud_cover_reason : Reason

-- The weather fields that the checks read.
pub record Observation (F : Type 0) : Type 0 where
  pub temperature_c : Option F
  pub humidity_pct : Option F
  pub wind_speed_ms : Option F
  pub wind_direction_deg : Option F
  pub pressure_hpa : Option F
  pub precipitation_mm : Option F

-- The horizon is a number of minutes, and 0 if it is not positive.
pub record ForecastSnapshot (F : Type 0) : Type 0 where
  pub issued_at : ℕ
  pub target_time : ℕ
  pub forecast_horizon_minutes : ℕ
  pub temperature_c : Option F
  pub feels_like_temperature_c : Option F
  pub precipitation_probability : Option F
  pub precipitation_amount_mm : Option F
  pub humidity_pct : Option F
  pub wind_speed_ms : Option F
  pub wind_direction_deg : Option F
  pub pressure_hpa : Option F
  pub cloud_cover_pct : Option F

-- A test that must hold, with the reason that its failure adds.
unfoldable pub check : Bool → Reason → List Reason → List Reason
check holds why rest = if holds then rest else why ∷ rest

module _ {F : Type 0} ⦃f : Float F⦄ where
  abbrev pub whole : ℕ → F
  whole n = f.ratio n 1

  -- -90
  abbrev pub min_temperature_c : F
  min_temperature_c = fzero ⊖ f.ratio 90 1

  -- `v != nil && (*v < lower || *v > upper)`, with the reason that it adds.
  unfoldable pub outside : F → F → Option F → Bool
  outside lower upper none = false
  outside lower upper (some v) = v ≺ lower || upper ≺ v

  unfoldable pub check_range : F → F → Reason → Option F → List Reason → List Reason
  check_range lower upper why v rest = if outside lower upper v then why ∷ rest else rest

  unfoldable pub range_reasons : Observation F → List Reason
  range_reasons o = check_range min_temperature_c (whole 60) temperature_reason o.temperature_c (
      check_range fzero (whole 100) humidity_reason o.humidity_pct (
        check_range fzero (whole 120) wind_speed_reason o.wind_speed_ms (
          check_range fzero (whole 360) wind_direction_reason o.wind_direction_deg (
            check_range (whole 870) (whole 1084) pressure_reason o.pressure_hpa
              (check_range fzero (whole 500) precipitation_reason o.precipitation_mm [])))))

  unfoldable pub validate : ForecastSnapshot F → List Reason
  validate s = check (ltb s.issued_at s.target_time) target_time_reason (
      check (ltb 0 s.forecast_horizon_minutes) horizon_reason (
        check_range min_temperature_c (whole 60) temperature_reason s.temperature_c (
          check_range min_temperature_c (whole 60) feels_like_reason s.feels_like_temperature_c (
            check_range fzero fone probability_reason s.precipitation_probability (
              check_range fzero (whole 500) precipitation_reason s.precipitation_amount_mm (
                check_range fzero (whole 100) humidity_reason s.humidity_pct (
                  check_range fzero (whole 120) wind_speed_reason s.wind_speed_ms (
                    check_range fzero (whole 360) wind_direction_reason s.wind_direction_deg (
                      check_range (whole 870) (whole 1084) pressure_reason s.pressure_hpa (
                        check_range fzero (whole 100) cloud_cover_reason s.cloud_cover_pct
                          []))))))))))

  -- `floatDiffers`
  unfoldable pub float_differs : F → Option F → Option F → Bool
  float_differs eps none none = false
  float_differs eps none (some b) = true
  float_differs eps (some a) none = true
  float_differs eps (some a) (some b) =
      let d = a ⊖ b in if d ≺ fzero then eps ≺ (fzero ⊖ d) else eps ≺ d

  -- `DiffersFrom`: a genuine correction, by the ε of each field.
  unfoldable pub differs_from : Observation F → Observation F → Bool
  differs_from o prev =
      float_differs (f.ratio 1 10) o.temperature_c prev.temperature_c
      || float_differs (f.ratio 5 100) o.precipitation_mm prev.precipitation_mm
      || float_differs fone o.humidity_pct prev.humidity_pct
      || float_differs (f.ratio 1 10) o.wind_speed_ms prev.wind_speed_ms
      || float_differs fone o.wind_direction_deg prev.wind_direction_deg
      || float_differs (f.ratio 5 10) o.pressure_hpa prev.pressure_hpa
