-- ===== src/Observation/Ranges.antt =====
-- When the checks find nothing (internal/collection/domain/observation.go, snapshot.go).
use forecastiq.Prelude.{
  ◌≡◌, refl, ap, ◌∙◌, Bool, true, false, ◌&&◌, Option, none, some, List, [], ◌∷◌, ltb, arith,
}
use forecastiq.Float.{Float, ◌⪯◌, fzero, fone}
use forecastiq.Observation.{
  Observation, ForecastSnapshot, Reason, whole, min_temperature_c, outside, check_range, check,
  range_reasons, validate,
}

abbrev pub no_reason : List Reason → Bool
no_reason [] = true
no_reason (r ∷ rs) = false

check-no_reason :
    (holds : Bool) (why : Reason) (rest : List Reason)
    → no_reason (check holds why rest) ≡ (holds && no_reason rest)
unfolding check
check-no_reason true why rest = refl
check-no_reason false why rest = refl

module _ {F : Type 0} ⦃f : Float F⦄ where
  -- A missing value, or one from `lower` to `upper`.
  abbrev pub within : F → F → Option F → Bool
  within lower upper none = true
  within lower upper (some v) = lower ⪯ v && v ⪯ upper

  check_range-no_reason :
      (lower upper : F) (why : Reason) (v : Option F) (rest : List Reason)
      → no_reason (check_range lower upper why v rest) ≡ (within lower upper v && no_reason rest)
  unfolding check_range outside
  check_range-no_reason lower upper why none rest = refl
  check_range-no_reason lower upper why (some v) rest = ground arith

  -- One more check, after checks that find nothing exactly when `b` holds.
  checked :
      (lower upper : F) (why : Reason) (v : Option F) (rest : List Reason) (b : Bool)
      → no_reason rest ≡ b
      → no_reason (check_range lower upper why v rest) ≡ (within lower upper v && b)
  checked lower upper why v rest b h =
      check_range-no_reason lower upper why v rest ∙ ap (λ c. within lower upper v && c) h

  -- An observation has no reason against it exactly when each of its values is missing or in its range:
  -- temperature from -90 to 60, humidity to 100, wind speed to 120, wind direction to 360, pressure from
  -- 870 to 1084 and precipitation to 500, the others from 0.
  pub range_reasons-within :
      (o : Observation F)
      → no_reason (range_reasons o) ≡ (
          within min_temperature_c (whole 60) o.temperature_c
          && (within fzero (whole 100) o.humidity_pct
              && (within fzero (whole 120) o.wind_speed_ms
                  && (within fzero (whole 360) o.wind_direction_deg
                      && (within (whole 870) (whole 1084) o.pressure_hpa
                          && (within fzero (whole 500) o.precipitation_mm && true))))))
  unfolding range_reasons
  range_reasons-within o = checked _ _ _ _ _ _ (
      checked _ _ _ _ _ _ (
        checked _ _ _ _ _ _ (checked _ _ _ _ _ _ (checked _ _ _ _ _ _ (checked _ _ _ _ _ _ refl)))))

  -- A snapshot has no reason against it exactly when its target time is after its issuance, its horizon is
  -- positive, and each of its values is missing or in its range, the probability from 0 to 1 and the
  -- cloud cover from 0 to 100.
  pub validate-within :
      (s : ForecastSnapshot F)
      → no_reason (validate s) ≡ (
          ltb s.issued_at s.target_time
          && (ltb 0 s.forecast_horizon_minutes
              && (within min_temperature_c (whole 60) s.temperature_c
                  && (within min_temperature_c (whole 60) s.feels_like_temperature_c
                      && (within fzero fone s.precipitation_probability
                          && (within fzero (whole 500) s.precipitation_amount_mm
                              && (within fzero (whole 100) s.humidity_pct
                                  && (within fzero (whole 120) s.wind_speed_ms
                                      && (within fzero (whole 360) s.wind_direction_deg
                                          && (within (whole 870) (whole 1084) s.pressure_hpa
                                              && (within fzero (whole 100) s.cloud_cover_pct
                                                  && true)))))))))))
  unfolding validate
  validate-within s =
      check-no_reason _ _ _
      ∙ ap (λ b. ltb s.issued_at s.target_time && b)
          (check-no_reason _ _ _
            ∙ ap (λ b. ltb 0 s.forecast_horizon_minutes && b)
                (checked _ _ _ _ _ _ (
                  checked _ _ _ _ _ _ (
                    checked _ _ _ _ _ _ (
                      checked _ _ _ _ _ _ (
                        checked _ _ _ _ _ _ (
                          checked _ _ _ _ _ _ (
                            checked _ _ _ _ _ _
                              (checked _ _ _ _ _ _ (checked _ _ _ _ _ _ refl))))))))))
