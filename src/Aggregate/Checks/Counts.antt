-- ===== src/Aggregate/Checks/Counts.antt =====
-- The accumulators of `computeRows` count what they weigh (internal/analysis/aggregate.go).
use forecastiq.Prelude.{
  ℕ, ◌+◌, ◌<◌, ◌⊎◌, inl, inr, Bool, true, false, Option, none, some, List, [], ◌∷◌, arith, refl,
  ◌&&◌, if◌then◌else◌, Bool-cases,
}
use forecastiq.Float.{Float, IsLinear, IsRounded, ◌≼◌, ◌⪯◌, fzero}
use forecastiq.Observed.{
  ObservationType, station_observation, interpolated, reanalysis, provider_estimated, unrecognized,
  QualityFlag,
}
use forecastiq.Eval.{provenance_weight, eligible, forecast_rain, observed_rain}
use forecastiq.Eval.Confusion
use forecastiq.Eval.Confusion.{Confusion}
use forecastiq.Eval.Confusion.Ratios.{IsCounted, add-IsCounted, empty-IsCounted}
use forecastiq.Eval.Continuous
use forecastiq.Eval.Continuous.{Continuous, Brier, brier_empty, brier_add}
use forecastiq.Aggregate.{
  PairRecord, Sums, no_sums, add_eligible, add_wet, occurs, add_brier, absorb, absorb_all,
}
use forecastiq.Aggregate.Checks.{Weighed, IsBlank, IsWeighed}

module _ {F : Type 0} ⦃f : Float F⦄ where
  add-Weighed :
      (c : Continuous F) (a b w : F) → let d = Continuous.add c a b w in Weighed d.n d.sum_weight
  unfolding Continuous.add
  add-Weighed c a b w = inl (omega arith)

  add_eligible-Weighed :
      (c : Continuous F) (a b : Option F) (q : QualityFlag) (w : F)
      → Weighed c.n c.sum_weight
      → let d = add_eligible c a b q w in Weighed d.n d.sum_weight
  unfolding add_eligible
  add_eligible-Weighed c none b q w h = h
  add_eligible-Weighed c (some a) none q w h = h
  add_eligible-Weighed c (some a) (some b) q w h =
      elim (Bool-cases (eligible (some a) (some b) q)) [
        | inl e ↦ rw e (add-Weighed c a b w)
        | inr e ↦ rw e h
      ]

  add_wet-Weighed :
      (c : Continuous F) (a b : Option F) (q : QualityFlag) (w : F)
      → Weighed c.n c.sum_weight
      → let d = add_wet c a b q w in Weighed d.n d.sum_weight
  unfolding add_wet
  add_wet-Weighed c none b q w h = h
  add_wet-Weighed c (some a) none q w h = h
  add_wet-Weighed c (some a) (some b) q w h =
      elim (Bool-cases (eligible (some a) (some b) q && f.ratio 1 10 ⪯ b)) [
        | inl e ↦ rw e (add-Weighed c a b w)
        | inr e ↦ rw e h
      ]

  module _ (o : IsLinear F) (r : IsRounded F) where
    provenance_weight-ge : (t : ObservationType) → fzero ≼ provenance_weight {F = F} t
    unfolding provenance_weight
    provenance_weight-ge station_observation = r.ratio_nonneg 1 1
    provenance_weight-ge interpolated = r.ratio_nonneg 8 10
    provenance_weight-ge reanalysis = r.ratio_nonneg 8 10
    provenance_weight-ge provider_estimated = r.ratio_nonneg 5 10
    provenance_weight-ge unrecognized = r.ratio_nonneg 0 1

    occ-IsCounted :
        (counts a b : Bool) (c : Confusion F) (w : F)
        → IsCounted c
        → fzero ≼ w
        → IsCounted (if counts then Confusion.add c a b w else c)
    occ-IsCounted true a b c w h p = add-IsCounted o r c a b w h p
    occ-IsCounted false a b c w h p = h

    occ-ok :
        (counts a b : Bool) (c : Confusion F) (w : F) (n : ℕ)
        → (0 < n) ⊎ IsBlank c
        → (0 < (if counts then n + 1 else n))
          ⊎ IsBlank (if counts then Confusion.add c a b w else c)
    occ-ok true a b c w n h = inl (omega arith)
    occ-ok false a b c w n h = h

    brier-ok :
        (counts b : Bool) (s : Brier F) (p : Option F) (w : F) (n : ℕ)
        → Weighed n s.sum_weight
        → Weighed (if counts then n + 1 else n) (if counts then add_brier s p b w else s).sum_weight
    brier-ok true b s p w n h = inl (omega arith)
    brier-ok false b s p w n h = h

    absorb-IsWeighed : (s : Sums F) (p : PairRecord F) → IsWeighed s → IsWeighed (absorb s p)
    unfolding absorb
    absorb-IsWeighed s p h =
        let w = provenance_weight p.observation_type in
        let q = p.quality_flag in
        let rain = observed_rain p.o_precip_mm in
        let fore = forecast_rain p.f_precip_prob p.f_precip_mm in
        let counts = occurs p.o_precip_mm q in
        record {
          temp_ok = add_eligible-Weighed s.temp p.f_temperature p.o_temperature q w h.temp_ok;
          wind_ok = add_eligible-Weighed s.wind p.f_wind_speed p.o_wind_speed q w h.wind_ok;
          humid_ok = add_eligible-Weighed s.humid p.f_humidity p.o_humidity q w h.humid_ok;
          press_ok = add_eligible-Weighed s.press p.f_pressure p.o_pressure q w h.press_ok;
          rain_all_ok =
              add_eligible-Weighed s.rain_all p.f_precip_mm p.o_precip_mm q w h.rain_all_ok;
          rain_wet_ok = add_wet-Weighed s.rain_wet p.f_precip_mm p.o_precip_mm q w h.rain_wet_ok;
          occ_counted =
              occ-IsCounted counts fore rain s.occ w h.occ_counted
                (provenance_weight-ge p.observation_type);
          occ_ok = occ-ok counts fore rain s.occ w s.occ_n h.occ_ok;
          brier_ok = brier-ok counts rain s.brier p.f_precip_prob w s.occ_n h.brier_ok;
        }

    no_sums-IsWeighed : IsWeighed {F = F} no_sums
    unfolding no_sums Continuous.empty Confusion.empty brier_empty
    no_sums-IsWeighed = record {
      temp_ok = inr refl;
      wind_ok = inr refl;
      humid_ok = inr refl;
      press_ok = inr refl;
      rain_all_ok = inr refl;
      rain_wet_ok = inr refl;
      occ_counted = empty-IsCounted o r;
      occ_ok = inr (refl, refl, refl, refl);
      brier_ok = inr refl;
    }

    absorb_from :
        (s : Sums F) (pairs : List (PairRecord F)) → IsWeighed s → IsWeighed (absorb_all s pairs)
    unfolding absorb_all
    absorb_from s [] h = h
    absorb_from s (p ∷ pairs) h = absorb_from (absorb s p) pairs (absorb-IsWeighed s p h)

    pub absorb_all-IsWeighed : (pairs : List (PairRecord F)) → IsWeighed (absorb_all no_sums pairs)
    absorb_all-IsWeighed pairs = absorb_from no_sums pairs no_sums-IsWeighed
