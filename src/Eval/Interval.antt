-- ===== src/Eval/Interval.antt =====
-- The 95% intervals: internal/analysis/eval/ci.go. A pair of pointers that are both nil or both set
-- is a pair of options.
pub mod Bracket
use forecastiq.Prelude.{ℕ, Bool, ◌||◌, Option, none, some, ltb, if◌then◌else◌}
use forecastiq.Float.{Float, ◌≺◌, ◌⪯◌, ◌⊕◌, ◌⊖◌, ◌⊗◌, ◌⊘◌, fzero, fone}
use forecastiq.Eval.Continuous.{Continuous, Brier, mae, rmse, bias, score}

module _ {F : Type 0} ⦃f : Float F⦄ where
  abbrev pub z95 : F
  z95 = f.ratio 196 100

  -- The score interval before the bounds are clamped: its center and margin.
  abbrev pub wilson_center : F → F → F
  wilson_center p n = let z2 = z95 ⊗ z95 in (p ⊕ z2 ⊘ (f.ratio 2 1 ⊗ n)) ⊘ (fone ⊕ z2 ⊘ n)

  abbrev pub wilson_margin : F → F → F
  wilson_margin p n =
      let z2 = z95 ⊗ z95 in
      (z95 ⊗ f.sqrt (p ⊗ (fone ⊖ p) ⊘ n ⊕ z2 ⊘ (f.ratio 4 1 ⊗ n ⊗ n))) ⊘ (fone ⊕ z2 ⊘ n)

  -- `if lower < 0 { lower = 0 }`, then `if lower > pHat { lower = pHat }`.
  abbrev pub clamp_lower : F → F → F
  clamp_lower p lower =
      let lower' = if lower ≺ fzero then fzero else lower in if p ≺ lower' then p else lower'

  abbrev pub clamp_upper : F → F → F
  clamp_upper p upper =
      let upper' = if fone ≺ upper then fone else upper in if upper' ≺ p then p else upper'

  unfoldable pub wilson : F → F → F × F
  wilson p_hat n = if n ⪯ fzero then (fzero, fzero) else (
    clamp_lower p_hat (wilson_center p_hat n ⊖ wilson_margin p_hat n),
    clamp_upper p_hat (wilson_center p_hat n ⊕ wilson_margin p_hat n),
  )

  abbrev pub sample_variance : F → F → F → F → F
  sample_variance sum_wx sum_wx2 sum_w d =
      let variance = (sum_wx2 ⊖ sum_wx ⊗ sum_wx ⊘ sum_w) ⊘ d in
      if variance ≺ fzero then fzero else variance

  unfoldable pub half_width : F → F → F → F → ℕ → F
  half_width sum_wx sum_wx2 sum_w d n =
      z95 ⊗ f.sqrt (sample_variance sum_wx sum_wx2 sum_w d) ⊘ f.sqrt (f.ratio n 1)

  unfoldable pub ci_from_moments : F → F → F → F → F → ℕ → Option F × Option F
  ci_from_moments mean sum_wx sum_wx2 sum_w sum_wsqrd n =
      let d = sum_w ⊖ sum_wsqrd ⊘ sum_w in
      let half = half_width sum_wx sum_wx2 sum_w d n in
      if ltb n 2 || sum_w ⪯ fzero
      then (none, none)
      else if d ⪯ fzero
      then (none, none)
      else (some (mean ⊖ half), some (mean ⊕ half))

  -- The moments of the absolute errors, about `mean`.
  abbrev pub ci_abs : Option F → Continuous F → Option F × Option F
  ci_abs none c = (none, none)
  ci_abs (some m) c =
      ci_from_moments m c.sum_weight_abs c.sum_weight_sq c.sum_weight c.sum_weight_sqrd c.n

  abbrev pub ci_err : Option F → Continuous F → Option F × Option F
  ci_err none c = (none, none)
  ci_err (some m) c =
      ci_from_moments m c.sum_weight_err c.sum_weight_sq c.sum_weight c.sum_weight_sqrd c.n

  abbrev pub ci_score : Option F → Brier F → Option F × Option F
  ci_score none b = (none, none)
  ci_score (some m) b =
      ci_from_moments m b.sum_weight_sq b.sum_weight_quad b.sum_weight b.sum_weight_sqrd b.n

  unfoldable pub mae_ci : Continuous F → Option F × Option F
  mae_ci c = ci_abs (mae c) c

  unfoldable pub rmse_ci : Continuous F → Option F × Option F
  rmse_ci c = ci_abs (rmse c) c

  unfoldable pub bias_ci : Continuous F → Option F × Option F
  bias_ci c = ci_err (bias c) c

  unfoldable pub score_ci : Brier F → Option F × Option F
  score_ci b = ci_score (score b) b
