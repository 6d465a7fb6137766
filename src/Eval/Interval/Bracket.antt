-- ===== src/Eval/Interval/Bracket.antt =====
-- Every interval brackets the value that it is for (internal/analysis/eval/ci.go).
use forecastiq.Prelude.{
  ℕ, ◌≡◌, true, Option, none, some, arith, Bool-cases, inl, inr, subst, ltb, ◌||◌,
}
use forecastiq.Float.{
  Float, IsLinear, IsRounded, IsSymmetric, ◌≺◌, ◌⪯◌, ◌≼◌, ◌⊕◌, ◌⊖◌, ◌⊗◌, ◌⊘◌, fzero, fone, ≼-refl,
}
use forecastiq.Eval.Continuous.{Continuous, Brier, mae, rmse, bias, score}
use forecastiq.Eval.Interval.{
  z95, clamp_lower, clamp_upper, wilson, wilson_center, wilson_margin, sample_variance, half_width,
  ci_from_moments, ci_abs, ci_err, ci_score, mae_ci, rmse_ci, bias_ci, score_ci,
}

module _ {F : Type 0} ⦃f : Float F⦄ where
  -- No interval, or one with the value between its bounds.
  abbrev pub Brackets : Option F → Option F × Option F → Type 0
  Brackets v (none, none) = Unit {0}
  Brackets (some v) (some lower, some upper) = (lower ≼ v) × (v ≼ upper)
  Brackets _ _ = ⊥

module _ {F : Type 0} ⦃f : Float F⦄ (o : IsLinear F) where
  clamp_lower_bounds :
      (p lower : F) → fzero ≼ p → (fzero ≼ clamp_lower p lower) × (clamp_lower p lower ≼ p)
  clamp_lower_bounds p lower h = ground (arith, ≼-refl o p, ≼-refl o fzero)

  clamp_upper_bounds :
      (p upper : F) → p ≼ fone → (p ≼ clamp_upper p upper) × (clamp_upper p upper ≼ fone)
  clamp_upper_bounds p upper h = ground (arith, ≼-refl o p, ≼-refl o fone)

  -- Over finite doubles, for a proportion from 0 to 1 and a positive sample size, the Wilson bounds lie
  -- from 0 to 1 and have the proportion between them, however their arithmetic rounds.
  pub wilson_brackets :
      (p n : F)
      → fzero ≼ p
      → p ≼ fone
      → (fzero ≺ n) ≡ true
      → let (lower, upper) = wilson p n in
        (fzero ≼ lower) × (lower ≼ p) × (p ≼ upper) × (upper ≼ fone)
  unfolding wilson
  wilson_brackets p n h k pos =
      let low = clamp_lower_bounds p (wilson_center p n ⊖ wilson_margin p n) h in
      let high = clamp_upper_bounds p (wilson_center p n ⊕ wilson_margin p n) k in
      rw pos (low.0, low.1, high.0, high.1)

module _ {F : Type 0} ⦃f : Float F⦄ (o : IsLinear F) (r : IsRounded F) (s : IsSymmetric F) where
  div_nonneg : (a c : F) → fzero ≼ a → fzero ≼ c → fzero ≼ (a ⊘ c)
  div_nonneg a c p q = subst (λ x. x ≼ (a ⊘ c)) (s.zero_div c) (s.div_mono fzero a c p q)

  half_nonneg : (a b c d : F) (n : ℕ) → fzero ≼ half_width a b c d n
  unfolding half_width
  half_nonneg a b c d n =
      div_nonneg (z95 ⊗ f.sqrt (sample_variance a b c d)) (f.sqrt (f.ratio n 1))
        (s.mul_nonneg z95 (f.sqrt (sample_variance a b c d)) (r.ratio_nonneg 196 100)
          (s.sqrt_nonneg (sample_variance a b c d)))
        (s.sqrt_nonneg (f.ratio n 1))

  moments_bracket :
      (mean a b c w : F) (n : ℕ) → Brackets (some mean) (ci_from_moments mean a b c w n)
  unfolding ci_from_moments
  moments_bracket mean a b c w n =
      let d = c ⊖ w ⊘ c in
      let half = half_width a b c d n in
      let low = s.sub_le mean half (half_nonneg a b c d n) in
      let high = r.le_add mean half (half_nonneg a b c d n) in
      elim (Bool-cases (ltb n 2 || c ⪯ fzero)) [
        | inl e ↦ rw e tt
        | inr e ↦
            rw e (elim (Bool-cases (d ⪯ fzero)) [ inl k ↦ rw k tt | inr k ↦ rw k (low, high) ])
      ]

  abs_bracket : (v : Option F) (c : Continuous F) → Brackets v (ci_abs v c)
  abs_bracket none c = tt
  abs_bracket (some m) c =
      moments_bracket m c.sum_weight_abs c.sum_weight_sq c.sum_weight c.sum_weight_sqrd c.n

  err_bracket : (v : Option F) (c : Continuous F) → Brackets v (ci_err v c)
  err_bracket none c = tt
  err_bracket (some m) c =
      moments_bracket m c.sum_weight_err c.sum_weight_sq c.sum_weight c.sum_weight_sqrd c.n

  score_bracket : (v : Option F) (b : Brier F) → Brackets v (ci_score v b)
  score_bracket none b = tt
  score_bracket (some m) b =
      moments_bracket m b.sum_weight_sq b.sum_weight_quad b.sum_weight b.sum_weight_sqrd b.n

  -- Over finite doubles whose operations keep the stated laws of rounding, the intervals of MAE, RMSE,
  -- bias and the Brier score are either absent or bracket their value, and are absent where it is null.
  pub intervals_bracket :
      (c : Continuous F) (b : Brier F)
      → Brackets (mae c) (mae_ci c)
        × Brackets (rmse c) (rmse_ci c)
        × Brackets (bias c) (bias_ci c)
        × Brackets (score b) (score_ci b)
  unfolding mae_ci rmse_ci bias_ci score_ci
  intervals_bracket c b = (
    abs_bracket (mae c) c,
    abs_bracket (rmse c) c,
    err_bracket (bias c) c,
    score_bracket (score b) b,
  )
