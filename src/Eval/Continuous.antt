-- ===== src/Eval/Continuous.antt =====
-- Weighted errors of a continuous variable, and the Brier score: internal/analysis/eval/continuous.go
-- and brier.go.
pub mod Bias
use forecastiq.Prelude.{ℕ, ◌+◌, Bool, Option, none, some, List, [], ◌∷◌, if◌then◌else◌}
use forecastiq.Float.{Float, ◌≈◌, ◌⊕◌, ◌⊖◌, ◌⊗◌, ◌⊘◌, fzero, fone}

pub record Continuous (F : Type 0) : Type 0 where
  pub sum_weight : F
  pub sum_weight_sqrd : F
  pub sum_weight_abs : F
  pub sum_weight_err : F
  pub sum_weight_sq : F
  pub n : ℕ

pub record Brier (F : Type 0) : Type 0 where
  pub sum_weight : F
  pub sum_weight_sqrd : F
  pub sum_weight_sq : F
  pub sum_weight_quad : F
  pub n : ℕ

module _ {F : Type 0} ⦃f : Float F⦄ where
  unfoldable pub empty : Continuous F
  empty = record {
    sum_weight = fzero;
    sum_weight_sqrd = fzero;
    sum_weight_abs = fzero;
    sum_weight_err = fzero;
    sum_weight_sq = fzero;
    n = 0;
  }

  unfoldable pub add : Continuous F → F → F → F → Continuous F
  add c forecast observed weight =
      let e = forecast ⊖ observed in
      record {
        sum_weight = c.sum_weight ⊕ weight;
        sum_weight_sqrd = c.sum_weight_sqrd ⊕ weight ⊗ weight;
        sum_weight_abs = c.sum_weight_abs ⊕ weight ⊗ f.abs e;
        sum_weight_err = c.sum_weight_err ⊕ weight ⊗ e;
        sum_weight_sq = c.sum_weight_sq ⊕ weight ⊗ e ⊗ e;
        n = c.n + 1;
      }

  -- The pairs, each with its forecast, observed value and weight.
  unfoldable pub add_all : Continuous F → List (F × F × F) → Continuous F
  add_all c [] = c
  add_all c ((forecast, observed, weight) ∷ pairs) = add_all (add c forecast observed weight) pairs

  unfoldable pub mae : Continuous F → Option F
  mae c = if c.sum_weight ≈ fzero then none else some (c.sum_weight_abs ⊘ c.sum_weight)

  unfoldable pub rmse : Continuous F → Option F
  rmse c = if c.sum_weight ≈ fzero then none else some (f.sqrt (c.sum_weight_sq ⊘ c.sum_weight))

  unfoldable pub bias : Continuous F → Option F
  bias c = if c.sum_weight ≈ fzero then none else some (c.sum_weight_err ⊘ c.sum_weight)

  unfoldable pub brier_empty : Brier F
  brier_empty = record {
    sum_weight = fzero;
    sum_weight_sqrd = fzero;
    sum_weight_sq = fzero;
    sum_weight_quad = fzero;
    n = 0;
  }

  unfoldable pub brier_add : Brier F → F → Bool → F → Brier F
  brier_add b probability observed_rain weight =
      let a = if observed_rain then fone else fzero in
      let d = probability ⊖ a in
      let d2 = d ⊗ d in
      record {
        sum_weight = b.sum_weight ⊕ weight;
        sum_weight_sqrd = b.sum_weight_sqrd ⊕ weight ⊗ weight;
        sum_weight_sq = b.sum_weight_sq ⊕ weight ⊗ d2;
        sum_weight_quad = b.sum_weight_quad ⊕ weight ⊗ d2 ⊗ d2;
        n = b.n + 1;
      }

  unfoldable pub score : Brier F → Option F
  score b = if b.sum_weight ≈ fzero then none else some (b.sum_weight_sq ⊘ b.sum_weight)
