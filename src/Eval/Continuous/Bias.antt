-- ===== src/Eval/Continuous/Bias.antt =====
-- The bias never exceeds the mean absolute error (internal/analysis/eval/continuous.go).
use forecastiq.Prelude.{Option, none, some, List, [], ◌∷◌, All, Bool-cases, inl, inr, sym, subst}
use forecastiq.Float.{
  Float, IsLinear, IsRounded, IsSymmetric, ◌≈◌, ◌≼◌, ◌⊕◌, ◌⊖◌, ◌⊗◌, ◌⊘◌, fzero, ≼-refl, ≼-trans,
}
use forecastiq.Eval.Continuous.{Continuous, empty, add, add_all, mae, bias}

module _ {F : Type 0} ⦃f : Float F⦄ where
  abbrev pub HasWeight : F × F × F → Type 0
  HasWeight p = fzero ≼ p.2

  -- Null together, or the size of the first at most the second.
  abbrev pub SizeWithin : Option F → Option F → Type 0
  SizeWithin none none = Unit {0}
  SizeWithin (some b) (some m) = f.abs b ≼ m
  SizeWithin _ _ = ⊥

  pub record IsBounded (c : Continuous F) : Type 0 where
    pub weight_ge : fzero ≼ c.sum_weight
    pub err_within : f.abs c.sum_weight_err ≼ c.sum_weight_abs

module _ {F : Type 0} ⦃f : Float F⦄ (o : IsLinear F) (r : IsRounded F) (s : IsSymmetric F) where
  -- One more error, weighted, on both sums.
  abs_sum :
      (err total e w : F)
      → fzero ≼ w
      → f.abs err ≼ total
      → f.abs (err ⊕ w ⊗ e) ≼ (total ⊕ w ⊗ f.abs e)
  abs_sum err total e w p h =
      ≼-trans o (f.abs (err ⊕ w ⊗ e)) (f.abs err ⊕ w ⊗ f.abs e) (total ⊕ w ⊗ f.abs e)
        (subst (λ x. f.abs (err ⊕ w ⊗ e) ≼ (f.abs err ⊕ x)) (s.abs_mul w e p)
          (s.abs_add err (w ⊗ e)))
        (r.add_mono (f.abs err) total (w ⊗ f.abs e) h)

  add_all-IsBounded :
      (c : Continuous F) (pairs : List (F × F × F))
      → IsBounded c
      → All HasWeight pairs
      → IsBounded (add_all c pairs)
  unfolding add_all add
  add_all-IsBounded c [] h ws = h
  add_all-IsBounded c ((a, b, w) ∷ pairs) h (p, ps) =
      add_all-IsBounded (add c a b w) pairs
        (record {
          weight_ge =
              ≼-trans o fzero c.sum_weight (c.sum_weight ⊕ w) h.weight_ge
                (r.le_add c.sum_weight w p);
          err_within = abs_sum c.sum_weight_err c.sum_weight_abs (a ⊖ b) w p h.err_within;
        })
        ps

  empty-IsBounded : IsBounded {F = F} empty
  unfolding empty
  empty-IsBounded = record {
    weight_ge = ≼-refl o fzero;
    err_within = subst (λ x. x ≼ fzero) (sym s.abs_zero) (≼-refl o fzero);
  }

  bounded_bias : (c : Continuous F) → IsBounded c → SizeWithin (bias c) (mae c)
  unfolding bias mae
  bounded_bias c h = elim (Bool-cases (c.sum_weight ≈ fzero)) [
    | inl e ↦ rw e tt
    | inr e ↦ rw e (
        subst (λ x. x ≼ (c.sum_weight_abs ⊘ c.sum_weight))
          (sym (s.abs_div c.sum_weight_err c.sum_weight h.weight_ge))
          (s.div_mono (f.abs c.sum_weight_err) c.sum_weight_abs c.sum_weight h.err_within
            h.weight_ge))
  ]

  -- For a list of pairs with weights that are not negative, over finite doubles whose operations keep
  -- the stated laws of rounding: the bias and the MAE are null together, and otherwise the size of
  -- the bias is at most the MAE.
  pub bias_within_mae :
      (pairs : List (F × F × F))
      → All HasWeight pairs
      → SizeWithin (bias (add_all empty pairs)) (mae (add_all empty pairs))
  bias_within_mae pairs ws =
      bounded_bias (add_all empty pairs) (add_all-IsBounded empty pairs empty-IsBounded ws)
