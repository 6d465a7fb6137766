-- ===== src/Eval/Confusion.antt =====
-- The weighted confusion matrix of rain: internal/analysis/eval/categorical.go.
pub mod Ratios
use forecastiq.Prelude.{ℕ, ◌≡◌, Bool, true, false, Option, none, some, List, [], ◌∷◌, if◌then◌else◌}
use forecastiq.Float.{Float, ◌≈◌, ◌⊕◌, ◌⊗◌, ◌⊘◌, fzero}

pub record Confusion (F : Type 0) : Type 0 where
  pub tp : F
  pub fp : F
  pub fn : F
  pub tn : F

module _ {F : Type 0} ⦃f : Float F⦄ where
  unfoldable pub empty : Confusion F
  empty = record { tp = fzero; fp = fzero; fn = fzero; tn = fzero }

  unfoldable pub add : Confusion F → Bool → Bool → F → Confusion F
  add c true true weight = record c { tp = c.tp ⊕ weight }
  add c true false weight = record c { fp = c.fp ⊕ weight }
  add c false true weight = record c { fn = c.fn ⊕ weight }
  add c false false weight = record c { tn = c.tn ⊕ weight }

  -- The pairs of a cell, each with its forecast, observed state and weight.
  unfoldable pub add_all : Confusion F → List (Bool × Bool × F) → Confusion F
  add_all c [] = c
  add_all c ((forecast, observed, weight) ∷ pairs) = add_all (add c forecast observed weight) pairs

  -- The total weight.
  unfoldable pub n : Confusion F → F
  n c = c.tp ⊕ c.fp ⊕ c.fn ⊕ c.tn

  -- `num / d`, and nil for a zero denominator.
  abbrev pub ratio_of : F → F → Option F
  ratio_of num d = if d ≈ fzero then none else some (num ⊘ d)

  unfoldable pub recall : Confusion F → Option F
  recall c = ratio_of c.tp (c.tp ⊕ c.fn)

  unfoldable pub precision : Confusion F → Option F
  precision c = ratio_of c.tp (c.tp ⊕ c.fp)

  unfoldable pub f1 : Confusion F → Option F
  f1 c = ratio_of (f.ratio 2 1 ⊗ c.tp) (f.ratio 2 1 ⊗ c.tp ⊕ c.fp ⊕ c.fn)

  unfoldable pub false_alarm_rate : Confusion F → Option F
  false_alarm_rate c = ratio_of c.fp (c.fp ⊕ c.tn)

  unfoldable pub threat_score : Confusion F → Option F
  threat_score c = ratio_of c.tp (c.tp ⊕ c.fp ⊕ c.fn)

  unfoldable pub occurrence_agreement : Confusion F → Option F
  unfolding n
  occurrence_agreement c = ratio_of (c.tp ⊕ c.tn) (n c)
