-- ===== src/Aggregate/Checks/Rows.antt =====
-- The rows of `computeRows`, one kind at a time (internal/analysis/aggregate.go).
use forecastiq.Prelude.{
  ℕ, ◌<◌, ◌≡◌, ◌⊎◌, inl, inr, true, Option, none, some, arith, All, refl, ap, ◌∙◌, if◌then◌else◌,
  Bool-cases, ◌==◌,
}
use forecastiq.Float.{
  Float, IsLinear, IsRounded, IsSymmetric, ◌≺◌, ◌≈◌, ◌≼◌, ◌⊕◌, ◌⊗◌, ◌⊘◌, fzero, ≼-trans, ≈_iff,
}
use forecastiq.Eval.Confusion.{
  Confusion, ratio_of, recall, precision, f1, false_alarm_rate, threat_score, occurrence_agreement,
}
use forecastiq.Eval.Confusion
use forecastiq.Eval.Confusion.Ratios.{IsCounted, add_ge}
use forecastiq.Eval.Continuous
use forecastiq.Eval.Continuous.{Continuous, Brier, mae, rmse, bias, score, brier_empty}
use forecastiq.Eval.Interval.{mae_ci, rmse_ci, bias_ci, score_ci}
use forecastiq.Eval.Interval.Bracket.{Brackets, wilson_brackets, intervals_bracket}
use forecastiq.Aggregate.{
  Variable, precipitation, MetricType, metric_mae, metric_rmse, metric_bias, metric_brier,
  metric_recall, metric_precision, metric_f1, metric_far, metric_threat_score,
  metric_occurrence_agreement, Cell, Period, metric, continuous_rows, ratio_row, rateless_row,
}
use forecastiq.Aggregate.Checks.{PassesChecks, Weighed, IsBlank}

module _ {F : Type 0} ⦃f : Float F⦄ where
  -- A value that is not null comes with samples.
  abbrev pub Sampled : Option F → ℕ → Type 0
  Sampled none n = Unit {0}
  Sampled (some v) n = 0 < n

  metric-PassesChecks :
      (cell : Cell) (period : Period) (variable : Variable) (type : MetricType) (v : Option F)
      (ci : Option F × Option F) (n : ℕ)
      → Sampled v n
      → Brackets v ci
      → PassesChecks (metric cell period variable type v ci n)
  unfolding metric
  metric-PassesChecks cell period variable type none ci n h b = (refl, tt)
  metric-PassesChecks cell period variable type (some v) (lower, upper) n h b = (h, b)

  module _ (o : IsLinear F) (r : IsRounded F) where
    pub rateless-PassesChecks :
        (cell : Cell) (period : Period) (variable : Variable) (type : MetricType) (a b : ℕ)
        → PassesChecks {F = F} (rateless_row cell period variable type a b)
    unfolding rateless_row
    rateless-PassesChecks cell period variable type a b = elim (Bool-cases (b == 0)) [
      | inl e ↦ rw e (refl, tt)
      | inr e ↦ rw e (ground arith, tt)
    ]

    -- A quotient that is null for a zero weight.
    Weighed-Sampled :
        (weight v : F) (n : ℕ)
        → Weighed n weight
        → Sampled (if weight ≈ fzero then none else some v) n
    Weighed-Sampled weight v n h = ground (arith, ≈_iff o weight fzero)

    ratio-PassesChecks :
        (cell : Cell) (period : Period) (type : MetricType) (num d : F) (n : ℕ)
        → fzero ≼ num
        → num ≼ d
        → Weighed n d
        → PassesChecks (ratio_row cell period type (ratio_of num d) d n)
    unfolding ratio_row
    ratio-PassesChecks cell period type num d n p q h = elim (Bool-cases (d ≈ fzero)) [
      | inl e ↦ rw e (refl, tt)
      | inr e ↦
          let pos : (fzero ≺ d) ≡ true = ground (arith, ≼-trans o fzero num d p q) in
          let unit = r.div_unit num d p q pos in
          let (_, low, high, _) = wilson_brackets o (num ⊘ d) d unit.0 unit.1 pos in
          rw e (ground (arith, ≈_iff o d fzero), (low, high))
    ]

    sum_blank : (a b : F) → a ≡ fzero → b ≡ fzero → (a ⊕ b) ≡ fzero
    sum_blank a b p q = ap (λ x. x ⊕ b) p ∙ ap (λ x. fzero ⊕ x) q ∙ r.add_zero fzero

    double_blank : (a : F) → a ≡ fzero → (f.ratio 2 1 ⊗ a) ≡ fzero
    double_blank a p = ap (λ x. f.ratio 2 1 ⊗ x) p ∙ r.mul_zero (f.ratio 2 1)

    -- The denominator `d` is zero for a blank matrix.
    blank-Weighed :
        (c : Confusion F) (n : ℕ) (d : F)
        → (IsBlank c → d ≡ fzero)
        → (0 < n) ⊎ IsBlank c
        → Weighed n d
    blank-Weighed c n d z (inl h) = inl h
    blank-Weighed c n d z (inr b) = inr (z b)

    total_ge : (c : Confusion F) → c.tp ≼ (c.tp ⊕ c.fp ⊕ c.fn) → (c.tp ⊕ c.tn) ≼ Confusion.n c
    unfolding Confusion.n
    total_ge c h = r.add_mono c.tp (c.tp ⊕ c.fp ⊕ c.fn) c.tn h

    total_blank : (c : Confusion F) → IsBlank c → Confusion.n c ≡ fzero
    unfolding Confusion.n
    total_blank c b =
        sum_blank (c.tp ⊕ c.fp ⊕ c.fn) c.tn
          (sum_blank (c.tp ⊕ c.fp) c.fn (sum_blank c.tp c.fp b.0 b.1) b.2) b.3

    mae-Sampled : (c : Continuous F) → Weighed c.n c.sum_weight → Sampled (mae c) c.n
    unfolding mae
    mae-Sampled c h = Weighed-Sampled c.sum_weight (c.sum_weight_abs ⊘ c.sum_weight) c.n h

    rmse-Sampled : (c : Continuous F) → Weighed c.n c.sum_weight → Sampled (rmse c) c.n
    unfolding rmse
    rmse-Sampled c h = Weighed-Sampled c.sum_weight (f.sqrt (c.sum_weight_sq ⊘ c.sum_weight)) c.n h

    bias-Sampled : (c : Continuous F) → Weighed c.n c.sum_weight → Sampled (bias c) c.n
    unfolding bias
    bias-Sampled c h = Weighed-Sampled c.sum_weight (c.sum_weight_err ⊘ c.sum_weight) c.n h

    score-Sampled : (b : Brier F) (n : ℕ) → Weighed n b.sum_weight → Sampled (score b) n
    unfolding score
    score-Sampled b n h = Weighed-Sampled b.sum_weight (b.sum_weight_sq ⊘ b.sum_weight) n h

    module _ (s : IsSymmetric F) (cell : Cell) (period : Period) where
      pub mae-PassesChecks :
          (variable : Variable) (type : MetricType) (c : Continuous F)
          → Weighed c.n c.sum_weight
          → PassesChecks (metric cell period variable type (mae c) (mae_ci c) c.n)
      mae-PassesChecks variable type c h =
          metric-PassesChecks cell period variable type (mae c) (mae_ci c) c.n (mae-Sampled c h)
            (intervals_bracket o r s c brier_empty).0

      pub continuous-PassesChecks :
          (variable : Variable) (c : Continuous F)
          → Weighed c.n c.sum_weight
          → All PassesChecks (continuous_rows cell period variable c)
      unfolding continuous_rows
      continuous-PassesChecks variable c h =
          let (_, rm, bi, _) = intervals_bracket o r s c brier_empty in
          (
            mae-PassesChecks variable metric_mae c h,
            (
              metric-PassesChecks cell period variable metric_rmse (rmse c) (rmse_ci c) c.n
                  (rmse-Sampled c h) rm,
              (
                metric-PassesChecks cell period variable metric_bias (bias c) (bias_ci c) c.n
                    (bias-Sampled c h) bi,
                tt,
              ),
            ),
          )

      pub brier-PassesChecks :
          (b : Brier F) (n : ℕ)
          → Weighed n b.sum_weight
          → PassesChecks (metric cell period precipitation metric_brier (score b) (score_ci b) n)
      brier-PassesChecks b n h =
          metric-PassesChecks cell period precipitation metric_brier (score b) (score_ci b) n
            (score-Sampled b n h) (intervals_bracket o r s Continuous.empty b).3

      -- The six ratios of a confusion matrix.
      abbrev pub RatiosPass : Confusion F → ℕ → Type 0
      RatiosPass c n =
          PassesChecks (ratio_row cell period metric_recall (recall c) (c.tp ⊕ c.fn) n)
          × PassesChecks (ratio_row cell period metric_precision (precision c) (c.tp ⊕ c.fp) n)
          × PassesChecks
              (ratio_row cell period metric_f1 (f1 c) (f.ratio 2 1 ⊗ c.tp ⊕ c.fp ⊕ c.fn) n)
          × PassesChecks (ratio_row cell period metric_far (false_alarm_rate c) (c.fp ⊕ c.tn) n)
          × PassesChecks
              (ratio_row cell period metric_threat_score (threat_score c) (c.tp ⊕ c.fp ⊕ c.fn) n)
          × PassesChecks (
              ratio_row cell period metric_occurrence_agreement (occurrence_agreement c)
                (Confusion.n c) n)

      pub ratios-pass :
          (c : Confusion F) (n : ℕ) → IsCounted c → (0 < n) ⊎ IsBlank c → RatiosPass c n
      unfolding recall precision f1 false_alarm_rate threat_score occurrence_agreement
      ratios-pass c n h z =
          let two = f.ratio 2 1 ⊗ c.tp in
          let two_ge = ≼-trans o fzero c.tp two h.tp_ge (r.le_double c.tp h.tp_ge) in
          let up = λ (a b : F) (p : fzero ≼ b). r.le_add a b p in
          let row =
            λ (type : MetricType) (num d : F) (p : fzero ≼ num) (q : num ≼ d)
                (zero : IsBlank c → d ≡ fzero).
              ratio-PassesChecks cell period type num d n p q (blank-Weighed c n d zero z) in
          let tpfpfn =
            ≼-trans o c.tp (c.tp ⊕ c.fp) (c.tp ⊕ c.fp ⊕ c.fn) (up c.tp c.fp h.fp_ge)
              (up (c.tp ⊕ c.fp) c.fn h.fn_ge) in
          (
            row metric_recall c.tp (c.tp ⊕ c.fn) h.tp_ge (up c.tp c.fn h.fn_ge)
                (λ b. sum_blank c.tp c.fn b.0 b.2),
            row metric_precision c.tp (c.tp ⊕ c.fp) h.tp_ge (up c.tp c.fp h.fp_ge)
                (λ b. sum_blank c.tp c.fp b.0 b.1),
            row metric_f1 two (two ⊕ c.fp ⊕ c.fn) two_ge
                (≼-trans o two (two ⊕ c.fp) (two ⊕ c.fp ⊕ c.fn) (up two c.fp h.fp_ge)
                  (up (two ⊕ c.fp) c.fn h.fn_ge))
                (λ b.
                  sum_blank (two ⊕ c.fp) c.fn (sum_blank two c.fp (double_blank c.tp b.0) b.1) b.2),
            row metric_far c.fp (c.fp ⊕ c.tn) h.fp_ge (up c.fp c.tn h.tn_ge)
                (λ b. sum_blank c.fp c.tn b.1 b.3),
            row metric_threat_score c.tp (c.tp ⊕ c.fp ⊕ c.fn) h.tp_ge tpfpfn
                (λ b. sum_blank (c.tp ⊕ c.fp) c.fn (sum_blank c.tp c.fp b.0 b.1) b.2),
            row metric_occurrence_agreement (c.tp ⊕ c.tn) (Confusion.n c)
                (add_ge o r c.tp c.tn h.tp_ge h.tn_ge) (total_ge c tpfpfn) (total_blank c),
          )
