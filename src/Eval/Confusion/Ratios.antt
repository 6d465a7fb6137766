-- ===== src/Eval/Confusion/Ratios.antt =====
-- The ratios of a confusion matrix lie in the unit interval, and when they are null
-- (internal/analysis/eval/categorical.go).
use forecastiq.Prelude.{
  ◌≡◌, ◌↔◌, inl, inr, Bool, true, false, Option, none, some, List, [], ◌∷◌, arith, All, Bool-cases,
  ap, ◌∙◌, subst,
}
use forecastiq.Float.{
  Float, IsLinear, IsRounded, ◌≈◌, ◌≼◌, ◌⊕◌, ◌⊗◌, fzero, fone, ≼-refl, ≼-trans, ≼-antisym, ≈_iff,
}
use forecastiq.Eval.Confusion.{
  Confusion, empty, add, add_all, n, ratio_of, recall, precision, f1, false_alarm_rate,
  threat_score, occurrence_agreement,
}

-- No cell is negative.
pub record IsCounted {F : Type 0} ⦃f : Float F⦄ (c : Confusion F) : Type 0 where
  pub tp_ge : fzero ≼ c.tp
  pub fp_ge : fzero ≼ c.fp
  pub fn_ge : fzero ≼ c.fn
  pub tn_ge : fzero ≼ c.tn

module _ {F : Type 0} ⦃f : Float F⦄ where
  abbrev pub HasWeight : Bool × Bool × F → Type 0
  HasWeight p = fzero ≼ p.2

  -- A result that is null or between 0 and 1.
  abbrev pub InUnit : Option F → Type 0
  InUnit none = Unit {0}
  InUnit (some v) = (fzero ≼ v) × (v ≼ fone)

module _ {F : Type 0} ⦃f : Float F⦄ (o : IsLinear F) (r : IsRounded F) where
  pub add_ge : (a b : F) → fzero ≼ a → fzero ≼ b → fzero ≼ (a ⊕ b)
  add_ge a b p q = ≼-trans o fzero a (a ⊕ b) p (r.le_add a b q)

  pub add-IsCounted :
      (c : Confusion F) (forecast observed : Bool) (w : F)
      → IsCounted c
      → fzero ≼ w
      → IsCounted (add c forecast observed w)
  unfolding add
  add-IsCounted c true true w h p = record {
    tp_ge = add_ge c.tp w h.tp_ge p;
    fp_ge = h.fp_ge;
    fn_ge = h.fn_ge;
    tn_ge = h.tn_ge;
  }
  add-IsCounted c true false w h p = record {
    tp_ge = h.tp_ge;
    fp_ge = add_ge c.fp w h.fp_ge p;
    fn_ge = h.fn_ge;
    tn_ge = h.tn_ge;
  }
  add-IsCounted c false true w h p = record {
    tp_ge = h.tp_ge;
    fp_ge = h.fp_ge;
    fn_ge = add_ge c.fn w h.fn_ge p;
    tn_ge = h.tn_ge;
  }
  add-IsCounted c false false w h p = record {
    tp_ge = h.tp_ge;
    fp_ge = h.fp_ge;
    fn_ge = h.fn_ge;
    tn_ge = add_ge c.tn w h.tn_ge p;
  }

  add_all-IsCounted :
      (c : Confusion F) (pairs : List (Bool × Bool × F))
      → IsCounted c
      → All HasWeight pairs
      → IsCounted (add_all c pairs)
  unfolding add_all
  add_all-IsCounted c [] h ws = h
  add_all-IsCounted c ((a, b, w) ∷ pairs) h (p, ps) =
      add_all-IsCounted (add c a b w) pairs (add-IsCounted c a b w h p) ps

  pub empty-IsCounted : IsCounted {F = F} empty
  unfolding empty
  empty-IsCounted = record {
    tp_ge = ≼-refl o fzero;
    fp_ge = ≼-refl o fzero;
    fn_ge = ≼-refl o fzero;
    tn_ge = ≼-refl o fzero;
  }

  -- A denominator that is not zero is positive.
  pub ratio_of-InUnit : (num d : F) → fzero ≼ num → num ≼ d → InUnit (ratio_of num d)
  ratio_of-InUnit num d p q = elim (Bool-cases (d ≈ fzero)) [
    | inl e ↦ rw e tt
    | inr e ↦ rw e (r.div_unit num d p q (ground (arith, ≼-trans o fzero num d p q)))
  ]

  abbrev pub AllInUnit : Confusion F → Type 0
  AllInUnit c =
      InUnit (recall c)
      × InUnit (precision c)
      × InUnit (f1 c)
      × InUnit (false_alarm_rate c)
      × InUnit (threat_score c)
      × InUnit (occurrence_agreement c)

  counted_ratios : (c : Confusion F) → IsCounted c → AllInUnit c
  unfolding recall precision f1 false_alarm_rate threat_score occurrence_agreement
  counted_ratios c h =
      let two = f.ratio 2 1 ⊗ c.tp in
      let inner = r.le_add (c.tp ⊕ c.fp) c.fn h.fn_ge in
      let outer =
        ≼-trans o c.tp (c.tp ⊕ c.fp) (c.tp ⊕ c.fp ⊕ c.fn) (r.le_add c.tp c.fp h.fp_ge) inner in
      (
        ratio_of-InUnit c.tp (c.tp ⊕ c.fn) h.tp_ge (r.le_add c.tp c.fn h.fn_ge),
        ratio_of-InUnit c.tp (c.tp ⊕ c.fp) h.tp_ge (r.le_add c.tp c.fp h.fp_ge),
        ratio_of-InUnit two (two ⊕ c.fp ⊕ c.fn)
            (≼-trans o fzero c.tp two h.tp_ge (r.le_double c.tp h.tp_ge))
            (≼-trans o two (two ⊕ c.fp) (two ⊕ c.fp ⊕ c.fn) (r.le_add two c.fp h.fp_ge)
              (r.le_add (two ⊕ c.fp) c.fn h.fn_ge)),
        ratio_of-InUnit c.fp (c.fp ⊕ c.tn) h.fp_ge (r.le_add c.fp c.tn h.tn_ge),
        ratio_of-InUnit c.tp (c.tp ⊕ c.fp ⊕ c.fn) h.tp_ge outer,
        ratio_of-InUnit (c.tp ⊕ c.tn) (n c) (add_ge c.tp c.tn h.tp_ge h.tn_ge)
            (r.add_mono c.tp (c.tp ⊕ c.fp ⊕ c.fn) c.tn outer),
      )

  -- For a list of pairs with weights that are not negative, over finite doubles whose operations keep
  -- the stated laws of rounding: recall, precision, F1, false alarm rate, threat score and
  -- occurrence agreement are each null or lie between 0 and 1.
  pub ratios_InUnit :
      (pairs : List (Bool × Bool × F)) → All HasWeight pairs → AllInUnit (add_all empty pairs)
  ratios_InUnit pairs ws =
      counted_ratios (add_all empty pairs) (add_all-IsCounted empty pairs empty-IsCounted ws)

  ratio_of-none : (num d : F) → (ratio_of num d ≡ none) ↔ (d ≡ fzero)
  ratio_of-none num d = ground (arith, ≈_iff o d fzero)

  sum_zero : (a b : F) → fzero ≼ a → fzero ≼ b → (a ⊕ b ≡ fzero) ↔ ((a ≡ fzero) × (b ≡ fzero))
  sum_zero a b p q = (
    λ e. (
      ≼-antisym o a fzero (subst (λ x. a ≼ x) e (r.le_add a b q)) p,
      ≼-antisym o b fzero (subst (λ x. b ≼ x) e (r.le_add_left b a p)) q,
    ),
    λ z. ap (λ x. x ⊕ b) z.0 ∙ ap (λ x. fzero ⊕ x) z.1 ∙ r.add_zero fzero,
  )

  double_zero : (a : F) → fzero ≼ a → (f.ratio 2 1 ⊗ a ≡ fzero) ↔ (a ≡ fzero)
  double_zero a p = (
    λ e. ≼-antisym o a fzero (subst (λ x. a ≼ x) e (r.le_double a p)) p,
    λ z. ap (λ x. f.ratio 2 1 ⊗ x) z ∙ r.mul_zero (f.ratio 2 1),
  )

  -- For a list of pairs with weights that are not negative, over finite doubles whose operations
  -- keep the stated laws of rounding: F1 is null exactly when both recall and precision are.
  pub f1-none_iff :
      (pairs : List (Bool × Bool × F))
      → All HasWeight pairs
      → let c = add_all empty pairs in (f1 c ≡ none) ↔ ((recall c ≡ none) × (precision c ≡ none))
  unfolding recall precision f1
  f1-none_iff pairs ws =
      let c = add_all empty pairs in
      let h = add_all-IsCounted empty pairs empty-IsCounted ws in
      let two = f.ratio 2 1 ⊗ c.tp in
      let two_ge = ≼-trans o fzero c.tp two h.tp_ge (r.le_double c.tp h.tp_ge) in
      ground (
        arith,
        ratio_of-none two (two ⊕ c.fp ⊕ c.fn),
        ratio_of-none c.tp (c.tp ⊕ c.fn),
        ratio_of-none c.tp (c.tp ⊕ c.fp),
        sum_zero (two ⊕ c.fp) c.fn (add_ge two c.fp two_ge h.fp_ge) h.fn_ge,
        sum_zero two c.fp two_ge h.fp_ge,
        double_zero c.tp h.tp_ge,
        sum_zero c.tp c.fn h.tp_ge h.fn_ge,
        sum_zero c.tp c.fp h.tp_ge h.fp_ge,
      )
