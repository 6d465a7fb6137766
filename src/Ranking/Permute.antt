-- ===== src/Ranking/Permute.antt =====
-- `RankCohort` does not depend on the order of the cohort (internal/analysis/domain/ranking.go).
use forecastiq.Prelude.{
  ◌≡◌, Bool, ◌&&◌, Option, none, some, List, [], ◌∷◌, map, arith, refl, sym, ap, ◌∙◌, subst,
  is_some, if◌then◌else◌,
}
use mathlib.Core.Path.{fun_ext, ap₂}
use mathlib.Core.Logic.{∥∥₁_map}
use mathlib.Core.List.{foldl, Perm, Permᴰ}
use forecastiq.Prelude.Order.{foldl-permᴰ, map-permᴰ}
use forecastiq.Float.{Float, IsLinear, ◌≈◌, ◌⊕◌, fzero, ≼-trans, lt-≼}
use forecastiq.Ranking.{
  Direction, lower_better, higher_better, direct_value, Key, Component, ProviderInput, components,
  or_zero, epsilon,
}
use forecastiq.Ranking.Env.{
  have_values, not_empty, active, weight_from, smaller, larger, extreme, values_of, best_shift,
  cohort_of, rank_provider, rank_cohort,
}

-- A choice of one of two values that is a commutative and associative operation.
pub record IsChoice {F : Type 0} (pick : F → F → F) : Type 0 where
  pub pick_comm : (x y : F) → pick x y ≡ pick y x
  pub pick_swap : (s x y : F) → pick (pick s x) y ≡ pick (pick s y) x

and_swap : (p q t : Bool) → (p && (q && t)) ≡ (q && (p && t))
and_swap p q t = ground arith

module _ {F : Type 0} ⦃f : Float F⦄ where
  have_values-permᴰ :
      (k : Key) {xs ys : List (ProviderInput F)} → Permᴰ xs ys → have_values k xs ≡ have_values k ys
  unfolding have_values
  have_values-permᴰ k Permᴰ.nil = refl
  have_values-permᴰ k (Permᴰ.cons {a = a} {b = b} {l₁ = l₁} e d) =
      ap (λ x. is_some (x.values k) && have_values k l₁) e
      ∙ ap (λ t. is_some (b.values k) && t) (have_values-permᴰ k d)
  have_values-permᴰ k (Permᴰ.swap {a = a} {b = b} {l = l} e d) =
      and_swap (is_some (a.values k)) (is_some (b.values k)) (have_values k l)
      ∙ ap₂ (λ x y. is_some (x.values k) && (is_some (y.values k) && have_values k l)) d e
  have_values-permᴰ k (Permᴰ.trans d d') = have_values-permᴰ k d ∙ have_values-permᴰ k d'

  not_empty-permᴰ : {xs ys : List (ProviderInput F)} → Permᴰ xs ys → not_empty xs ≡ not_empty ys
  not_empty-permᴰ Permᴰ.nil = refl
  not_empty-permᴰ (Permᴰ.cons e d) = refl
  not_empty-permᴰ (Permᴰ.swap e d) = refl
  not_empty-permᴰ (Permᴰ.trans d d') = not_empty-permᴰ d ∙ not_empty-permᴰ d'

  active-permᴰ :
      {xs ys : List (ProviderInput F)} → Permᴰ xs ys → (k : Key) → active xs k ≡ active ys k
  unfolding active
  active-permᴰ {xs} {ys} d k =
      ap (λ t. t && have_values k xs) (not_empty-permᴰ d)
      ∙ ap (λ t. not_empty ys && t) (have_values-permᴰ k d)

  weight_from-permᴰ :
      {xs ys : List (ProviderInput F)}
      → Permᴰ xs ys
      → (acc : F) (cs : List (Component F)) → weight_from xs acc cs ≡ weight_from ys acc cs
  unfolding weight_from
  weight_from-permᴰ d acc [] = refl
  weight_from-permᴰ {xs} {ys} d acc (c ∷ cs) =
      weight_from-permᴰ d (if active xs c.key then acc ⊕ c.weight else acc) cs
      ∙ ap (λ t. weight_from ys (if t then acc ⊕ c.weight else acc) cs) (active-permᴰ d c.key)

  module _ (pick : F → F → F) (choice : IsChoice pick) where
    abbrev pick? : Option F → F → Option F
    pick? none v = some v
    pick? (some m) v = some (pick m v)

    foldl-pick? : (m : F) (vs : List F) → foldl pick? (some m) vs ≡ some (foldl pick m vs)
    foldl-pick? m [] = refl
    foldl-pick? m (v ∷ vs) = foldl-pick? (pick m v) vs

    extreme-fold : (vs : List F) → extreme pick vs ≡ or_zero (foldl pick? none vs)
    unfolding extreme
    extreme-fold [] = refl
    extreme-fold (v ∷ vs) = ap or_zero (sym (foldl-pick? v vs))

    pick?_swap : (s : Option F) (x y : F) → pick? (pick? s x) y ≡ pick? (pick? s y) x
    pick?_swap none x y = ap some (choice.pick_comm x y)
    pick?_swap (some s) x y = ap some (choice.pick_swap s x y)

    extreme-permᴰ : {vs ws : List F} → Permᴰ vs ws → extreme pick vs ≡ extreme pick ws
    extreme-permᴰ {vs} {ws} d =
        extreme-fold vs
        ∙ ap or_zero (
            foldl-permᴰ (λ _. Unit {0}) pick? (λ s x g. tt) (λ s x y g. pick?_swap s x y) d none tt)
        ∙ sym (extreme-fold ws)

module _ {F : Type 0} ⦃f : Float F⦄ (o : IsLinear F) where
  smaller-IsChoice : IsChoice {F = F} smaller
  smaller-IsChoice = record {
    pick_comm = λ x y. ground (arith, o.lt_total x y, lt-≼ o x y);
    pick_swap = λ s x y. ground (
      arith,
      o.lt_total x y,
      lt-≼ o x y,
      lt-≼ o y x,
      lt-≼ o x s,
      lt-≼ o y s,
      o.lt_trans x y s,
      o.lt_trans y x s,
      ≼-trans o s x y,
      ≼-trans o s y x,
    );
  }

  larger-IsChoice : IsChoice {F = F} larger
  larger-IsChoice = record {
    pick_comm = λ x y. ground (arith, o.lt_total x y, lt-≼ o x y);
    pick_swap = λ s x y. ground (
      arith,
      o.lt_total x y,
      lt-≼ o x y,
      lt-≼ o y x,
      lt-≼ o s x,
      lt-≼ o s y,
      o.lt_trans s x y,
      o.lt_trans s y x,
      ≼-trans o x y s,
      ≼-trans o y x s,
    );
  }

  values_of-permᴰ :
      (k : Key) {xs ys : List (ProviderInput F)}
      → Permᴰ xs ys
      → Permᴰ (values_of xs k) (values_of ys k)
  values_of-permᴰ k d = map-permᴰ (λ p. or_zero (p.values k)) d

  best_shift-permᴰ :
      {xs ys : List (ProviderInput F)}
      → Permᴰ xs ys
      → (k : Key) (d : Direction) → best_shift xs k d ≡ best_shift ys k d
  unfolding best_shift
  best_shift-permᴰ p k lower_better =
      ap (λ m. if m ≈ fzero then (m ⊕ epsilon, epsilon) else (m, fzero))
        (extreme-permᴰ smaller smaller-IsChoice (values_of-permᴰ k p))
  best_shift-permᴰ p k higher_better =
      ap (λ m. (m, fzero)) (extreme-permᴰ larger larger-IsChoice (values_of-permᴰ k p))
  best_shift-permᴰ p k direct_value = refl

  cohort_of-permᴰ : {xs ys : List (ProviderInput F)} → Permᴰ xs ys → cohort_of xs ≡ cohort_of ys
  cohort_of-permᴰ p i = record {
    is_active = fun_ext (active-permᴰ p) i;
    total_weight = weight_from-permᴰ p fzero components i;
    best = fun_ext (λ k. fun_ext (best_shift-permᴰ p k)) i;
  }

  -- Over finite doubles, the order in which the providers of a cohort are listed changes no row of the
  -- ranking: the rows of a rearranged cohort are the same rows, rearranged.
  pub rank_cohort-perm :
      (xs ys : List (ProviderInput F)) → Perm xs ys → Perm (rank_cohort xs) (rank_cohort ys)
  unfolding rank_cohort
  rank_cohort-perm xs ys p = ∥∥₁_map p λ d.
      subst (λ e. Permᴰ (map (rank_provider (cohort_of xs)) xs) (map (rank_provider e) ys))
        (cohort_of-permᴰ d) (map-permᴰ (rank_provider (cohort_of xs)) d)
