-- ===== src/Ranking/Row.antt =====
-- Every ranking row has a score exactly when it is ranked, and keeps its numbers in the unit interval
-- (internal/analysis/domain/ranking.go).
use forecastiq.Prelude.{
  ◌≤◌, ◌<◌, ◌≡◌, ◌↔◌, ◌⊎◌, inl, inr, true, Option, none, some, List, [], ◌∷◌, map, arith, All,
  Bool-cases,
}
use forecastiq.Float.{
  Float, IsLinear, IsRounded, IsSymmetric, ◌≺◌, ◌≼◌, ◌⊕◌, ◌⊖◌, fzero, fone, ≼-refl, ≼-trans, lt-≼,
}
use forecastiq.Ranking.{
  Status, ComponentScore, ranked, provisionally_ranked, unranked, ProviderInput, ProviderRanking,
  clamp01, or_zero, status, coverage_floor, coverage_ranked_min,
}
use forecastiq.Ranking.Env.{
  Cohort, cohort_of, composite, penalized, publish, plain_row, rank_provider, rank_cohort,
}

module _ {F : Type 0} ⦃f : Float F⦄ where
  -- Unranked without a score, or ranked with one from 0 to 1.
  abbrev pub Scored : Status → Option F → Type 0
  Scored unranked none = Unit {0}
  Scored unranked (some v) = ⊥
  Scored ranked (some v) = (fzero ≼ v) × (v ≼ fone)
  Scored ranked none = ⊥
  Scored provisionally_ranked (some v) = (fzero ≼ v) × (v ≼ fone)
  Scored provisionally_ranked none = ⊥

  -- No interval, or one that brackets the score and lies from 0 to 1.
  abbrev pub Spans : Option F → Option F → Option F → Type 0
  Spans v none none = Unit {0}
  Spans (some v) (some lower) (some upper) =
      (fzero ≼ lower) × (lower ≼ v) × (v ≼ upper) × (upper ≼ fone)
  Spans _ _ _ = ⊥

  abbrev pub IsPublishable : ProviderRanking F → Type 0
  IsPublishable r =
      Scored r.status r.composite_score × Spans r.composite_score r.ci_lower r.ci_upper

module _ {F : Type 0} ⦃f : Float F⦄ (o : IsLinear F) (r : IsRounded F) (s : IsSymmetric F) where
  zero-le-one : fzero {F = F} ≼ fone
  zero-le-one = r.ratio_mono 0 1 1 (omega arith)

  floor-le-min : coverage_floor {F = F} ≼ coverage_ranked_min
  floor-le-min = r.ratio_mono 5 8 10 (omega arith)

  clamp01_unit : (x : F) → (fzero ≼ clamp01 x) × (clamp01 x ≼ fone)
  unfolding clamp01
  clamp01_unit x = ground (arith, zero-le-one, ≼-refl o fzero, ≼-refl o fone)

  clamp01-lower : (x v : F) → x ≼ v → fzero ≼ v → v ≼ fone → clamp01 x ≼ v
  unfolding clamp01
  clamp01-lower x v h k l = ground (arith, ≼-trans o fone x v, lt-≼ o fone x)

  clamp01-upper : (x v : F) → v ≼ x → fzero ≼ v → v ≼ fone → v ≼ clamp01 x
  unfolding clamp01
  clamp01-upper x v h k l = ground (arith, ≼-trans o v x fzero, lt-≼ o x fzero)

  abbrev SpansOf : F → F → Type 0
  SpansOf v half = Spans (some v) (some (clamp01 (v ⊖ half))) (some (clamp01 (v ⊕ half)))

  half-spans : (v half : F) → fzero ≼ v → v ≼ fone → (fzero ≺ half) ≡ true → SpansOf v half
  half-spans v half k l h =
      let pos = lt-≼ o fzero half h in
      (
        (clamp01_unit (v ⊖ half)).0,
        clamp01-lower (v ⊖ half) v (s.sub_le v half pos) k l,
        clamp01-upper (v ⊕ half) v (r.le_add v half pos) k l,
        (clamp01_unit (v ⊕ half)).1,
      )

  publish-scored :
      (st : Status) (p : ProviderInput F) (scores : List (ComponentScore F)) (v half : F)
      → fzero ≼ v
      → v ≼ fone
      → IsPublishable (publish st v half (plain_row st p scores))
  unfolding publish
  publish-scored unranked p scores v half k l = (tt, tt)
  publish-scored ranked p scores v half k l = elim (Bool-cases (fzero ≺ half)) [
    | inl e ↦ rw e ((k, l), half-spans v half k l e)
    | inr e ↦ rw e ((k, l), tt)
  ]
  publish-scored provisionally_ranked p scores v half k l = elim (Bool-cases (fzero ≺ half)) [
    | inl e ↦ rw e ((k, l), half-spans v half k l e)
    | inr e ↦ rw e ((k, l), tt)
  ]

  rank_provider-IsPublishable :
      (e : Cohort F) (p : ProviderInput F) → IsPublishable (rank_provider e p)
  unfolding rank_provider
  rank_provider-IsPublishable e p =
      let unit = clamp01_unit (penalized p.coverage (composite e p).score) in
      publish-scored (status p) p (composite e p).scores
        (clamp01 (penalized p.coverage (composite e p).score))
        (penalized p.coverage (composite e p).half) unit.0 unit.1

  map-IsPublishable :
      (e : Cohort F) (ps : List (ProviderInput F)) → All IsPublishable (map (rank_provider e) ps)
  map-IsPublishable e [] = tt
  map-IsPublishable e (p ∷ ps) = (rank_provider-IsPublishable e p, map-IsPublishable e ps)

  -- For any cohort, over finite doubles whose operations keep the stated laws of rounding: a row has a
  -- composite score exactly when it is not unranked, the score lies from 0 to 1, and its interval is
  -- absent or brackets the score and lies from 0 to 1.
  pub rank_cohort-IsPublishable :
      (cohort : List (ProviderInput F)) → All IsPublishable (rank_cohort cohort)
  unfolding rank_cohort
  rank_cohort-IsPublishable cohort = map-IsPublishable (cohort_of cohort) cohort

  -- The limits of the two statuses, over finite doubles with the stated laws: a provider is unranked
  -- exactly when one of the two sample counts is below 10 or its coverage (0 if absent) is below 0.5,
  -- and ranked exactly when both counts are at least 30, the coverage is at least 0.8 and there are
  -- at least 7 days.
  pub status_thresholds :
      (p : ProviderInput F)
      → ((status p ≡ unranked) ↔ (
          (p.temp_sample_count < 10)
          ⊎ ((p.precip_sample_count < 10) ⊎ ((or_zero p.coverage ≺ coverage_floor) ≡ true))))
        × ((status p ≡ ranked) ↔ (
            (30 ≤ p.temp_sample_count)
            × (30 ≤ p.precip_sample_count)
            × (coverage_ranked_min ≼ or_zero p.coverage)
            × (7 ≤ p.calendar_days)))
  unfolding status
  status_thresholds p =
      ground (arith, ≼-trans o coverage_floor coverage_ranked_min (or_zero p.coverage) floor-le-min)
