-- ===== src/Ranking/Order.antt =====
-- `RankOrder` (internal/analysis/domain/ranking.go): the providers with a score by descending score,
-- in groups that share a rank.
pub mod Groups
use forecastiq.Prelude.{
  ℕ, ◌+◌, ◌≡◌, Bool, true, false, ◌&&◌, Option, none, some, List, [], ◌∷◌, ◌++◌, map,
}
use forecastiq.Float.{Float, ◌≺◌, ◌⪯◌}
use forecastiq.Ranking.{ProviderRanking}

-- An index into the rankings, with the row and the score that stand there.
pub record Entry (F : Type 0) : Type 0 where
  pub index : ℕ
  pub row : ProviderRanking F
  pub score : F

module _ {F : Type 0} ⦃f : Float F⦄ where
  -- `a.CILower <= b.CIUpper && b.CILower <= a.CIUpper`, if no bound is nil.
  abbrev pub overlap : Option F → Option F → Option F → Option F → Bool
  overlap (some a_lower) (some a_upper) (some b_lower) (some b_upper) =
      a_lower ⪯ b_upper && b_lower ⪯ a_upper
  overlap _ _ _ _ = false

  unfoldable pub ci_overlap : ProviderRanking F → ProviderRanking F → Bool
  ci_overlap a b = overlap a.ci_lower a.ci_upper b.ci_lower b.ci_upper

  abbrev add_scored : ℕ → ProviderRanking F → Option F → List (Entry F) → List (Entry F)
  add_scored i r none rest = rest
  add_scored i r (some v) rest = record { index = i; row = r; score = v } ∷ rest

  -- The indexes from `i` on whose composite score is not nil.
  unfoldable pub scored : ℕ → List (ProviderRanking F) → List (Entry F)
  scored i [] = []
  scored i (r ∷ rs) = add_scored i r r.composite_score (scored (i + 1) rs)

  -- `sort.SliceStable` by descending score.
  unfoldable pub insert_desc : Entry F → List (Entry F) → List (Entry F)
  insert_desc e [] = e ∷ []
  insert_desc e (x ∷ xs) = elim (e.score ≺ x.score) [
    | true ↦ x ∷ insert_desc e xs
    | false ↦ e ∷ x ∷ xs
  ]

  unfoldable pub sort_desc : List (Entry F) → List (Entry F)
  sort_desc [] = []
  sort_desc (e ∷ es) = insert_desc e (sort_desc es)

  -- The loop over the sorted indexes: the leader of the current group, its members, and the rest.
  unfoldable pub group_from : Entry F → List (Entry F) → List (Entry F) → List (List (Entry F))
  group_from lead members [] = members ∷ []
  group_from lead members (e ∷ es) = elim (ci_overlap lead.row e.row) [
    | true ↦ group_from lead (members ++ (e ∷ [])) es
    | false ↦ members ∷ group_from e (e ∷ []) es
  ]

  unfoldable pub groups_of : List (Entry F) → List (List (Entry F))
  groups_of [] = []
  groups_of (e ∷ es) = group_from e (e ∷ []) es

  unfoldable pub rank_groups : List (ProviderRanking F) → List (List (Entry F))
  rank_groups rankings = groups_of (sort_desc (scored 0 rankings))

  unfoldable pub rank_order : List (ProviderRanking F) → List (List ℕ)
  rank_order rankings = map (map (λ e. e.index)) (rank_groups rankings)
