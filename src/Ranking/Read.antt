-- ===== src/Ranking/Read.antt =====
-- The order in which the rankings of a cohort are shown: `orderRankings` and `rankGroups` of
-- internal/analysis/read.go. Of a row the names, the location and the json of the components are left
-- out.
pub mod Shown
pub mod Complete
use forecastiq.Prelude.{
  ℕ, zero, suc, ◌+◌, Bool, true, false, Option, none, some, List, [], ◌∷◌, ◌++◌, map, ltb, length,
  if◌then◌else◌,
}
use mathlib.Core.List.{filter_map}
use forecastiq.Float.{Float}
use forecastiq.Ranking.{ProviderRanking, Status, ranked, provisionally_ranked, unranked}
use forecastiq.Ranking.Env.{is_unranked}
use forecastiq.Ranking.Order.{rank_order}

pub record RankingReadRow (F : Type 0) : Type 0 where
  pub provider_id : ℕ
  pub composite_score : Option F
  pub ci_lower : Option F
  pub ci_upper : Option F
  pub status : Status
  pub sample_count : ℕ
  pub coverage : Option F
  pub reliability : Option F
  pub period_start : ℕ
  pub period_end : ℕ
  pub calculated_at : ℕ

pub record RankedRow (F : Type 0) : Type 0 where
  pub row : RankingReadRow F
  pub rank : ℕ
  pub tied : Bool

abbrev pub is_ranked : Status → Bool
is_ranked ranked = true
is_ranked _ = false

abbrev pub is_provisional : Status → Bool
is_provisional provisionally_ranked = true
is_provisional _ = false

-- `subset[idx]`, none where the code would panic.
unfoldable pub get_elem? : {A : Type 0} → List A → ℕ → Option A
get_elem? [] i = none
get_elem? (x ∷ xs) zero = some x
get_elem? (x ∷ xs) (suc i) = get_elem? xs i

module _ {F : Type 0} where
  -- The rows whose status passes the test.
  unfoldable pub rows_with : (Status → Bool) → List (RankingReadRow F) → List (RankingReadRow F)
  rows_with test [] = []
  rows_with test (r ∷ rs) = let rest = rows_with test rs in if test r.status then r ∷ rest else rest

  abbrev pub ranked_rows : List (RankingReadRow F) → List (RankingReadRow F)
  ranked_rows = rows_with is_ranked

  abbrev pub provisional_rows : List (RankingReadRow F) → List (RankingReadRow F)
  provisional_rows = rows_with is_provisional

  abbrev pub unranked_rows : List (RankingReadRow F) → List (RankingReadRow F)
  unranked_rows = rows_with is_unranked

  -- The rows at the indexes.
  abbrev pub rows_at : List (RankingReadRow F) → List ℕ → List (RankingReadRow F)
  rows_at subset = filter_map (get_elem? subset)

  abbrev pub with_rank : ℕ → Bool → RankingReadRow F → RankedRow F
  with_rank rank tied r = record { row = r; rank = rank; tied = tied }

  -- The loop over the groups: the rows that it appends, and the next free rank.
  unfoldable pub number_groups :
      List (RankingReadRow F) → ℕ → List (List ℕ) → List (RankedRow F) × ℕ
  number_groups subset rank [] = ([], rank)
  number_groups subset rank (g ∷ gs) =
      let rest = number_groups subset (rank + 1) gs in
      (map (with_rank rank (ltb 1 (length g))) (rows_at subset g) ++ rest.0, rest.1)

  -- The four fields that `rankGroups` copies.
  abbrev pub to_ranking : RankingReadRow F → ProviderRanking F
  to_ranking r = record {
    provider_id = r.provider_id;
    composite_score = r.composite_score;
    ci_lower = r.ci_lower;
    ci_upper = r.ci_upper;
    status = unranked;
    sample_count = 0;
    coverage = none;
    reliability = none;
    component_scores = [];
  }

module _ {F : Type 0} ⦃f : Float F⦄ where
  -- `rankGroups`: the rows that it appends, and the next free rank.
  unfoldable pub rank_subset : List (RankingReadRow F) → ℕ → List (RankedRow F) × ℕ
  rank_subset [] base = ([], base)
  rank_subset (r ∷ rs) base = number_groups (r ∷ rs) base (rank_order (map to_ranking (r ∷ rs)))

  unfoldable pub order_rankings : List (RankingReadRow F) → List (RankedRow F)
  order_rankings rows =
      let first = rank_subset (ranked_rows rows) 1 in
      first.0
      ++ ((rank_subset (provisional_rows rows) first.1).0
          ++ map (with_rank 0 false) (unranked_rows rows))
