-- ===== src/Ranking/Read/Complete.antt =====
-- Every ranking is shown once, and rank 0 is for the unranked (internal/analysis/read.go).
use forecastiq.Prelude.{
  ℕ, zero, suc, ◌+◌, ◌≤◌, ◌≡◌, ◌↔◌, refl, inl, inr, Bool, true, false, some, List, [], ◌∷◌, ◌++◌,
  not, if_elim, map, All, All-append, is_some, ltb, length, arith, Option-cases, sym, subst, ap,
  ◌∙◌,
}
use mathlib.Core.List.{Permᴰ, filter_map}
use mathlib.Core.List.Permᴰ
use forecastiq.Float.{Float}
use forecastiq.Ranking.{Status, unranked}
use forecastiq.Ranking.Env.{is_unranked}
use forecastiq.Ranking.Order.{rank_order}
use forecastiq.Ranking.Read.{
  is_ranked, is_provisional, rows_with, RankingReadRow, RankedRow, ranked_rows, provisional_rows,
  unranked_rows, get_elem?, rows_at, with_rank, number_groups, to_ranking, rank_subset,
  order_rankings,
}
use forecastiq.Ranking.Read.Shown.{sections-perm, rank_subset-perm}

module _ {F : Type 0} ⦃f : Float F⦄ where
  -- `CHECK ((composite_score IS NULL) = (ranking_status = 'unranked'))`
  abbrev pub IsScored : RankingReadRow F → Type 0
  IsScored r = is_some r.composite_score ≡ not (is_unranked r.status)

  rows_with-All :
      (P : RankingReadRow F → Type 0) (test : Status → Bool) (rows : List (RankingReadRow F))
      → All IsScored rows
      → ((r : RankingReadRow F) → IsScored r → test r.status ≡ true → P r)
      → All P (rows_with test rows)
  unfolding rows_with
  rows_with-All P test [] all keep = tt
  rows_with-All P test (r ∷ rs) (one, all) keep =
      if_elim (All P) (test r.status) _ _
        (λ passed. (keep r one passed, rows_with-All P test rs all keep))
        (λ _. rows_with-All P test rs all keep)

  All-get_elem? :
      (P : RankingReadRow F → Type 0) (subset : List (RankingReadRow F)) (i : ℕ)
      (r : RankingReadRow F)
      → All P subset
      → get_elem? subset i ≡ some r
      → P r
  unfolding get_elem?
  All-get_elem? P [] i r all e = cc
  All-get_elem? P (x ∷ xs) zero r (one, all) e = subst P (ground (arith, e)) one
  All-get_elem? P (x ∷ xs) (suc i) r (one, all) e = All-get_elem? P xs i r all e

  All-rows_at :
      (P : RankingReadRow F → Type 0) (subset : List (RankingReadRow F)) (is : List ℕ)
      → All P subset
      → All P (rows_at subset is)
  unfolding filter_map
  All-rows_at P subset [] all = tt
  All-rows_at P subset (i ∷ is) all = elim (Option-cases (get_elem? subset i)) [
    | inl q ↦ rw q (All-rows_at P subset is all)
    | inr (r, q) ↦ rw q (All-get_elem? P subset i r all q, All-rows_at P subset is all)
  ]

  -- Rank 0 is for the unranked, and only for them.
  abbrev pub IsRankedAs : RankedRow F → Type 0
  IsRankedAs x = (x.rank ≡ 0) ↔ (x.row.status ≡ unranked)

  with_rank-IsRankedAs :
      (rank : ℕ) (tied : Bool) (rs : List (RankingReadRow F))
      → All (λ r. (rank ≡ 0) ↔ (r.status ≡ unranked)) rs
      → All IsRankedAs (map (with_rank rank tied) rs)
  with_rank-IsRankedAs rank tied [] all = tt
  with_rank-IsRankedAs rank tied (r ∷ rs) (one, all) = (one, with_rank-IsRankedAs rank tied rs all)

  numbered :
      (rank : ℕ) (rs : List (RankingReadRow F))
      → 1 ≤ rank
      → All (λ r. is_unranked r.status ≡ false) rs
      → All (λ r. (rank ≡ 0) ↔ (r.status ≡ unranked)) rs
  numbered rank [] h all = tt
  numbered rank (r ∷ rs) h (one, all) = (
    (
      (λ zero_rank. absurd (omega (arith, h, zero_rank))),
      λ is_un. absurd (cc (ap is_unranked is_un, one)),
    ),
    numbered rank rs h all,
  )

  number_groups-IsRankedAs :
      (subset : List (RankingReadRow F)) (rank : ℕ) (gs : List (List ℕ))
      → All (λ r. is_unranked r.status ≡ false) subset
      → 1 ≤ rank
      → All IsRankedAs (number_groups subset rank gs).0 × (rank ≤ (number_groups subset rank gs).1)
  unfolding number_groups
  number_groups-IsRankedAs subset rank [] all h = (tt, omega arith)
  number_groups-IsRankedAs subset rank (g ∷ gs) all h =
      let tied = ltb 1 (length g) in
      let (rest, next) = number_groups-IsRankedAs subset (rank + 1) gs all (omega (arith, h)) in
      (
        All-append IsRankedAs (map (with_rank rank tied) (rows_at subset g))
            (number_groups subset (rank + 1) gs).0
            (with_rank-IsRankedAs rank tied (rows_at subset g) (
              numbered rank (rows_at subset g) h
                (All-rows_at (λ r. is_unranked r.status ≡ false) subset g all)))
            rest,
        omega (arith, next),
      )

  rank_subset-IsRankedAs :
      (rows : List (RankingReadRow F)) (base : ℕ)
      → All (λ r. is_unranked r.status ≡ false) rows
      → 1 ≤ base
      → All IsRankedAs (rank_subset rows base).0 × (base ≤ (rank_subset rows base).1)
  unfolding rank_subset
  rank_subset-IsRankedAs [] base all h = (tt, omega arith)
  rank_subset-IsRankedAs (r ∷ rs) base all h =
      number_groups-IsRankedAs (r ∷ rs) base (rank_order (map to_ranking (r ∷ rs))) all h

  unranked-IsRankedAs :
      (rs : List (RankingReadRow F))
      → All (λ r. r.status ≡ unranked) rs
      → All (λ r. (◌≡◌ {A = ℕ} 0 0) ↔ (r.status ≡ unranked)) rs
  unranked-IsRankedAs [] all = tt
  unranked-IsRankedAs (r ∷ rs) (one, all) = (((λ _. one), λ _. refl), unranked-IsRankedAs rs all)

  map-row-append :
      (xs ys : List (RankedRow F))
      → map (λ x. x.row) (xs ++ ys) ≡ (map (λ x. x.row) xs ++ map (λ x. x.row) ys)
  map-row-append [] ys = refl
  map-row-append (x ∷ xs) ys = ap (λ t. x.row ∷ t) (map-row-append xs ys)

  map-row-unranked :
      (rs : List (RankingReadRow F)) → map (λ x. x.row) (map (with_rank 0 false) rs) ≡ rs
  map-row-unranked [] = refl
  map-row-unranked (r ∷ rs) = ap (λ t. r ∷ t) (map-row-unranked rs)

  -- If every row has a score exactly when it is not unranked, as the table's CHECK asks: the rows shown are
  -- the rows that were read, each once, and a row has rank 0 exactly when it is unranked.
  pub order_rankings_complete :
      (rows : List (RankingReadRow F))
      → All IsScored rows
      → Permᴰ (map (λ x. x.row) (order_rankings rows)) rows × All IsRankedAs (order_rankings rows)
  unfolding order_rankings
  order_rankings_complete rows all =
      let first = rank_subset (ranked_rows rows) 1 in
      let second = rank_subset (provisional_rows rows) first.1 in
      let third = map (with_rank 0 false) (unranked_rows rows) in
      let ranked_apart =
        rows_with-All (λ r. is_unranked r.status ≡ false) is_ranked rows all
          (λ r c passed. ground (arith, c, passed)) in
      let provisional_apart =
        rows_with-All (λ r. is_unranked r.status ≡ false) is_provisional rows all
          (λ r c passed. ground (arith, c, passed)) in
      let ranked_scored =
        rows_with-All (λ r. is_some r.composite_score ≡ true) is_ranked rows all
          (λ r c passed. ground (arith, c, passed)) in
      let provisional_scored =
        rows_with-All (λ r. is_some r.composite_score ≡ true) is_provisional rows all
          (λ r c passed. ground (arith, c, passed)) in
      let all_unranked =
        rows_with-All (λ r. r.status ≡ unranked) is_unranked rows all
          (λ r c passed. ground (arith, passed)) in
      let (good, next) = rank_subset-IsRankedAs (ranked_rows rows) 1 ranked_apart (omega arith) in
      let (fine, _) =
        rank_subset-IsRankedAs (provisional_rows rows) first.1 provisional_apart next in
      (
        subst (λ (t : List (RankingReadRow F)). Permᴰ t rows)
            (sym (
              map-row-append first.0 (second.0 ++ third)
              ∙ ap (λ t. map (λ x. x.row) first.0 ++ t)
                  (map-row-append second.0 third
                    ∙ ap (λ t. map (λ x. x.row) second.0 ++ t)
                        (map-row-unranked (unranked_rows rows)))))
            (Permᴰ.trans
              (Permᴰ.trans
                (Permᴰ.append_right (map (λ x. x.row) second.0 ++ unranked_rows rows)
                  (rank_subset-perm (ranked_rows rows) 1 ranked_scored))
                (Permᴰ.append_left (ranked_rows rows) (
                  Permᴰ.append_right (unranked_rows rows)
                    (rank_subset-perm (provisional_rows rows) first.1 provisional_scored))))
              (sections-perm rows)),
        All-append IsRankedAs first.0 (second.0 ++ third) good (
            All-append IsRankedAs second.0 third fine (
              with_rank-IsRankedAs 0 false (unranked_rows rows)
                (unranked-IsRankedAs (unranked_rows rows) all_unranked))),
      )
