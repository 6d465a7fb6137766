-- ===== src/Ranking/Read/Shown.antt =====
-- The rows that `rankGroups` appends are the rows of its subset, each once
-- (internal/analysis/read.go).
use forecastiq.Prelude.{
  ℕ, suc, ◌+◌, ◌≡◌, refl, inl, inr, Bool, true, some, List, [], ◌∷◌, ◌++◌, map, All, is_some, ltb,
  length, if◌then◌else◌, arith, Option-cases, sym, subst, ap, ◌∙◌,
}
use mathlib.Core.List.{Permᴰ, filter_map}
use mathlib.Core.List.Permᴰ
use forecastiq.Float.{Float}
use forecastiq.Ranking.{Status, ranked, provisionally_ranked, unranked}
use forecastiq.Ranking.Env.{is_unranked}
use forecastiq.Ranking.Order.{Entry, scored, sort_desc, groups_of, rank_groups, rank_order}
use forecastiq.Ranking.Order.Groups.{concat, sort_desc-permᴰ, concat-groups_of}
use forecastiq.Ranking.Read.{
  is_ranked, is_provisional, rows_with, RankingReadRow, RankedRow, ranked_rows, provisional_rows,
  unranked_rows, get_elem?, rows_at, with_rank, number_groups, to_ranking, rank_subset,
}

abbrev flat : List (List ℕ) → List ℕ
flat [] = []
flat (g ∷ gs) = g ++ flat gs

module _ {F : Type 0} where
  sections-step :
      (s : Status) (r : RankingReadRow F) (a b c : List (RankingReadRow F))
      → Permᴰ
          ((if is_ranked s then r ∷ a else a)
            ++ ((if is_provisional s then r ∷ b else b) ++ (if is_unranked s then r ∷ c else c)))
          (r ∷ (a ++ (b ++ c)))
  sections-step ranked r a b c = Permᴰ.refl (r ∷ (a ++ (b ++ c)))
  sections-step provisionally_ranked r a b c = Permᴰ.middle r a (b ++ c)
  sections-step unranked r a b c =
      Permᴰ.trans (Permᴰ.append_left a (Permᴰ.middle r b c)) (Permᴰ.middle r a (b ++ c))

  pub sections-perm :
      (rows : List (RankingReadRow F))
      → Permᴰ (ranked_rows rows ++ (provisional_rows rows ++ unranked_rows rows)) rows
  unfolding rows_with
  sections-perm [] = Permᴰ.nil
  sections-perm (r ∷ rs) =
      Permᴰ.trans
        (sections-step r.status r (ranked_rows rs) (provisional_rows rs) (unranked_rows rs))
        (Permᴰ.cons refl (sections-perm rs))

module _ {F : Type 0} ⦃f : Float F⦄ where
  rows_at-scored :
      (subset tail : List (RankingReadRow F)) (i : ℕ)
      → All (λ r. is_some r.composite_score ≡ true) tail
      → ((j : ℕ) → get_elem? subset (i + j) ≡ get_elem? tail j)
      → rows_at subset (map (λ e. e.index) (scored i (map to_ranking tail))) ≡ tail
  unfolding scored get_elem? filter_map
  rows_at-scored subset [] i all same = refl
  rows_at-scored subset (r ∷ rs) i (one, all) same = elim (Option-cases r.composite_score) [
    | inl q ↦ absurd (ground (arith, one, q))
    | inr (v, q) ↦
        let ih = rows_at-scored subset rs (i + 1) all (λ j.
          subst (λ (n : ℕ). get_elem? subset n ≡ get_elem? rs j) (omega arith) (same (suc j))) in
        let here : get_elem? subset i ≡ some r =
          subst (λ (n : ℕ). get_elem? subset n ≡ some r) (omega arith) (same 0) in
        ground (arith, q, here, ih)
  ]

  rows_at-append :
      (subset : List (RankingReadRow F)) (is js : List ℕ)
      → rows_at subset (is ++ js) ≡ (rows_at subset is ++ rows_at subset js)
  unfolding filter_map
  rows_at-append subset [] js = refl
  rows_at-append subset (i ∷ is) js = elim (Option-cases (get_elem? subset i)) [
    | inl q ↦ ground (arith, q, rows_at-append subset is js)
    | inr (r, q) ↦ ground (arith, q, rows_at-append subset is js)
  ]

  map-row-with_rank :
      (rank : ℕ) (tied : Bool) (rs : List (RankingReadRow F)) (rest : List (RankedRow F))
      → map (λ x. x.row) (map (with_rank rank tied) rs ++ rest) ≡ (rs ++ map (λ x. x.row) rest)
  map-row-with_rank rank tied [] rest = refl
  map-row-with_rank rank tied (r ∷ rs) rest = ap (λ t. r ∷ t) (map-row-with_rank rank tied rs rest)

  map-row-number_groups :
      (subset : List (RankingReadRow F)) (rank : ℕ) (gs : List (List ℕ))
      → map (λ x. x.row) (number_groups subset rank gs).0 ≡ rows_at subset (flat gs)
  unfolding number_groups filter_map
  map-row-number_groups subset rank [] = refl
  map-row-number_groups subset rank (g ∷ gs) =
      map-row-with_rank rank (ltb 1 (length g)) (rows_at subset g)
        (number_groups subset (rank + 1) gs).0
      ∙ (ap (λ t. rows_at subset g ++ t) (map-row-number_groups subset (rank + 1) gs)
          ∙ sym (rows_at-append subset g (flat gs)))

  map-append :
      (xs ys : List (Entry F))
      → map (λ e. e.index) (xs ++ ys) ≡ (map (λ e. e.index) xs ++ map (λ e. e.index) ys)
  map-append [] ys = refl
  map-append (x ∷ xs) ys = ap (λ t. x.index ∷ t) (map-append xs ys)

  flat-map :
      (gs : List (List (Entry F)))
      → flat (map (map (λ e. e.index)) gs) ≡ map (λ e. e.index) (concat gs)
  flat-map [] = refl
  flat-map (g ∷ gs) =
      ap (λ t. map (λ e. e.index) g ++ t) (flat-map gs) ∙ sym (map-append g (concat gs))

  pub rank_subset-perm :
      (rows : List (RankingReadRow F)) (base : ℕ)
      → All (λ r. is_some r.composite_score ≡ true) rows
      → Permᴰ (map (λ x. x.row) (rank_subset rows base).0) rows
  unfolding rank_subset rank_order rank_groups
  rank_subset-perm [] base all = Permᴰ.nil
  rank_subset-perm (r ∷ rs) base all =
      let prs = map to_ranking (r ∷ rs) in
      let sorted = sort_desc (scored 0 prs) in
      let shown : map (λ x. x.row) (rank_subset (r ∷ rs) base).0
          ≡ rows_at (r ∷ rs) (map (λ e. e.index) sorted) =
        map-row-number_groups (r ∷ rs) base (rank_order prs)
        ∙ ap (rows_at (r ∷ rs)) (
            flat-map (groups_of sorted)
            ∙ ap (map (λ (e : Entry F). e.index)) (concat-groups_of sorted)) in
      let whole : rows_at (r ∷ rs) (map (λ e. e.index) (scored 0 prs)) ≡ (r ∷ rs) =
        rows_at-scored (r ∷ rs) (r ∷ rs) 0 all (λ j. ap (get_elem? (r ∷ rs)) (omega arith)) in
      subst (λ (t : List (RankingReadRow F)). Permᴰ t (r ∷ rs)) (sym shown)
        (subst
          (λ (t : List (RankingReadRow F)). Permᴰ (rows_at (r ∷ rs) (map (λ e. e.index) sorted)) t)
          whole
          (Permᴰ.filter_map (get_elem? (r ∷ rs))
            (Permᴰ.map (λ (e : Entry F). e.index) (sort_desc-permᴰ (scored 0 prs)))))
