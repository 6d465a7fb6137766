-- ===== src/Ranking/Batch/Published.antt =====
-- What `RankPeriod` leaves in the table of rankings (internal/analysis/rank.go).
use forecastiq.Prelude.{
  ℕ, length, ◌≡◌, refl, Bool, true, false, ◌&&◌, Option, none, some, List, [], ◌∷◌, ◌==◌, ok, arith,
}
use forecastiq.Float.{Float}
use forecastiq.Aggregate.{Period}
use forecastiq.Ranking.{ProviderRanking}
use forecastiq.Ranking.Env.{rank_cohort}
use forecastiq.Publish.{Version, published, live, at_key, CellRun, read_rows, all_rows}
use forecastiq.Publish.Live.{IsKeyed}
use forecastiq.Publish.Keys.{Distinct}
use forecastiq.Publish.Cells.{Distinct-IsApart, publish_cells-published}
use forecastiq.Ranking.Batch.{
  LocationHorizon, MetricValue, RankingKey, same_ranking_key, RankingRow, key_of, to_row,
  build_cohort, days_of, row_passes, CellRead, versions, rows_of, rows_if_read, ranking_run,
  rank_period,
}
use forecastiq.Ranking.Batch.Cohort.{has_ranking, OneRanking, rank_cohort-build_cohort}

same_ranking_key_sound : (a b : RankingKey) → same_ranking_key a b ≡ true → a ≡ b
same_ranking_key_sound a b h = ground arith

-- The cells of `SELECT DISTINCT location_id, horizon_minutes`.
abbrev pub same_cell : LocationHorizon → LocationHorizon → Bool
same_cell a b = (a.location_id == b.location_id) && (a.horizon_minutes == b.horizon_minutes)

same_cell_sound : (a b : LocationHorizon) → same_cell a b ≡ true → a ≡ b
same_cell_sound a b h = ground arith

abbrev pub cell_of : RankingKey → LocationHorizon
cell_of k = record { location_id = k.location_id; horizon_minutes = k.horizon_minutes }

abbrev pub latest :
    {F : Type 0} → RankingKey → List (Version (RankingRow F)) → Option (Version (RankingRow F))
latest = at_key same_ranking_key key_of

module _ {F : Type 0} (period : Period) (new_id : ℕ → ℕ) (cell : LocationHorizon) where
  latest-versions-unranked :
      (k : RankingKey) (rs : List (ProviderRanking F))
      → has_ranking k.provider_id rs ≡ false
      → latest k (versions period new_id cell rs) ≡ none
  unfolding versions to_row at_key has_ranking
  latest-versions-unranked k [] h = refl
  latest-versions-unranked k (r ∷ rs) h =
      ground (arith, h, latest-versions-unranked k rs (ground (arith, h)))

  latest-versions-other :
      (k : RankingKey) (rs : List (ProviderRanking F))
      → same_cell (cell_of k) cell ≡ false
      → latest k (versions period new_id cell rs) ≡ none
  unfolding versions to_row at_key
  latest-versions-other k [] h = refl
  latest-versions-other k (r ∷ rs) h = ground (arith, h, latest-versions-other k rs h)

  IsKeyed-versions :
      (rs : List (ProviderRanking F))
      → OneRanking rs
      → IsKeyed same_ranking_key key_of (versions period new_id cell rs)
  unfolding versions to_row
  IsKeyed-versions [] one = tt
  IsKeyed-versions (r ∷ rs) (first, one) =
      (latest-versions-unranked (to_row cell period r).key rs first, IsKeyed-versions rs one)

module _ {F : Type 0} ⦃f : Float F⦄ (period : Period) (reads : LocationHorizon → CellRead F) where
  abbrev pub run : LocationHorizon → CellRun (RankingRow F)
  run = ranking_run period reads

  latest-read-other :
      (k : RankingKey) (cell : LocationHorizon) (o : Option (List (MetricValue F)))
      → same_cell (cell_of k) cell ≡ false
      → latest k (read_rows run (rows_if_read period reads cell o)) ≡ none
  unfolding rows_of at_key
  latest-read-other k cell none h = refl
  latest-read-other k cell (some vals) h =
      latest-versions-other period (reads cell).new_id cell k
        (rank_cohort (build_cohort vals (days_of period))) h

  read-IsKeyed :
      (cell : LocationHorizon) (o : Option (List (MetricValue F)))
      → IsKeyed same_ranking_key key_of (read_rows run (rows_if_read period reads cell o))
  unfolding rows_of
  read-IsKeyed cell none = tt
  read-IsKeyed cell (some vals) =
      IsKeyed-versions period (reads cell).new_id cell
        (rank_cohort (build_cohort vals (days_of period)))
        (rank_cohort-build_cohort vals (days_of period)).0

  -- If no read of the batch fails and every transaction commits, and the cells are distinct: the number of
  -- rows is that of the rankings of all cells, and at every key that one of them has, that row is the one
  -- live row; every other key has the live rows that it had.
  pub rank_period-publishes :
      (cells : List LocationHorizon) (n : ℕ) (t t' : List (Version (RankingRow F)))
      → Distinct same_cell cells
      → rank_period period reads (some cells) t ≡ (t', ok n)
      → (n ≡ length (all_rows run cells))
        × ((k : RankingKey)
            → live same_ranking_key key_of k t'
              ≡ published (latest k (all_rows run cells)) (live same_ranking_key key_of k t))
  unfolding rank_period
  rank_period-publishes cells n t t' apart e =
      publish_cells-published same_ranking_key key_of run row_passes same_ranking_key_sound cells n
        t t'
        (Distinct-IsApart same_ranking_key key_of run same_cell same_cell_sound cell_of
          (λ cell. read-IsKeyed cell (reads cell).metrics)
          (λ k cell. latest-read-other k cell (reads cell).metrics) cells apart)
        e
