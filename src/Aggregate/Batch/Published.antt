-- ===== src/Aggregate/Batch/Published.antt =====
-- What `AggregatePeriod` leaves in the table of metrics (internal/analysis/aggregate.go).
use forecastiq.Prelude.{
  ℕ, ◌≡◌, refl, true, false, Option, none, some, List, length, ok, arith, sym, subst, ap, ◌∙◌,
}
use forecastiq.Float.{Float}
use forecastiq.Aggregate.{Cell, Period, AccuracyMetric, compute_rows}
use forecastiq.Aggregate.Batch.{
  MetricKey, same_cell, same_metric_key, CellData, CellReads, key_of, row_passes, rows_of,
  rows_if_read, aggregate_run, aggregate_period,
}
use forecastiq.Aggregate.Batch.Keys.{metric_keys, metric_keys-Distinct, map-key_of-compute_rows}
use forecastiq.Publish.{Version, published, live, at_key, CellRun, read_rows, all_rows}
use forecastiq.Publish.Live.{IsKeyed}
use forecastiq.Publish.Keys.{has_key, Distinct, at_key-number-none, number-IsKeyed}
use forecastiq.Publish.Cells.{Distinct-IsApart, publish_cells-published}

same_cell_sound : (a b : Cell) → same_cell a b ≡ true → a ≡ b
same_cell_sound a b h = ground arith

same_metric_key_sound : (a b : MetricKey) → same_metric_key a b ≡ true → a ≡ b
same_metric_key_sound a b h = ground arith

metric_keys-other :
    (cell : Cell) (period : Period) (k : MetricKey)
    → same_cell k.cell cell ≡ false
    → has_key same_metric_key k (metric_keys cell period) ≡ false
unfolding has_key
metric_keys-other cell period k h = ground (arith, h)

module _ {F : Type 0} ⦃f : Float F⦄ (period : Period) (reads : Cell → CellReads F) where
  abbrev pub run : Cell → CellRun (AccuracyMetric F)
  run = aggregate_run period reads

  abbrev pub latest :
      MetricKey → List (Version (AccuracyMetric F)) → Option (Version (AccuracyMetric F))
  latest = at_key same_metric_key key_of

  -- The rows of a cell whose data were read have the 27 keys.
  rows_of-IsKeyed :
      (cell : Cell) (o : Option (CellData F))
      → IsKeyed same_metric_key key_of (read_rows run (rows_if_read period reads cell o))
  unfolding rows_of
  rows_of-IsKeyed cell none = tt
  rows_of-IsKeyed cell (some d) =
      number-IsKeyed same_metric_key key_of (reads cell).new_id 0
        (compute_rows cell period d.pairs d.counts d.scheduled d.success)
        (subst (Distinct same_metric_key)
          (sym (map-key_of-compute_rows cell period d.pairs d.counts d.scheduled d.success))
          (metric_keys-Distinct cell period))

  latest-read-other :
      (k : MetricKey) (cell : Cell) (o : Option (CellData F))
      → same_cell k.cell cell ≡ false
      → latest k (read_rows run (rows_if_read period reads cell o)) ≡ none
  unfolding rows_of at_key
  latest-read-other k cell none h = refl
  latest-read-other k cell (some d) h =
      at_key-number-none same_metric_key key_of (reads cell).new_id k 0
        (compute_rows cell period d.pairs d.counts d.scheduled d.success)
        (ap (has_key same_metric_key k)
            (map-key_of-compute_rows cell period d.pairs d.counts d.scheduled d.success)
          ∙ metric_keys-other cell period k h)

  -- If no read of the batch fails and every transaction commits, and the cells are distinct: the number of
  -- rows is that of the metrics of all cells, and at every key that one of them has, that row is the one
  -- live row; every other key has the live rows that it had.
  pub aggregate_period-publishes :
      (cells : List Cell) (n : ℕ) (t t' : List (Version (AccuracyMetric F)))
      → Distinct same_cell cells
      → aggregate_period period reads (some cells) t ≡ (t', ok n)
      → (n ≡ length (all_rows run cells))
        × ((k : MetricKey)
            → live same_metric_key key_of k t'
              ≡ published (latest k (all_rows run cells)) (live same_metric_key key_of k t))
  unfolding aggregate_period
  aggregate_period-publishes cells n t t' apart e =
      publish_cells-published same_metric_key key_of run row_passes same_metric_key_sound cells n t
        t'
        (Distinct-IsApart same_metric_key key_of run same_cell same_cell_sound (λ k. k.cell)
          (λ cell. rows_of-IsKeyed cell (reads cell).data_of)
          (λ k cell. latest-read-other k cell (reads cell).data_of) cells apart)
        e
