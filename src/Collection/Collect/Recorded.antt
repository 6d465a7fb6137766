-- ===== src/Collection/Collect/Recorded.antt =====
-- The snapshots that a collection leaves (internal/collection/collect.go,
-- adapters/persistence/collectionpg/snapshot.go).
use forecastiq.Prelude.{
  ℕ, ◌+◌, ◌≡◌, Bool, true, false, not, ◌&&◌, ◌||◌, some, List, [], ◌∷◌, length, map, refl, inl, inr,
  ◌⊎◌, Result, ok, err, arith, Bool-cases, ap, sym, ◌∙◌, subst,
}
use forecastiq.Circuit.Service.{Rows}
use forecastiq.Collection.{CollectionStatus, ForecastCollection, RowCode, successful}
use forecastiq.Collection.Store.{
  Store, StoreError, Snapshot, same_snapshot, has_snapshot, insert_batch,
}
use forecastiq.Collection.Collect.{
  CollectInput, World, ForecastResult, CollectError, Outcomes, store_deduplicated, inserted_or,
  deduplicated_row, stored_batch, owned, final_row, tx_body, collect,
}
use forecastiq.Collection.Collect.Accounting.{tx_body-final_row}
use forecastiq.Collection.Collect.Cases.{collect-cases, if-cases}

-- No two snapshots have the same key.
unfoldable pub distinct : List Snapshot → Bool
distinct [] = true
distinct (x ∷ xs) = not (has_snapshot x xs) && distinct xs

-- `after` has the keys of `before` and of `new` and no others, each once, and `n` rows more than `before`.
abbrev pub IsUnion : (new before after : List Snapshot) → ℕ → Type 0
IsUnion new before after n =
    ((x : Snapshot) → has_snapshot x after ≡ (has_snapshot x new || has_snapshot x before))
    × (distinct after ≡ true)
    × (length after ≡ length before + n)

has_snapshot_same :
    (x s : Snapshot) (table : List Snapshot)
    → same_snapshot x s ≡ true
    → has_snapshot x table ≡ has_snapshot s table
unfolding has_snapshot same_snapshot
has_snapshot_same x s [] h = refl
has_snapshot_same x s (r ∷ rs) h = ground (arith, h, has_snapshot_same x s rs h)

insert_batch-has_snapshot :
    (x : Snapshot) (new table : List Snapshot)
    → has_snapshot x (insert_batch new table).0 ≡ (has_snapshot x new || has_snapshot x table)
unfolding insert_batch has_snapshot
insert_batch-has_snapshot x [] table = refl
insert_batch-has_snapshot x (s ∷ ss) table = ground (
  arith,
  insert_batch-has_snapshot x ss table,
  insert_batch-has_snapshot x ss (s ∷ table),
  has_snapshot_same x s table,
)

insert_batch-distinct :
    (new table : List Snapshot) → distinct table ≡ true → distinct (insert_batch new table).0 ≡ true
unfolding insert_batch distinct
insert_batch-distinct [] table d = d
insert_batch-distinct (s ∷ ss) table d =
    ground (arith, d, insert_batch-distinct ss table, insert_batch-distinct ss (s ∷ table))

insert_batch-length :
    (new table : List Snapshot)
    → length (insert_batch new table).0 ≡ length table + (insert_batch new table).1
unfolding insert_batch
insert_batch-length [] table = omega arith
insert_batch-length (s ∷ ss) table =
    ground (arith, insert_batch-length ss table, insert_batch-length ss (s ∷ table))

insert_batch-IsUnion :
    (new table : List Snapshot)
    → distinct table ≡ true
    → IsUnion new table (insert_batch new table).0 (insert_batch new table).1
insert_batch-IsUnion new table d = (
  λ x. insert_batch-has_snapshot x new table,
  insert_batch-distinct new table d,
  insert_batch-length new table,
)

-- A store that the evaluation of the breaker and the collections that commit meanwhile make of `s`.
pub data Reached (w : World) (s : Store) : Store → Type 0 where
  start : Reached w s s
  counted : {t : Store} (rows : Rows) → Reached w s t → Reached w s (record t { circuits = rows })
  committed : {t : Store} → Reached w s t → Reached w s (w.others t)

abbrev pub usable_row : Result CollectError ForecastCollection → Bool
usable_row (ok c) = successful c.status
usable_row (err e) = false

abbrev pub stored_count : Result CollectError ForecastCollection → ℕ
stored_count (ok c) = c.snapshots_stored
stored_count (err e) = 0

-- A usable row has added the snapshots of the result that are new, and counts them; any other end adds none.
abbrev pub IsRecorded : CollectInput → World → Store → Outcomes → Type 0
IsRecorded in_ w s out =
    (before : Store) × Reached w s before
    × (((usable_row out.1 ≡ true)
          × ((r : ForecastResult) × (w.fetched ≡ some r)
              × IsUnion (map (owned in_) r.snapshots) before.snapshots out.0.snapshots
                  (stored_count out.1)))
        ⊎ ((usable_row out.1 ≡ false)
            × (stored_count out.1 ≡ 0)
            × (out.0.snapshots ≡ before.snapshots)
            × (distinct out.0.snapshots ≡ true)))

tx_body-snapshots :
    (in_ : CollectInput) (w : World) (r : ForecastResult) (status : CollectionStatus × RowCode)
    (s s' : Store) (c : ForecastCollection)
    → tx_body in_ w r status s ≡ ok (s', c)
    → s'.snapshots ≡ (stored_batch in_ status.0 r.snapshots s.snapshots).0
unfolding tx_body
tx_body-snapshots in_ w r status s s' c h = ground (arith)

module _ (in_ : CollectInput) (w : World) (s : Store) where
  abbrev IsReached : Store → Type 0
  IsReached t = Reached w s t × (distinct t.snapshots ≡ true)

  inserted_or-IsRecorded :
      (t : Store) (r : ForecastResult) (x : Result StoreError (List ForecastCollection))
      → IsReached t
      → IsRecorded in_ w s (inserted_or (deduplicated_row in_ w r) t x)
  unfolding deduplicated_row successful
  inserted_or-IsRecorded t r (ok table) (reach, d) = (t, reach, inr (refl, refl, refl, d))
  inserted_or-IsRecorded t r (err e) (reach, d) = (t, reach, inr (refl, refl, refl, d))

  store_deduplicated-IsRecorded :
      (t : Store) (r : ForecastResult)
      → IsReached t
      → IsRecorded in_ w s (store_deduplicated in_ w r t)
  unfolding store_deduplicated
  store_deduplicated-IsRecorded t r reached =
      if-cases (IsRecorded in_ w s) w.dedup_insert_ok _ _ (inserted_or-IsRecorded t r _ reached)
        (t, reached.0, inr (refl, refl, refl, reached.1))

  final_row-IsRecorded :
      (t s' : Store) (r : ForecastResult) (status : CollectionStatus × RowCode)
      → IsReached t
      → w.fetched ≡ some r
      → s'.snapshots ≡ (stored_batch in_ status.0 r.snapshots t.snapshots).0
      → IsRecorded in_ w s
          (s', ok (final_row in_ w r status (stored_batch in_ status.0 r.snapshots t.snapshots).1))
  unfolding stored_batch final_row
  final_row-IsRecorded t s' r status (reach, d) e kept = elim (Bool-cases (successful status.0)) [
    | inl good ↦
        let new = map (owned in_) r.snapshots in
        let kept' : s'.snapshots ≡ (insert_batch new t.snapshots).0 = ground (arith, kept, good) in
        rw good (
          t,
          reach,
          inl (
            refl,
            (
              r,
              e,
              subst (λ z. IsUnion new t.snapshots z (insert_batch new t.snapshots).1) (sym kept')
                  (insert_batch-IsUnion new t.snapshots d),
            ),
          ),
        )
    | inr bad ↦
        let kept' : s'.snapshots ≡ t.snapshots = ground (arith, kept, bad) in
        rw bad (t, reach, inr (refl, refl, kept', ap distinct kept' ∙ d))
  ]

  -- Whatever fails, and whatever other collections commit meanwhile as long as they keep the keys distinct too:
  -- if a collection returns a usable row, the snapshots it leaves have the keys that were there and the keys
  -- of the adapter's snapshots, under the collection's provider and location, and no others, each once, and the
  -- row counts as stored by how many they have grown; if it ends in any other way, it adds no snapshot and
  -- counts none as stored.
  pub collect-IsRecorded :
      ((t : Store) → distinct t.snapshots ≡ true → distinct (w.others t).snapshots ≡ true)
      → distinct s.snapshots ≡ true
      → IsRecorded in_ w s (collect in_ w s)
  collect-IsRecorded others d =
      collect-cases (IsRecorded in_ w s) IsReached in_ w
        (λ t reached e. (t, reached.0, inr (refl, refl, refl, reached.1)))
        (λ t reached rows. (counted rows reached.0, reached.1))
        (λ t reached. (committed reached.0, others t reached.1))
        (λ t reached r _. store_deduplicated-IsRecorded t r reached)
        (λ t reached r e status s' c _ h.
          subst (λ z. IsRecorded in_ w s (s', ok z))
            (sym (tx_body-final_row in_ w r status t s' c h))
            (final_row-IsRecorded t s' r status reached e
              (tx_body-snapshots in_ w r status t s' c h)))
        s (start, d)
