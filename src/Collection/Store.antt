-- ===== src/Collection/Store.antt =====
-- The rows of collections and snapshots (adapters/persistence/collectionpg/collection.go,
-- snapshot.go), with the constraints of their tables that the code relies on. A snapshot is the key
-- that its unique index is on.
use forecastiq.Prelude.{
  ℕ, suc, Bool, false, not, ◌&&◌, ◌||◌, Option, none, some, List, [], ◌∷◌, ◌==◌, if◌then◌else◌,
  Result, ok, err, true, leb, is_some,
}
use forecastiq.Collection.{
  CollectionStatus, pending, ForecastCollection, successful, accounting_holds,
}
use forecastiq.Circuit.Service.{Rows}

pub record Snapshot : Type 0 where
  pub provider_id : ℕ
  pub location_id : ℕ
  pub issued_at : ℕ
  pub target_time : ℕ

unfoldable pub same_snapshot : Snapshot → Snapshot → Bool
same_snapshot a b =
    (a.provider_id == b.provider_id)
    && (a.location_id == b.location_id)
    && (a.issued_at == b.issued_at)
    && (a.target_time == b.target_time)

unfoldable pub has_snapshot : Snapshot → List Snapshot → Bool
has_snapshot s [] = false
has_snapshot s (r ∷ rs) = same_snapshot s r || has_snapshot s rs

-- `INSERT … ON CONFLICT DO NOTHING` of several rows: the rows after it, and how many it added.
unfoldable pub insert_batch : List Snapshot → List Snapshot → List Snapshot × ℕ
insert_batch [] table = (table, 0)
insert_batch (s ∷ ss) table =
    let added = insert_batch ss (s ∷ table) in
    let skipped = insert_batch ss table in
    if has_snapshot s table then skipped else (added.0, suc added.1)

-- `COALESCE(provider_model_run_time, requested_at)`
unfoldable pub dedup_key : Option ℕ → ℕ → ℕ
dedup_key none requested_at = requested_at
dedup_key (some t) requested_at = t

-- A row of the partial unique index `forecast_collections_dedup`.
unfoldable pub in_index : (provider_id location_id key : ℕ) → ForecastCollection → Bool
in_index provider_id location_id key c =
    (c.provider_id == provider_id)
    && (c.location_id == location_id)
    && (dedup_key c.provider_model_run_time c.requested_at == key)
    && successful c.status

unfoldable pub find_dedup :
    (provider_id location_id key : ℕ) → List ForecastCollection → Option ForecastCollection
find_dedup provider_id location_id key [] = none
find_dedup provider_id location_id key (c ∷ cs) =
    if in_index provider_id location_id key c
    then some c
    else find_dedup provider_id location_id key cs

unfoldable pub has_id : ℕ → List ForecastCollection → Bool
has_id id [] = false
has_id id (c ∷ cs) = (c.id == id) || has_id id cs

pub data StoreError : Type 0 where
  duplicate_collection : StoreError
  other_error : StoreError

abbrev pub is_pending : CollectionStatus → Bool
is_pending pending = true
is_pending _ = false

-- `CHECK (completed_at IS NULL OR completed_at >= requested_at)`
unfoldable pub in_order : ForecastCollection → Bool
in_order c = elim c.completed_at [ none ↦ true | some t ↦ leb c.requested_at t ]

-- The CHECK constraints of a row of `forecast_collections`.
unfoldable pub row_checks : ForecastCollection → Bool
row_checks c =
    (not (is_pending c.status) || not (is_some c.completed_at))
    && in_order c
    && (accounting_holds c || not (successful c.status))

-- The checks, and the primary key.
unfoldable pub insert_collection :
    ForecastCollection → List ForecastCollection → Result StoreError (List ForecastCollection)
insert_collection c table =
    if not (row_checks c) || has_id c.id table then err other_error else ok (c ∷ table)

-- The columns that `Complete` writes.
unfoldable pub completed_row : ForecastCollection → ForecastCollection → ForecastCollection
completed_row c r = record r {
  completed_at = c.completed_at;
  status = c.status;
  records_received = c.records_received;
  snapshots_stored = c.snapshots_stored;
  snapshots_deduplicated = c.snapshots_deduplicated;
  snapshots_invalid = c.snapshots_invalid;
  error_code = c.error_code;
}

unfoldable pub update_collection :
    ForecastCollection → List ForecastCollection → List ForecastCollection
update_collection c [] = []
update_collection c (r ∷ rs) =
    let rest = update_collection c rs in if r.id == c.id then completed_row c r ∷ rest else r ∷ rest

-- Another row stands in the index at the key of this one.
unfoldable pub violates_index : ForecastCollection → List ForecastCollection → Bool
violates_index c [] = false
violates_index c (r ∷ rs) =
    (not (r.id == c.id)
      && in_index c.provider_id c.location_id (dedup_key c.provider_model_run_time c.requested_at)
          r)
    || violates_index c rs

-- `Complete`, of a row whose other columns are those of `c`: the checks, the unique index, and the update.
unfoldable pub complete_collection :
    ForecastCollection → List ForecastCollection → Result StoreError (List ForecastCollection)
complete_collection c table =
    if not (row_checks c)
    then err other_error
    else if successful c.status && violates_index c table
    then err duplicate_collection
    else ok (update_collection c table)

pub record Store : Type 0 where
  pub collections : List ForecastCollection
  pub snapshots : List Snapshot
  pub circuits : Rows
