-- ===== src/Collection/Collect.antt =====
-- `CollectService.Collect` (internal/collection/collect.go), less its metrics, events, log and
-- audit. What the outside does in one collection (the clock, the adapter, the payload store, the
-- partitions, the transactions that fail, and what other collections commit between the lookup and
-- the transaction) is an argument.
pub mod Cases
pub mod Accounting
pub mod Dedup
pub mod Repeat
pub mod Recorded
pub mod Stores
pub mod Breaker
use forecastiq.Prelude.{
  ℕ, zero, suc, ◌+◌, ◌-◌, ◌%◌, Bool, true, false, not, ◌&&◌, ◌||◌, Option, none, some, List, [],
  ◌∷◌, ◌==◌, length, map, if◌then◌else◌, Result, ok, err, ◌>>=◌, ltb,
}
use forecastiq.Schedule.{truncate_hour, hour_length}
pub use forecastiq.Collection.World.{
  CollectInput, ForecastResult, TxFault, tx_fine, tx_begin, tx_insert, tx_batch, tx_complete,
  tx_commit, World, CollectError, inactive, circuit_evaluate, circuit_open_error, provider_fetch,
  dedup_lookup, ensure_partitions, persist_collection, persist_deduplicated, Outcomes, issued_at,
}
use forecastiq.Circuit.{Decision}
use forecastiq.Circuit.Service.{
  Rows, Fault, no_fault, DbError, service_evaluate, record_success, record_failure, rows_after,
}
use forecastiq.Collection.{
  CollectionStatus, pending, deduplicated, Outcome, outcome_success, outcome_partial,
  outcome_failed, outcome_timeout, outcome_rate_limited, outcome_auth_failed, RowCode, no_code,
  ForecastCollection, classify, successful,
}
use forecastiq.Collection.Store.{
  Store, StoreError, duplicate_collection, other_error, Snapshot, insert_batch, dedup_key,
  find_dedup, insert_collection, complete_collection,
}

unfoldable pub deduplicated_row : CollectInput → World → ForecastResult → ForecastCollection
deduplicated_row in_ w r = record {
  id = w.collection_id;
  provider_id = in_.provider_id;
  location_id = in_.location_id;
  provider_configuration_id = in_.config_id;
  requested_at = issued_at w;
  completed_at = some w.deduplicated_at;
  status = deduplicated;
  provider_model_run_time = r.model_run_time;
  records_received = r.records_received;
  snapshots_stored = 0;
  snapshots_deduplicated = r.records_received;
  snapshots_invalid = 0;
  error_code = no_code;
}

abbrev pub inserted_or :
    ForecastCollection → Store → Result StoreError (List ForecastCollection) → Outcomes
inserted_or coll s (ok table) = (record s { collections = table }, ok coll)
inserted_or coll s (err e) = (s, err persist_deduplicated)

unfoldable pub store_deduplicated : CollectInput → World → ForecastResult → Store → Outcomes
store_deduplicated in_ w r s =
    if w.dedup_insert_ok
    then inserted_or (deduplicated_row in_ w r) s
        (insert_collection (deduplicated_row in_ w r) s.collections)
    else (s, err persist_deduplicated)

-- The pending row of step 7.
unfoldable pub pending_row : CollectInput → World → ForecastResult → ForecastCollection
pending_row in_ w r = record {
  id = w.collection_id;
  provider_id = in_.provider_id;
  location_id = in_.location_id;
  provider_configuration_id = in_.config_id;
  requested_at = issued_at w;
  completed_at = none;
  status = pending;
  provider_model_run_time = r.model_run_time;
  records_received = 0;
  snapshots_stored = 0;
  snapshots_deduplicated = 0;
  snapshots_invalid = 0;
  error_code = no_code;
}

abbrev pub owned : CollectInput → Snapshot → Snapshot
owned in_ s = record s { provider_id = in_.provider_id; location_id = in_.location_id }

unfoldable pub stored_batch :
    CollectInput → CollectionStatus → List Snapshot → List Snapshot → List Snapshot × ℕ
stored_batch in_ status snaps table =
    if successful status then insert_batch (map (owned in_) snaps) table else (table, 0)

-- The row as `Complete` gets it.
unfoldable pub final_row :
    CollectInput → World → ForecastResult → CollectionStatus × RowCode → ℕ → ForecastCollection
final_row in_ w r status stored = record (pending_row in_ w r) {
  completed_at = some w.completed_at;
  status = status.0;
  records_received = r.records_received;
  snapshots_stored = stored;
  snapshots_deduplicated = length r.snapshots - stored;
  snapshots_invalid = r.invalid_count;
  error_code = status.1;
}

-- The `switch` on the outcome of the collection.
unfoldable pub record_outcome : CollectionStatus → Outcome → ℕ → ℕ → Rows → Rows
record_outcome status outcome id now rows =
    if successful status
    then rows_after rows (record_success no_fault rows id now)
    else elim outcome [
      | outcome_failed ↦ rows_after rows (record_failure no_fault rows id now)
      | outcome_timeout ↦ rows_after rows (record_failure no_fault rows id now)
      | _ ↦ rows
    ]

unfoldable pub tx_body :
    CollectInput
    → World
    → ForecastResult
    → CollectionStatus × RowCode
    → Store
    → Result StoreError (Store × ForecastCollection)
tx_body in_ w r status s = do
  inserted ← insert_collection (pending_row in_ w r) s.collections
  let batch = stored_batch in_ status.0 r.snapshots s.snapshots
  let coll = final_row in_ w r status batch.1
  table ← complete_collection coll inserted
  ok (
    record {
      collections = table;
      snapshots = batch.0;
      circuits = record_outcome status.0 r.outcome in_.provider_id w.completed_at s.circuits;
    },
    coll,
  )

-- A duplicate is seen at `Complete`, so an earlier fault hides it, and a later one does not.
unfoldable pub run_tx :
    TxFault
    → Result StoreError (Store × ForecastCollection)
    → Result StoreError (Store × ForecastCollection)
run_tx tx_fine body = body
run_tx tx_commit (ok _) = err other_error
run_tx tx_commit (err e) = err e
run_tx _ body = err other_error

-- A duplicate that another collection committed first is recorded as deduplicated.
unfoldable pub settled :
    CollectInput
    → World
    → ForecastResult
    → Store
    → Result StoreError (Store × ForecastCollection)
    → Outcomes
settled in_ w r s (ok (s', coll)) = (s', ok coll)
settled in_ w r s (err duplicate_collection) = store_deduplicated in_ w r s
settled in_ w r s (err other_error) = (s, err persist_collection)

unfoldable pub persist : CollectInput → World → ForecastResult → Store → Outcomes
persist in_ w r s =
    let status = classify r.outcome r.error_code (not r.has_payload || w.payload_writes) in
    if successful status.0 && (ltb 0 (length r.snapshots) && not w.partitions_ok)
    then (s, err ensure_partitions)
    else settled in_ w r s (run_tx w.tx_fault (tx_body in_ w r status s))

unfoldable pub usable : Outcome → Bool
usable outcome_success = true
usable outcome_partial = true
usable _ = false

unfoldable pub after_lookup :
    CollectInput → World → ForecastResult → Store → Option ForecastCollection → Outcomes
after_lookup in_ w r s (some existing) = store_deduplicated in_ w r s
after_lookup in_ w r s none = persist in_ w r (w.others s)

unfoldable pub after_fetch : CollectInput → World → ForecastResult → Store → Outcomes
after_fetch in_ w r s =
    if usable r.outcome
    then if w.lookup_ok
      then after_lookup in_ w r s (
          find_dedup in_.provider_id in_.location_id (dedup_key r.model_run_time (issued_at w))
            s.collections)
      else (s, err dedup_lookup)
    else persist in_ w r (w.others s)

unfoldable pub fetch : CollectInput → World → Option ForecastResult → Store → Outcomes
fetch in_ w none s = (s, err provider_fetch)
fetch in_ w (some r) s = after_fetch in_ w r s

unfoldable pub admitted : CollectInput → World → Result DbError (Rows × Decision) → Store → Outcomes
admitted in_ w (err e) s = (s, err circuit_evaluate)
admitted in_ w (ok (rows, decision)) s =
    if decision.allowed
    then fetch in_ w w.fetched (record s { circuits = rows })
    else (record s { circuits = rows }, err (circuit_open_error decision.retry_at))

unfoldable pub collect : CollectInput → World → Store → Outcomes
collect in_ w s =
    if not in_.provider_active
      || not in_.location_active
      || not in_.config_active
      || not in_.has_adapter
    then (s, err inactive)
    else admitted in_ w (service_evaluate w.evaluate_fault s.circuits in_.provider_id w.now) s
