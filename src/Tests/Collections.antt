-- ===== src/Tests/Collections.antt =====
-- Collections at concrete inputs.
use forecastiq.Prelude.{◌≡◌, refl, true, none, some, [], ◌∷◌, arith, ok}
use forecastiq.Circuit.{run, new_provider_circuit, evaluate, fails}
use forecastiq.Circuit.Service.{
  Rows, no_rows, no_fault, service_evaluate, evaluate_circuit, run_tx, get,
}
use forecastiq.Collection.{
  ForecastCollection, success, outcome_success, no_code, classify, classify_outcome,
  accounting_holds, successful,
}
use forecastiq.Collection.Store.{
  Store, Snapshot, find_dedup, insert_collection, has_id, insert_batch, has_snapshot,
  complete_collection, row_checks, in_order, violates_index, update_collection, completed_row,
  dedup_key,
}
use forecastiq.Collection.Collect.{
  CollectInput, World, ForecastResult, tx_fine, collect, record_outcome, admitted, fetch,
  after_fetch, usable, after_lookup, persist, tx_body, pending_row, stored_batch, final_row,
  settled,
}
use forecastiq.Collection.Collect
use forecastiq.Collection.Collect.Accounting.{Accounted, collect-accounting_holds}
use forecastiq.Collection.Collect.Dedup.{one_per_run, collect-one_per_run}
use forecastiq.Collection.Collect.Recorded.{distinct, IsRecorded, collect-IsRecorded}
use forecastiq.Collection.Collect.Repeat.{adds_nothing, collect-repeat}

abbrev input : CollectInput
input = record {
  provider_id = 3;
  provider_active = true;
  location_id = 4;
  location_active = true;
  config_id = 5;
  config_active = true;
  has_adapter = true;
}

abbrev snapshot : Snapshot
snapshot = record {
  provider_id = 3;
  location_id = 4;
  issued_at = 3600000000000;
  target_time = 7200000000000;
}

abbrev result : ForecastResult
result = record {
  outcome = outcome_success;
  model_run_time = none;
  snapshots = snapshot ∷ [];
  records_received = 2;
  invalid_count = 1;
  error_code = no_code;
  has_payload = true;
}

abbrev world : World
world = record {
  now = 7200000000005;
  collection_id = 11;
  evaluate_fault = no_fault;
  fetched = some result;
  lookup_ok = true;
  payload_writes = true;
  completed_at = 7200000000009;
  partitions_ok = true;
  others = λ s. s;
  tx_fault = tx_fine;
  deduplicated_at = 7200000000008;
  dedup_insert_ok = true;
}

abbrev again : World
again = record world { collection_id = 12; now = 7200000000100 }

abbrev store : Store
store = record { collections = []; snapshots = []; circuits = no_rows }

abbrev row : ForecastCollection
row = record {
  id = 11;
  provider_id = 3;
  location_id = 4;
  provider_configuration_id = 5;
  requested_at = 3600000000000;
  completed_at = some 7200000000009;
  status = success;
  provider_model_run_time = none;
  records_received = 2;
  snapshots_stored = 1;
  snapshots_deduplicated = 0;
  snapshots_invalid = 1;
  error_code = no_code;
}

result-Accounted : (r : ForecastResult) → some result ≡ some r → Accounted r
result-Accounted r h = ground arith

collected : (collect input world store).1 ≡ ok row
unfolding collect service_evaluate evaluate_circuit run_tx get evaluate admitted fetch after_fetch
    usable find_dedup after_lookup persist classify classify_outcome successful tx_body
    insert_collection has_id pending_row stored_batch insert_batch has_snapshot final_row
    complete_collection row_checks in_order accounting_holds violates_index update_collection
    completed_row settled dedup_key new_provider_circuit Collect.run_tx
collected = refl

collect-accounting_holds_example : accounting_holds row ≡ true
collect-accounting_holds_example =
    collect-accounting_holds input world store result-Accounted row collected

collect-IsRecorded_example : IsRecorded input world store (collect input world store)
unfolding distinct
collect-IsRecorded_example = collect-IsRecorded input world store (λ t d. d) refl

again-same :
    (r : ForecastResult)
    → some result ≡ some r
    → (usable r.outcome ≡ true)
      × (dedup_key r.model_run_time 3600000000000 ≡ dedup_key none 3600000000000)
unfolding usable dedup_key
again-same r h = ground arith

collect-repeat_example :
    ((collect input again (collect input world store).0).0.snapshots
      ≡ (collect input world store).0.snapshots)
    × (adds_nothing (collect input again (collect input world store).0).1 ≡ true)
unfolding successful
collect-repeat_example = collect-repeat input world again store row collected refl again-same

collect-one_per_run_example : one_per_run (collect input world store).0.collections ≡ true
unfolding one_per_run
collect-one_per_run_example = collect-one_per_run input world store (λ t h. h) refl

abbrev failing_circuit : Rows
failing_circuit id =
    some (run (new_provider_circuit id) (fails 1 ∷ fails 2 ∷ fails 3 ∷ fails 4 ∷ fails 5 ∷ []))

abbrev early : World
early = record world { now = 60 }

abbrev tripped_store : Store
tripped_store = record store { circuits = failing_circuit }
