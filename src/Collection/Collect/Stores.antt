-- ===== src/Collection/Collect/Stores.antt =====
-- The collection that meets no fault (internal/collection/collect.go).
use forecastiq.Prelude.{
  ℕ, ◌≤◌, ◌≡◌, Bool, true, false, ◌&&◌, none, some, List, [], ◌∷◌, map, refl, ok, arith, is_some,
  ap, ◌∙◌,
}
use forecastiq.Circuit.{circuit_closed, evaluate}
use forecastiq.Circuit.Service.{
  Rows, DbError, no_fault, service_evaluate, evaluate_circuit, get, state_eq,
}
use forecastiq.Circuit.Service
use forecastiq.Collection.{
  Outcome, classify_outcome, CollectionStatus, ForecastCollection, RowCode, accounting_holds,
  successful, classify,
}
use forecastiq.Collection.Store.{
  Store, insert_batch, insert_collection, complete_collection, find_dedup, has_id, dedup_key,
  row_checks, in_order, is_pending, violates_index, update_collection,
}
use forecastiq.Collection.Collect.{
  CollectInput, World, ForecastResult, tx_fine, usable, issued_at, pending_row, stored_batch, owned,
  final_row, record_outcome, tx_body, run_tx, settled, persist, after_lookup, after_fetch, fetch,
  admitted, collect,
}
use forecastiq.Collection.Collect.Accounting.{Accounted, final_row-counted, stored_batch-le}

violates_index-found :
    (c : ForecastCollection) (rows : List ForecastCollection)
    → is_some (
        find_dedup c.provider_id c.location_id
          (dedup_key c.provider_model_run_time c.requested_at)
          rows)
      ≡ false
    → violates_index c rows ≡ false
unfolding violates_index find_dedup
violates_index-found c [] h = refl
violates_index-found c (r ∷ rs) h = ground (arith, violates_index-found c rs)

complete-fine :
    (p c : ForecastCollection) (rows : List ForecastCollection)
    → p.id ≡ c.id
    → row_checks c ≡ true
    → is_some (
        find_dedup c.provider_id c.location_id
          (dedup_key c.provider_model_run_time c.requested_at)
          rows)
      ≡ false
    → complete_collection c (p ∷ rows) ≡ ok (update_collection c (p ∷ rows))
unfolding complete_collection violates_index
complete-fine p c rows e a h = ground (arith, violates_index-found c rows h)

final_row-checks :
    (in_ : CollectInput) (w : World) (r : ForecastResult) (status : CollectionStatus × RowCode)
    (n : ℕ)
    → issued_at w ≤ w.completed_at
    → is_pending status.0 ≡ false
    → accounting_holds (final_row in_ w r status n) ≡ true
    → row_checks (final_row in_ w r status n) ≡ true
unfolding row_checks in_order final_row pending_row
final_row-checks in_ w r status n later done a = ground (arith, later, done, a)

classify_done : (o : Outcome) (c : RowCode) (b : Bool) → is_pending (classify o c b).0 ≡ false
unfolding classify classify_outcome
classify_done o c b = ground arith

-- What the transaction leaves when nothing fails.
stored :
    CollectInput
    → World
    → ForecastResult
    → CollectionStatus × RowCode
    → Store
    → Store × ForecastCollection
stored in_ w r status s =
    let batch = stored_batch in_ status.0 r.snapshots s.snapshots in
    (
      record {
        collections =
            update_collection (final_row in_ w r status batch.1)
              (pending_row in_ w r ∷ s.collections);
        snapshots = batch.0;
        circuits = record_outcome status.0 r.outcome in_.provider_id w.completed_at s.circuits;
      },
      final_row in_ w r status batch.1,
    )

tx_body-stored :
    (in_ : CollectInput) (w : World) (r : ForecastResult) (status : CollectionStatus × RowCode)
    (s : Store)
    → issued_at w ≤ w.completed_at
    → is_pending status.0 ≡ false
    → has_id w.collection_id s.collections ≡ false
    → Accounted r
    → is_some (
        find_dedup in_.provider_id in_.location_id
          (dedup_key r.model_run_time (issued_at w))
          s.collections)
      ≡ false
    → tx_body in_ w r status s ≡ ok (stored in_ w r status s)
unfolding tx_body insert_collection stored final_row pending_row row_checks in_order successful
tx_body-stored in_ w r status s later done fresh a none_found = ground (
  arith,
  complete-fine (pending_row in_ w r)
      (final_row in_ w r status (stored_batch in_ status.0 r.snapshots s.snapshots).1) s.collections
      refl
      (final_row-checks in_ w r status (stored_batch in_ status.0 r.snapshots s.snapshots).1 later
        done
        (final_row-counted in_ w r status (stored_batch in_ status.0 r.snapshots s.snapshots).1
          (stored_batch-le in_ status.0 r.snapshots s.snapshots) a))
      none_found,
)

service_evaluate-closed :
    (rows : Rows) (id now : ℕ)
    → (Service.found id (rows id)).state ≡ circuit_closed
    → service_evaluate no_fault rows id now
      ≡ ok (rows, record { allowed = true; probe = false; state = circuit_closed; retry_at = none })
unfolding service_evaluate evaluate_circuit get evaluate Service.run_tx
service_evaluate-closed rows id now h = ground arith

persist-stored :
    (in_ : CollectInput) (w : World) (r : ForecastResult) (s : Store)
    → w.payload_writes ≡ true
    → w.partitions_ok ≡ true
    → w.tx_fault ≡ tx_fine
    → issued_at w ≤ w.completed_at
    → has_id w.collection_id s.collections ≡ false
    → Accounted r
    → is_some (
        find_dedup in_.provider_id in_.location_id
          (dedup_key r.model_run_time (issued_at w))
          s.collections)
      ≡ false
    → let x = stored in_ w r (classify r.outcome r.error_code true) s in
      persist in_ w r s ≡ (x.0, ok x.1)
unfolding persist settled run_tx
persist-stored in_ w r s pay part fine later fresh a none_found = ground (
  arith,
  tx_body-stored in_ w r (classify r.outcome r.error_code true) s later
      (classify_done r.outcome r.error_code true) fresh a none_found,
)

abbrev pub all_active : CollectInput → Bool
all_active in_ =
    in_.provider_active && (in_.location_active && (in_.config_active && in_.has_adapter))

fetch-persist :
    (in_ : CollectInput) (w : World) (r : ForecastResult) (s : Store)
    → usable r.outcome ≡ true
    → w.lookup_ok ≡ true
    → w.others s ≡ s
    → is_some (
        find_dedup in_.provider_id in_.location_id
          (dedup_key r.model_run_time (issued_at w))
          s.collections)
      ≡ false
    → fetch in_ w (some r) s ≡ persist in_ w r s
unfolding fetch after_fetch after_lookup
fetch-persist in_ w r s u looks alone none_found = ground (arith, ap (persist in_ w r) alone)

collect-fetch :
    (in_ : CollectInput) (w : World) (r : ForecastResult) (s : Store)
    → all_active in_ ≡ true
    → w.evaluate_fault ≡ no_fault
    → (Service.found in_.provider_id (s.circuits in_.provider_id)).state ≡ circuit_closed
    → w.fetched ≡ some r
    → collect in_ w s ≡ fetch in_ w (some r) s
unfolding collect admitted
collect-fetch in_ w r s active fine closed fetches =
    ground (arith, service_evaluate-closed s.circuits in_.provider_id w.now closed)

usable-successful :
    (o : Outcome) (c : RowCode) → usable o ≡ true → successful (classify o c true).0 ≡ true
unfolding usable successful classify classify_outcome
usable-successful o c h = ground arith

stored-successful :
    (in_ : CollectInput) (w : World) (r : ForecastResult) (status : CollectionStatus × RowCode)
    (s : Store)
    → successful status.0 ≡ true
    → let batch = insert_batch (map (owned in_) r.snapshots) s.snapshots in
      ((stored in_ w r status s).1 ≡ final_row in_ w r status batch.1)
      × ((stored in_ w r status s).0.snapshots ≡ batch.0)
unfolding stored stored_batch
stored-successful in_ w r status s h = rw h (refl, refl)

-- If the provider, location and configuration are active, the breaker is closed, the adapter returns a usable
-- result that counts each record, nothing fails and no other collection commits in between, the clock has not
-- gone back behind the issuance instant, and the key and the id are new, then the collection returns the row of the adapter's outcome, which is usable, and adds
-- the snapshots whose keys are new.
pub collect-stores :
    (in_ : CollectInput) (w : World) (r : ForecastResult) (s : Store)
    → all_active in_ ≡ true
    → w.evaluate_fault ≡ no_fault
    → (Service.found in_.provider_id (s.circuits in_.provider_id)).state ≡ circuit_closed
    → w.fetched ≡ some r
    → usable r.outcome ≡ true
    → w.lookup_ok ≡ true
    → w.payload_writes ≡ true
    → w.partitions_ok ≡ true
    → w.tx_fault ≡ tx_fine
    → w.others s ≡ s
    → issued_at w ≤ w.completed_at
    → has_id w.collection_id s.collections ≡ false
    → Accounted r
    → is_some (
        find_dedup in_.provider_id in_.location_id
          (dedup_key r.model_run_time (issued_at w))
          s.collections)
      ≡ false
    → let batch = insert_batch (map (owned in_) r.snapshots) s.snapshots in
      ((collect in_ w s).1 ≡ ok (final_row in_ w r (classify r.outcome r.error_code true) batch.1))
      × (successful (classify r.outcome r.error_code true).0 ≡ true)
      × ((collect in_ w s).0.snapshots ≡ batch.0)
collect-stores in_ w r s active fine closed fetches u looks pay part commits alone later fresh a
      none_found =
    let status = classify r.outcome r.error_code true in
    let good = usable-successful r.outcome r.error_code u in
    let kept = stored-successful in_ w r status s good in
    let all =
      collect-fetch in_ w r s active fine closed fetches
      ∙ fetch-persist in_ w r s u looks alone none_found
      ∙ persist-stored in_ w r s pay part commits later fresh a none_found in
    (ap (λ x. x.1) all ∙ ap ok kept.0, good, ap (λ x. x.0.snapshots) all ∙ kept.1)
