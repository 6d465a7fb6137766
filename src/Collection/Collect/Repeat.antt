-- ===== src/Collection/Collect/Repeat.antt =====
-- A collection of a model run that is already there (internal/collection/collect.go).
use forecastiq.Prelude.{
  ℕ, ◌≡◌, Bool, true, false, Option, none, some, List, ◌∷◌, refl, if◌then◌else◌, Result, ok, err,
  arith, is_some, ◌&&◌, ◌==◌,
}
use forecastiq.Circuit.{Decision}
use forecastiq.Circuit.Service.{Rows, DbError, service_evaluate}
use forecastiq.Collection.{CollectionStatus, deduplicated, ForecastCollection, RowCode, successful}
use forecastiq.Collection.Store.{
  Store, StoreError, Snapshot, insert_collection, complete_collection, find_dedup, in_index,
  dedup_key, update_collection, completed_row,
}
use forecastiq.Collection.Collect.{
  CollectInput, World, ForecastResult, Outcomes, CollectError, circuit_open_error, usable,
  issued_at, store_deduplicated, inserted_or, deduplicated_row, pending_row, stored_batch,
  final_row, tx_body, after_lookup, after_fetch, fetch, admitted, collect,
}
use forecastiq.Collection.Collect.Cases.{collect-cases, if-cases}

unfoldable found : (provider location key : ℕ) → Store → Bool
found provider location key s = is_some (find_dedup provider location key s.collections)

-- A usable collection that is returned can be found at its key.
IsFound : CollectInput → Outcomes → Type 0
IsFound in_ out =
    (c : ForecastCollection)
    → out.1 ≡ ok c
    → successful c.status ≡ true
    → found in_.provider_id in_.location_id (dedup_key c.provider_model_run_time c.requested_at)
        out.0
      ≡ true

inserted_or-IsFound :
    (in_ : CollectInput) (d : ForecastCollection) (s : Store)
    (x : Result StoreError (List ForecastCollection))
    → successful d.status ≡ false
    → IsFound in_ (inserted_or d s x)
unfolding IsFound
inserted_or-IsFound in_ d s (ok table) h c e u = ground arith
inserted_or-IsFound in_ d s (err e') h c e u = ground arith

store_deduplicated-IsFound :
    (in_ : CollectInput) (w : World) (r : ForecastResult) (s : Store)
    → IsFound in_ (store_deduplicated in_ w r s)
unfolding store_deduplicated IsFound deduplicated_row successful
store_deduplicated-IsFound in_ w r s c e u = ground (
  arith,
  inserted_or-IsFound in_ (deduplicated_row in_ w r) s
      (insert_collection (deduplicated_row in_ w r) s.collections) refl c,
)

complete-found :
    (p c : ForecastCollection) (cs table : List ForecastCollection) (s : Store)
    → p.id ≡ c.id
    → p.provider_id ≡ c.provider_id
    → p.location_id ≡ c.location_id
    → p.requested_at ≡ c.requested_at
    → p.provider_model_run_time ≡ c.provider_model_run_time
    → complete_collection c (p ∷ cs) ≡ ok table
    → successful c.status ≡ true
    → is_some (
        find_dedup c.provider_id c.location_id
          (dedup_key c.provider_model_run_time c.requested_at)
          table)
      ≡ true
unfolding complete_collection update_collection completed_row find_dedup in_index
complete-found p c cs table s e1 e2 e3 e4 e5 h u = ground arith

tx_body-IsFound :
    (in_ : CollectInput) (w : World) (r : ForecastResult) (status : CollectionStatus × RowCode)
    (s s' : Store) (c : ForecastCollection)
    → tx_body in_ w r status s ≡ ok (s', c)
    → IsFound in_ (s', ok c)
unfolding tx_body insert_collection final_row pending_row IsFound found
tx_body-IsFound in_ w r status s s' c h c' e u = ground (
  arith,
  complete-found (pending_row in_ w r)
      (final_row in_ w r status (stored_batch in_ status.0 r.snapshots s.snapshots).1) s.collections
      s'.collections s refl refl refl refl refl,
)

collect-IsFound : (in_ : CollectInput) (w : World) (s : Store) → IsFound in_ (collect in_ w s)
unfolding IsFound
collect-IsFound in_ w s =
    collect-cases (IsFound in_) (λ t. Unit {0}) in_ w (λ t _ e. failing t e) (λ t _ rows. tt)
      (λ t _. tt) (λ t _ r _. store_deduplicated-IsFound in_ w r t)
      (λ t _ r e status s' c _ h. tx_body-IsFound in_ w r status t s' c h) s tt
  where
    failing : (t : Store) (e : CollectError) → IsFound in_ (t, err e)
    failing t e c h u = ground arith

abbrev pub is_deduplicated : CollectionStatus → Bool
is_deduplicated deduplicated = true
is_deduplicated _ = false

-- An error, or a deduplicated row that counts nothing as stored.
abbrev pub adds_nothing : Result CollectError ForecastCollection → Bool
adds_nothing (ok c) = is_deduplicated c.status && (c.snapshots_stored == 0)
adds_nothing (err e) = true

IsRepeat : List Snapshot → Outcomes → Type 0
IsRepeat snaps out = (out.0.snapshots ≡ snaps) × (adds_nothing out.1 ≡ true)

store_deduplicated-IsRepeat :
    (in_ : CollectInput) (w : World) (r : ForecastResult) (s : Store)
    (x : Result StoreError (List ForecastCollection))
    → IsRepeat s.snapshots (inserted_or (deduplicated_row in_ w r) s x)
unfolding IsRepeat deduplicated_row
store_deduplicated-IsRepeat in_ w r s (ok table) = (refl, refl)
store_deduplicated-IsRepeat in_ w r s (err e') = (refl, refl)

after_fetch-IsRepeat :
    (in_ : CollectInput) (w : World) (r : ForecastResult) (s : Store)
    → usable r.outcome ≡ true
    → found in_.provider_id in_.location_id (dedup_key r.model_run_time (issued_at w)) s ≡ true
    → IsRepeat s.snapshots (after_fetch in_ w r s)
unfolding after_fetch found after_lookup store_deduplicated IsRepeat
after_fetch-IsRepeat in_ w r s u h = ground (
  arith,
  store_deduplicated-IsRepeat in_ w r s
      (insert_collection (deduplicated_row in_ w r) s.collections),
)

fetch-IsRepeat :
    (in_ : CollectInput) (w : World) (o : Option ForecastResult) (s : Store)
    → ((r : ForecastResult)
        → o ≡ some r
        → (usable r.outcome ≡ true)
          × (found in_.provider_id in_.location_id (dedup_key r.model_run_time (issued_at w)) s
              ≡ true))
    → IsRepeat s.snapshots (fetch in_ w o s)
unfolding fetch IsRepeat
fetch-IsRepeat in_ w none s h = (refl, refl)
fetch-IsRepeat in_ w (some r) s h = after_fetch-IsRepeat in_ w r s (h r refl).0 (h r refl).1

admitted-IsRepeat :
    (in_ : CollectInput) (w : World) (d : Result DbError (Rows × Decision)) (s : Store)
    → ((r : ForecastResult)
        → w.fetched ≡ some r
        → (usable r.outcome ≡ true)
          × (found in_.provider_id in_.location_id (dedup_key r.model_run_time (issued_at w)) s
              ≡ true))
    → IsRepeat s.snapshots (admitted in_ w d s)
unfolding admitted IsRepeat found
admitted-IsRepeat in_ w (err e) s h = (refl, refl)
admitted-IsRepeat in_ w (ok (rows, decision)) s h =
    elim (decision.allowed)
      as (λ b. IsRepeat s.snapshots (
        if b
        then fetch in_ w w.fetched (record s { circuits = rows })
        else (record s { circuits = rows }, err (circuit_open_error decision.retry_at)))) [
          | true ↦ fetch-IsRepeat in_ w w.fetched (record s { circuits = rows }) h
          | false ↦ (refl, refl)
        ]

collect-IsRepeat :
    (in_ : CollectInput) (w : World) (s : Store)
    → ((r : ForecastResult)
        → w.fetched ≡ some r
        → (usable r.outcome ≡ true)
          × (found in_.provider_id in_.location_id (dedup_key r.model_run_time (issued_at w)) s
              ≡ true))
    → IsRepeat s.snapshots (collect in_ w s)
unfolding collect IsRepeat
collect-IsRepeat in_ w s h =
    if-cases (IsRepeat s.snapshots) _ _ _ (refl, refl)
      (admitted-IsRepeat in_ w (service_evaluate w.evaluate_fault s.circuits in_.provider_id w.now)
        s h)

-- After a collection that returns a usable row, a collection with the same input at the same key (the
-- model run, or else the issuance hour) with a usable result adds no snapshot, whatever fails, and returns an error, or
-- a deduplicated row that counts nothing as stored.
pub collect-repeat :
    (in_ : CollectInput) (w w' : World) (s : Store) (c : ForecastCollection)
    → (collect in_ w s).1 ≡ ok c
    → successful c.status ≡ true
    → ((r : ForecastResult)
        → w'.fetched ≡ some r
        → (usable r.outcome ≡ true)
          × (dedup_key r.model_run_time (issued_at w')
              ≡ dedup_key c.provider_model_run_time c.requested_at))
    → ((collect in_ w' (collect in_ w s).0).0.snapshots ≡ (collect in_ w s).0.snapshots)
      × (adds_nothing (collect in_ w' (collect in_ w s).0).1 ≡ true)
unfolding IsRepeat IsFound
collect-repeat in_ w w' s c e u same =
    collect-IsRepeat in_ w' (collect in_ w s).0
      (λ r k. ((same r k).0, ground (arith, same r k, collect-IsFound in_ w s c e u)))
