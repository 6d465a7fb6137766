-- ===== src/Collection/Collect/Dedup.antt =====
-- At most one usable collection per provider, location and model run (internal/collection/collect.go,
-- adapters/persistence/collectionpg/collection.go), and what a repeated collection does.
use forecastiq.Prelude.{◌≡◌, Bool, true, false, not, ◌&&◌, ◌||◌, List, [], ◌∷◌, refl, ok, arith}
use forecastiq.Collection.{CollectionStatus, ForecastCollection, RowCode, successful}
use forecastiq.Collection.Store.{
  Store, insert_collection, complete_collection, has_id, in_index, dedup_key, violates_index,
  update_collection, completed_row,
}
use forecastiq.Collection.Collect.{
  CollectInput, World, ForecastResult, Outcomes, store_deduplicated, inserted_or, deduplicated_row,
  pending_row, stored_batch, final_row, tx_body, collect,
}
use forecastiq.Collection.Collect.Cases.{collect-cases}

-- Another usable row with the key of `c`.
unfoldable pub key_taken : ForecastCollection → List ForecastCollection → Bool
key_taken c [] = false
key_taken c (r ∷ rs) =
    in_index c.provider_id c.location_id (dedup_key c.provider_model_run_time c.requested_at) r
    || key_taken c rs

-- No two usable rows have the same key, and no two rows the same id.
unfoldable pub one_per_run : List ForecastCollection → Bool
one_per_run [] = true
one_per_run (c ∷ cs) =
    not (successful c.status && key_taken c cs) && not (has_id c.id cs) && one_per_run cs

IsUnique : Outcomes → Type 0
IsUnique out = one_per_run out.0.collections ≡ true

inserted_or-IsUnique :
    (c : ForecastCollection) (s : Store)
    → successful c.status ≡ false
    → one_per_run s.collections ≡ true
    → IsUnique (inserted_or c s (insert_collection c s.collections))
unfolding IsUnique insert_collection one_per_run
inserted_or-IsUnique c s h u = ground arith

store_deduplicated-IsUnique :
    (in_ : CollectInput) (w : World) (r : ForecastResult) (s : Store)
    → one_per_run s.collections ≡ true
    → IsUnique (store_deduplicated in_ w r s)
unfolding store_deduplicated IsUnique deduplicated_row successful
store_deduplicated-IsUnique in_ w r s u =
    ground (arith, inserted_or-IsUnique (deduplicated_row in_ w r) s)

-- An update of a row that is not there.
update_collection-absent :
    (c : ForecastCollection) (rows : List ForecastCollection)
    → has_id c.id rows ≡ false
    → update_collection c rows ≡ rows
unfolding update_collection has_id
update_collection-absent c [] h = refl
update_collection-absent c (r ∷ rs) h = ground (arith, update_collection-absent c rs)

violates_index-key_taken :
    (c : ForecastCollection) (rows : List ForecastCollection)
    → has_id c.id rows ≡ false
    → violates_index c rows ≡ key_taken c rows
unfolding violates_index has_id key_taken
violates_index-key_taken c [] h = refl
violates_index-key_taken c (r ∷ rs) h = ground (arith, violates_index-key_taken c rs)

key_taken-completed_row :
    (p c : ForecastCollection) (cs : List ForecastCollection)
    → p.provider_id ≡ c.provider_id
    → p.location_id ≡ c.location_id
    → p.requested_at ≡ c.requested_at
    → p.provider_model_run_time ≡ c.provider_model_run_time
    → key_taken (completed_row c p) cs ≡ key_taken c cs
unfolding key_taken completed_row
key_taken-completed_row p c [] e2 e3 e4 e5 = refl
key_taken-completed_row p c (r ∷ rs) e2 e3 e4 e5 = ground (arith, key_taken-completed_row p c rs)

-- Completing a row that has just been inserted.
complete-IsUnique :
    (p c : ForecastCollection) (cs table : List ForecastCollection)
    → p.id ≡ c.id
    → p.provider_id ≡ c.provider_id
    → p.location_id ≡ c.location_id
    → p.requested_at ≡ c.requested_at
    → p.provider_model_run_time ≡ c.provider_model_run_time
    → has_id p.id cs ≡ false
    → one_per_run cs ≡ true
    → complete_collection c (p ∷ cs) ≡ ok table
    → one_per_run table ≡ true
unfolding complete_collection violates_index update_collection one_per_run completed_row
complete-IsUnique p c cs table e1 e2 e3 e4 e5 a u h = ground (
  arith,
  update_collection-absent c cs,
  violates_index-key_taken c cs,
  key_taken-completed_row p c cs,
)

tx_body-IsUnique :
    (in_ : CollectInput) (w : World) (r : ForecastResult) (status : CollectionStatus × RowCode)
    (s s' : Store) (c : ForecastCollection)
    → tx_body in_ w r status s ≡ ok (s', c)
    → one_per_run s.collections ≡ true
    → one_per_run s'.collections ≡ true
unfolding tx_body insert_collection final_row pending_row
tx_body-IsUnique in_ w r status s s' c h u = ground (
  arith,
  complete-IsUnique (pending_row in_ w r)
      (final_row in_ w r status (stored_batch in_ status.0 r.snapshots s.snapshots).1) s.collections
      s'.collections refl refl refl refl refl,
)

-- Whatever fails, and whatever other collections commit between the lookup and the transaction as long as they
-- keep to it too, a collection leaves at most one usable collection for each provider, location and model run (or
-- issuance hour), and no id twice.
pub collect-one_per_run :
    (in_ : CollectInput) (w : World) (s : Store)
    → ((t : Store) → one_per_run t.collections ≡ true → one_per_run (w.others t).collections ≡ true)
    → one_per_run s.collections ≡ true
    → one_per_run (collect in_ w s).0.collections ≡ true
unfolding IsUnique
collect-one_per_run in_ w s others u =
    collect-cases IsUnique (λ t. one_per_run t.collections ≡ true) in_ w (λ t k _. k) (λ t k _. k)
      others (λ t k r _. store_deduplicated-IsUnique in_ w r t k)
      (λ t k r _ status s' c _ h. tx_body-IsUnique in_ w r status t s' c h k) s u
