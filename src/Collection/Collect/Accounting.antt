-- ===== src/Collection/Collect/Accounting.antt =====
-- The counts of a collection (internal/collection/collect.go, domain/collection.go).
use forecastiq.Prelude.{
  ℕ, ◌+◌, ◌≤◌, ◌≡◌, Bool, true, false, some, List, [], ◌∷◌, length, map, refl, if◌then◌else◌,
  Result, ok, err, arith,
}
use forecastiq.Collection.{
  CollectionStatus, ForecastCollection, RowCode, accounting_holds, successful,
}
use forecastiq.Collection.Store.{Store, StoreError, Snapshot, insert_batch, insert_collection}
use forecastiq.Collection.Collect.{
  CollectInput, World, ForecastResult, Outcomes, store_deduplicated, inserted_or, deduplicated_row,
  stored_batch, owned, final_row, tx_body, collect,
}
use forecastiq.Collection.Collect.Cases.{collect-cases}

length-map : (f : Snapshot → Snapshot) (ss : List Snapshot) → length (map f ss) ≡ length ss
length-map f [] = refl
length-map f (s ∷ ss) = omega (arith, length-map f ss)

insert_batch-le : (ss table : List Snapshot) → (insert_batch ss table).1 ≤ length ss
unfolding insert_batch
insert_batch-le [] table = omega arith
insert_batch-le (s ∷ ss) table =
    ground (arith, insert_batch-le ss table, insert_batch-le ss (s ∷ table))

-- The adapter counts every record as a valid snapshot or as an invalid one.
abbrev pub Accounted : ForecastResult → Type 0
Accounted r = r.records_received ≡ length r.snapshots + r.invalid_count

Counted : Outcomes → Type 0
Counted out = (c : ForecastCollection) → out.1 ≡ ok c → accounting_holds c ≡ true

deduplicated-Counted :
    (in_ : CollectInput) (w : World) (r : ForecastResult) (s : Store)
    (x : Result StoreError (List ForecastCollection))
    → Counted (inserted_or (deduplicated_row in_ w r) s x)
unfolding Counted deduplicated_row accounting_holds
deduplicated-Counted in_ w r s (ok table) c h = ground arith
deduplicated-Counted in_ w r s (err e) c h = ground arith

store_deduplicated-Counted :
    (in_ : CollectInput) (w : World) (r : ForecastResult) (s : Store)
    → Counted (store_deduplicated in_ w r s)
unfolding store_deduplicated Counted
store_deduplicated-Counted in_ w r s c h = ground (
  arith,
  deduplicated-Counted in_ w r s (insert_collection (deduplicated_row in_ w r) s.collections) c,
)

-- What the transaction returns, and what it leaves.
pub tx_body-final_row :
    (in_ : CollectInput) (w : World) (r : ForecastResult) (status : CollectionStatus × RowCode)
    (s s' : Store) (c : ForecastCollection)
    → tx_body in_ w r status s ≡ ok (s', c)
    → c ≡ final_row in_ w r status (stored_batch in_ status.0 r.snapshots s.snapshots).1
unfolding tx_body
tx_body-final_row in_ w r status s s' c h = ground (arith)

if-le :
    (b : Bool) (x y : List Snapshot × ℕ) (n : ℕ) → x.1 ≤ n → y.1 ≤ n → (if b then x else y).1 ≤ n
if-le true x y n p q = p
if-le false x y n p q = q

pub stored_batch-le :
    (in_ : CollectInput) (status : CollectionStatus) (ss table : List Snapshot)
    → (stored_batch in_ status ss table).1 ≤ length ss
unfolding stored_batch
stored_batch-le in_ status ss table =
    if-le (successful status) _ (table, 0) (length ss)
      (omega (arith, insert_batch-le (map (owned in_) ss) table, length-map (owned in_) ss))
      (omega arith)

pub final_row-counted :
    (in_ : CollectInput) (w : World) (r : ForecastResult) (status : CollectionStatus × RowCode)
    (n : ℕ)
    → n ≤ length r.snapshots
    → Accounted r
    → accounting_holds (final_row in_ w r status n) ≡ true
unfolding final_row accounting_holds
final_row-counted in_ w r status n h a = ground (arith)

-- If the adapter counts each record as a valid or an invalid one, every collection that is returned,
-- whatever its status and whatever fails on the way, has received what it stored, deduplicated and found invalid.
pub collect-accounting_holds :
    (in_ : CollectInput) (w : World) (s : Store)
    → ((r : ForecastResult) → w.fetched ≡ some r → Accounted r)
    → (c : ForecastCollection) → (collect in_ w s).1 ≡ ok c
    → accounting_holds c ≡ true
unfolding Counted
collect-accounting_holds in_ w s accounted =
    collect-cases Counted (λ t. Unit {0}) in_ w (λ t _ e c h. ground arith) (λ t _ rows. tt)
      (λ t _. tt) (λ t _ r _. store_deduplicated-Counted in_ w r t)
      (λ t _ r e status s' c _ h c' k. ground (
        arith,
        tx_body-final_row in_ w r status t s' c h,
        final_row-counted in_ w r status (stored_batch in_ status.0 r.snapshots t.snapshots).1
            (stored_batch-le in_ status.0 r.snapshots t.snapshots) (accounted r e),
      ))
      s tt
