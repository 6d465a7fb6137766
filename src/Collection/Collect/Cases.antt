-- ===== src/Collection/Collect/Cases.antt =====
-- How every collection ends (internal/collection/collect.go): an error, a deduplicated row, or the
-- transaction of step 7.
use forecastiq.Prelude.{
  ◌≡◌, Bool, true, false, not, ◌||◌, Option, none, some, refl, if◌then◌else◌, Result, ok, err,
  arith,
}
use forecastiq.Circuit.{Decision}
use forecastiq.Circuit.Service.{Rows, DbError}
use forecastiq.Collection.{CollectionStatus, ForecastCollection, RowCode, classify}
use forecastiq.Collection.Store.{Store, StoreError, duplicate_collection, other_error}
use forecastiq.Collection.Collect.{
  CollectInput, World, ForecastResult, TxFault, tx_fine, tx_begin, tx_insert, tx_batch, tx_complete,
  tx_commit, CollectError, Outcomes, store_deduplicated, run_tx, tx_body, settled, persist, usable,
  after_lookup, after_fetch, fetch, admitted, collect,
}

run_tx-ok :
    (f : TxFault) (b : Result StoreError (Store × ForecastCollection))
    (y : Store × ForecastCollection)
    → run_tx f b ≡ ok y
    → b ≡ ok y
unfolding run_tx
run_tx-ok tx_fine b y h = h
run_tx-ok tx_begin b y h = ground arith
run_tx-ok tx_insert b y h = ground arith
run_tx-ok tx_batch b y h = ground arith
run_tx-ok tx_complete b y h = ground arith
run_tx-ok tx_commit (ok x) y h = ground arith
run_tx-ok tx_commit (err e) y h = ground arith

pub if-cases :
    (P : Outcomes → Type 0) (b : Bool) (x y : Outcomes) → P x → P y → P (if b then x else y)
if-cases P true x y p q = p
if-cases P false x y p q = q

module _ (P : Outcomes → Type 0) (I : Store → Type 0) (in_ : CollectInput) (w : World)
    (failing : (s : Store) → I s → (e : CollectError) → P (s, err e))
    (counting : (s : Store) → I s → (rows : Rows) → I (record s { circuits = rows }))
    (others : (s : Store) → I s → I (w.others s))
    (deduplicating : (s : Store)
      → I s
      → (r : ForecastResult) → w.fetched ≡ some r
      → P (store_deduplicated in_ w r s))
    (persisting : (s : Store)
      → I s
      → (r : ForecastResult) → w.fetched ≡ some r
      → (status : CollectionStatus × RowCode) (s' : Store) (c : ForecastCollection)
      → status ≡ classify r.outcome r.error_code (not r.has_payload || w.payload_writes)
      → tx_body in_ w r status s ≡ ok (s', c)
      → P (s', ok c)) where
  settled-cases :
      (s : Store)
      → I s
      → (r : ForecastResult) → w.fetched ≡ some r
      → (x : Result StoreError (Store × ForecastCollection))
      → ((s' : Store) (c : ForecastCollection) → x ≡ ok (s', c) → P (s', ok c))
      → P (settled in_ w r s x)
  unfolding settled
  settled-cases s i r e (ok (s', c)) h = h s' c refl
  settled-cases s i r e (err duplicate_collection) h = deduplicating s i r e
  settled-cases s i r e (err other_error) h = failing s i _

  persist-cases :
      (s : Store) → I s → (r : ForecastResult) → w.fetched ≡ some r → P (persist in_ w r s)
  unfolding persist
  persist-cases s i r e = if-cases P _ _ _ (failing s i _) (
      settled-cases s i r e _
        (λ s' c h. persisting s i r e _ s' c refl (run_tx-ok w.tx_fault _ (s', c) h)))

  after_lookup-cases :
      (s : Store)
      → I s
      → (r : ForecastResult) → w.fetched ≡ some r
      → (found : Option ForecastCollection) → P (after_lookup in_ w r s found)
  unfolding after_lookup
  after_lookup-cases s i r e (some existing) = deduplicating s i r e
  after_lookup-cases s i r e none = persist-cases (w.others s) (others s i) r e

  fetch-cases :
      (s : Store) → I s → (o : Option ForecastResult) → w.fetched ≡ o → P (fetch in_ w o s)
  unfolding fetch after_fetch
  fetch-cases s i none e = failing s i _
  fetch-cases s i (some r) e =
      if-cases P (usable r.outcome) _ _
        (if-cases P w.lookup_ok _ _ (after_lookup-cases s i r e _) (failing s i _))
        (persist-cases (w.others s) (others s i) r e)

  admitted-cases :
      (s : Store) → I s → (d : Result DbError (Rows × Decision)) → P (admitted in_ w d s)
  unfolding admitted
  admitted-cases s i (err e) = failing s i _
  admitted-cases s i (ok (rows, decision)) =
      if-cases P decision.allowed _ _ (fetch-cases _ (counting s i rows) w.fetched refl)
        (failing _ (counting s i rows) _)

  pub collect-cases : (s : Store) → I s → P (collect in_ w s)
  unfolding collect
  collect-cases s i = if-cases P _ _ _ (failing s i _) (admitted-cases s i _)
