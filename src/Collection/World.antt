-- ===== src/Collection/World.antt =====
-- What a forecast collection is given, what it meets outside, and how it can end
-- (internal/collection/collect.go, internal/collection/ports/adapter.go).
use forecastiq.Prelude.{ℕ, ◌-◌, Bool, Option, List, Result}
use forecastiq.Schedule.{truncate_hour, hour_length}
use forecastiq.Circuit.Service.{Fault}
use forecastiq.Collection.{Outcome, RowCode, ForecastCollection}
use forecastiq.Collection.Store.{Store, Snapshot}

pub record CollectInput : Type 0 where
  pub provider_id : ℕ
  pub provider_active : Bool
  pub location_id : ℕ
  pub location_active : Bool
  pub config_id : ℕ
  pub config_active : Bool
  pub has_adapter : Bool

-- What the adapter returns. A snapshot is given its provider and location by the collection.
pub record ForecastResult : Type 0 where
  pub outcome : Outcome
  pub model_run_time : Option ℕ
  pub snapshots : List Snapshot
  pub records_received : ℕ
  pub invalid_count : ℕ
  pub error_code : RowCode
  pub has_payload : Bool

-- What the transaction of step 7 is refused, if anything; `tx_batch` is also that of a snapshot that a CHECK
-- of its table refuses. An error of the breaker's statements is
-- dropped, but it aborts the transaction, and the commit fails.
pub data TxFault : Type 0 where
  tx_fine tx_begin tx_insert tx_batch tx_complete tx_commit : TxFault

pub record World : Type 0 where
  pub now : ℕ
  pub collection_id : ℕ
  pub evaluate_fault : Fault
  pub fetched : Option ForecastResult
  pub lookup_ok : Bool
  pub payload_writes : Bool
  pub completed_at : ℕ
  pub partitions_ok : Bool
  pub others : Store → Store
  pub tx_fault : TxFault
  pub deduplicated_at : ℕ
  pub dedup_insert_ok : Bool

pub data CollectError : Type 0 where
  inactive : CollectError
  circuit_evaluate : CollectError
  circuit_open_error : Option ℕ → CollectError
  provider_fetch : CollectError
  dedup_lookup : CollectError
  ensure_partitions : CollectError
  persist_collection : CollectError
  persist_deduplicated : CollectError

abbrev pub Outcomes : Type 0
Outcomes = Store × Result CollectError ForecastCollection

-- One hour before the hour of `now`.
abbrev pub issued_at : World → ℕ
issued_at w = truncate_hour w.now - hour_length
