-- ===== src/Collection.antt =====
-- The forecast collection and its statuses (internal/collection/domain/collection.go), the outcomes
-- of an adapter (internal/collection/ports/adapter.go, errors.go) and how a collection classifies
-- them (internal/collection/collect.go). Ids and error codes of adapters are numbers, instants are
-- nanoseconds; the fields that are only copied into the row (checksum, object key, versions,
-- message, latency) are left out.
pub mod Store
pub mod World
pub mod Collect
use forecastiq.Prelude.{ℕ, ◌+◌, Bool, true, false, Option, none, some, ◌==◌}

pub data CollectionStatus : Type 0 where
  pending : CollectionStatus
  success : CollectionStatus
  partial : CollectionStatus
  failed : CollectionStatus
  deduplicated : CollectionStatus
  rate_limited : CollectionStatus
  timeout : CollectionStatus

unfoldable pub terminal : CollectionStatus → Bool
terminal pending = false
terminal _ = true

unfoldable pub successful : CollectionStatus → Bool
successful success = true
successful partial = true
successful _ = false

-- The codes of internal/collection/ports/errors.go.
pub data ErrorCode : Type 0 where
  err_timeout : ErrorCode
  err_provider_5xx : ErrorCode
  err_rate_limited : ErrorCode
  err_schema_drift : ErrorCode
  err_network_local : ErrorCode
  err_db_error : ErrorCode
  err_payload_write_failed : ErrorCode
  err_circuit_open : ErrorCode
  err_invalid_credentials : ErrorCode

pub data Outcome : Type 0 where
  outcome_success : Outcome
  outcome_partial : Outcome
  outcome_failed : Outcome
  outcome_rate_limited : Outcome
  outcome_timeout : Outcome
  outcome_auth_failed : Outcome

-- `ProviderError.Outcome`.
unfoldable pub outcome_of : ErrorCode → Outcome
outcome_of err_timeout = outcome_timeout
outcome_of err_rate_limited = outcome_rate_limited
outcome_of err_invalid_credentials = outcome_auth_failed
outcome_of _ = outcome_failed

-- The code of a row: the empty string, one of the closed set, or `partial_validation`.
pub data RowCode : Type 0 where
  no_code : RowCode
  code : ErrorCode → RowCode
  partial_validation : RowCode

unfoldable pub or_default : RowCode → RowCode → RowCode
or_default no_code def = def
or_default c def = c

abbrev first_code : Bool → RowCode
first_code true = no_code
first_code false = code err_payload_write_failed

unfoldable pub classify_outcome : Outcome → RowCode → RowCode → CollectionStatus × RowCode
classify_outcome outcome_success first given = (success, first)
classify_outcome outcome_partial first given = (partial, or_default first partial_validation)
classify_outcome outcome_rate_limited first given =
    (rate_limited, or_default first (code err_rate_limited))
classify_outcome outcome_timeout first given = (timeout, or_default first (code err_timeout))
classify_outcome outcome_auth_failed first given =
    (failed, or_default first (code err_invalid_credentials))
classify_outcome outcome_failed first given = (failed, or_default first given)

-- `classify`, less the message: `given` is `result.ErrorCode`.
unfoldable pub classify : Outcome → RowCode → Bool → CollectionStatus × RowCode
classify outcome given payload_ok = classify_outcome outcome (first_code payload_ok) given

pub record ForecastCollection : Type 0 where
  pub id : ℕ
  pub provider_id : ℕ
  pub location_id : ℕ
  pub provider_configuration_id : ℕ
  pub requested_at : ℕ
  pub completed_at : Option ℕ
  pub status : CollectionStatus
  pub provider_model_run_time : Option ℕ
  pub records_received : ℕ
  pub snapshots_stored : ℕ
  pub snapshots_deduplicated : ℕ
  pub snapshots_invalid : ℕ
  pub error_code : RowCode

unfoldable pub accounting_holds : ForecastCollection → Bool
accounting_holds c =
    c.records_received == c.snapshots_stored + c.snapshots_deduplicated + c.snapshots_invalid
