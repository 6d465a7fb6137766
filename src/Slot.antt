-- ===== src/Slot.antt =====
-- The scheduler's slots (internal/scheduler/slot.go) and their table
-- (adapters/persistence/schedulerpg/schedulerpg.go). Instants are nanoseconds, ids and instances are
-- numbers. `created_at` and `updated_at` only record when a row was written.
pub mod Claims
pub mod Generate
pub mod Execute
pub mod Attempts
use forecastiq.Prelude.{
  ℕ, zero, suc, ◌+◌, Bool, true, false, not, ◌&&◌, ◌||◌, Option, none, some, List, [], ◌∷◌, ◌++◌,
  map, ltb, leb, ◌==◌, if◌then◌else◌, mem, length,
}

pub data JobType : Type 0 where
  forecast_collection : JobType
  observation_collection : JobType
  analysis_batch : JobType

pub data SlotStatus : Type 0 where
  due : SlotStatus
  claimed : SlotStatus
  completed : SlotStatus
  failed : SlotStatus
  expired : SlotStatus

abbrev pub max_attempts : ℕ
max_attempts = 5

pub record Slot : Type 0 where
  pub id : ℕ
  pub provider_configuration_id : ℕ
  pub job_type : JobType
  pub location_id : Option ℕ
  pub slot_time : ℕ
  pub status : SlotStatus
  pub claimed_by : Option ℕ
  pub claimed_at : Option ℕ
  pub lease_expires_at : Option ℕ
  pub attempts : ℕ
  pub next_retry_at : Option ℕ
  pub schedule_run_id : Option ℕ

unfoldable pub same_job : JobType → JobType → Bool
same_job forecast_collection forecast_collection = true
same_job observation_collection observation_collection = true
same_job analysis_batch analysis_batch = true
same_job _ _ = false

-- `COALESCE(location_id, '00000000-…')`
abbrev pub coalesce : Option ℕ → ℕ
coalesce none = 0
coalesce (some n) = n

-- The unique index of the table.
unfoldable pub same_key : Slot → Slot → Bool
same_key a b =
    (a.provider_configuration_id == b.provider_configuration_id)
    && same_job a.job_type b.job_type
    && (coalesce a.location_id == coalesce b.location_id)
    && (a.slot_time == b.slot_time)

-- The primary key or the unique index.
unfoldable pub conflicts : Slot → List Slot → Bool
conflicts s [] = false
conflicts s (r ∷ rs) = (s.id == r.id) || same_key s r || conflicts s rs

-- The columns that the insert leaves out are null.
abbrev pub inserted : Slot → Slot
inserted s = record s {
  claimed_by = none;
  claimed_at = none;
  lease_expires_at = none;
  attempts = 0;
  next_retry_at = none;
  schedule_run_id = none;
}

-- `INSERT … ON CONFLICT DO NOTHING`
unfoldable pub generate : Slot → List Slot → List Slot
generate s table = if conflicts s table then table else table ++ (inserted s ∷ [])

-- `x IS NULL OR x <= now`
unfoldable pub elapsed : ℕ → Option ℕ → Bool
elapsed now none = true
elapsed now (some t) = leb t now

-- `x < now`, which is not true of a null.
unfoldable pub before : ℕ → Option ℕ → Bool
before now none = false
before now (some t) = ltb t now

-- The `WHERE` of `ClaimDue` and of `CountClaimable`.
unfoldable pub claimable : ℕ → Slot → Bool
claimable now s = elim s.status [
  | due ↦ leb s.slot_time now && elapsed now s.next_retry_at
  | claimed ↦ before now s.lease_expires_at
  | completed ↦ false
  | failed ↦ false
  | expired ↦ false
]

-- `ORDER BY slot_time`, of the rows that pass the test and are not locked by another transaction.
unfoldable pub insert_by_time : Slot → List Slot → List Slot
insert_by_time s [] = s ∷ []
insert_by_time s (r ∷ rs) =
    let rest = insert_by_time s rs in if ltb r.slot_time s.slot_time then r ∷ rest else s ∷ r ∷ rs

unfoldable pub candidates : ℕ → (ℕ → Bool) → List Slot → List Slot
candidates now locked [] = []
candidates now locked (s ∷ rows) =
    let rest = candidates now locked rows in
    if claimable now s && not (locked s.id) then insert_by_time s rest else rest

-- `LIMIT`
unfoldable pub take_ids : ℕ → List Slot → List ℕ
take_ids zero rows = []
take_ids (suc n) [] = []
take_ids (suc n) (s ∷ rows) = s.id ∷ take_ids n rows

unfoldable pub claimed_row : ℕ → ℕ → ℕ → Slot → Slot
claimed_row instance_id now lease s = record s {
  status = claimed;
  claimed_by = some instance_id;
  claimed_at = some now;
  lease_expires_at = some (now + lease);
}

-- The `UPDATE` of the rows whose id is selected: the table after it, and the rows it returns.
unfoldable pub update_rows : (Slot → Slot) → List ℕ → List Slot → List Slot
update_rows f ids [] = []
update_rows f ids (s ∷ rows) =
    let rest = update_rows f ids rows in if mem s.id ids then f s ∷ rest else s ∷ rest

unfoldable pub returned_rows : (Slot → Slot) → List ℕ → List Slot → List Slot
returned_rows f ids [] = []
returned_rows f ids (s ∷ rows) =
    let rest = returned_rows f ids rows in if mem s.id ids then f s ∷ rest else rest

unfoldable pub claim_ids : ℕ → ℕ → (ℕ → Bool) → List Slot → List ℕ
claim_ids now limit locked table = take_ids limit (candidates now locked table)

-- `locked` are the rows that another transaction has locked: `FOR UPDATE SKIP LOCKED`.
unfoldable pub claim_due :
    (instance_id now lease limit : ℕ) (locked : ℕ → Bool) → List Slot → List Slot × List Slot
claim_due instance_id now lease limit locked table =
    let ids = claim_ids now limit locked table in
    (
      update_rows (claimed_row instance_id now lease) ids table,
      returned_rows (claimed_row instance_id now lease) ids table,
    )

unfoldable pub complete : (slot_id run_id : ℕ) → List Slot → List Slot
complete slot_id run_id table =
    update_rows (λ s. record s { status = completed; schedule_run_id = some run_id }) (slot_id ∷ [])
      table

abbrev pub status_after : Option ℕ → SlotStatus
status_after none = failed
status_after (some t) = due

unfoldable pub failed_row : (run_id attempts : ℕ) → Option ℕ → Slot → Slot
failed_row run_id attempts next_retry_at s = record s {
  status = status_after next_retry_at;
  attempts = attempts;
  next_retry_at = next_retry_at;
  schedule_run_id = some run_id;
  claimed_by = none;
  claimed_at = none;
  lease_expires_at = none;
}

unfoldable pub fail : (slot_id run_id attempts : ℕ) → Option ℕ → List Slot → List Slot
fail slot_id run_id attempts next_retry_at table =
    update_rows (failed_row run_id attempts next_retry_at) (slot_id ∷ []) table

unfoldable pub count_claimable : ℕ → List Slot → ℕ
count_claimable now [] = 0
count_claimable now (s ∷ rows) =
    let rest = count_claimable now rows in if claimable now s then rest + 1 else rest
