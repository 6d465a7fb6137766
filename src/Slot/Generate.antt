-- ===== src/Slot/Generate.antt =====
-- `generateSlots` (internal/scheduler/scheduler.go): the slots of the current hour and of the one
-- before. `now` is not in the first hour of the calendar. A fault of the database takes back the whole
-- transaction, and is left out.
pub mod Idempotent
use forecastiq.Prelude.{ℕ, zero, suc, ◌+◌, ◌-◌, Option, none, some, List, [], ◌∷◌, ◌++◌}
use forecastiq.Prelude.Int.{ℤ}
use forecastiq.Schedule.{
  Schedule, hourly, slot_times, analysis_slot_times, truncate_hour, hour_length,
}
use forecastiq.Slot.{
  Slot, JobType, forecast_collection, observation_collection, analysis_batch, due, generate,
}

pub record Configuration : Type 0 where
  pub id : ℕ
  pub collection_schedule : Schedule

-- `uuid.Nil` is `none`.
pub record Config : Type 0 where
  pub observation_config_id : Option ℕ
  pub observation_minute_offset : ℤ
  pub analysis_config_id : Option ℕ
  pub analysis_minute_offsets : List ℕ

-- What the three loops give a slot before its id.
pub record Planned : Type 0 where
  pub provider_configuration_id : ℕ
  pub job_type : JobType
  pub location_id : Option ℕ
  pub slot_time : ℕ

unfoldable pub at_locations : ℕ → JobType → ℕ → List ℕ → List Planned
at_locations config job t [] = []
at_locations config job t (loc ∷ locs) =
    record {
      provider_configuration_id = config;
      job_type = job;
      location_id = some loc;
      slot_time = t;
    }
    ∷ at_locations config job t locs

unfoldable pub at_times : ℕ → JobType → List ℕ → List ℕ → List Planned
at_times config job [] locs = []
at_times config job (t ∷ ts) locs = at_locations config job t locs ++ at_times config job ts locs

unfoldable pub forecast_slots : (from to : ℕ) → List Configuration → List ℕ → List Planned
forecast_slots from to [] locs = []
forecast_slots from to (c ∷ cs) locs =
    at_times c.id forecast_collection (slot_times c.collection_schedule from to) locs
    ++ forecast_slots from to cs locs

unfoldable pub observation_slots : (from to : ℕ) → Option ℕ → ℤ → List ℕ → List Planned
observation_slots from to none offset locs = []
observation_slots from to (some c) offset locs =
    at_times c observation_collection
      (slot_times (record { interval = hourly; minute_offset = offset }) from to) locs

unfoldable pub global_slots : ℕ → List ℕ → List Planned
global_slots config [] = []
global_slots config (t ∷ ts) =
    record {
      provider_configuration_id = config;
      job_type = analysis_batch;
      location_id = none;
      slot_time = t;
    }
    ∷ global_slots config ts

unfoldable pub analysis_slots : (from to : ℕ) → Option ℕ → List ℕ → List Planned
analysis_slots from to none offsets = []
analysis_slots from to (some c) offsets = global_slots c (analysis_slot_times from to offsets)

unfoldable pub planned : ℕ → Config → List Configuration → List ℕ → List Planned
planned now cfg configs [] = []
planned now cfg configs (loc ∷ locs) =
    let from = truncate_hour now - hour_length in
    let to = truncate_hour now + hour_length in
    forecast_slots from to configs (loc ∷ locs)
    ++ (observation_slots from to cfg.observation_config_id cfg.observation_minute_offset
          (loc ∷ locs)
        ++ analysis_slots from to cfg.analysis_config_id cfg.analysis_minute_offsets)

unfoldable pub new_slot : ℕ → Planned → Slot
new_slot id p = record {
  id = id;
  provider_configuration_id = p.provider_configuration_id;
  job_type = p.job_type;
  location_id = p.location_id;
  slot_time = p.slot_time;
  status = due;
  claimed_by = none;
  claimed_at = none;
  lease_expires_at = none;
  attempts = 0;
  next_retry_at = none;
  schedule_run_id = none;
}

-- `new_id n` is what the `n`th call of `ids.New` returns.
module _ (new_id : ℕ → ℕ) where
  unfoldable pub generate_all : ℕ → List Planned → List Slot → List Slot
  generate_all n [] table = table
  generate_all n (p ∷ ps) table = generate_all (suc n) ps (generate (new_slot (new_id n) p) table)

  unfoldable pub generate_slots :
      ℕ → ℕ → Config → List Configuration → List ℕ → List Slot → List Slot
  generate_slots n now cfg configs locations table =
      generate_all n (planned now cfg configs locations) table
