-- ===== src/Tests/Slots.antt =====
-- The scheduler at concrete inputs.
use forecastiq.Prelude.{
  ℕ, suc, ◌*◌, ◌%◌, ◌≤◌, ◌≡◌, refl, Bool, true, false, ◌&&◌, none, some, List, [], ◌∷◌, arith, All,
  mem, ltb, leb, ◌==◌,
}
use forecastiq.Prelude.Int.{pos}
use forecastiq.Schedule.{Schedule, hourly, valid, minutes, slot_times, minute_length, hour_length}
use forecastiq.Schedule.Instants.{mem-slot_times}
use forecastiq.Slot.{
  Slot, forecast_collection, due, claim_due, claim_ids, claimable, candidates, elapsed,
  insert_by_time, take_ids, returned_rows, claimed_row,
}
use forecastiq.Slot.Claims.{ids_of, claim_due-disjoint}
use forecastiq.Slot.Execute.{
  Event, generating, claiming, executing, Execution, dispatch_error, other_error, run, empty,
}
use forecastiq.Slot.Attempts.Bounded.{live, run-live}
use forecastiq.Slot.Generate.{Config, Configuration, generate_slots}
use forecastiq.Slot.Generate.Idempotent.{generate_slots-idempotent}

abbrev quarter_past : Schedule
quarter_past = record { interval = hourly; minute_offset = pos 15 }

mem-slot_times_example : mem 4500000000000 (slot_times quarter_past 3600000000000 7200000000000) ≡ (
    valid quarter_past
    && leb 3600000000000 4500000000000
    && ltb 4500000000000 7200000000000
    && (4500000000000 % hour_length == 15 * minute_length))
unfolding minutes
mem-slot_times_example = mem-slot_times quarter_past 3600000000000 7200000000000 4500000000000

abbrev first_slot : Slot
first_slot = record {
  id = 1;
  provider_configuration_id = 5;
  job_type = forecast_collection;
  location_id = some 9;
  slot_time = 100;
  status = due;
  claimed_by = none;
  claimed_at = none;
  lease_expires_at = none;
  attempts = 0;
  next_retry_at = none;
  schedule_run_id = none;
}

abbrev second_slot : Slot
second_slot = record first_slot { id = 2; slot_time = 90 }

abbrev slots : List Slot
slots = first_slot ∷ second_slot ∷ []

abbrev unlocked : ℕ → Bool
unlocked id = false

selected : mem 2 (ids_of (claim_due 7 120 50 1 unlocked slots).1) ≡ true
unfolding mem ids_of claim_due claim_ids candidates claimable elapsed insert_by_time take_ids
    returned_rows claimed_row
selected = refl

claim_due-disjoint_example :
    mem 2 (ids_of (claim_due 8 130 50 10 unlocked (claim_due 7 120 50 1 unlocked slots).0).1)
    ≡ false
claim_due-disjoint_example =
    claim_due-disjoint 7 8 120 130 50 50 1 10 unlocked unlocked slots 2 (ground arith) selected

abbrev failing : ℕ → Execution
failing run_id = record {
  run_id = run_id;
  started_at = 200;
  ended_at = 300;
  start_commits = true;
  dispatched = dispatch_error other_error;
  finish_commits = true;
  update_commits = true;
}

abbrev day : List Event
day =
    generating first_slot
    ∷ claiming 7 120 50 10 unlocked
    ∷ executing 0 (failing 1)
    ∷ claiming 8 9000000000 50 10 unlocked
    ∷ []

run-live_example : All (λ s. live 500 s ≡ true) (run empty day).store.slots
run-live_example = run-live day 500

abbrev config : Config
config = record {
  observation_config_id = some 6;
  observation_minute_offset = pos 5;
  analysis_config_id = some 7;
  analysis_minute_offsets = [];
}

abbrev configuration : Configuration
configuration = record { id = 5; collection_schedule = quarter_past }

slots-fresh : (m : ℕ) → 10 ≤ m → mem (suc m) (ids_of slots) ≡ false
unfolding mem ids_of
slots-fresh m h = ground arith

generate_slots-idempotent_example :
    generate_slots suc 50 9000000000000 config
      (configuration ∷ [])
      (9 ∷ [])
      (generate_slots suc 10 9000000000000 config (configuration ∷ []) (9 ∷ []) slots)
    ≡ generate_slots suc 10 9000000000000 config (configuration ∷ []) (9 ∷ []) slots
generate_slots-idempotent_example =
    generate_slots-idempotent suc (λ m n h. omega arith) 10 50 9000000000000 config
      (configuration ∷ []) (9 ∷ []) slots slots-fresh
