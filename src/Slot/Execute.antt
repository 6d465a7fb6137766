-- ===== src/Slot/Execute.antt =====
-- One claimed slot through `execute`, and the runs that the table of the scheduler goes through
-- (internal/scheduler/scheduler.go, adapters/persistence/schedulerpg/schedulerpg.go).
use forecastiq.Prelude.{
  ℕ, zero, suc, ◌+◌, ◌-◌, ◌*◌, ◌^◌, Bool, true, false, Option, none, some, List, [], ◌∷◌, ◌++◌, ltb,
  ◌==◌, if◌then◌else◌,
}
use forecastiq.Slot.{Slot, JobType, due, max_attempts, generate, claim_due, complete, fail}

abbrev pub second_length : ℕ
second_length = 1000000000

abbrev clamp_attempt : ℕ → ℕ
clamp_attempt n = if ltb n 1 then 1 else if ltb 5 n then 5 else n

-- 1 << (attempt - 1) seconds.
unfoldable pub retry_backoff : ℕ → ℕ
retry_backoff attempt = 2 ^ (clamp_attempt attempt - 1) * second_length

unfoldable pub slot_lag : ℕ → ℕ → ℕ
slot_lag now slot_time = if ltb slot_time now then now - slot_time else 0

pub data RunStatus : Type 0 where
  run_running : RunStatus
  run_completed : RunStatus
  run_failed : RunStatus

-- The kinds of errors that `classifyError` tells apart.
pub data DispatchError : Type 0 where
  circuit_open_error : DispatchError
  inactive_error : DispatchError
  other_error : DispatchError

pub data ErrorCode : Type 0 where
  no_code : ErrorCode
  circuit_open : ErrorCode
  inactive : ErrorCode
  error : ErrorCode

unfoldable pub classify_error : DispatchError → ErrorCode
classify_error circuit_open_error = circuit_open
classify_error inactive_error = inactive
classify_error other_error = error

-- Less the columns that only record the end, the length and the message.
pub record Run : Type 0 where
  pub id : ℕ
  pub job_type : JobType
  pub slot_id : ℕ
  pub started_at : ℕ
  pub status : RunStatus
  pub error_code : ErrorCode
  pub records_affected : ℕ

unfoldable pub finish : ℕ → RunStatus → ErrorCode → ℕ → List Run → List Run
finish run_id status code records [] = []
finish run_id status code records (r ∷ rs) =
    let rest = finish run_id status code records rs in
    if r.id == run_id
    then record r { status = status; error_code = code; records_affected = records } ∷ rest
    else r ∷ rest

-- What `Dispatch` returns.
pub data Dispatched : Type 0 where
  records : ℕ → Dispatched
  dispatch_error : DispatchError → Dispatched

-- What an execution meets: its instants, what the job returns, and whether each of its three
-- transactions commits. The last two are not looked at again.
pub record Execution : Type 0 where
  pub run_id : ℕ
  pub started_at : ℕ
  pub ended_at : ℕ
  pub start_commits : Bool
  pub dispatched : Dispatched
  pub finish_commits : Bool
  pub update_commits : Bool

pub record Store : Type 0 where
  pub slots : List Slot
  pub runs : List Run

abbrev when : {A : Type 0} → Bool → (A → A) → A → A
when true f a = f a
when false f a = a

unfoldable pub start_run : Slot → Execution → List Run → List Run
start_run slot e runs =
    record {
      id = e.run_id;
      job_type = slot.job_type;
      slot_id = slot.id;
      started_at = e.started_at;
      status = run_running;
      error_code = no_code;
      records_affected = 0;
    }
    ∷ runs

unfoldable pub next_retry : ℕ → ℕ → Option ℕ
next_retry now attempts =
    if ltb attempts max_attempts then some (now + retry_backoff attempts) else none

unfoldable pub settle : Slot → Execution → Dispatched → Store → Store
settle slot e (dispatch_error why) store = record {
  slots =
      when e.update_commits
        (fail slot.id e.run_id (slot.attempts + 1) (next_retry e.ended_at (slot.attempts + 1)))
        store.slots;
  runs = when e.finish_commits (finish e.run_id run_failed (classify_error why) 0) store.runs;
}
settle slot e (records n) store = record {
  slots = when e.update_commits (complete slot.id e.run_id) store.slots;
  runs = when e.finish_commits (finish e.run_id run_completed no_code n) store.runs;
}

unfoldable pub execute : Slot → Execution → Store → Store
execute slot e store =
    if e.start_commits
    then settle slot e e.dispatched (record store { runs = start_run slot e store.runs })
    else store

-- The store, and the slots that workers have claimed and not executed yet, as they were returned to them.
pub record System : Type 0 where
  pub store : Store
  pub held : List Slot

pub data Event : Type 0 where
  generating : Slot → Event
  claiming : (instance_id now lease limit : ℕ) → (ℕ → Bool) → Event
  executing : ℕ → Execution → Event

unfoldable pub remove_at : ℕ → List Slot → List Slot
remove_at n [] = []
remove_at zero (s ∷ held) = held
remove_at (suc n) (s ∷ held) = s ∷ remove_at n held

unfoldable pub execute_at : ℕ → Execution → List Slot → Store → Store
execute_at n e [] store = store
execute_at zero e (s ∷ held) store = execute s e store
execute_at (suc n) e (s ∷ held) store = execute_at n e held store

-- The scheduler generates slots that are due.
unfoldable pub step : System → Event → System
step sys (generating s) = record sys {
  store = record sys.store { slots = generate (record s { status = due }) sys.store.slots };
}
step sys (claiming instance_id now lease limit locked) =
    let claimed = claim_due instance_id now lease limit locked sys.store.slots in
    record { store = record sys.store { slots = claimed.0 }; held = sys.held ++ claimed.1 }
step sys (executing n e) = record {
  store = execute_at n e sys.held sys.store;
  held = remove_at n sys.held;
}

unfoldable pub run : System → List Event → System
run sys [] = sys
run sys (e ∷ es) = run (step sys e) es

abbrev pub empty : System
empty = record { store = record { slots = []; runs = [] }; held = [] }
