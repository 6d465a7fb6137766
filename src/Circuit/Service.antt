-- ===== src/Circuit/Service.antt =====
-- The persistent breaker: internal/catalog/circuit_service.go over the rows of `provider_circuits`
-- (adapters/persistence/catalogpg/circuit.go). The database may fail any read or write: which ones
-- fail is an argument, and a transaction that ends in an error leaves the rows as they were.
pub mod Sound
use forecastiq.Prelude.{
  ℕ, ◌≡◌, refl, Option, none, some, arith, Bool, true, false, ◌==◌, if◌then◌else◌, not, List, [],
  ◌∷◌, Result, ok, err, ◌>>=◌, ◌⊎◌, inl, inr, Bool-cases, ==_iff,
}
use forecastiq.Circuit.{
  CircuitState, circuit_closed, circuit_half_open, circuit_open, ProviderCircuit, Decision,
  new_provider_circuit, evaluate, apply_failure, apply_success, Event, evaluates, succeeds, fails,
  step,
}
use forecastiq.Circuit.Invariant.{IsConsistent}

abbrev pub Rows : Type 0
Rows = ℕ → Option ProviderCircuit

-- What the database refuses, if anything.
pub data Fault : Type 0 where
  no_fault begin_fault get_fault upsert_fault commit_fault : Fault

pub data DbError : Type 0 where
  begin_tx scan_circuit upsert_circuit commit_tx : DbError

abbrev pub found : ℕ → Option ProviderCircuit → ProviderCircuit
found id none = new_provider_circuit id
found id (some c) = c

-- A missing row is a fresh closed circuit.
unfoldable pub get : Fault → Rows → ℕ → Result DbError ProviderCircuit
get get_fault rows id = err scan_circuit
get _ rows id = ok (found id (rows id))

abbrev pub put : Rows → ProviderCircuit → Rows
put rows c id = if id == c.provider_id then some c else rows id

unfoldable pub upsert : Fault → Rows → ProviderCircuit → Result DbError Rows
upsert upsert_fault rows c = err upsert_circuit
upsert _ rows c = ok (put rows c)

-- `tx.Run`: the function's error, or an error of its own, takes back what the function wrote.
unfoldable pub run_tx {ℓ} :
    {A : Type ℓ} → Fault → Result DbError (Rows × A) → Result DbError (Rows × A)
run_tx begin_fault r = err begin_tx
run_tx _ (err e) = err e
run_tx commit_fault (ok r) = err commit_tx
run_tx _ (ok r) = ok r

abbrev pub state_eq : CircuitState → CircuitState → Bool
state_eq circuit_closed circuit_closed = true
state_eq circuit_half_open circuit_half_open = true
state_eq circuit_open circuit_open = true
state_eq _ _ = false

pub record Transition : Type 0 where
  pub provider_id : ℕ
  pub changed : Bool
  pub old : CircuitState
  pub new : CircuitState
  pub consecutive_failures : ℕ

-- The rows after a method, which are those from before if it fails.
abbrev pub rows_after {ℓ} : {A : Type ℓ} → Rows → Result DbError (Rows × A) → Rows
rows_after rows (ok (rows', a)) = rows'
rows_after rows (err e) = rows

-- The function that `Evaluate` runs in its transaction writes the row only if the state changed.
unfoldable pub evaluate_circuit : Fault → Rows → ℕ → ℕ → Result DbError (Rows × Decision)
unfolding get upsert
evaluate_circuit f rows id now = do
  circuit ← get f rows id
  let (after, decision) = evaluate circuit now
  if state_eq after.state circuit.state
      then ok (rows, decision)
      else (do rows' ← upsert f rows after; ok (rows', decision))

-- `CircuitService.Evaluate`.
unfoldable pub service_evaluate : Fault → Rows → ℕ → ℕ → Result DbError (Rows × Decision)
unfolding evaluate_circuit run_tx
service_evaluate f rows id now = run_tx f (evaluate_circuit f rows id now)

unfoldable pub transition : ℕ → CircuitState → ProviderCircuit → Transition
transition id prev c = record {
  provider_id = id;
  changed = not (state_eq prev c.state);
  old = prev;
  new = c.state;
  consecutive_failures = c.consecutive_failures;
}

unfoldable pub record_success : Fault → Rows → ℕ → ℕ → Result DbError (Rows × Transition)
unfolding get upsert transition
record_success f rows id now = do
  circuit ← get f rows id
  let (after, prev) = apply_success circuit now
  rows' ← upsert f rows after
  ok (rows', transition id prev after)

unfoldable pub record_failure : Fault → Rows → ℕ → ℕ → Result DbError (Rows × Transition)
unfolding get upsert transition
record_failure f rows id now = do
  circuit ← get f rows id
  let (after, prev) = apply_failure circuit now
  rows' ← upsert f rows after
  ok (rows', transition id prev after)

-- A call of a method for a provider.
pub service_step : Fault → Rows → ℕ → Event → Rows
service_step f rows id (evaluates now) = rows_after rows (service_evaluate f rows id now)
service_step f rows id (succeeds now) = rows_after rows (record_success f rows id now)
service_step f rows id (fails now) = rows_after rows (record_failure f rows id now)

pub service_run : Rows → List (Fault × ℕ × Event) → Rows
service_run rows [] = rows
service_run rows ((f, id, e) ∷ calls) = service_run (service_step f rows id e) calls

abbrev pub no_rows : Rows
no_rows id = none
