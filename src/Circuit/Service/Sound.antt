-- ===== src/Circuit/Service/Sound.antt =====
-- Every row that the breaker's methods write is consistent, and each method makes one step of the
-- provider's circuit (internal/catalog/circuit_service.go).
use forecastiq.Prelude.{
  ℕ, ◌≡◌, Option, none, some, arith, true, ◌==◌, if◌then◌else◌, List, [], ◌∷◌, Result, ok, err,
  is_ok, refl, inl, inr, Bool-cases, ==_iff,
}
use forecastiq.Circuit.{
  ProviderCircuit, new_provider_circuit, evaluate, Event, evaluates, succeeds, fails, step,
}
use forecastiq.Circuit.Invariant.{IsConsistent}
use forecastiq.Circuit.Service.{
  Rows, Fault, no_fault, begin_fault, get_fault, upsert_fault, commit_fault, DbError, found, put,
  state_eq, rows_after, service_evaluate, evaluate_circuit, run_tx, get, upsert, record_success,
  record_failure, service_step, service_run, no_rows,
}

-- A row stands under its own provider and is consistent.
abbrev IsOwn : ℕ → ProviderCircuit → Type 0
IsOwn id c = (c.provider_id ≡ id) × IsConsistent c

abbrev pub RowOk : ℕ → Option ProviderCircuit → Type 0
RowOk id none = Unit
RowOk id (some c) = IsOwn id c

found-IsOwn : (id : ℕ) (row : Option ProviderCircuit) → RowOk id row → IsOwn id (found id row)
unfolding new_provider_circuit
found-IsOwn id none h = ground arith
found-IsOwn id (some c) h = h

step-IsOwn : (id : ℕ) (c : ProviderCircuit) (e : Event) → IsOwn id c → IsOwn id (step c e)
unfolding step
step-IsOwn id c e h = ground arith

put-RowOk :
    (rows : Rows) (id other : ℕ) (e : Event)
    → RowOk id (rows id)
    → RowOk other (rows other)
    → RowOk other (put rows (step (found id (rows id)) e) other)
put-RowOk rows id other e h k =
    let own = step-IsOwn id (found id (rows id)) e (found-IsOwn id (rows id) h) in
    elim (Bool-cases (other == (step (found id (rows id)) e).provider_id)) [
      | inl same ↦ rw same (ground (arith, ==_iff other (step (found id (rows id)) e).provider_id))
      | inr differs ↦ rw differs k
    ]

-- Every row stands under its own provider and is consistent.
abbrev pub IsSound : Rows → Type 0
IsSound rows = (id : ℕ) → RowOk id (rows id)

evaluate-unchanged :
    (c : ProviderCircuit) (now : ℕ)
    → state_eq (evaluate c now).0.state c.state ≡ true
    → (evaluate c now).0 ≡ c
unfolding evaluate
evaluate-unchanged c now h = ground arith

service_evaluate-row :
    (f : Fault) (rows : Rows) (id now other : ℕ)
    → RowOk id (rows id)
    → RowOk other (rows other)
    → RowOk other (rows_after rows (service_evaluate f rows id now) other)
unfolding service_evaluate step
service_evaluate-row get_fault rows id now other h k = k
service_evaluate-row upsert_fault rows id now other h k = ground arith
service_evaluate-row begin_fault rows id now other h k = k
service_evaluate-row commit_fault rows id now other h k = ground arith
service_evaluate-row no_fault rows id now other h k =
    ground (arith, put-RowOk rows id other (evaluates now) h k)

record_success-row :
    (f : Fault) (rows : Rows) (id now other : ℕ)
    → RowOk id (rows id)
    → RowOk other (rows other)
    → RowOk other (rows_after rows (record_success f rows id now) other)
unfolding record_success step
record_success-row get_fault rows id now other h k = k
record_success-row upsert_fault rows id now other h k = k
record_success-row _ rows id now other h k = put-RowOk rows id other (succeeds now) h k

record_failure-row :
    (f : Fault) (rows : Rows) (id now other : ℕ)
    → RowOk id (rows id)
    → RowOk other (rows other)
    → RowOk other (rows_after rows (record_failure f rows id now) other)
unfolding record_failure step
record_failure-row get_fault rows id now other h k = k
record_failure-row upsert_fault rows id now other h k = k
record_failure-row _ rows id now other h k = put-RowOk rows id other (fails now) h k

service_step-IsSound :
    (f : Fault) (rows : Rows) (id : ℕ) (e : Event)
    → IsSound rows
    → IsSound (service_step f rows id e)
unfolding service_step
service_step-IsSound f rows id (evaluates now) h other =
    service_evaluate-row f rows id now other (h id) (h other)
service_step-IsSound f rows id (succeeds now) h other =
    record_success-row f rows id now other (h id) (h other)
service_step-IsSound f rows id (fails now) h other =
    record_failure-row f rows id now other (h id) (h other)

service_run-IsSound :
    (rows : Rows) (calls : List (Fault × ℕ × Event))
    → IsSound rows
    → IsSound (service_run rows calls)
unfolding service_run
service_run-IsSound rows [] h = h
service_run-IsSound rows ((f, id, e) ∷ calls) h =
    service_run-IsSound (service_step f rows id e) calls (service_step-IsSound f rows id e h)

-- From an empty table, whatever methods are called for whatever providers and whichever database
-- operations fail, every row stands under its own provider and holds a consistent circuit.
pub rows-IsSound : (calls : List (Fault × ℕ × Event)) → IsSound (service_run no_rows calls)
rows-IsSound calls = service_run-IsSound no_rows calls (λ id. tt)

-- What a call that succeeds, and one that fails, leave of provider `other`.
abbrev pub Leaves {ℓ} : {A : Type ℓ} → Rows → ℕ → Event → ℕ → Result DbError (Rows × A) → Type 0
Leaves rows id e other (err _) = Unit
Leaves rows id e other (ok (rows', _)) =
    found other (rows' other)
    ≡ (if other == id then step (found id (rows id)) e else found other (rows other))

put-found :
    (rows : Rows) (id other : ℕ) (c : ProviderCircuit)
    → c.provider_id ≡ id
    → found other (put rows c other) ≡ (if other == id then c else found other (rows other))
put-found rows id other c h = ground arith

stepped-found :
    (rows : Rows) (id other : ℕ) (e : Event)
    → RowOk id (rows id)
    → found other (put rows (step (found id (rows id)) e) other)
      ≡ (if other == id then step (found id (rows id)) e else found other (rows other))
stepped-found rows id other e h =
    put-found rows id other (step (found id (rows id)) e)
      (step-IsOwn id (found id (rows id)) e (found-IsOwn id (rows id) h)).0

evaluate-same :
    (rows : Rows) (id other now : ℕ)
    → state_eq (evaluate (found id (rows id)) now).0.state (found id (rows id)).state ≡ true
    → found other (rows other)
      ≡ (if other == id then (evaluate (found id (rows id)) now).0 else found other (rows other))
evaluate-same rows id other now h =
    ground (arith, evaluate-unchanged (found id (rows id)) now, ==_iff other id)

service_evaluate-Leaves :
    (f : Fault) (rows : Rows) (id now other : ℕ)
    → RowOk id (rows id)
    → Leaves rows id (evaluates now) other (service_evaluate f rows id now)
unfolding service_evaluate step
service_evaluate-Leaves get_fault rows id now other h = tt
service_evaluate-Leaves upsert_fault rows id now other h =
    ground (arith, evaluate-same rows id other now)
service_evaluate-Leaves begin_fault rows id now other h = tt
service_evaluate-Leaves commit_fault rows id now other h = ground arith
service_evaluate-Leaves no_fault rows id now other h =
    ground (arith, stepped-found rows id other (evaluates now) h, evaluate-same rows id other now)

record_success-Leaves :
    (f : Fault) (rows : Rows) (id now other : ℕ)
    → RowOk id (rows id)
    → Leaves rows id (succeeds now) other (record_success f rows id now)
unfolding record_success step
record_success-Leaves get_fault rows id now other h = tt
record_success-Leaves upsert_fault rows id now other h = tt
record_success-Leaves _ rows id now other h = stepped-found rows id other (succeeds now) h

record_failure-Leaves :
    (f : Fault) (rows : Rows) (id now other : ℕ)
    → RowOk id (rows id)
    → Leaves rows id (fails now) other (record_failure f rows id now)
unfolding record_failure step
record_failure-Leaves get_fault rows id now other h = tt
record_failure-Leaves upsert_fault rows id now other h = tt
record_failure-Leaves _ rows id now other h = stepped-found rows id other (fails now) h

-- Over sound rows each method that succeeds has made exactly its step of the circuit that the
-- provider's row stands for (a missing row standing for a new circuit), and has changed what no
-- other provider's row stands for.
pub service_refines :
    (f : Fault) (rows : Rows) (id now other : ℕ)
    → IsSound rows
    → Leaves rows id (evaluates now) other (service_evaluate f rows id now)
      × Leaves rows id (succeeds now) other (record_success f rows id now)
      × Leaves rows id (fails now) other (record_failure f rows id now)
service_refines f rows id now other h = (
  service_evaluate-Leaves f rows id now other (h id),
  record_success-Leaves f rows id now other (h id),
  record_failure-Leaves f rows id now other (h id),
)

-- Without a fault of the database every method succeeds, over any rows.
pub service-succeeds :
    (rows : Rows) (id now : ℕ)
    → (is_ok (service_evaluate no_fault rows id now) ≡ true)
      × (is_ok (record_success no_fault rows id now) ≡ true)
      × (is_ok (record_failure no_fault rows id now) ≡ true)
unfolding service_evaluate evaluate_circuit run_tx get upsert record_success record_failure
service-succeeds rows id now = (ground arith, refl, refl)
