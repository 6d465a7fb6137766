-- ===== src/Collection/Collect/Breaker.antt =====
-- What a collection does to the breaker of its provider, and the breaker to it
-- (internal/collection/collect.go).
use forecastiq.Prelude.{ℕ, ◌<◌, ◌≡◌, Bool, false, some, refl, Result, ok, err, arith, is_ok}
use forecastiq.Circuit.{
  Decision, ProviderCircuit, circuit_open, evaluate, apply_success, apply_failure,
}
use forecastiq.Circuit.Service.{
  Rows, DbError, Fault, found, service_evaluate, evaluate_circuit, run_tx, get, upsert,
  record_success, record_failure, transition,
}
use forecastiq.Collection.{
  Outcome, outcome_success, outcome_partial, outcome_failed, outcome_rate_limited, outcome_timeout,
  outcome_auth_failed, RowCode, successful, classify, classify_outcome,
}
use forecastiq.Collection.Store.{Store}
use forecastiq.Collection.Collect.{record_outcome, CollectInput, World, Outcomes, admitted, collect}
use forecastiq.Collection.Collect.Cases.{if-cases}

-- What the workflow document asks of the breaker for each outcome of an adapter.
pub breaker_after : Outcome → ProviderCircuit → ℕ → ProviderCircuit
breaker_after outcome_success c now = (apply_success c now).0
breaker_after outcome_partial c now = (apply_success c now).0
breaker_after outcome_failed c now = (apply_failure c now).0
breaker_after outcome_timeout c now = (apply_failure c now).0
breaker_after outcome_rate_limited c now = c
breaker_after outcome_auth_failed c now = c

-- If the row of the provider, or the new circuit that a missing one stands for, is under the
-- provider's id: for every outcome, whether or not the payload was written, what a collection
-- records of its outcome is a success of the breaker for a success or a partial success, a
-- failure for a failure or a timeout, and nothing for a rate limit or a refused credential.
pub record_outcome-breaker_after :
    (outcome : Outcome) (given : RowCode) (payload_ok : Bool) (id now : ℕ) (rows : Rows)
    → (found id (rows id)).provider_id ≡ id
    → found id (record_outcome (classify outcome given payload_ok).0 outcome id now rows id)
      ≡ breaker_after outcome (found id (rows id)) now
unfolding record_outcome classify classify_outcome successful transition record_success
    record_failure get upsert apply_success apply_failure breaker_after
record_outcome-breaker_after outcome_success given payload_ok id now rows h = ground arith
record_outcome-breaker_after outcome_partial given payload_ok id now rows h = ground arith
record_outcome-breaker_after outcome_failed given payload_ok id now rows h = ground arith
record_outcome-breaker_after outcome_timeout given payload_ok id now rows h = ground arith
record_outcome-breaker_after outcome_rate_limited given payload_ok id now rows h = refl
record_outcome-breaker_after outcome_auth_failed given payload_ok id now rows h = refl

IsRefused : Store → Outcomes → Type 0
IsRefused s out =
    (is_ok out.1 ≡ false) × (out.0.collections ≡ s.collections) × (out.0.snapshots ≡ s.snapshots)

service_evaluate-refused :
    (f : Fault) (rows rows' : Rows) (id now until : ℕ) (d : Decision)
    → (found id (rows id)).state ≡ circuit_open
    → (found id (rows id)).next_probe_at ≡ some until
    → now < until
    → service_evaluate f rows id now ≡ ok (rows', d)
    → d.allowed ≡ false
unfolding service_evaluate evaluate_circuit run_tx get upsert evaluate
service_evaluate-refused f rows rows' id now until d o n l h = ground arith

admitted-IsRefused :
    (in_ : CollectInput) (w : World) (s : Store) (x : Result DbError (Rows × Decision))
    → ((rows : Rows) (d : Decision) → x ≡ ok (rows, d) → d.allowed ≡ false)
    → IsRefused s (admitted in_ w x s)
unfolding admitted IsRefused
admitted-IsRefused in_ w s (err e) h = (refl, refl, refl)
admitted-IsRefused in_ w s (ok (rows, d)) h = ground (arith, h rows d refl)

-- While the breaker of a provider is open and its probe time is still to come, a collection stores nothing and returns an
-- error, whatever its adapter would return.
pub collect-open :
    (in_ : CollectInput) (w : World) (s : Store) (until : ℕ)
    → (found in_.provider_id (s.circuits in_.provider_id)).state ≡ circuit_open
    → (found in_.provider_id (s.circuits in_.provider_id)).next_probe_at ≡ some until
    → w.now < until
    → (is_ok (collect in_ w s).1 ≡ false)
      × ((collect in_ w s).0.collections ≡ s.collections)
      × ((collect in_ w s).0.snapshots ≡ s.snapshots)
unfolding collect IsRefused
collect-open in_ w s until o n l =
    if-cases (IsRefused s) _ _ _ (refl, refl, refl)
      (admitted-IsRefused in_ w s _ (λ rows d h.
        service_evaluate-refused w.evaluate_fault s.circuits rows in_.provider_id w.now until d o n
          l h))
