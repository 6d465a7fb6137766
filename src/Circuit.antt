-- ===== src/Circuit.antt =====
-- The circuit breaker of a provider: internal/catalog/domain/circuit.go. A method that changes
-- `*ProviderCircuit` returns the new record. A time is a number of nanoseconds.
pub mod Invariant
pub mod Probe
pub mod Service
use forecastiq.Prelude.{
  ℕ, ◌+◌, Bool, true, false, Option, none, some, leb, if◌then◌else◌, List, [], ◌∷◌,
}

abbrev pub second : ℕ
second = 1_000_000_000

abbrev pub circuit_failure_threshold : ℕ
circuit_failure_threshold = 5

abbrev pub circuit_probe_delay : ℕ
circuit_probe_delay = 60_000_000_000

pub data CircuitState : Type 0 where
  circuit_closed circuit_half_open circuit_open : CircuitState

pub CircuitState-discrete : Discrete CircuitState
CircuitState-discrete = hlevel

-- The value of the `circuit_state` metric.
unfoldable pub gauge_value : CircuitState → ℕ
gauge_value circuit_half_open = 1
gauge_value circuit_open = 2
gauge_value circuit_closed = 0

pub record ProviderCircuit : Type 0 where
  pub provider_id : ℕ
  pub state : CircuitState
  pub consecutive_failures : ℕ
  pub last_failure_at : Option ℕ
  pub opened_at : Option ℕ
  pub next_probe_at : Option ℕ
  pub updated_at : ℕ

unfoldable pub new_provider_circuit : ℕ → ProviderCircuit
new_provider_circuit provider_id = record {
  provider_id = provider_id;
  state = circuit_closed;
  consecutive_failures = 0;
  last_failure_at = none;
  opened_at = none;
  next_probe_at = none;
  updated_at = 0;
}

pub record Decision : Type 0 where
  pub allowed : Bool
  pub probe : Bool
  pub state : CircuitState
  pub retry_at : Option ℕ

-- `c.NextProbeAt != nil && !now.Before(*c.NextProbeAt)`
abbrev pub probe_due : Option ℕ → ℕ → Bool
probe_due none now = false
probe_due (some at) now = leb at now

-- The `switch` of `Evaluate`.
evaluate_in : CircuitState → ProviderCircuit → ℕ → ProviderCircuit × Decision
evaluate_in circuit_open c now =
    if probe_due c.next_probe_at now
    then (
      record c { state = circuit_half_open },
      record { allowed = true; probe = true; state = circuit_half_open; retry_at = none },
    )
    else (
      c,
      record { allowed = false; probe = false; state = circuit_open; retry_at = c.next_probe_at },
    )
evaluate_in circuit_half_open c now =
    (c, record { allowed = true; probe = true; state = circuit_half_open; retry_at = none })
evaluate_in circuit_closed c now =
    (c, record { allowed = true; probe = false; state = circuit_closed; retry_at = none })

unfoldable pub evaluate : ProviderCircuit → ℕ → ProviderCircuit × Decision
unfolding evaluate_in
evaluate c now = evaluate_in c.state c now

-- The second part is the previous state.
unfoldable pub apply_success : ProviderCircuit → ℕ → ProviderCircuit × CircuitState
apply_success c now = (
  record c {
    state = circuit_closed;
    consecutive_failures = 0;
    opened_at = none;
    next_probe_at = none;
    updated_at = now;
  },
  c.state,
)

unfoldable pub apply_failure : ProviderCircuit → ℕ → ProviderCircuit × CircuitState
apply_failure c now =
    let failures = c.consecutive_failures + 1 in
    let counted = record c {
      consecutive_failures = failures;
      last_failure_at = some now;
      updated_at = now;
    } in
    (
      if leb circuit_failure_threshold failures
          then record counted {
            state = circuit_open;
            opened_at = some now;
            next_probe_at = some (now + circuit_probe_delay);
          }
          else counted,
      c.state,
    )

-- What may happen to a circuit between two writes of its row.
pub data Event : Type 0 where
  evaluates succeeds fails : ℕ → Event

unfoldable pub step : ProviderCircuit → Event → ProviderCircuit
unfolding evaluate apply_success apply_failure
step c (evaluates now) = (evaluate c now).0
step c (succeeds now) = (apply_success c now).0
step c (fails now) = (apply_failure c now).0

unfoldable pub run : ProviderCircuit → List Event → ProviderCircuit
run c [] = c
run c (e ∷ es) = run (step c e) es
