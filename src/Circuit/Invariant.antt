-- ===== src/Circuit/Invariant.antt =====
-- What holds of a circuit after any calls of `Evaluate`, `ApplySuccess` and `ApplyFailure`
-- (internal/catalog/domain/circuit.go).
use forecastiq.Prelude.{
  ℕ, ◌+◌, ◌≤◌, ◌<◌, ◌≡◌, Option, none, some, List, [], ◌∷◌, arith, true, is_some,
}
use forecastiq.Circuit.{
  CircuitState, circuit_closed, circuit_half_open, circuit_open, ProviderCircuit,
  new_provider_circuit, Event, step, run, circuit_failure_threshold, circuit_probe_delay,
}

abbrev after_delay : Option ℕ → Option ℕ
after_delay none = none
after_delay (some at) = some (at + circuit_probe_delay)

-- A closed circuit has fewer failures than the threshold and no probe time.
abbrev Untripped : ProviderCircuit → Type 0
Untripped c =
    (c.consecutive_failures < circuit_failure_threshold)
    × (c.opened_at ≡ none)
    × (c.next_probe_at ≡ none)

-- Any other has reached it, and its probe is due the probe delay after its last failure.
abbrev Tripped : ProviderCircuit → Type 0
Tripped c =
    (circuit_failure_threshold ≤ c.consecutive_failures)
    × (is_some c.last_failure_at ≡ true)
    × (c.opened_at ≡ c.last_failure_at)
    × (c.next_probe_at ≡ after_delay c.last_failure_at)

abbrev pub ConsistentIn : CircuitState → ProviderCircuit → Type 0
ConsistentIn circuit_closed c = Untripped c
ConsistentIn circuit_half_open c = Tripped c
ConsistentIn circuit_open c = Tripped c

abbrev pub IsConsistent : ProviderCircuit → Type 0
IsConsistent c = ConsistentIn c.state c

new_provider_circuit-IsConsistent : (id : ℕ) → IsConsistent (new_provider_circuit id)
unfolding new_provider_circuit
new_provider_circuit-IsConsistent id = ground arith

pub step-IsConsistent : (c : ProviderCircuit) (e : Event) → IsConsistent c → IsConsistent (step c e)
unfolding step
step-IsConsistent c e h = ground arith

run_from-IsConsistent :
    (c : ProviderCircuit) (es : List Event) → IsConsistent c → IsConsistent (run c es)
unfolding run
run_from-IsConsistent c [] h = h
run_from-IsConsistent c (e ∷ es) h = run_from-IsConsistent (step c e) es (step-IsConsistent c e h)

-- Whatever calls a provider's new circuit sees, in any order and at any times: while it is closed it
-- has fewer than five consecutive failures and no probe time, and while it is open or half-open it
-- has at least five, was opened at its last failure, and is due a probe 60 seconds after that.
pub run-IsConsistent : (id : ℕ) (es : List Event) → IsConsistent (run (new_provider_circuit id) es)
run-IsConsistent id es =
    run_from-IsConsistent (new_provider_circuit id) es (new_provider_circuit-IsConsistent id)
