-- ===== src/Circuit/Probe.antt =====
-- When a circuit opens, refuses, probes and closes (internal/catalog/domain/circuit.go).
use forecastiq.Prelude.{
  ℕ, ◌+◌, ◌≤◌, ◌≡◌, some, List, [], ◌∷◌, arith, true, map, length, leb, if◌then◌else◌, All,
}
use forecastiq.Circuit.{
  circuit_closed, circuit_half_open, circuit_open, ProviderCircuit, Decision, fails, step, run,
  circuit_failure_threshold, circuit_probe_delay, evaluate, apply_success,
}
use forecastiq.Circuit.Invariant.{IsConsistent}

-- `n` failures are counted.
run-fails :
    (c : ProviderCircuit) (ts : List ℕ)
    → c.state ≡ (
        if leb circuit_failure_threshold c.consecutive_failures
        then circuit_open
        else circuit_closed)
    → (run c (map fails ts)).state ≡ (
        if leb circuit_failure_threshold (c.consecutive_failures + length ts)
        then circuit_open
        else circuit_closed)
unfolding run step
run-fails c [] h = ground arith
run-fails c (t ∷ ts) h = ground (arith, run-fails (step c (fails t)) ts)

-- After a success, at any time and in any state, a row of failures with no success between them
-- opens the circuit exactly when there are at least five of them.
pub opens_after_five :
    (c : ProviderCircuit) (now : ℕ) (ts : List ℕ)
    → (run (apply_success c now).0 (map fails ts)).state
      ≡ (if leb circuit_failure_threshold (length ts) then circuit_open else circuit_closed)
unfolding apply_success
opens_after_five c now ts = ground (arith, run-fails (apply_success c now).0 ts)

-- The decisions of successive calls of `Evaluate` with no outcome recorded between them.
pub decisions : ProviderCircuit → List ℕ → List Decision
decisions c [] = []
decisions c (now ∷ times) = let (c', d) = evaluate c now in d ∷ decisions c' times

abbrev IsProbe : Decision → Type 0
IsProbe d = (d.allowed ≡ true) × (d.probe ≡ true)

half_open-All :
    (c : ProviderCircuit) (times : List ℕ)
    → c.state ≡ circuit_half_open
    → All IsProbe (decisions c times)
unfolding decisions evaluate
half_open-All c [] h = tt
half_open-All c (t ∷ ts) h = ground (arith, half_open-All c ts)

-- Once the probe time of a consistent open circuit has come, every call of `Evaluate` is let
-- through as a probe, however many are made before an outcome is recorded.
pub every_call_probes :
    (c : ProviderCircuit) (at now : ℕ) (times : List ℕ)
    → IsConsistent c
    → c.state ≡ circuit_open
    → c.last_failure_at ≡ some at
    → at + circuit_probe_delay ≤ now
    → All IsProbe (decisions c (now ∷ times))
unfolding decisions evaluate
every_call_probes c at now times h s l due =
    ground (arith, half_open-All (record c { state = circuit_half_open }) times)
