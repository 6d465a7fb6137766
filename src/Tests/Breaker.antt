-- ===== src/Tests/Breaker.antt =====
-- The breaker, the choice of observations and the budget at concrete inputs.
use forecastiq.Prelude.{
  ℕ, zero, suc, ◌≤◌, ◌≡◌, refl, Option, none, some, List, [], ◌∷◌, map, ltb, arith, All,
}
use mathlib.Core.List.{Perm, Memᴰ}
use mathlib.Core.List.Permᴰ
use forecastiq.Circuit.{
  ProviderCircuit, new_provider_circuit, Event, evaluates, succeeds, fails, run,
}
use forecastiq.Circuit.Invariant.{IsConsistent, run-IsConsistent}
use forecastiq.Circuit.Service.{no_fault, no_rows, service_evaluate, record_success, record_failure}
use forecastiq.Circuit.Service.Sound.{service_refines, Leaves}
use forecastiq.Observed.{station_observation, reanalysis, valid}
use forecastiq.Match.{ObservationCandidate, IsTextOrder, select_candidate}
use forecastiq.Match.Select.{HasId, select_candidate-perm}
use forecastiq.Match.Best.{NotBetter, select_candidate-best}
use forecastiq.Budget.{DailyBudget, Call, reserving, pausing, consuming, utc_day, new_daily_budget}
use forecastiq.Budget.Daily.{IsForward, granted_on, granted_on_le}

abbrev five_failures : List Event
five_failures = fails 1 ∷ fails 2 ∷ fails 3 ∷ fails 4 ∷ fails 5 ∷ []

abbrev tripped : ProviderCircuit
tripped = run (new_provider_circuit 7) five_failures

tripped-IsConsistent : IsConsistent tripped
tripped-IsConsistent = run-IsConsistent 7 five_failures

run-IsConsistent_example : IsConsistent (run (new_provider_circuit 7) five_failures)
run-IsConsistent_example = run-IsConsistent 7 five_failures

service_refines_example :
    Leaves no_rows 7 (evaluates 5) 8 (service_evaluate no_fault no_rows 7 5)
    × Leaves no_rows 7 (succeeds 5) 8 (record_success no_fault no_rows 7 5)
    × Leaves no_rows 7 (fails 5) 8 (record_failure no_fault no_rows 7 5)
service_refines_example = service_refines no_fault no_rows 7 5 8 (λ id. tt)

ltb-IsTextOrder : IsTextOrder ltb
ltb-IsTextOrder = record {
  id_irrefl = λ a. ground arith;
  id_trans = λ a b c h k. ground arith;
  id_total = λ a b h k. ground arith;
}

abbrev table : ℕ → Option ObservationCandidate
table (suc zero) =
    some
      (record { id = 1; observation_type = reanalysis; quality_flag = valid; observed_at = 3600 })
table (suc (suc zero)) = some (record {
  id = 2;
  observation_type = station_observation;
  quality_flag = valid;
  observed_at = 3700;
})
table _ = none

table-keyed : (i : ℕ) → HasId ltb ltb-IsTextOrder i (table i)
table-keyed zero = tt
table-keyed (suc zero) = refl
table-keyed (suc (suc zero)) = refl
table-keyed (suc (suc (suc i))) = tt

swapped : Perm {A = ℕ} (1 ∷ 2 ∷ []) (2 ∷ 1 ∷ [])
swapped = ∣ Permᴰ.swap refl refl ∣₁

select_candidate-perm_example :
    select_candidate ltb 3600 (map table (1 ∷ 2 ∷ []))
    ≡ select_candidate ltb 3600 (map table (2 ∷ 1 ∷ []))
select_candidate-perm_example =
    select_candidate-perm ltb ltb-IsTextOrder table table-keyed 3600 (1 ∷ 2 ∷ []) (2 ∷ 1 ∷ [])
      swapped

abbrev two_candidates : List (Option ObservationCandidate)
two_candidates = table 1 ∷ none ∷ table 2 ∷ []

select_candidate-best_example :
    Memᴰ (select_candidate ltb 3600 two_candidates) (none ∷ two_candidates)
    × All
        (NotBetter ltb ltb-IsTextOrder 3600 (select_candidate ltb 3600 two_candidates))
        two_candidates
select_candidate-best_example = select_candidate-best ltb ltb-IsTextOrder 3600 two_candidates

abbrev calls : List Call
calls =
    reserving 1
    ∷ reserving 2
    ∷ pausing 3 5
    ∷ reserving 4
    ∷ consuming 1 5
    ∷ reserving 9
    ∷ reserving 86400000000000
    ∷ []

calls-IsForward : IsForward (utc_day 0) calls
unfolding utc_day
calls-IsForward = (
  ground arith,
  (
    ground arith,
    (ground arith, (ground arith, (ground arith, (ground arith, (ground arith, tt))))),
  ),
)

granted_on_le_example : granted_on 0 (new_daily_budget 2 0) calls ≤ 2
granted_on_le_example = granted_on_le 2 0 calls calls-IsForward 0

abbrev budget : DailyBudget
budget = new_daily_budget 2 0

abbrev spent : DailyBudget
spent = record budget { used = 2 }
