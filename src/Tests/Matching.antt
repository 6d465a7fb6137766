-- ===== src/Tests/Matching.antt =====
-- A matching batch at concrete inputs.
use forecastiq.Prelude.{
  ℕ, ◌*◌, ◌-◌, ◌<◌, ◌≡◌, refl, inl, inr, true, none, some, List, [], ◌∷◌, arith, ltb,
}
use forecastiq.Prelude.Int.{ℤ, pos}
use forecastiq.Observed.{reanalysis, valid}
use forecastiq.Observe.{Row}
use forecastiq.Schedule.{hour_length}
use forecastiq.Match.{select_candidate, candidate_less, provenance_rank, prefer}
use forecastiq.Match.Batch.{
  SnapshotToMatch, Faults, has_match, has_pair, insert_matches, insert_by_id, take, unmatched,
  all_unmatched, list_unmatched, last_id, find_candidates, row_of, rematch_target, rematch_pairs,
  chosen, pairs, match_loop, rematch, match_batch, match_window_back, publication_margin, new_pair,
}
use forecastiq.Match.Batch.Table.{In}
use forecastiq.Match.Batch.Covers.{IsKeyed, AllCovered}
use forecastiq.Match.Batch.Complete.{IsFaultless, match_batch-covers, match_batch-returns}
use forecastiq.Match.Batch.Again.{match_batch-again}

abbrev observed : Row ℤ
observed = record {
  id = 50;
  location_id = 2;
  source = 1;
  observation_type = reanalysis;
  observed_at = 790 * hour_length;
  values = record {
    temperature_c = some (pos 20000);
    humidity_pct = none;
    wind_speed_ms = none;
    wind_direction_deg = none;
    pressure_hpa = none;
    precipitation_mm = none;
  };
  quality_flag = valid;
  superseded_observation_id = none;
}

abbrev first : SnapshotToMatch
first = record {
  id = 7;
  provider_id = 3;
  location_id = 2;
  target_time = 790 * hour_length;
  forecast_horizon_minutes = 60;
}

-- Of a location with no observation.
abbrev second : SnapshotToMatch
second = record first { id = 9; location_id = 4 }

abbrev snapshots : List SnapshotToMatch
snapshots = second ∷ first ∷ []

snapshots-IsKeyed : IsKeyed snapshots
snapshots-IsKeyed x y (inl a) (inl b) e = cc
snapshots-IsKeyed x y (inl a) (inr (inl b)) e = absurd (ground (arith, a, b, e))
snapshots-IsKeyed x y (inr (inl a)) (inl b) e = absurd (ground (arith, a, b, e))
snapshots-IsKeyed x y (inr (inl a)) (inr (inl b)) e = cc
snapshots-IsKeyed x y (inl a) (inr (inr b)) e = elim b [ ]
snapshots-IsKeyed x y (inr (inl a)) (inr (inr b)) e = elim b [ ]
snapshots-IsKeyed x y (inr (inr a)) j e = elim a [ ]

snapshots_named : (x : SnapshotToMatch) → In x snapshots → 0 < x.id
snapshots_named x (inl e) = ground (arith, e)
snapshots_named x (inr (inl e)) = ground (arith, e)
snapshots_named x (inr (inr b)) = elim b [ ]

abbrev no_faults : Faults
no_faults = record {
  lists = λ n. true;
  finds = λ n. true;
  inserts = λ n. true;
  lists_targets = true;
  inserts_targets = true;
}

no_faults-IsFaultless : IsFaultless no_faults
no_faults-IsFaultless = record {
  lists = λ n. refl;
  finds = λ n. refl;
  inserts = λ n. refl;
  lists_targets = refl;
  inserts_targets = refl;
}

abbrev now : ℕ
now = 800 * hour_length

match_batch-returns_example :
    (match_batch ltb (observed ∷ []) no_faults 1 now snapshots []).failure ≡ none
match_batch-returns_example =
    match_batch-returns ltb (observed ∷ []) no_faults 1 now snapshots [] no_faults-IsFaultless

returned : (match_batch ltb (observed ∷ []) no_faults 1 now snapshots []).failure ≡ none
returned =
    match_batch-returns ltb (observed ∷ []) no_faults 1 now snapshots [] no_faults-IsFaultless

created_one : (match_batch ltb (observed ∷ []) no_faults 1 now snapshots []).created ≡ 1
unfolding match_batch match_loop rematch has_match has_pair insert_matches insert_by_id take
    unmatched all_unmatched list_unmatched last_id find_candidates row_of rematch_target
    rematch_pairs chosen pairs new_pair select_candidate candidate_less provenance_rank prefer
created_one = refl

match_batch-covers_example :
    AllCovered ltb
      (observed ∷ [])
      snapshots
      (now - match_window_back)
      (now - publication_margin)
      (match_batch ltb (observed ∷ []) no_faults 1 now snapshots []).matched
match_batch-covers_example =
    match_batch-covers ltb (observed ∷ []) no_faults 1 now snapshots [] (omega arith)
      snapshots-IsKeyed snapshots_named returned

none_left :
    let t = (match_batch ltb (observed ∷ []) no_faults 1 now snapshots []).matched in
    rematch_pairs (observed ∷ []) t t ≡ []
unfolding match_batch match_loop rematch has_match has_pair insert_matches insert_by_id take
    unmatched all_unmatched list_unmatched last_id find_candidates row_of rematch_target
    rematch_pairs chosen pairs new_pair select_candidate candidate_less provenance_rank prefer
none_left = refl

match_batch-again_example :
    let t = (match_batch ltb (observed ∷ []) no_faults 1 now snapshots []).matched in
    let again = match_batch ltb (observed ∷ []) no_faults 5 now snapshots t in
    (again.matched ≡ t) × (again.created ≡ 0)
match_batch-again_example =
    match_batch-again ltb (observed ∷ []) no_faults no_faults 1 5 now snapshots [] (omega arith)
      snapshots-IsKeyed snapshots_named returned none_left
