-- ===== src/Match/Batch.antt =====
-- The matching batch: `MatchBatch` (internal/analysis/match.go) over the queries of
-- adapters/persistence/analysispg/analysispg.go. The observations are the rows that the observation
-- collection stores, and do not change while a batch runs. UUIDs are numbers in the order of
-- PostgreSQL, `uuid.Nil` is 0; a pair's own id has no effect and is left out. Which query fails is an
-- argument, by the number of the round; a transaction that fails stores nothing.
pub mod Table
pub mod Covers
pub mod Complete
pub mod Again
use forecastiq.Prelude.{
  ℕ, zero, suc, ◌+◌, ◌-◌, ◌*◌, ◌/◌, Bool, true, false, not, ◌&&◌, ◌||◌, Option, none, some, List,
  [], ◌∷◌, ltb, leb, ◌==◌, if◌then◌else◌, is_some, length,
}
use forecastiq.Observed.{is_suspect}
use forecastiq.Observe.{Row, is_live}
use forecastiq.Match.{ObservationCandidate, abs_duration, select_candidate}
use forecastiq.Schedule.{truncate_hour, hour_length, minute_length}

abbrev pub match_window_back : ℕ
match_window_back = 30 * 24 * hour_length

abbrev pub publication_margin : ℕ
publication_margin = 2 * hour_length

abbrev pub rematch_batch_limit : ℕ
rematch_batch_limit = 5000

pub record SnapshotToMatch : Type 0 where
  pub id : ℕ
  pub provider_id : ℕ
  pub location_id : ℕ
  pub target_time : ℕ
  pub forecast_horizon_minutes : ℕ

pub record MatchedEvaluation : Type 0 where
  pub forecast_snapshot_id : ℕ
  pub observation_id : ℕ
  pub provider_id : ℕ
  pub location_id : ℕ
  pub forecast_horizon_minutes : ℕ
  pub target_time : ℕ
  pub time_delta_minutes : ℕ

-- `match_rule` is always `exact_hour`.
unfoldable pub new_pair : SnapshotToMatch → (obs_id observed_at : ℕ) → MatchedEvaluation
new_pair snap obs_id observed_at = record {
  forecast_snapshot_id = snap.id;
  observation_id = obs_id;
  provider_id = snap.provider_id;
  location_id = snap.location_id;
  forecast_horizon_minutes = snap.forecast_horizon_minutes;
  target_time = snap.target_time;
  time_delta_minutes = abs_duration observed_at snap.target_time / minute_length;
}

-- `EXISTS (… WHERE me.forecast_snapshot_id = s.id)`
unfoldable pub has_match : ℕ → List MatchedEvaluation → Bool
has_match id [] = false
has_match id (m ∷ ms) = (m.forecast_snapshot_id == id) || has_match id ms

unfoldable pub has_pair : (snapshot_id observation_id : ℕ) → List MatchedEvaluation → Bool
has_pair snapshot_id observation_id [] = false
has_pair snapshot_id observation_id (m ∷ ms) =
    ((m.forecast_snapshot_id == snapshot_id) && (m.observation_id == observation_id))
    || has_pair snapshot_id observation_id ms

-- `InsertMatches`: the table after it, and how many rows it added.
unfoldable pub insert_matches :
    List MatchedEvaluation → List MatchedEvaluation → List MatchedEvaluation × ℕ
insert_matches [] table = (table, 0)
insert_matches (m ∷ ms) table =
    let added = insert_matches ms (m ∷ table) in
    let skipped = insert_matches ms table in
    if has_pair m.forecast_snapshot_id m.observation_id table
    then skipped
    else (added.0, suc added.1)

-- `ORDER BY s.id`
unfoldable pub insert_by_id : SnapshotToMatch → List SnapshotToMatch → List SnapshotToMatch
insert_by_id s [] = s ∷ []
insert_by_id s (x ∷ xs) =
    let rest = insert_by_id s xs in if leb s.id x.id then s ∷ (x ∷ xs) else x ∷ rest

-- `LIMIT`
unfoldable pub take : {A : Type 0} → ℕ → List A → List A
take zero xs = []
take (suc n) [] = []
take (suc n) (x ∷ xs) = x ∷ take n xs

abbrev pub is_empty : {A : Type 0} → List A → Bool
is_empty [] = true
is_empty (x ∷ xs) = false

-- `ORDER BY me.forecast_snapshot_id`
unfoldable pub insert_by_snapshot :
    MatchedEvaluation → List MatchedEvaluation → List MatchedEvaluation
insert_by_snapshot m [] = m ∷ []
insert_by_snapshot m (x ∷ xs) =
    let rest = insert_by_snapshot m xs in
    if leb m.forecast_snapshot_id x.forecast_snapshot_id then m ∷ (x ∷ xs) else x ∷ rest

unfoldable pub unmatched : (from to after : ℕ) → List MatchedEvaluation → SnapshotToMatch → Bool
unmatched from to after matched s =
    leb from s.target_time && ltb s.target_time to && ltb after s.id && not (has_match s.id matched)

unfoldable pub all_unmatched :
    (from to after : ℕ) → List MatchedEvaluation → List SnapshotToMatch → List SnapshotToMatch
all_unmatched from to after matched [] = []
all_unmatched from to after matched (s ∷ ss) =
    let rest = all_unmatched from to after matched ss in
    if unmatched from to after matched s then insert_by_id s rest else rest

unfoldable pub list_unmatched :
    (from to after limit : ℕ) → List MatchedEvaluation → List SnapshotToMatch → List SnapshotToMatch
list_unmatched from to after limit matched snapshots =
    take limit (all_unmatched from to after matched snapshots)

unfoldable pub last_id : ℕ → List SnapshotToMatch → ℕ
last_id after [] = after
last_id after (s ∷ ss) = last_id s.id ss

unfoldable pub snapshot_of : MatchedEvaluation → SnapshotToMatch
snapshot_of me = record {
  id = me.forecast_snapshot_id;
  provider_id = me.provider_id;
  location_id = me.location_id;
  target_time = me.target_time;
  forecast_horizon_minutes = me.forecast_horizon_minutes;
}

pub record Faults : Type 0 where
  pub lists : ℕ → Bool
  pub finds : ℕ → Bool
  pub inserts : ℕ → Bool
  pub lists_targets : Bool
  pub inserts_targets : Bool

pub data BatchError : Type 0 where
  database_error : BatchError
  out_of_fuel : BatchError

-- The table of pairs that a batch leaves, the number that it created, and its error.
pub record Progress : Type 0 where
  pub matched : List MatchedEvaluation
  pub created : ℕ
  pub failure : Option BatchError

module _ {F : Type 0} where
  unfoldable pub find_candidates :
      (location_id hour : ℕ) → List (Row F) → List (Option ObservationCandidate)
  find_candidates location_id hour [] = []
  find_candidates location_id hour (r ∷ rs) =
      let rest = find_candidates location_id hour rs in
      if (r.location_id == location_id)
        && (r.observed_at == hour)
        && not (is_suspect r.quality_flag)
        && is_live r
      then some (record {
        id = r.id;
        observation_type = r.observation_type;
        quality_flag = r.quality_flag;
        observed_at = r.observed_at;
      })
        ∷ rest
      else rest

  -- The row of an id, as the joins of `ListRematchTargets` find it.
  unfoldable pub row_of : ℕ → List (Row F) → Option (Row F)
  row_of id [] = none
  row_of id (r ∷ rs) = let rest = row_of id rs in if r.id == id then some r else rest

  -- The observation that corrects the one of a pair, if the pair to it is not there yet.
  unfoldable pub rematch_target :
      List (Row F) → List MatchedEvaluation → MatchedEvaluation → Option (Row F)
  rematch_target observations matched me = elim (row_of me.observation_id observations) [
    | none ↦ none
    | some o ↦ elim o.superseded_observation_id [
      | none ↦ none
      | some new_id ↦
          if has_pair me.forecast_snapshot_id new_id matched
          then none
          else row_of new_id observations
    ]
  ]

  -- `ListRematchTargets` before its limit, as the pairs that `rematch` makes of the targets.
  unfoldable pub rematch_pairs :
      List (Row F) → List MatchedEvaluation → List MatchedEvaluation → List MatchedEvaluation
  rematch_pairs observations matched [] = []
  rematch_pairs observations matched (me ∷ mes) =
      let rest = rematch_pairs observations matched mes in
      elim (rematch_target observations matched me) [
        | none ↦ rest
        | some n ↦ insert_by_snapshot (new_pair (snapshot_of me) n.id n.observed_at) rest
      ]

module _ {F : Type 0} (id_less : ℕ → ℕ → Bool) (observations : List (Row F)) where
  unfoldable pub chosen : SnapshotToMatch → Option ObservationCandidate
  chosen snap =
      let hour = truncate_hour snap.target_time in
      select_candidate id_less hour (find_candidates snap.location_id hour observations)

  -- The pairs of a chunk; a snapshot with no observation stays unmatched.
  unfoldable pub pairs : List SnapshotToMatch → List MatchedEvaluation
  pairs [] = []
  pairs (s ∷ ss) = elim (chosen s) [
    | none ↦ pairs ss
    | some c ↦ new_pair s c.id c.observed_at ∷ pairs ss
  ]

  module _ (faults : Faults) (snapshots : List SnapshotToMatch) (from to chunk_size : ℕ) where
    -- The rounds of the loop, each with its number, the id of the last snapshot, the pairs that the
    -- batch has created and the table.
    unfoldable pub match_loop : ℕ → ℕ → ℕ → ℕ → List MatchedEvaluation → Progress
    match_loop zero round after created matched = record {
      matched = matched;
      created = created;
      failure = some out_of_fuel;
    }
    match_loop (suc fuel) round after created matched =
        let chunk = list_unmatched from to after chunk_size matched snapshots in
        let new = pairs chunk in
        let done = insert_matches new matched in
        let failed : Progress = record {
          matched = matched;
          created = created;
          failure = some database_error;
        } in
        let rest = match_loop fuel (suc round) (last_id after chunk) (created + done.1) done.0 in
        if not (faults.lists round)
        then failed
        else if is_empty chunk
        then record { matched = matched; created = created; failure = none }
        else if not (faults.finds round)
        then failed
        else if not (is_empty new) && not (faults.inserts round)
        then failed
        else if ltb (length chunk) chunk_size
        then record { matched = done.0; created = created + done.1; failure = none }
        else rest

  -- The second half of `MatchBatch`, after the loop.
  unfoldable pub rematch : Faults → ℕ → Progress → Progress
  rematch faults limit p =
      let new = take limit (rematch_pairs observations p.matched p.matched) in
      let done = insert_matches new p.matched in
      let failed = record p { failure = some database_error } in
      if not (faults.lists_targets)
      then failed
      else if is_empty new
      then p
      else if faults.inserts_targets
      then record { matched = done.0; created = p.created + done.1; failure = none }
      else failed

  -- `MatchBatch` at the instant `now`, with a round for each snapshot and one more.
  unfoldable pub match_batch :
      Faults → ℕ → ℕ → List SnapshotToMatch → List MatchedEvaluation → Progress
  match_batch faults chunk_size now snapshots matched =
      let p =
        match_loop faults snapshots (now - match_window_back) (now - publication_margin) chunk_size
          (length snapshots + 1) 0 0 0 matched in
      if is_some p.failure then p else rematch faults rematch_batch_limit p
