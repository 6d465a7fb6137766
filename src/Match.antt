-- ===== src/Match.antt =====
-- The choice of an observation for a forecast snapshot: internal/analysis/domain/match.go. An id is a
-- number; how the texts of two ids compare is a parameter.
pub mod Select
pub mod Best
pub mod Batch
use forecastiq.Prelude.{
  ℕ, ◌+◌, ◌-◌, ◌≡◌, Bool, true, false, not, ◌&&◌, Option, none, some, List, ltb, ◌==◌,
  if◌then◌else◌,
}
use mathlib.Core.List.{foldl}
use forecastiq.Observed.{
  ObservationType, station_observation, interpolated, reanalysis, provider_estimated, unrecognized,
  QualityFlag, is_corrected,
}

unfoldable pub provenance_rank : ObservationType → ℕ
provenance_rank station_observation = 1
provenance_rank interpolated = 2
provenance_rank reanalysis = 2
provenance_rank provider_estimated = 3
provenance_rank unrecognized = 99

pub record ObservationCandidate : Type 0 where
  pub id : ℕ
  pub observation_type : ObservationType
  pub quality_flag : QualityFlag
  pub observed_at : ℕ

-- `absDuration(a.Sub(b))`
abbrev pub abs_duration : ℕ → ℕ → ℕ
abs_duration a b = (a - b) + (b - a)

abbrev pub bool_eq : Bool → Bool → Bool
bool_eq true b = b
bool_eq false b = not b

-- `a.ID.String() < b.ID.String()` is a strict order on ids.
pub record IsTextOrder (id_less : ℕ → ℕ → Bool) : Type 0 where
  pub id_irrefl : (a : ℕ) → id_less a a ≡ false
  pub id_trans : (a b c : ℕ) → id_less a b ≡ true → id_less b c ≡ true → id_less a c ≡ true
  pub id_total : (a b : ℕ) → id_less a b ≡ false → id_less b a ≡ false → a ≡ b

module _ (id_less : ℕ → ℕ → Bool) where
  unfoldable pub candidate_less : ObservationCandidate → ObservationCandidate → ℕ → Bool
  unfolding provenance_rank
  candidate_less a b target_hour =
      let ac = is_corrected a.quality_flag in
      let bc = is_corrected b.quality_flag in
      let ra = provenance_rank a.observation_type in
      let rb = provenance_rank b.observation_type in
      let da = abs_duration a.observed_at target_hour in
      let db = abs_duration b.observed_at target_hour in
      if not (bool_eq ac bc)
      then ac
      else if not (ra == rb)
      then ltb ra rb
      else if not (da == db)
      then ltb da db
      else id_less a.id b.id

  -- One round of the loop of `SelectCandidate`: `best` so far, and the next candidate.
  unfoldable pub prefer :
      ℕ → Option ObservationCandidate → Option ObservationCandidate → Option ObservationCandidate
  prefer target_hour best none = best
  prefer target_hour none (some c) = some c
  prefer target_hour (some b) (some c) = if candidate_less c b target_hour then some c else some b

  unfoldable pub select_candidate :
      ℕ → List (Option ObservationCandidate) → Option ObservationCandidate
  select_candidate target_hour candidates = foldl (prefer target_hour) none candidates
