-- ===== src/Observed.antt =====
-- The words for observations that the collection and analysis modules share: the types and quality
-- flags of internal/collection/domain/observation.go and internal/analysis/domain/match.go.
use forecastiq.Prelude.{Bool, true, false}

-- `unrecognized` is any other text.
pub data ObservationType : Type 0 where
  station_observation interpolated reanalysis provider_estimated unrecognized : ObservationType

pub data QualityFlag : Type 0 where
  valid suspect corrected : QualityFlag

abbrev pub is_corrected : QualityFlag → Bool
is_corrected corrected = true
is_corrected _ = false

abbrev pub is_suspect : QualityFlag → Bool
is_suspect suspect = true
is_suspect _ = false
