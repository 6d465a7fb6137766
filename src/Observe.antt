-- ===== src/Observe.antt =====
-- The table of observations (adapters/persistence/observationpg/observationpg.go) with the constraints
-- of migrations/20260801000007_create_observations.up.sql that the code meets: the checks, the
-- primary key (id, observed_at), and the partial unique index on the live rows. Sources are numbers;
-- the condition codes and `created_at` have no effect here and are left out.
pub mod Service
pub mod OneLive
pub mod Marked
pub mod Close
pub mod Current
pub mod Repeat
pub mod Refused
use forecastiq.Prelude.{
  ℕ, ◌+◌, Bool, true, false, not, ◌&&◌, ◌||◌, Option, none, some, List, [], ◌∷◌, leb, ◌==◌,
  if◌then◌else◌, is_some, Result, ok, err, ◌>>=◌,
}
use forecastiq.Float.{Float, ◌≺◌, fzero}
use forecastiq.Observation.{Observation, whole}
use forecastiq.Observed.{ObservationType, QualityFlag}

pub record Row (F : Type 0) : Type 0 where
  pub id : ℕ
  pub location_id : ℕ
  pub source : ℕ
  pub observation_type : ObservationType
  pub observed_at : ℕ
  pub values : Observation F
  pub quality_flag : QualityFlag
  pub superseded_observation_id : Option ℕ

-- What PostgreSQL keeps of a double in a column `numeric(p, s)`: the value that is read back, or none
-- where the cast overflows.
pub record Columns (F : Type 0) : Type 0 where
  pub temperature_c : F → Option F
  pub humidity_pct : F → Option F
  pub wind_speed_ms : F → Option F
  pub wind_direction_deg : F → Option F
  pub pressure_hpa : F → Option F
  pub precipitation_mm : F → Option F

pub data StoreError : Type 0 where
  check_violation : StoreError
  duplicate_id : StoreError
  not_live : StoreError

abbrev pub and_then : {A B : Type 0} → Option A → (A → Option B) → Option B
and_then none g = none
and_then (some a) g = g a

module _ {F : Type 0} where
  abbrev pub is_live : Row F → Bool
  is_live r = not (is_some r.superseded_observation_id)

  -- A row of the partial unique index `observations_dedup` at the key.
  unfoldable pub live_key : (source location_id observed_at : ℕ) → Row F → Bool
  live_key source location_id observed_at r =
      (r.source == source)
      && (r.location_id == location_id)
      && (r.observed_at == observed_at)
      && is_live r

  -- The last live row at the key; the index admits one.
  unfoldable pub live_at : (source location_id observed_at : ℕ) → List (Row F) → Option (Row F)
  live_at source location_id observed_at [] = none
  live_at source location_id observed_at (r ∷ rs) =
      elim (live_at source location_id observed_at rs) [
        | some found ↦ some found
        | none ↦ if live_key source location_id observed_at r then some r else none
      ]

  unfoldable pub has_key : (id observed_at : ℕ) → List (Row F) → Bool
  has_key id observed_at [] = false
  has_key id observed_at (r ∷ rs) =
      ((r.id == id) && (r.observed_at == observed_at)) || has_key id observed_at rs

  -- `ListCurrentByWindow`; the order of the rows has no effect on the map that is built of them.
  unfoldable pub list_current : (source location_id start end : ℕ) → List (Row F) → List (Row F)
  list_current source location_id start end [] = []
  list_current source location_id start end (r ∷ rs) =
      let rest = list_current source location_id start end rs in
      if (r.source == source)
        && (r.location_id == location_id)
        && leb start r.observed_at
        && leb r.observed_at end
        && is_live r
      then r ∷ rest
      else rest

  -- The condition of `Supersede`.
  unfoldable pub is_target : (old_id old_observed_at : ℕ) → Row F → Bool
  is_target old_id old_observed_at r =
      (r.id == old_id) && (r.observed_at == old_observed_at) && is_live r

  unfoldable pub has_target : (old_id old_observed_at : ℕ) → List (Row F) → Bool
  has_target old_id old_observed_at [] = false
  has_target old_id old_observed_at (r ∷ rs) =
      is_target old_id old_observed_at r || has_target old_id old_observed_at rs

  unfoldable pub mark : (old_id old_observed_at new_id : ℕ) → List (Row F) → List (Row F)
  mark old_id old_observed_at new_id [] = []
  mark old_id old_observed_at new_id (r ∷ rs) =
      (if is_target old_id old_observed_at r
        then record r { superseded_observation_id = some new_id }
        else r)
      ∷ mark old_id old_observed_at new_id rs

  unfoldable pub supersede :
      (old_id old_observed_at new_id : ℕ) → List (Row F) → Result StoreError (List (Row F))
  supersede old_id old_observed_at new_id table =
      if has_target old_id old_observed_at table
      then ok (mark old_id old_observed_at new_id table)
      else err not_live

  -- A nullable column.
  unfoldable pub column : (F → Option F) → Option F → Option (Option F)
  column cast none = some none
  column cast (some v) = elim (cast v) [ none ↦ none | some w ↦ some (some w) ]

module _ {F : Type 0} ⦃f : Float F⦄ where
  -- A `CHECK` on a nullable column holds for NULL.
  unfoldable pub at_least : F → Option F → Bool
  at_least lower none = true
  at_least lower (some v) = not (v ≺ lower)

  unfoldable pub at_most : F → Option F → Bool
  at_most upper none = true
  at_most upper (some v) = not (upper ≺ v)

  unfoldable pub checked : Observation F → Bool
  checked o =
      at_least fzero o.humidity_pct
      && at_most (whole 100) o.humidity_pct
      && at_least fzero o.wind_speed_ms
      && at_least fzero o.wind_direction_deg
      && at_most (whole 360) o.wind_direction_deg
      && at_least fzero o.precipitation_mm

  unfoldable pub cast_values : Columns F → Observation F → Option (Observation F)
  cast_values c o = and_then (column c.temperature_c o.temperature_c) λ temperature_c.
      and_then (column c.humidity_pct o.humidity_pct) λ humidity_pct.
        and_then (column c.wind_speed_ms o.wind_speed_ms) λ wind_speed_ms.
          and_then (column c.wind_direction_deg o.wind_direction_deg) λ wind_direction_deg.
            and_then (column c.pressure_hpa o.pressure_hpa) λ pressure_hpa.
              and_then (column c.precipitation_mm o.precipitation_mm) λ precipitation_mm.
                some (record {
                  temperature_c = temperature_c;
                  humidity_pct = humidity_pct;
                  wind_speed_ms = wind_speed_ms;
                  wind_direction_deg = wind_direction_deg;
                  pressure_hpa = pressure_hpa;
                  precipitation_mm = precipitation_mm;
                })

  -- The values that the row will hold, or none where the insert fails.
  unfoldable pub stored_values : Columns F → Observation F → Option (Observation F)
  stored_values c o = and_then (cast_values c o) λ kept. if checked kept then some kept else none

  -- One row of the `INSERT`: the checks, the conflict on the index, and the primary key.
  unfoldable pub insert_row :
      Columns F → Row F → List (Row F) → Result StoreError (List (Row F) × ℕ)
  insert_row c r table = elim (stored_values c r.values) [
    | none ↦ err check_violation
    | some kept ↦
        if is_some (live_at r.source r.location_id r.observed_at table)
        then ok (table, 0)
        else if has_key r.id r.observed_at table
        then err duplicate_id
        else ok (record r { values = kept; superseded_observation_id = none } ∷ table, 1)
  ]

  -- `InsertBatch`, one statement: the table after it, and how many rows it added.
  unfoldable pub insert_batch :
      Columns F → List (Row F) → List (Row F) → Result StoreError (List (Row F) × ℕ)
  insert_batch c [] table = ok (table, 0)
  insert_batch c (r ∷ rs) table = do
    done ← insert_row c r table
    more ← insert_batch c rs done.0
    ok (more.0, more.1 + done.1)
