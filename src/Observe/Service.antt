-- ===== src/Observe/Service.antt =====
-- `Observe` (internal/collection/observe.go). What the adapter returns and which database operation
-- fails are arguments; the transaction is one step, which a fault takes back. Metrics, events and the
-- log come after the commit and are left out.
use forecastiq.Prelude.{
  ℕ, Bool, Option, none, some, List, [], ◌∷◌, ◌==◌, if◌then◌else◌, Result, ok, err,
}
use forecastiq.Float.{Float}
use forecastiq.Observation.{differs_from}
use forecastiq.Observed.{corrected}
use forecastiq.Observe.{Row, Columns, list_current, supersede, insert_batch}

-- An old row and the one that replaces it.
pub record Correction : Type 0 where
  pub old_id : ℕ
  pub old_observed_at : ℕ
  pub new_id : ℕ

-- What the adapter returns: none is an error, and `success` tells the outcome.
pub record Fetched (F : Type 0) : Type 0 where
  pub success : Bool
  pub observations : List (Row F)

pub record Faults : Type 0 where
  pub begins : Bool
  pub ensures : Bool
  pub lists : Bool
  pub supersedes : Bool
  pub inserts : Bool
  pub commits : Bool

pub record Request : Type 0 where
  pub active : Bool
  pub source : ℕ
  pub location_id : ℕ
  pub window_start : ℕ
  pub window_end : ℕ

pub data ObserveError : Type 0 where
  inactive : ObserveError
  fetch_failed : ObserveError
  persist_failed : ObserveError

module _ {F : Type 0} where
  -- The map `byHour`: a later row of the same hour replaces an earlier one.
  unfoldable pub by_hour : ℕ → List (Row F) → Option (Row F)
  by_hour hour [] = none
  by_hour hour (r ∷ rs) = elim (by_hour hour rs) [
    | some found ↦ some found
    | none ↦ if r.observed_at == hour then some r else none
  ]

  unfoldable pub supersede_all : List Correction → List (Row F) → Option (List (Row F))
  supersede_all [] table = some table
  supersede_all (c ∷ cs) table = elim (supersede c.old_id c.old_observed_at c.new_id table) [
    | err e ↦ none
    | ok table' ↦ supersede_all cs table'
  ]

module _ {F : Type 0} ⦃f : Float F⦄ where
  abbrev pub flagged : Row F → Row F
  flagged r = record r { quality_flag = corrected }

  -- The rows to insert.
  unfoldable pub to_insert : List (Row F) → List (Row F) → List (Row F)
  to_insert existing [] = []
  to_insert existing (obs ∷ rest) =
      let others = to_insert existing rest in
      elim (by_hour obs.observed_at existing) [
        | none ↦ obs ∷ others
        | some prev ↦ if differs_from obs.values prev.values then flagged obs ∷ others else others
      ]

  unfoldable pub corrections : List (Row F) → List (Row F) → List Correction
  corrections existing [] = []
  corrections existing (obs ∷ rest) =
      let others = corrections existing rest in
      elim (by_hour obs.observed_at existing) [
        | none ↦ others
        | some prev ↦
            if differs_from obs.values prev.values
            then record { old_id = prev.id; old_observed_at = prev.observed_at; new_id = obs.id }
              ∷ others
            else others
      ]

  -- The body of the transaction: the table and the count that it leaves, or none.
  unfoldable pub store :
      Columns F → Faults → Request → List (Row F) → List (Row F) → Option (List (Row F) × ℕ)
  store c faults req fetched table =
      let existing =
        list_current req.source req.location_id req.window_start req.window_end table in
      let marked =
        if faults.supersedes then supersede_all (corrections existing fetched) table else none in
      if faults.ensures
      then if faults.lists
        then elim marked [
          | none ↦ none
          | some table' ↦
              if faults.inserts
              then elim (insert_batch c (to_insert existing fetched) table') [
                | ok done ↦ some done
                | err e ↦ none
              ]
              else none
        ]
        else none
      else none

  -- `tx.Run`: a fault leaves the table as it was.
  unfoldable pub persist :
      Columns F
      → Faults
      → Request
      → List (Row F)
      → List (Row F)
      → List (Row F) × Result ObserveError ℕ
  persist c faults req fetched table = elim (store c faults req fetched table) [
    | none ↦ (table, err persist_failed)
    | some (table', n) ↦
        if faults.begins
        then if faults.commits then (table', ok n) else (table, err persist_failed)
        else (table, err persist_failed)
  ]

  unfoldable pub observe :
      Columns F
      → Faults
      → Request
      → Option (Fetched F)
      → List (Row F)
      → List (Row F) × Result ObserveError ℕ
  observe c faults req none table = (table, err (if req.active then fetch_failed else inactive))
  observe c faults req (some fetched) table =
      if req.active
      then if fetched.success
        then persist c faults req fetched.observations table
        else (table, err fetch_failed)
      else (table, err inactive)
