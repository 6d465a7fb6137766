-- ===== src/Publish.antt =====
-- A table whose rows are never edited: a recomputation inserts new rows and marks the older rows of
-- the same key as superseded. It is the shape of `accuracy_metrics` and `provider_rankings`
-- (adapters/persistence/analysispg/metricspg.go and rankingpg.go), with the transaction that
-- internal/analysis/aggregate.go and rank.go run on them.
pub mod Live
pub mod Cells
pub mod Keys
use forecastiq.Prelude.{
  ℕ, ◌≡◌, Bool, true, false, not, ◌&&◌, ◌||◌, Option, none, some, List, [], ◌∷◌, ◌++◌, ◌==◌,
  is_some, if◌then◌else◌, ◌+◌, length, Result, ok, err,
}

pub record Version (V : Type 0) : Type 0 where
  pub id : ℕ
  pub value : V
  pub superseded_by : Option ℕ

-- Which statements of the transaction succeed.
pub record Faults : Type 0 where
  pub begins : Bool
  pub inserts : Bool
  pub supersedes : Bool
  pub commits : Bool

abbrev pub fresh : {V : Type 0} → Version V → Version V
fresh r = record r { superseded_by = none }

-- The live rows of a key after a publication with this new row of the key, or with none.
abbrev pub published : {V : Type 0} → Option (Version V) → List (Version V) → List (Version V)
published none old = old
published (some new) old = fresh new ∷ []

module _ {V : Type 0} where
  unfoldable pub has_id : ℕ → List (Version V) → Bool
  has_id id [] = false
  has_id id (r ∷ rs) = (r.id == id) || has_id id rs

  -- The `INSERT` of the rows, one statement: none if a row fails a `CHECK` or its id is taken.
  unfoldable pub insert_versions :
      (V → Bool) → List (Version V) → List (Version V) → Option (List (Version V))
  insert_versions passes [] table = some table
  insert_versions passes (r ∷ rs) table =
      let rest = insert_versions passes rs (fresh r ∷ table) in
      if passes r.value && not (has_id r.id table) then rest else none

module _ {K V : Type 0} (same_key : K → K → Bool) (key_of : V → K) where
  abbrev pub is_live : K → Version V → Bool
  is_live k r = same_key k (key_of r.value) && not (is_some r.superseded_by)

  -- The `UPDATE` of one new row: the older live rows of its key.
  unfoldable pub supersede_previous : Version V → List (Version V) → List (Version V)
  supersede_previous new [] = []
  supersede_previous new (r ∷ rs) =
      (if is_live (key_of new.value) r && not (r.id == new.id)
        then record r { superseded_by = some new.id }
        else r)
      ∷ supersede_previous new rs

  unfoldable pub supersede_each : List (Version V) → List (Version V) → List (Version V)
  supersede_each [] table = table
  supersede_each (r ∷ rs) table = supersede_each rs (supersede_previous r table)

  -- The transaction: the table after it, and whether it has committed.
  unfoldable pub publish :
      (V → Bool) → Faults → List (Version V) → List (Version V) → List (Version V) × Bool
  publish passes faults news table = elim (insert_versions passes news table) [
    | none ↦ (table, false)
    | some inserted ↦
        if faults.begins && faults.inserts && faults.supersedes && faults.commits
        then (supersede_each news inserted, true)
        else (table, false)
  ]

  -- The live rows at a key.
  unfoldable pub live : K → List (Version V) → List (Version V)
  live k [] = []
  live k (r ∷ rs) = let rest = live k rs in if is_live k r then r ∷ rest else rest

  -- The first row at a key.
  unfoldable pub at_key : K → List (Version V) → Option (Version V)
  at_key k [] = none
  at_key k (r ∷ rs) = let rest = at_key k rs in if same_key k (key_of r.value) then some r else rest

-- The rows that a cell's reads lead to, or none if one fails, and how its transaction goes.
pub record CellRun (V : Type 0) : Type 0 where
  pub rows : Option (List (Version V))
  pub faults : Faults

module _ {C K V : Type 0} (same_key : K → K → Bool) (key_of : V → K) (passes : V → Bool)
    (run : C → CellRun V) where
  -- A batch, one transaction for each cell, up to the first failure: the table, and the number of rows
  -- written before it.
  unfoldable pub publish_cells : List C → ℕ → List (Version V) → List (Version V) × Result ℕ ℕ
  publish_cells [] total table = (table, ok total)
  publish_cells (cell ∷ cells) total table = elim (run cell).rows [
    | none ↦ (table, err total)
    | some new ↦
        let done = publish same_key key_of passes (run cell).faults new table in
        let rest = publish_cells cells (total + length new) done.0 in
        if done.1 then rest else (done.0, err total)
  ]

module _ {C V : Type 0} (run : C → CellRun V) where
  abbrev pub read_rows : Option (List (Version V)) → List (Version V)
  read_rows none = []
  read_rows (some rows) = rows

  -- The rows of all cells.
  unfoldable pub all_rows : List C → List (Version V)
  all_rows [] = []
  all_rows (cell ∷ cells) = read_rows (run cell).rows ++ all_rows cells
