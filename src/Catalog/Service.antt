-- ===== src/Catalog/Service.antt =====
-- `LocationService` (internal/catalog/location_service.go): creation, the change of a name and of a
-- status. The advisory lock makes a creation one step; an id of version 7 grows with time, so that a new
-- row stands last.
use forecastiq.Prelude.{
  ℕ, Bool, not, ◌&&◌, Option, none, some, List, [], ◌∷◌, ◌++◌, is_some, if◌then◌else◌, Result, ok,
  err,
}
use forecastiq.Float.{Float}
use forecastiq.Text.{is_empty, trim_space}
use forecastiq.Catalog.{
  Status, active, StatusText, settable, same_status, Location, override_reason_field, status_field,
  CatalogError, validation_error, duplicate_location, name_conflict, not_found, status_transition,
  storage_error, Trig, validate_creation, first_near, get_by_id, name_taken, update_row,
}

pub record CreateLocationInput (F : Type 0) : Type 0 where
  pub workspace_id : Option ℕ
  pub name : List ℕ
  pub latitude : F
  pub longitude : F
  pub country_code : List ℕ
  pub timezone : List ℕ
  pub allow_near_duplicate : Bool
  pub override_reason : List ℕ

-- Which parts of the transaction succeed: the lock and the reads, the write, the audit and the commit.
pub record Faults : Type 0 where
  pub reads : Bool
  pub writes : Bool
  pub commits : Bool

-- `SystemWorkspaceID`
abbrev pub system_workspace_id : ℕ
system_workspace_id = 0

module _ {F : Type 0} ⦃f : Float F⦄ (trig : Trig F) (known_timezone : List ℕ → Bool)
    (column : F → F) where
  abbrev pub workspace_of : Option ℕ → ℕ
  workspace_of none = system_workspace_id
  workspace_of (some w) = w

  abbrev pub new_location : ℕ → CreateLocationInput F → Location F
  new_location new_id in_ = record {
    id = new_id;
    workspace_id = workspace_of in_.workspace_id;
    name = in_.name;
    latitude = in_.latitude;
    longitude = in_.longitude;
    country_code = in_.country_code;
    timezone = in_.timezone;
    status = active;
  }

  -- The row that the columns `numeric(9,6)` hold.
  abbrev pub stored : Location F → Location F
  stored l = record l { latitude = column l.latitude; longitude = column l.longitude }

  -- `Insert`
  unfoldable pub insert_location :
      Location F → List (Location F) → Result CatalogError (List (Location F))
  insert_location l table =
      if name_taken l table
      then err name_conflict
      else if is_some (get_by_id l.id table)
      then err storage_error
      else ok (table ++ (stored l ∷ []))

  -- The write of the new row, and the audit of it.
  unfoldable pub write_location :
      Faults → Location F → List (Location F) → List (Location F) × Result CatalogError (Location F)
  write_location faults l table = elim (insert_location l table) [
    | err e ↦ (table, err (if faults.writes then e else storage_error))
    | ok table' ↦
        if faults.writes && faults.commits then (table', ok l) else (table, err storage_error)
  ]

  -- The transaction of `CreateLocation`.
  unfoldable pub store_location :
      Faults
      → Bool
      → Location F
      → List (Location F)
      → List (Location F) × Result CatalogError (Location F)
  store_location faults allow l table =
      if not faults.reads
      then (table, err storage_error)
      else if allow
      then write_location faults l table
      else elim (first_near trig l table) [
        | some existing ↦ (table, err (duplicate_location existing.id))
        | none ↦ write_location faults l table
      ]

  unfoldable pub create_location :
      Faults
      → ℕ
      → CreateLocationInput F
      → List (Location F)
      → List (Location F) × Result CatalogError (Location F)
  create_location faults new_id in_ table =
      let l = new_location new_id in_ in
      elim (validate_creation known_timezone l) [
        | field ∷ fields ↦ (table, err (validation_error (field ∷ fields)))
        | [] ↦
            if in_.allow_near_duplicate && is_empty (trim_space in_.override_reason)
            then (table, err (validation_error (override_reason_field ∷ [])))
            else store_location faults in_.allow_near_duplicate l table
      ]

  -- A write of the row, with the rules of the index.
  unfoldable pub update_location_row :
      Faults
      → (Location F → Location F)
      → Location F
      → CatalogError
      → List (Location F)
      → List (Location F) × Result CatalogError (Location F)
  update_location_row faults change l conflict table =
      if not faults.writes
      then (table, err storage_error)
      else if name_taken (change l) table
      then (table, err conflict)
      else if faults.commits
      then (update_row change l.id table, ok (change l))
      else (table, err storage_error)

  abbrev pub renamed : Option (List ℕ) → Location F → Location F
  renamed none l = l
  renamed (some name) l = record l { name = name }

  unfoldable pub update_location :
      Faults
      → ℕ
      → Option (List ℕ)
      → List (Location F)
      → List (Location F) × Result CatalogError (Location F)
  update_location faults id name table =
      if not faults.reads then (table, err storage_error) else elim (get_by_id id table) [
        | none ↦ (table, err not_found)
        | some l ↦ elim (validate_creation known_timezone (renamed name l)) [
          | field ∷ fields ↦ (table, err (validation_error (field ∷ fields)))
          | [] ↦ update_location_row faults (renamed name) l name_conflict table
        ]
      ]

  abbrev pub with_status : Status → Location F → Location F
  with_status s l = record l { status = s }

  -- A conflict of names is not translated here.
  unfoldable pub set_location_status :
      Faults
      → ℕ
      → StatusText
      → List (Location F)
      → List (Location F) × Result CatalogError (Location F)
  set_location_status faults id text table = elim (settable text) [
    | none ↦ (table, err (validation_error (status_field ∷ [])))
    | some s ↦ if not faults.reads then (table, err storage_error) else elim (get_by_id id table) [
      | none ↦ (table, err not_found)
      | some l ↦
          if same_status l.status s
          then (table, err status_transition)
          else update_location_row faults (with_status s) l storage_error table
    ]
  ]

-- The requests of the location routes.
pub data LocationRequest (F : Type 0) : Type 0 where
  creating : Faults → (new_id : ℕ) → CreateLocationInput F → LocationRequest F
  renaming : Faults → (id : ℕ) → Option (List ℕ) → LocationRequest F
  setting : Faults → (id : ℕ) → StatusText → LocationRequest F

module _ {F : Type 0} ⦃f : Float F⦄ (trig : Trig F) (known_timezone : List ℕ → Bool)
    (column : F → F) where
  unfoldable pub perform : LocationRequest F → List (Location F) → List (Location F)
  perform (creating faults new_id in_) table =
      (create_location trig known_timezone column faults new_id in_ table).0
  perform (renaming faults id name) table =
      (update_location trig known_timezone column faults id name table).0
  perform (setting faults id text) table =
      (set_location_status trig known_timezone column faults id text table).0

  unfoldable pub run : List (LocationRequest F) → List (Location F) → List (Location F)
  run [] table = table
  run (r ∷ rs) table = run rs (perform r table)
