-- ===== src/Catalog/Apart/Requests.antt =====
-- The requests of the location routes keep the active locations apart
-- (internal/catalog/location_service.go).
use forecastiq.Prelude.{
  ℕ, ◌≡◌, ◌≢◌, ◌⊎◌, refl, inl, inr, Bool, false, not, ◌&&◌, Option, none, some, List, [], ◌∷◌, ◌++◌,
  if_elim, Result, ok, All, arith, Bool-cases, List-cases, Option-cases, Result-cases, sym, subst,
  ap, ◌∙◌,
}
use forecastiq.Float.{Float}
use forecastiq.Catalog.{
  Status, active, StatusText, settable, same_status, storage_error, name_conflict, Location,
  CatalogError, Trig, validate_creation, first_near, get_by_id, name_taken,
}
use forecastiq.Catalog.Service.{
  CreateLocationInput, Faults, new_location, stored, insert_location, write_location,
  store_location, create_location, update_location_row, renamed, update_location, with_status,
  set_location_status, LocationRequest, creating, renaming, setting, perform, run,
}
use forecastiq.Catalog.Apart.{
  is_active-eq, KeepsFrom, IsApart, first_near-All, IsApart-last, IsHarmless, IsApart-update_row,
}

module _ {F : Type 0} ⦃f : Float F⦄ (trig : Trig F) (known_timezone : List ℕ → Bool)
    (column : F → F) where
  insert_location-eq-ok :
      (l : Location F) (table t' : List (Location F))
      → insert_location trig known_timezone column l table ≡ ok t'
      → t' ≡ (table ++ (stored trig known_timezone column l ∷ []))
  unfolding insert_location
  insert_location-eq-ok l table t' q = ground (arith, q)

  write_location-either :
      (faults : Faults) (l : Location F) (table : List (Location F))
      → ((write_location trig known_timezone column faults l table).0 ≡ table)
        ⊎ ((write_location trig known_timezone column faults l table).0
            ≡ (table ++ (stored trig known_timezone column l ∷ [])))
  unfolding write_location
  write_location-either faults l table =
      elim (Result-cases (insert_location trig known_timezone column l table)) [
        | inr (e, q) ↦ inl (ground (arith, q))
        | inl (t', q) ↦ elim (Bool-cases (faults.writes && faults.commits)) [
          | inr b ↦ inl (ground (arith, q, b))
          | inl b ↦ inr (ground (arith, q, b, insert_location-eq-ok l table t' q))
        ]
      ]

  write_location-IsApart :
      (faults : Faults) (l : Location F) (table : List (Location F))
      → stored trig known_timezone column l ≡ l
      → All (λ e. KeepsFrom trig e l) table
      → IsApart trig table
      → IsApart trig (write_location trig known_timezone column faults l table).0
  write_location-IsApart faults l table exact far apart =
      elim (write_location-either faults l table) [
        | inl same ↦ subst (IsApart trig) (sym same) apart
        | inr more ↦
            subst (IsApart trig) (sym (more ∙ ap (λ (x : Location F). table ++ (x ∷ [])) exact))
              (IsApart-last trig table l far apart)
      ]

  update_location_row-IsApart :
      (faults : Faults) (change : Location F → Location F) (l : Location F)
      (conflict : CatalogError) (table : List (Location F))
      → IsHarmless trig change
      → IsApart trig table
      → IsApart trig
          (update_location_row trig known_timezone column faults change l conflict table).0
  unfolding update_location_row
  update_location_row-IsApart faults change l conflict table harmless apart =
      let P = λ (x : List (Location F) × Result CatalogError (Location F)). IsApart trig x.0 in
      if_elim P (not faults.writes) _ _ (λ _. apart)
        λ _.
          if_elim P (name_taken (change l) table) _ _ (λ _. apart)
            λ _.
              if_elim P faults.commits _ _
                (λ _. IsApart-update_row trig change harmless l.id table apart) (λ _. apart)

  -- A creation without the bypass whose coordinates the columns hold exactly, a renaming, or a setting of
  -- a status other than active.
  abbrev pub IsPlain : LocationRequest F → Type 0
  IsPlain (creating faults new_id in_) =
      (in_.allow_near_duplicate ≡ false)
      × (column in_.latitude ≡ in_.latitude)
      × (column in_.longitude ≡ in_.longitude)
  IsPlain (renaming faults id name) = Unit {0}
  IsPlain (setting faults id text) = settable text ≢ some active

  renamed-IsHarmless :
      (name : Option (List ℕ)) → IsHarmless trig (renamed trig known_timezone column name)
  renamed-IsHarmless none l = (refl, refl, λ on. on)
  renamed-IsHarmless (some n) l = (refl, refl, λ on. on)

  create_location-either :
      (faults : Faults) (new_id : ℕ) (in_ : CreateLocationInput F) (table : List (Location F))
      → in_.allow_near_duplicate ≡ false
      → ((create_location trig known_timezone column faults new_id in_ table).0 ≡ table)
        ⊎ ((first_near trig (new_location trig known_timezone column new_id in_) table ≡ none)
            × ((create_location trig known_timezone column faults new_id in_ table).0
                ≡ (write_location trig known_timezone column faults
                    (new_location trig known_timezone column new_id in_)
                    table).0))
  unfolding create_location store_location
  create_location-either faults new_id in_ table check =
      let l = new_location trig known_timezone column new_id in_ in
      elim (Option-cases (first_near trig l table)) [
        | inr (e, q) ↦ inl (ground (arith, check, q))
        | inl q ↦ elim (List-cases (validate_creation known_timezone l)) [
          | inr (field, fields, bad) ↦ inl (ground (arith, bad))
          | inl good ↦ elim (Bool-cases faults.reads) [
            | inr b ↦ inl (ground (arith, good, check, b))
            | inl b ↦ inr (q, ground (arith, good, check, b, q))
          ]
        ]
      ]

  update_location-either :
      (faults : Faults) (id : ℕ) (name : Option (List ℕ)) (table : List (Location F))
      → ((update_location trig known_timezone column faults id name table).0 ≡ table)
        ⊎ ((l : Location F) × (conflict : CatalogError) × ((update_location trig known_timezone
                column faults id name table).0
              ≡ (update_location_row trig known_timezone column faults
                  (renamed trig known_timezone column name)
                  l
                  conflict
                  table).0))
  unfolding update_location
  update_location-either faults id name table = elim (Option-cases (get_by_id id table)) [
    | inl q ↦ inl (ground (arith, q))
    | inr (l, q) ↦ elim (Bool-cases faults.reads) [
      | inr b ↦ inl (ground (arith, b))
      | inl b ↦
          elim (List-cases
            (validate_creation known_timezone (renamed trig known_timezone column name l))) [
              | inr (field, fields, bad) ↦ inl (ground (arith, q, b, bad))
              | inl good ↦ inr (l, name_conflict, ground (arith, q, b, good))
            ]
    ]
  ]

  set_location_status-either :
      (faults : Faults) (id : ℕ) (text : StatusText) (table : List (Location F))
      → ((set_location_status trig known_timezone column faults id text table).0 ≡ table)
        ⊎ ((l : Location F) × (s : Status) × (settable text ≡ some s)
            × ((set_location_status trig known_timezone column faults id text table).0
                ≡ (update_location_row trig known_timezone column faults
                    (with_status trig known_timezone column s)
                    l
                    storage_error
                    table).0))
  unfolding set_location_status
  set_location_status-either faults id text table = elim (Option-cases (settable text)) [
    | inl q ↦ inl (ground (arith, q))
    | inr (s, q) ↦ elim (Option-cases (get_by_id id table)) [
      | inl none_found ↦ inl (ground (arith, q, none_found))
      | inr (l, found) ↦ elim (Bool-cases (faults.reads && not (same_status l.status s))) [
        | inr b ↦ inl (ground (arith, q, found, b))
        | inl b ↦ inr (l, s, q, ground (arith, q, found, b))
      ]
    ]
  ]

  perform-IsApart :
      (r : LocationRequest F) (table : List (Location F))
      → IsPlain r
      → IsApart trig table
      → IsApart trig (perform trig known_timezone column r table)
  unfolding perform
  perform-IsApart (creating faults new_id in_) table (check, lat, lon) apart =
      let l = new_location trig known_timezone column new_id in_ in
      elim (create_location-either faults new_id in_ table check) [
        | inl same ↦ subst (IsApart trig) (sym same) apart
        | inr (far, written) ↦ subst (IsApart trig) (sym written) (
            write_location-IsApart faults l table
              (λ i. record l { latitude = lat i; longitude = lon i })
              (first_near-All trig l table far) apart)
      ]
  perform-IsApart (renaming faults id name) table plain apart =
      elim (update_location-either faults id name table) [
        | inl same ↦ subst (IsApart trig) (sym same) apart
        | inr (l, conflict, written) ↦ subst (IsApart trig) (sym written) (
            update_location_row-IsApart faults (renamed trig known_timezone column name) l conflict
              table (renamed-IsHarmless name) apart)
      ]
  perform-IsApart (setting faults id text) table plain apart =
      elim (set_location_status-either faults id text table) [
        | inl same ↦ subst (IsApart trig) (sym same) apart
        | inr (l, s, q, written) ↦ subst (IsApart trig) (sym written) (
            update_location_row-IsApart faults (with_status trig known_timezone column s) l
              storage_error table
              (λ x. (refl, refl, λ on. absurd (plain (q ∙ ap some (is_active-eq s on))))) apart)
      ]

  -- For requests that are plain (a creation has no bypass and coordinates of at most six decimals, and a
  -- status is not set to active), in any order and with any faults: if no active location of the table is a
  -- near duplicate of an older active one, none is so afterwards.
  pub run-IsApart :
      (rs : List (LocationRequest F)) (table : List (Location F))
      → All IsPlain rs
      → IsApart trig table
      → IsApart trig (run trig known_timezone column rs table)
  unfolding run
  run-IsApart [] table plain apart = apart
  run-IsApart (r ∷ rs) table (first, plain) apart =
      run-IsApart rs (perform trig known_timezone column r table) plain
        (perform-IsApart r table first apart)
