-- ===== src/Catalog.antt =====
-- The locations of the catalog: internal/catalog/domain/location.go and status.go, the table of
-- adapters/persistence/catalogpg/location.go, and internal/catalog/location_service.go.
pub mod Service
pub mod Apart
pub mod Page
use forecastiq.Prelude.{
  ℕ, ◌+◌, ◌-◌, Bool, true, false, not, ◌&&◌, ◌||◌, Option, none, some, List, [], ◌∷◌, ◌++◌, ◌==◌,
  ltb, leb, length, if◌then◌else◌, Result, ok, err, map,
}
use forecastiq.Float.{Float, ◌≺◌, ◌⊕◌, ◌⊖◌, ◌⊗◌, ◌⊘◌, fzero, fone}
use forecastiq.Text.{same_text, is_empty, trim_space}

pub data Status : Type 0 where
  active disabled archived : Status

-- The API's word is any text, `archived` and an unknown one included.
pub data StatusText : Type 0 where
  of_status : Status → StatusText
  unknown_status : StatusText

unfoldable pub settable : StatusText → Option Status
settable (of_status active) = some active
settable (of_status disabled) = some disabled
settable _ = none

abbrev pub is_active : Status → Bool
is_active active = true
is_active _ = false

abbrev pub same_status : Status → Status → Bool
same_status active active = true
same_status disabled disabled = true
same_status archived archived = true
same_status _ _ = false

pub record Location (F : Type 0) : Type 0 where
  pub id : ℕ
  pub workspace_id : ℕ
  pub name : List ℕ
  pub latitude : F
  pub longitude : F
  pub country_code : List ℕ
  pub timezone : List ℕ
  pub status : Status

-- What a `FieldError` is about.
pub data Field : Type 0 where
  name_field latitude_field longitude_field country_code_field timezone_field : Field
  status_field override_reason_field : Field

pub data CatalogError : Type 0 where
  validation_error : List Field → CatalogError
  duplicate_location : (existing_id : ℕ) → CatalogError
  name_conflict not_found status_transition storage_error : CatalogError

-- The functions of package `math` that the distance calls, and π.
pub record Trig (F : Type 0) : Type 0 where
  pub pi : F
  pub sin : F → F
  pub cos : F → F
  pub atan2 : F → F → F

-- `strings.ToUpper` on ASCII.
unfoldable pub to_upper : List ℕ → List ℕ
to_upper s = map (λ c. if leb 97 c && leb c 122 then c - 32 else c) s

unfoldable pub is_alpha : List ℕ → Bool
is_alpha [] = true
is_alpha (c ∷ cs) = (leb 65 c && leb c 90) && is_alpha cs

abbrev pub add : Bool → Field → List Field → List Field
add bad field rest = if bad then field ∷ rest else rest

module _ {F : Type 0} ⦃f : Float F⦄ where
  abbrev pub degrees : ℕ → F
  degrees n = f.ratio n 1

  abbrev pub outside : F → ℕ → Bool
  outside x limit = x ≺ (fzero ⊖ degrees limit) || degrees limit ≺ x

  -- `ValidateCreation`; the status is always one of the three.
  unfoldable pub validate_creation : (List ℕ → Bool) → Location F → List Field
  validate_creation known_timezone l =
      add (is_empty (trim_space l.name) || ltb 120 (length l.name)) name_field (
        add (outside l.latitude 90) latitude_field (
          add (outside l.longitude 180) longitude_field (
            add
              (not (length l.country_code == 2)
                || not (same_text (to_upper l.country_code) l.country_code)
                || not (is_alpha l.country_code))
              country_code_field
              (add (is_empty (trim_space l.timezone) || not (known_timezone l.timezone))
                timezone_field []))))

  -- `HaversineDegrees`
  unfoldable pub haversine_degrees : Trig F → F → F → F → F → F
  haversine_degrees t lat1 lon1 lat2 lon2 =
      let deg2rad = t.pi ⊘ degrees 180 in
      let phi1 = lat1 ⊗ deg2rad in
      let phi2 = lat2 ⊗ deg2rad in
      let d_phi = (lat2 ⊖ lat1) ⊗ deg2rad in
      let d_lambda = (lon2 ⊖ lon1) ⊗ deg2rad in
      let half_phi = t.sin (d_phi ⊘ degrees 2) in
      let half_lambda = t.sin (d_lambda ⊘ degrees 2) in
      let sum = half_phi ⊗ half_phi ⊕ t.cos phi1 ⊗ t.cos phi2 ⊗ half_lambda ⊗ half_lambda in
      let a = if fone ≺ sum then fone else sum in
      let c = degrees 2 ⊗ t.atan2 (f.sqrt a) (f.sqrt (fone ⊖ a)) in c ⊗ degrees 180 ⊘ t.pi

  unfoldable pub is_near_duplicate : F → Bool
  is_near_duplicate distance = distance ≺ (f.ratio 5 100 ⊖ f.ratio 1 1_000_000_000)

  -- The first active location that is a near duplicate of the new one.
  unfoldable pub near : Trig F → Location F → Location F → Bool
  near t l existing =
      is_near_duplicate
        (haversine_degrees t l.latitude l.longitude existing.latitude existing.longitude)

  unfoldable pub first_near : Trig F → Location F → List (Location F) → Option (Location F)
  first_near t l [] = none
  first_near t l (e ∷ es) =
      let rest = first_near t l es in if is_active e.status && near t l e then some e else rest

module _ {F : Type 0} where
  unfoldable pub get_by_id : ℕ → List (Location F) → Option (Location F)
  get_by_id id [] = none
  get_by_id id (l ∷ ls) = let rest = get_by_id id ls in if l.id == id then some l else rest

  -- The index `locations_active_name_uidx`, against the rows of other ids.
  unfoldable pub name_taken : Location F → List (Location F) → Bool
  name_taken l [] = false
  name_taken l (e ∷ es) =
      (is_active l.status
        && is_active e.status
        && not (e.id == l.id)
        && (e.workspace_id == l.workspace_id)
        && same_text e.name l.name)
      || name_taken l es

  unfoldable pub update_row : (Location F → Location F) → ℕ → List (Location F) → List (Location F)
  update_row change id [] = []
  update_row change id (l ∷ ls) = (if l.id == id then change l else l) ∷ update_row change id ls
