-- ===== src/Tests/Locations.antt =====
-- The locations of the catalog at concrete inputs, over numbers with three decimals and a flat distance.
use forecastiq.Prelude.{
  arith, ℕ, ◌≢◌, ◌≡◌, ◌++◌, refl, Bool, true, false, none, some, List, [], ◌∷◌,
}
use forecastiq.Prelude.Int.{ℤ, pos}
use forecastiq.Float.Fixed.{fixed_float}
use forecastiq.Catalog.{Trig, Status, Location, active, disabled, of_status, settable}
use forecastiq.Match.Batch.{take}
use forecastiq.Catalog.Page.{
  list_locations, left_over, select, matches, last_id, list_locations-select,
}
use forecastiq.Catalog.Service.{
  CreateLocationInput, Faults, LocationRequest, creating, renaming, setting, run,
}
use forecastiq.Catalog.Apart.{IsApart}
use forecastiq.Catalog.Apart.Requests.{run-IsApart}

abbrev flat : Trig ℤ
flat = record { pi = pos 3142; sin = λ x. x; cos = λ x. pos 1000; atan2 = λ y x. y }

abbrev any_timezone : List ℕ → Bool
any_timezone zone = true

abbrev exact : ℤ → ℤ
exact x = x

abbrev faultless : Faults
faultless = record { reads = true; writes = true; commits = true }

abbrev place : List ℕ → ℤ → CreateLocationInput ℤ
place name longitude = record {
  workspace_id = none;
  name = name;
  latitude = pos 3000;
  longitude = longitude;
  country_code = b'M' ∷ b'Y' ∷ [];
  timezone = b'U' ∷ b'T' ∷ b'C' ∷ [];
  allow_near_duplicate = false;
  override_reason = [];
}

abbrev requests : List (LocationRequest ℤ)
requests =
    creating faultless 1 (place (b'a' ∷ []) (pos 101_000))
    ∷ creating faultless 2 (place (b'b' ∷ []) (pos 101_010))
    ∷ creating faultless 3 (place (b'c' ∷ []) (pos 150_000))
    ∷ renaming faultless 1 (some (b'd' ∷ []))
    ∷ setting faultless 3 (of_status disabled)
    ∷ []

not_enabling : settable (of_status disabled) ≢ some active
unfolding settable
not_enabling e = cc

run-IsApart_example : IsApart flat (run flat any_timezone exact requests [])
run-IsApart_example =
    run-IsApart flat any_timezone exact requests []
      ((refl, refl, refl), ((refl, refl, refl), ((refl, refl, refl), (tt, (not_enabling, tt))))) tt

abbrev row : ℕ → Status → Location ℤ
row id status = record {
  id = id;
  workspace_id = 0;
  name = b'p' ∷ [];
  latitude = pos 3000;
  longitude = pos 100_000;
  country_code = b'M' ∷ b'Y' ∷ [];
  timezone = b'U' ∷ [];
  status = status;
}

abbrev table : List (Location ℤ)
table = row 3 active ∷ row 5 disabled ∷ row 6 active ∷ row 9 active ∷ []

two_pages : (list_locations 1 (some true) 3 table).next_cursor ≡ some 6
unfolding list_locations take select matches last_id
two_pages = refl

list_locations-select_example :
    (list_locations 1 (some true) 3 table).rows
      ++ left_over (list_locations 1 (some true) 3 table).next_cursor (some true) table
    ≡ select 3 (some true) table
list_locations-select_example = list_locations-select 1 (some true) 3 table (
  (omega arith, (omega arith, (omega arith, tt))),
  ((omega arith, (omega arith, tt)), ((omega arith, tt), (tt, tt))),
)
