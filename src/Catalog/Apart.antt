-- ===== src/Catalog/Apart.antt =====
-- Active locations keep their distance, if the check is not bypassed and no location is enabled again
-- (internal/catalog/location_service.go).
pub mod Requests
use forecastiq.Prelude.{
  ℕ, ◌≡◌, ◌≢◌, ◌⊎◌, refl, inl, inr, Bool, true, false, not, ◌&&◌, Option, none, some, List, [], ◌∷◌,
  ◌++◌, ◌==◌, is_some, if_elim, if◌then◌else◌, Result, ok, err, All, arith, Bool-cases, List-cases,
  Option-cases, Result-cases, sym, subst, ap, ◌∙◌,
}
use forecastiq.Float.{Float}
use forecastiq.Catalog.{
  Status, active, disabled, StatusText, of_status, settable, is_active, same_status, storage_error,
  name_conflict, archived, Location, CatalogError, Trig, validate_creation, near, first_near,
  get_by_id, name_taken, update_row,
}
use forecastiq.Catalog.Service.{
  CreateLocationInput, Faults, new_location, stored, insert_location, write_location,
  store_location, create_location, update_location_row, renamed, update_location, with_status,
  set_location_status, LocationRequest, creating, renaming, setting, perform, run,
}

pub is_active-eq : (s : Status) → is_active s ≡ true → s ≡ active
is_active-eq active h = refl
is_active-eq disabled h = cc
is_active-eq archived h = cc

module _ {F : Type 0} ⦃f : Float F⦄ (trig : Trig F) where
  abbrev pub KeepsFrom : Location F → Location F → Type 0
  KeepsFrom e l = is_active e.status ≡ true → is_active l.status ≡ true → near trig l e ≡ false

  -- No active location is a near duplicate of an active one that was created before it.
  abbrev pub IsApart : List (Location F) → Type 0
  IsApart [] = Unit {0}
  IsApart (e ∷ rest) = All (KeepsFrom e) rest × IsApart rest

  pub first_near-All :
      (l : Location F) (table : List (Location F))
      → first_near trig l table ≡ none
      → All (λ e. KeepsFrom e l) table
  unfolding first_near
  first_near-All l [] h = tt
  first_near-All l (e ∷ es) h =
      ((λ on _. ground (arith, h, on)), first_near-All l es (ground (arith, h)))

  All-last :
      (P : Location F → Type 0) (xs : List (Location F)) (l : Location F)
      → All P xs
      → P l
      → All P (xs ++ (l ∷ []))
  All-last P [] l all p = (p, tt)
  All-last P (x ∷ xs) l (one, all) p = (one, All-last P xs l all p)

  pub IsApart-last :
      (table : List (Location F)) (l : Location F)
      → All (λ e. KeepsFrom e l) table
      → IsApart table
      → IsApart (table ++ (l ∷ []))
  IsApart-last [] l all apart = (tt, tt)
  IsApart-last (e ∷ es) l (one, all) (first, apart) =
      (All-last (KeepsFrom e) es l first one, IsApart-last es l all apart)

  -- A change that moves no location and enables none.
  abbrev pub IsHarmless : (Location F → Location F) → Type 0
  IsHarmless change =
      (l : Location F)
      → ((change l).latitude ≡ l.latitude)
        × ((change l).longitude ≡ l.longitude)
        × (is_active (change l).status ≡ true → is_active l.status ≡ true)

  near-near :
      (l l' e e' : Location F)
      → l'.latitude ≡ l.latitude
      → l'.longitude ≡ l.longitude
      → e'.latitude ≡ e.latitude
      → e'.longitude ≡ e.longitude
      → near trig l' e' ≡ near trig l e
  unfolding near
  near-near l l' e e' a b c d = cc

  module _ (change : Location F → Location F) (harmless : IsHarmless change) (id : ℕ) where
    abbrev changed : Location F → Location F
    changed l = if l.id == id then change l else l

    changed-IsHarmless : IsHarmless changed
    changed-IsHarmless l =
        if_elim
          (λ (x : Location F).
            (x.latitude ≡ l.latitude)
            × (x.longitude ≡ l.longitude)
            × (is_active x.status ≡ true → is_active l.status ≡ true))
          (l.id == id) (change l) l (λ _. harmless l) (λ _. (refl, refl, λ on. on))

    KeepsFrom-changed : (e l : Location F) → KeepsFrom e l → KeepsFrom (changed e) (changed l)
    KeepsFrom-changed e l keeps e_on l_on =
        let (e_lat, e_lon, e_was) = changed-IsHarmless e in
        let (l_lat, l_lon, l_was) = changed-IsHarmless l in
        near-near l (changed l) e (changed e) l_lat l_lon e_lat e_lon
        ∙ keeps (e_was e_on) (l_was l_on)

    All-update_row :
        (e : Location F) (ls : List (Location F))
        → All (KeepsFrom e) ls
        → All (KeepsFrom (changed e)) (update_row change id ls)
    unfolding update_row
    All-update_row e [] all = tt
    All-update_row e (l ∷ ls) (one, all) = (KeepsFrom-changed e l one, All-update_row e ls all)

    pub IsApart-update_row :
        (ls : List (Location F)) → IsApart ls → IsApart (update_row change id ls)
    unfolding update_row
    IsApart-update_row [] apart = tt
    IsApart-update_row (l ∷ ls) (first, apart) =
        (All-update_row l ls first, IsApart-update_row ls apart)
