-- ===== src/Catalog/Page.antt =====
-- The pages of locations: `ListLocations` of internal/catalog/location_service.go over `List` of
-- adapters/persistence/catalogpg/location.go. The cursor is the one of a
-- parsed request, 0 where the request has none; a text that is no id is refused before.
use forecastiq.Prelude.{
  ℕ, zero, suc, ◌≤◌, ◌<◌, ◌≡◌, refl, inl, inr, Bool, true, false, not, ◌&&◌, ◌||◌, Option, none,
  some, List, [], ◌∷◌, ◌++◌, ◌==◌, ltb, length, if_elim, if◌then◌else◌, All, arith, Bool-cases, sym,
  ap,
}
use mathlib.Core.List.{append-nil}
use forecastiq.Match.Batch.{take}
use forecastiq.Catalog.{Location, is_active}

-- A limit that is not positive is 0.
abbrev pub page_limit : ℕ → ℕ
page_limit n = if (n == 0) || ltb 200 n then 50 else n

pub record Page (F : Type 0) : Type 0 where
  pub rows : List (Location F)
  pub has_more : Bool
  pub next_cursor : Option ℕ

module _ {F : Type 0} where
  unfoldable pub matches : Option Bool → Location F → Bool
  matches none l = true
  matches (some wanted) l = if wanted then is_active l.status else not (is_active l.status)

  -- `WHERE id > cursor` with the filter, over a table in the order of the ids.
  unfoldable pub select : ℕ → Option Bool → List (Location F) → List (Location F)
  select cursor wanted [] = []
  select cursor wanted (l ∷ ls) =
      let rest = select cursor wanted ls in
      if ltb cursor l.id && matches wanted l then l ∷ rest else rest

  -- The id of the last row, or the given one.
  unfoldable pub last_id : ℕ → List (Location F) → ℕ
  last_id id [] = id
  last_id id (l ∷ ls) = last_id l.id ls

  unfoldable pub list_locations :
      (limit : ℕ) → Option Bool → (cursor : ℕ) → List (Location F) → Page F
  list_locations limit wanted cursor table =
      let n = page_limit limit in
      let rows = take (suc n) (select cursor wanted table) in
      if ltb n (length rows)
      then record {
        rows = take n rows;
        has_more = true;
        next_cursor = some (last_id cursor (take n rows));
      }
      else record { rows = rows; has_more = false; next_cursor = none }

  -- The ids grow.
  abbrev pub IsSorted : List (Location F) → Type 0
  IsSorted [] = Unit {0}
  IsSorted (l ∷ ls) = All (λ x. l.id < x.id) ls × IsSorted ls

  take-take : (n : ℕ) (xs : List (Location F)) → take n (take (suc n) xs) ≡ take n xs
  unfolding take
  take-take zero xs = refl
  take-take (suc n) [] = refl
  take-take (suc n) (x ∷ xs) = ap (λ r. x ∷ r) (take-take n xs)

  take_whole :
      (n : ℕ) (xs : List (Location F)) → ¬ (n < length (take (suc n) xs)) → take (suc n) xs ≡ xs
  unfolding take
  take_whole n [] h = refl
  take_whole zero (x ∷ xs) h = absurd (h (omega arith))
  take_whole (suc n) (x ∷ xs) h = ap (λ r. x ∷ r) (take_whole n xs (λ few. h (omega (arith, few))))

  select-All :
      (y cursor : ℕ) (wanted : Option Bool) (ls : List (Location F))
      → All (λ x. y < x.id) ls
      → All (λ x. y < x.id) (select cursor wanted ls)
  unfolding select
  select-All y cursor wanted [] all = tt
  select-All y cursor wanted (l ∷ ls) (one, all) =
      if_elim (All (λ (x : Location F). y < x.id)) (ltb cursor l.id && matches wanted l) _ _
        (λ _. (one, select-All y cursor wanted ls all)) (λ _. select-All y cursor wanted ls all)

  select-IsSorted :
      (cursor : ℕ) (wanted : Option Bool) (ls : List (Location F))
      → IsSorted ls
      → IsSorted (select cursor wanted ls)
  unfolding select
  select-IsSorted cursor wanted [] sorted = tt
  select-IsSorted cursor wanted (l ∷ ls) (first, sorted) =
      if_elim IsSorted (ltb cursor l.id && matches wanted l) _ _
        (λ _. (select-All l.id cursor wanted ls first, select-IsSorted cursor wanted ls sorted))
        (λ _. select-IsSorted cursor wanted ls sorted)

  -- A later cursor selects from what an earlier one selects.
  select-select :
      (cursor later : ℕ) (wanted : Option Bool) (ls : List (Location F))
      → cursor ≤ later
      → select later wanted (select cursor wanted ls) ≡ select later wanted ls
  unfolding select
  select-select cursor later wanted [] h = refl
  select-select cursor later wanted (l ∷ ls) h =
      ground (arith, h, select-select cursor later wanted ls h)

  select_whole :
      (y : ℕ) (wanted : Option Bool) (ls : List (Location F))
      → All (λ x. y < x.id) ls
      → All (λ x. matches wanted x ≡ true) ls
      → select y wanted ls ≡ ls
  unfolding select
  select_whole y wanted [] all good = refl
  select_whole y wanted (l ∷ ls) (one, all) (fits, good) =
      ground (arith, one, fits, select_whole y wanted ls all good)

  select-matches :
      (cursor : ℕ) (wanted : Option Bool) (ls : List (Location F))
      → All (λ x. matches wanted x ≡ true) (select cursor wanted ls)
  unfolding select
  select-matches cursor wanted [] = tt
  select-matches cursor wanted (l ∷ ls) = elim (Bool-cases (ltb cursor l.id)) [
    | inr k ↦ rw k (select-matches cursor wanted ls)
    | inl k ↦ rw k (elim (Bool-cases (matches wanted l)) [
      | inr j ↦ rw j (select-matches cursor wanted ls)
      | inl j ↦ rw j (j, select-matches cursor wanted ls)
    ])
  ]

  last_id_le :
      (c n : ℕ) (ls : List (Location F))
      → IsSorted ls
      → All (λ x. c < x.id) ls
      → c ≤ last_id c (take n ls)
  unfolding take last_id
  last_id_le c zero ls sorted all = omega arith
  last_id_le c (suc n) [] sorted all = omega arith
  last_id_le c (suc n) (l ∷ ls) (first, sorted) (one, all) =
      omega (arith, one, last_id_le l.id n ls sorted first)

  select_skip :
      (k : ℕ) (wanted : Option Bool) (l : Location F) (ls : List (Location F))
      → l.id ≤ k
      → select k wanted (l ∷ ls) ≡ select k wanted ls
  unfolding select
  select_skip k wanted l ls h = ground (arith, h)

  take-select :
      (c n : ℕ) (wanted : Option Bool) (ls : List (Location F))
      → IsSorted ls
      → All (λ x. c < x.id) ls
      → All (λ x. matches wanted x ≡ true) ls
      → take n ls ++ select (last_id c (take n ls)) wanted ls ≡ ls
  unfolding take last_id
  take-select c zero wanted ls sorted all good = select_whole c wanted ls all good
  take-select c (suc n) wanted [] sorted all good = select_whole c wanted [] all good
  take-select c (suc n) wanted (l ∷ ls) (first, sorted) (one, all) (fits, good) =
      rw (select_skip (last_id l.id (take n ls)) wanted l ls (last_id_le l.id n ls sorted first))
        (ap (λ r. l ∷ r) (take-select l.id n wanted ls sorted first good))

  -- The selection that a page leaves to the next ones.
  unfoldable pub left_over : Option ℕ → Option Bool → List (Location F) → List (Location F)
  left_over none wanted table = []
  left_over (some cursor) wanted table = select cursor wanted table

  select_above :
      (cursor : ℕ) (wanted : Option Bool) (ls : List (Location F))
      → All (λ x. cursor < x.id) (select cursor wanted ls)
  unfolding select
  select_above cursor wanted [] = tt
  select_above cursor wanted (l ∷ ls) = elim (Bool-cases (ltb cursor l.id)) [
    | inr k ↦ rw k (select_above cursor wanted ls)
    | inl k ↦
        if_elim (All (λ (x : Location F). cursor < x.id)) (ltb cursor l.id && matches wanted l) _ _
          (λ _. (ground (arith, k), select_above cursor wanted ls))
          (λ _. select_above cursor wanted ls)
  ]

  full_page :
      (n : ℕ) (wanted : Option Bool) (cursor : ℕ) (table : List (Location F))
      → IsSorted table
      → take n (select cursor wanted table)
          ++ select (last_id cursor (take n (select cursor wanted table))) wanted table
        ≡ select cursor wanted table
  full_page n wanted cursor table sorted =
      let s = select cursor wanted table in
      let in_order = select-IsSorted cursor wanted table sorted in
      let above = select_above cursor wanted table in
      rw
        (sym (
          select-select cursor (last_id cursor (take n s)) wanted table
            (last_id_le cursor n s in_order above)))
        (take-select cursor n wanted s in_order above (select-matches cursor wanted table))

  -- Over a table in the order of its ids, for any limit and filter: the rows of one page, followed
  -- by what its cursor leaves to the next pages, are the selection from the given cursor on: no
  -- location is skipped or shown twice, and a page without a cursor is the last one.
  pub list_locations-select :
      (limit : ℕ) (wanted : Option Bool) (cursor : ℕ) (table : List (Location F))
      → IsSorted table
      → (list_locations limit wanted cursor table).rows
          ++ left_over (list_locations limit wanted cursor table).next_cursor wanted table
        ≡ select cursor wanted table
  unfolding list_locations left_over
  list_locations-select limit wanted cursor table sorted =
      let n = page_limit limit in
      let s = select cursor wanted table in
      elim (Bool-cases (ltb n (length (take (suc n) s)))) [
        | inl k ↦ rw k (rw (take-take n s) (full_page n wanted cursor table sorted))
        | inr k ↦ rw k (rw (take_whole n s (λ few. ground (arith, k, few))) (append-nil s))
      ]
