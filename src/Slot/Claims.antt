-- ===== src/Slot/Claims.antt =====
-- What a claim promises the workers (adapters/persistence/schedulerpg/schedulerpg.go, `ClaimDue`).
use forecastiq.Prelude.{
  ℕ, zero, suc, ◌+◌, ◌≤◌, ◌≡◌, Bool, true, false, not, ◌&&◌, ◌||◌, List, [], ◌∷◌, arith, refl, ◌==◌,
  mem,
}
use forecastiq.Slot.{
  Slot, claimable, before, insert_by_time, candidates, take_ids, claimed_row, update_rows,
  returned_rows, claim_ids, claim_due,
}

unfoldable pub ids_of : List Slot → List ℕ
ids_of [] = []
ids_of (s ∷ rows) = s.id ∷ ids_of rows

-- Some row with the id is claimable.
unfoldable pub claimable_id : ℕ → ℕ → List Slot → Bool
claimable_id now x [] = false
claimable_id now x (s ∷ rows) = ((x == s.id) && claimable now s) || claimable_id now x rows

mem-take_ids :
    (x n : ℕ) (rows : List Slot) → mem x (take_ids n rows) ≡ true → mem x (ids_of rows) ≡ true
unfolding mem take_ids ids_of
mem-take_ids x zero rows h = ground arith
mem-take_ids x (suc n) [] h = ground arith
mem-take_ids x (suc n) (s ∷ rows) h = ground (arith, mem-take_ids x n rows)

mem-insert_by_time :
    (x : ℕ) (s : Slot) (rows : List Slot)
    → mem x (ids_of (insert_by_time s rows)) ≡ ((x == s.id) || mem x (ids_of rows))
unfolding mem insert_by_time ids_of
mem-insert_by_time x s [] = refl
mem-insert_by_time x s (r ∷ rows) = ground (arith, mem-insert_by_time x s rows)

mem-candidates :
    (now x : ℕ) (locked : ℕ → Bool) (rows : List Slot)
    → mem x (ids_of (candidates now locked rows)) ≡ (claimable_id now x rows && not (locked x))
unfolding mem candidates ids_of claimable_id
mem-candidates now x locked [] = refl
mem-candidates now x locked (s ∷ rows) =
    ground
      (arith, mem-candidates now x locked rows, mem-insert_by_time x s (candidates now locked rows))

-- The selected rows are claimable and not locked.
pub mem-claim_ids :
    (now limit x : ℕ) (locked : ℕ → Bool) (rows : List Slot)
    → mem x (claim_ids now limit locked rows) ≡ true
    → (claimable_id now x rows ≡ true) × (locked x ≡ false)
unfolding claim_ids
mem-claim_ids now limit x locked rows h =
    ground
      (arith, mem-take_ids x limit (candidates now locked rows) h, mem-candidates now x locked rows)

mem-returned_rows :
    (i now lease x : ℕ) (ids : List ℕ) (rows : List Slot)
    → mem x (ids_of (returned_rows (claimed_row i now lease) ids rows)) ≡ true
    → mem x ids ≡ true
unfolding mem returned_rows ids_of claimed_row
mem-returned_rows i now lease x ids [] h = ground arith
mem-returned_rows i now lease x ids (s ∷ rows) h =
    ground (arith, mem-returned_rows i now lease x ids rows)

-- A selected row is not claimable again before its lease has expired.
leased :
    (i now lease later x : ℕ) (ids : List ℕ) (rows : List Slot)
    → mem x ids ≡ true
    → later ≤ now + lease
    → claimable_id later x (update_rows (claimed_row i now lease) ids rows) ≡ false
unfolding mem update_rows claimable_id claimed_row claimable before
leased i now lease later x ids [] h k = ground arith
leased i now lease later x ids (s ∷ rows) h k =
    ground (arith, leased i now lease later x ids rows h k)

-- Of two claims with no other write between them, the later one, by any instance and up to the end of the
-- first one's lease, returns none of the slots that the first returned, whatever rows are locked.
pub claim_due-disjoint :
    (a b now later lease lease' limit limit' : ℕ) (locked locked' : ℕ → Bool) (table : List Slot)
    (x : ℕ)
    → later ≤ now + lease
    → mem x (ids_of (claim_due a now lease limit locked table).1) ≡ true
    → mem x (
        ids_of
          (claim_due b later lease' limit' locked' (claim_due a now lease limit locked table).0).1)
      ≡ false
unfolding claim_due
claim_due-disjoint a b now later lease lease' limit limit' locked locked' table x h m = ground (
  arith,
  mem-returned_rows a now lease x ids table m,
  leased a now lease later x ids table,
  mem-returned_rows b later lease' x ids' table',
  mem-claim_ids later limit' x locked' table',
)
  where
    ids : List ℕ
    ids = claim_ids now limit locked table

    table' : List Slot
    table' = update_rows (claimed_row a now lease) ids table

    ids' : List ℕ
    ids' = claim_ids later limit' locked' table'

-- A claim returns at an instant only slots that are due then, or claimed with an expired lease, and that no
-- other transaction has locked.
pub claim_due-claimable :
    (a now lease limit : ℕ) (locked : ℕ → Bool) (table : List Slot) (x : ℕ)
    → mem x (ids_of (claim_due a now lease limit locked table).1) ≡ true
    → (claimable_id now x table ≡ true) × (locked x ≡ false)
unfolding claim_due
claim_due-claimable a now lease limit locked table x m = ground (
  arith,
  mem-claim_ids now limit x locked table,
  mem-returned_rows a now lease x (claim_ids now limit locked table) table m,
)
