-- ===== src/Slot/Attempts.antt =====
-- The retries of a slot over every run of the scheduler (internal/scheduler/scheduler.go).
pub mod Bounded
use forecastiq.Prelude.{
  ℕ, zero, suc, ◌+◌, ◌*◌, ◌≤◌, ◌<◌, ◌≡◌, Bool, true, false, not, ◌&&◌, ◌||◌, Option, none, some,
  List, [], ◌∷◌, ◌++◌, ltb, leb, arith, refl, is_some, Bool-cases, inl, inr, ◌==◌, if◌then◌else◌,
  mem,
}
use forecastiq.Slot.{
  Slot, SlotStatus, due, claimed, completed, failed, expired, claimable, before, elapsed, same_key,
  conflicts, inserted, generate, claimed_row, failed_row, update_rows, returned_rows, claim_ids,
  claim_due, complete, fail,
}
use forecastiq.Slot.Claims.{ids_of, claimable_id, mem-claim_ids}
use forecastiq.Slot.Execute.{
  Execution, Dispatched, records, dispatch_error, Store, System, Event, generating, claiming,
  executing, next_retry, settle, execute, execute_at, remove_at, step, run, empty,
}

-- A slot that waits or is claimed has attempts left, a claim has a lease, and a failed slot has
-- used them all.
unfoldable pub row_ok : Slot → Bool
row_ok s = elim s.status [
  | due ↦ ltb s.attempts 5
  | claimed ↦ ltb s.attempts 5 && is_some s.lease_expires_at
  | completed ↦ leb s.attempts 5
  | failed ↦ s.attempts == 5
  | expired ↦ false
]

unfoldable pub rows_ok : List Slot → Bool
rows_ok [] = true
rows_ok (s ∷ rows) = row_ok s && rows_ok rows

unfoldable pub distinct : List Slot → Bool
distinct [] = true
distinct (s ∷ rows) = not (mem s.id (ids_of rows)) && distinct rows

unfoldable pub held_ok : List Slot → Bool
held_ok [] = true
held_ok (s ∷ held) = ltb s.attempts 5 && held_ok held

-- The ids select only rows that are claimable.
Selects : ℕ → List ℕ → List Slot → Type 0
Selects now ids rows =
    (x : ℕ) → mem x ids ≡ true → mem x (ids_of rows) ≡ true → claimable_id now x rows ≡ true

mem-claimable_id :
    (now x : ℕ) (rows : List Slot) → claimable_id now x rows ≡ true → mem x (ids_of rows) ≡ true
unfolding claimable_id mem ids_of
mem-claimable_id now x [] h = h
mem-claimable_id now x (s ∷ rows) h = ground (arith, mem-claimable_id now x rows)

Selects-tail :
    (now : ℕ) (ids : List ℕ) (s : Slot) (rows : List Slot)
    → distinct (s ∷ rows) ≡ true
    → Selects now ids (s ∷ rows)
    → Selects now ids rows
unfolding Selects claimable_id mem ids_of distinct
Selects-tail now ids s rows d h x m k = ground (arith, h x m)

Selects-head :
    (now : ℕ) (ids : List ℕ) (s : Slot) (rows : List Slot)
    → distinct (s ∷ rows) ≡ true
    → Selects now ids (s ∷ rows)
    → mem s.id ids ≡ true
    → claimable now s ≡ true
unfolding Selects claimable_id mem ids_of distinct
Selects-head now ids s rows d h m = ground (arith, h s.id m, mem-claimable_id now s.id rows)

-- Claiming keeps the rows and the copies well-formed.
claimed_row-ok :
    (i now lease : ℕ) (s : Slot)
    → row_ok s ≡ true
    → claimable now s ≡ true
    → (row_ok (claimed_row i now lease s) ≡ true)
      × (ltb (claimed_row i now lease s).attempts 5 ≡ true)
unfolding row_ok claimed_row claimable
claimed_row-ok i now lease s h c = ground arith

update_rows-claimed :
    (i now lease : ℕ) (ids : List ℕ) (rows : List Slot)
    → distinct rows ≡ true
    → rows_ok rows ≡ true
    → Selects now ids rows
    → (rows_ok (update_rows (claimed_row i now lease) ids rows) ≡ true)
      × (held_ok (returned_rows (claimed_row i now lease) ids rows) ≡ true)
unfolding rows_ok update_rows returned_rows held_ok distinct
update_rows-claimed i now lease ids [] d h k = (refl, refl)
update_rows-claimed i now lease ids (s ∷ rows) d h k = ground (
  arith,
  claimed_row-ok i now lease s,
  Selects-head now ids s rows d k,
  update_rows-claimed i now lease ids rows (ground arith) (ground arith)
      (Selects-tail now ids s rows d k),
)

ids_of-update_rows :
    (f : Slot → Slot) (ids : List ℕ) (rows : List Slot)
    → ((s : Slot) → (f s).id ≡ s.id)
    → (x : ℕ) → mem x (ids_of (update_rows f ids rows)) ≡ mem x (ids_of rows)
unfolding ids_of update_rows mem
ids_of-update_rows f ids [] h x = refl
ids_of-update_rows f ids (s ∷ rows) h x = ground (arith, h s, ids_of-update_rows f ids rows h x)

distinct-update_rows :
    (f : Slot → Slot) (ids : List ℕ) (rows : List Slot)
    → ((s : Slot) → (f s).id ≡ s.id)
    → distinct (update_rows f ids rows) ≡ distinct rows
unfolding distinct update_rows
distinct-update_rows f ids [] h = refl
distinct-update_rows f ids (s ∷ rows) h = ground (
  arith,
  h s,
  distinct-update_rows f ids rows h,
  ids_of-update_rows f ids rows h s.id,
  ids_of-update_rows f ids rows h (f s).id,
)

rows_ok-update_rows :
    (f : Slot → Slot) (ids : List ℕ) (rows : List Slot)
    → ((s : Slot) → row_ok s ≡ true → row_ok (f s) ≡ true)
    → rows_ok rows ≡ true
    → rows_ok (update_rows f ids rows) ≡ true
unfolding rows_ok update_rows
rows_ok-update_rows f ids [] h k = refl
rows_ok-update_rows f ids (s ∷ rows) h k = ground (arith, h s, rows_ok-update_rows f ids rows h)

complete-ok :
    (id run : ℕ) (rows : List Slot)
    → (rows_ok rows ≡ true → rows_ok (complete id run rows) ≡ true)
      × (distinct (complete id run rows) ≡ distinct rows)
unfolding complete row_ok
complete-ok id run rows = (
  rows_ok-update_rows _ (id ∷ []) rows (λ s h. ground arith),
  distinct-update_rows _ (id ∷ []) rows (λ s. refl),
)

failed_row-ok :
    (run now attempts : ℕ) (s : Slot)
    → attempts < 5
    → row_ok (failed_row run (suc attempts) (next_retry now (suc attempts)) s) ≡ true
unfolding row_ok failed_row next_retry
failed_row-ok run now attempts s h = ground arith

fail-ok :
    (id run now attempts : ℕ) (rows : List Slot)
    → attempts < 5
    → (rows_ok rows ≡ true
        → rows_ok (fail id run (suc attempts) (next_retry now (suc attempts)) rows) ≡ true)
      × (distinct (fail id run (suc attempts) (next_retry now (suc attempts)) rows) ≡ distinct rows)
unfolding fail failed_row
fail-ok id run now attempts rows h = (
  rows_ok-update_rows (failed_row run (suc attempts) (next_retry now (suc attempts))) (id ∷ []) rows
      (λ s k. failed_row-ok run now attempts s h),
  distinct-update_rows (failed_row run (suc attempts) (next_retry now (suc attempts))) (id ∷ [])
      rows (λ s. refl),
)

rows_ok-append :
    (rows : List Slot) (s : Slot) → rows_ok (rows ++ (s ∷ [])) ≡ (rows_ok rows && row_ok s)
unfolding rows_ok
rows_ok-append [] s = ground arith
rows_ok-append (r ∷ rows) s = ground (arith, rows_ok-append rows s)

held_ok-append : (rows more : List Slot) → held_ok (rows ++ more) ≡ (held_ok rows && held_ok more)
unfolding held_ok
held_ok-append [] more = refl
held_ok-append (r ∷ rows) more = ground (arith, held_ok-append rows more)

pub mem-ids_of_append :
    (x : ℕ) (rows : List Slot) (s : Slot)
    → mem x (ids_of (rows ++ (s ∷ []))) ≡ (mem x (ids_of rows) || (x == s.id))
unfolding mem ids_of
mem-ids_of_append x [] s = ground arith
mem-ids_of_append x (r ∷ rows) s = ground (arith, mem-ids_of_append x rows s)

distinct-append :
    (rows : List Slot) (s : Slot)
    → distinct (rows ++ (s ∷ [])) ≡ (distinct rows && not (mem s.id (ids_of rows)))
unfolding distinct mem ids_of
distinct-append [] s = refl
distinct-append (r ∷ rows) s = ground (arith, distinct-append rows s, mem-ids_of_append r.id rows s)

conflicts-mem :
    (s : Slot) (rows : List Slot) → mem s.id (ids_of rows) ≡ true → conflicts s rows ≡ true
unfolding conflicts mem ids_of
conflicts-mem s [] h = h
conflicts-mem s (r ∷ rows) h = ground (arith, conflicts-mem s rows)

-- Every row and every copy that a worker holds is well-formed, and no id stands in two rows.
unfoldable pub system_ok : System → Bool
system_ok sys = rows_ok sys.store.slots && distinct sys.store.slots && held_ok sys.held
