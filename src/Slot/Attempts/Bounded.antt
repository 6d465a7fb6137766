-- ===== src/Slot/Attempts/Bounded.antt =====
-- The bound of the retries, and that no slot is stuck (internal/scheduler/scheduler.go).
use forecastiq.Prelude.{
  ℕ, zero, suc, ◌+◌, ◌<◌, ◌≡◌, Bool, true, false, Option, none, some, List, [], ◌∷◌, arith, refl,
  All, ◌||◌, ltb, max,
}
use forecastiq.Slot.{
  Slot, due, claimed, completed, failed, expired, claimable, before, elapsed, inserted, generate,
  claimed_row, claim_ids, claim_due,
}
use forecastiq.Slot.Claims.{mem-claim_ids}
use forecastiq.Slot.Execute.{
  Execution, Dispatched, records, dispatch_error, Store, System, Event, generating, claiming,
  executing, settle, execute, execute_at, remove_at, start_run, step, run, empty,
}
use forecastiq.Slot.Attempts.{
  row_ok, rows_ok, distinct, held_ok, system_ok, Selects, update_rows-claimed, distinct-update_rows,
  complete-ok, fail-ok, rows_ok-append, held_ok-append, distinct-append, conflicts-mem,
}

generate-ok :
    (s : Slot) (rows : List Slot)
    → rows_ok rows ≡ true
    → distinct rows ≡ true
    → (rows_ok (generate (record s { status = due }) rows) ≡ true)
      × (distinct (generate (record s { status = due }) rows) ≡ true)
unfolding generate row_ok
generate-ok s rows h d = ground (
  arith,
  rows_ok-append rows (inserted (record s { status = due })),
  distinct-append rows (inserted (record s { status = due })),
  conflicts-mem (record s { status = due }) rows,
)

claim-ok :
    (i now lease limit : ℕ) (locked : ℕ → Bool) (rows : List Slot)
    → rows_ok rows ≡ true
    → distinct rows ≡ true
    → (rows_ok (claim_due i now lease limit locked rows).0 ≡ true)
      × (distinct (claim_due i now lease limit locked rows).0 ≡ true)
      × (held_ok (claim_due i now lease limit locked rows).1 ≡ true)
unfolding claim_due claimed_row Selects
claim-ok i now lease limit locked rows h d = ground (
  arith,
  update_rows-claimed i now lease ids rows d h
      (λ x m k. (mem-claim_ids now limit x locked rows m).0),
  distinct-update_rows (claimed_row i now lease) ids rows (λ s. refl),
)
  where
    ids : List ℕ
    ids = claim_ids now limit locked rows

settle-ok :
    (s : Slot) (e : Execution) (d : Dispatched) (store : Store)
    → s.attempts < 5
    → rows_ok store.slots ≡ true
    → distinct store.slots ≡ true
    → (rows_ok (settle s e d store).slots ≡ true) × (distinct (settle s e d store).slots ≡ true)
unfolding settle
settle-ok s e (records n) store a h k = ground (arith, complete-ok s.id e.run_id store.slots)
settle-ok s e (dispatch_error why) store a h k =
    ground (arith, fail-ok s.id e.run_id e.ended_at s.attempts store.slots a)

execute_at-ok :
    (n : ℕ) (e : Execution) (held : List Slot) (store : Store)
    → held_ok held ≡ true
    → rows_ok store.slots ≡ true
    → distinct store.slots ≡ true
    → (rows_ok (execute_at n e held store).slots ≡ true)
      × (distinct (execute_at n e held store).slots ≡ true)
      × (held_ok (remove_at n held) ≡ true)
unfolding execute_at execute remove_at held_ok
execute_at-ok n e [] store o h k = (h, k, refl)
execute_at-ok zero e (s ∷ held) store o h k =
    ground (arith, settle-ok s e e.dispatched (record store { runs = start_run s e store.runs }))
execute_at-ok (suc n) e (s ∷ held) store o h k = ground (arith, execute_at-ok n e held store)

step-system_ok : (sys : System) (e : Event) → system_ok sys ≡ true → system_ok (step sys e) ≡ true
unfolding system_ok step
step-system_ok sys (generating s) h = ground (arith, generate-ok s sys.store.slots)
step-system_ok sys (claiming i now lease limit locked) h = ground (
  arith,
  claim-ok i now lease limit locked sys.store.slots,
  held_ok-append sys.held (claim_due i now lease limit locked sys.store.slots).1,
)
step-system_ok sys (executing n e) h = ground (arith, execute_at-ok n e sys.held sys.store)

pub run-system_ok :
    (sys : System) (es : List Event) → system_ok sys ≡ true → system_ok (run sys es) ≡ true
unfolding run
run-system_ok sys [] h = h
run-system_ok sys (e ∷ es) h = run-system_ok (step sys e) es (step-system_ok sys e h)

abbrev pub or_zero : Option ℕ → ℕ
or_zero none = 0
or_zero (some t) = t

-- The instant from which a slot that is not settled can be claimed.
unfoldable pub claimable_from : Slot → ℕ
claimable_from s = elim s.status [
  | due ↦ max s.slot_time (or_zero s.next_retry_at)
  | claimed ↦ or_zero s.lease_expires_at + 1
  | completed ↦ 0
  | failed ↦ 0
  | expired ↦ 0
]

unfoldable pub settled : Slot → Bool
settled s = elim s.status [ completed ↦ true | failed ↦ true | _ ↦ false ]

-- The slot is settled, or not to be claimed yet, or claimable.
unfoldable pub live : ℕ → Slot → Bool
live later s = settled s || ltb later (claimable_from s) || claimable later s

row_ok-live : (later : ℕ) (s : Slot) → row_ok s ≡ true → live later s ≡ true
unfolding row_ok claimable elapsed before live settled claimable_from
row_ok-live later s h = ground arith

rows_ok-live :
    (later : ℕ) (rows : List Slot) → rows_ok rows ≡ true → All (λ s. live later s ≡ true) rows
unfolding rows_ok
rows_ok-live later [] h = tt
rows_ok-live later (s ∷ rows) h =
    (row_ok-live later s (ground arith), rows_ok-live later rows (ground arith))

run_from_empty : (es : List Event) → rows_ok (run empty es).store.slots ≡ true
unfolding system_ok rows_ok distinct held_ok
run_from_empty es = ground (arith, run-system_ok empty es)

-- No slot is stuck: after every sequence of generations, claims and executions from the empty
-- table, at every instant, each slot is completed or failed, or is claimable, or waits for an
-- instant of its own that is still to come: the later of its time and its retry time if it is
-- due, and the instant after the end of its lease if it is claimed.
pub run-live :
    (es : List Event) (later : ℕ) → All (λ s. live later s ≡ true) (run empty es).store.slots
run-live es later = rows_ok-live later _ (run_from_empty es)
