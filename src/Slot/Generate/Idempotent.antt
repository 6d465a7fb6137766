-- ===== src/Slot/Generate/Idempotent.antt =====
-- Generating again changes nothing (internal/scheduler/scheduler.go, `generateSlots`).
use forecastiq.Prelude.{
  ℕ, suc, ◌≤◌, ◌≡◌, Bool, true, false, ◌||◌, List, [], ◌∷◌, ◌++◌, arith, refl, All, ◌∙◌, ap, mem,
}
use forecastiq.Slot.{
  Slot, JobType, forecast_collection, observation_collection, analysis_batch, generate, same_job,
  same_key, conflicts, inserted,
}
use forecastiq.Slot.Claims.{ids_of}
use forecastiq.Slot.Attempts.{mem-ids_of_append}
use forecastiq.Slot.Generate.{
  Planned, Config, Configuration, new_slot, generate_all, generate_slots, planned,
}

same_job_refl : (j : JobType) → same_job j j ≡ true
unfolding same_job
same_job_refl forecast_collection = refl
same_job_refl observation_collection = refl
same_job_refl analysis_batch = refl

has_key : Planned → List Slot → Bool
has_key p [] = false
has_key p (r ∷ rs) = same_key (new_slot 0 p) r || has_key p rs

conflicts_iff :
    (id : ℕ) (p : Planned) (table : List Slot)
    → conflicts (new_slot id p) table ≡ (mem id (ids_of table) || has_key p table)
unfolding conflicts mem ids_of has_key same_key new_slot
conflicts_iff id p [] = refl
conflicts_iff id p (r ∷ rs) = ground (arith, conflicts_iff id p rs)

has_key-append :
    (p : Planned) (table : List Slot) (s : Slot)
    → has_key p (table ++ (s ∷ [])) ≡ (has_key p table || same_key (new_slot 0 p) s)
unfolding has_key
has_key-append p [] s = ground arith
has_key-append p (r ∷ rs) s = ground (arith, has_key-append p rs s)

same_key-new_slot :
    (id : ℕ) (p : Planned) → same_key (new_slot 0 p) (inserted (new_slot id p)) ≡ true
unfolding same_key new_slot
same_key-new_slot id p = ground (arith, same_job_refl p.job_type)

generate-has_key :
    (id : ℕ) (p q : Planned) (table : List Slot)
    → (mem id (ids_of table) ≡ false → has_key p (generate (new_slot id p) table) ≡ true)
      × (has_key q table ≡ true → has_key q (generate (new_slot id p) table) ≡ true)
unfolding generate
generate-has_key id p q table = ground (
  arith,
  conflicts_iff id p table,
  has_key-append p table (inserted (new_slot id p)),
  has_key-append q table (inserted (new_slot id p)),
  same_key-new_slot id p,
)

generate-present :
    (id : ℕ) (p : Planned) (table : List Slot)
    → has_key p table ≡ true
    → generate (new_slot id p) table ≡ table
unfolding generate
generate-present id p table h = ground (arith, conflicts_iff id p table)

module _ (new_id : ℕ → ℕ) (new_id-injective : (m n : ℕ) → new_id m ≡ new_id n → m ≡ n) where
  -- No id that is still to come stands in the table.
  abbrev pub IsFresh : ℕ → List Slot → Type 0
  IsFresh n table = (m : ℕ) → n ≤ m → mem (new_id m) (ids_of table) ≡ false

  generate-IsFresh :
      (n : ℕ) (p : Planned) (table : List Slot)
      → IsFresh n table
      → IsFresh (suc n) (generate (new_slot (new_id n) p) table)
  unfolding generate new_slot
  generate-IsFresh n p table fresh m h = ground (
    arith,
    fresh m,
    new_id-injective m n,
    mem-ids_of_append (new_id m) table (inserted (new_slot (new_id n) p)),
  )

  generate_all-keeps :
      (n : ℕ) (q : Planned) (ps : List Planned) (table : List Slot)
      → has_key q table ≡ true
      → has_key q (generate_all new_id n ps table) ≡ true
  unfolding generate_all
  generate_all-keeps n q [] table h = h
  generate_all-keeps n q (p ∷ ps) table h =
      generate_all-keeps (suc n) q ps _ ((generate-has_key (new_id n) p q table).1 h)

  generate_all-has_key :
      (n : ℕ) (ps : List Planned) (table : List Slot)
      → IsFresh n table
      → All (λ p. has_key p (generate_all new_id n ps table) ≡ true) ps
  unfolding generate_all
  generate_all-has_key n [] table fresh = tt
  generate_all-has_key n (p ∷ ps) table fresh = (
    generate_all-keeps (suc n) p ps _
        ((generate-has_key (new_id n) p p table).0 (fresh n (omega arith))),
    generate_all-has_key (suc n) ps _ (generate-IsFresh n p table fresh),
  )

  generate_all-present :
      (n : ℕ) (ps : List Planned) (table : List Slot)
      → All (λ p. has_key p table ≡ true) ps
      → generate_all new_id n ps table ≡ table
  unfolding generate_all
  generate_all-present n [] table _ = refl
  generate_all-present n (p ∷ ps) table (h, hs) =
      ap (generate_all new_id (suc n) ps) (generate-present (new_id n) p table h)
      ∙ generate_all-present (suc n) ps table hs

  -- If `ids.New` never returns an id twice or one of the table, generating the slots of an instant again, with
  -- other ids, leaves the table as the first generation left it.
  pub generate_slots-idempotent :
      (n k now : ℕ) (cfg : Config) (configs : List Configuration) (locations : List ℕ)
      (table : List Slot)
      → IsFresh n table
      → generate_slots new_id k now cfg configs locations
          (generate_slots new_id n now cfg configs locations table)
        ≡ generate_slots new_id n now cfg configs locations table
  unfolding generate_slots
  generate_slots-idempotent n k now cfg configs locations table fresh =
      generate_all-present k (planned now cfg configs locations) _
        (generate_all-has_key n (planned now cfg configs locations) table fresh)
