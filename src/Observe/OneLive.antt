-- ===== src/Observe/OneLive.antt =====
-- The index on the live rows: an observation collection keeps to it (internal/collection/observe.go,
-- adapters/persistence/observationpg/observationpg.go).
use forecastiq.Prelude.{
  ℕ, ◌≡◌, ◌≢◌, refl, inl, inr, ◌⊎◌, true, false, Option, none, some, List, [], ◌∷◌, arith, is_some,
  Result, ok, err, is_ok, ok_parts, Bool-cases, Option-cases, if◌then◌else◌, if_elim, subst, sym,
}
use forecastiq.Float.{Float}
use forecastiq.Observe.{
  Row, Columns, live_key, live_at, is_target, has_target, mark, supersede, insert_row, insert_batch,
  stored_values, list_current,
}
use forecastiq.Observe.Service.{
  ObserveError, persist_failed, Correction, Fetched, Faults, Request, supersede_all, to_insert,
  corrections, store, persist, observe,
}

module _ {F : Type 0} (s l h : ℕ) where
  -- At most one live row stands at the key.
  abbrev pub OneLiveAt : List (Row F) → Type 0
  OneLiveAt [] = Unit
  OneLiveAt (r ∷ rs) = (live_key s l h r ≡ true → live_at s l h rs ≡ none) × OneLiveAt rs

  pub mark-none :
      (id at new : ℕ) (t : List (Row F))
      → live_at s l h t ≡ none
      → live_at s l h (mark id at new t) ≡ none
  unfolding live_at mark live_key is_target
  mark-none id at new [] e = refl
  mark-none id at new (r ∷ rs) e = ground (arith, mark-none id at new rs)

  pub mark-OneLiveAt :
      (id at new : ℕ) (t : List (Row F)) → OneLiveAt t → OneLiveAt (mark id at new t)
  unfolding mark live_key is_target
  mark-OneLiveAt id at new [] o = tt
  mark-OneLiveAt id at new (r ∷ rs) (p, q) =
      (λ k. mark-none id at new rs (p (ground arith)), mark-OneLiveAt id at new rs q)

  pub mark-target :
      (id new : ℕ) (t : List (Row F)) (prev : Row F)
      → OneLiveAt t
      → live_at s l h t ≡ some prev
      → prev.id ≡ id
      → live_at s l h (mark id h new t) ≡ none
  unfolding live_at mark live_key is_target
  mark-target id new [] prev o e i = cc
  mark-target id new (r ∷ rs) prev (p, q) e i =
      ground (arith, mark-none id h new rs, mark-target id new rs prev q)

  pub mark-other :
      (id at new : ℕ) (t : List (Row F))
      → h ≢ at
      → live_at s l h (mark id at new t) ≡ live_at s l h t
  unfolding live_at mark live_key is_target
  mark-other id at new [] n = refl
  mark-other id at new (r ∷ rs) n = ground (arith, mark-other id at new rs n)

  pub supersede_all-OneLiveAt :
      (cs : List Correction) (t t' : List (Row F))
      → OneLiveAt t
      → supersede_all cs t ≡ some t'
      → OneLiveAt t'
  unfolding supersede_all supersede
  supersede_all-OneLiveAt [] t t' o e = ground arith
  supersede_all-OneLiveAt (c ∷ cs) t t' o e =
      elim (Bool-cases (has_target c.old_id c.old_observed_at t)) [
        | inl k ↦
            supersede_all-OneLiveAt cs (mark c.old_id c.old_observed_at c.new_id t) t'
              (mark-OneLiveAt c.old_id c.old_observed_at c.new_id t o) (ground arith)
        | inr k ↦ absurd (ground arith)
      ]

module _ {F : Type 0} ⦃f : Float F⦄ (c : Columns F) (s l h : ℕ) where
  insert_row-OneLiveAt :
      (r : Row F) (t t' : List (Row F)) (n : ℕ)
      → OneLiveAt s l h t
      → insert_row c r t ≡ ok (t', n)
      → OneLiveAt s l h t'
  unfolding insert_row live_key
  insert_row-OneLiveAt r t t' n o e = elim (Option-cases (stored_values c r.values)) [
    | inl k ↦ absurd (ground (arith, k))
    | inr (kept, k) ↦ elim (Bool-cases (is_some (live_at r.source r.location_id r.observed_at t))) [
      | inl live ↦ ground arith
      | inr free ↦ ground arith
    ]
  ]

  insert_batch-OneLiveAt :
      (rs t t' : List (Row F)) (n : ℕ)
      → OneLiveAt s l h t
      → insert_batch c rs t ≡ ok (t', n)
      → OneLiveAt s l h t'
  unfolding insert_batch
  insert_batch-OneLiveAt [] t t' n o e = ground arith
  insert_batch-OneLiveAt (r ∷ rs) t t' n o e =
      let (done, k, rest) = ok_parts (insert_row c r t) e in
      let (more, q, last) = ok_parts (insert_batch c rs done.0) rest in
      insert_batch-OneLiveAt rs done.0 t' more.1 (insert_row-OneLiveAt r t done.0 done.1 o k)
        (ground (arith, q, last))

-- The live rows of the window, as `Observe` reads them.
abbrev pub existing_of : {F : Type 0} → Request → List (Row F) → List (Row F)
existing_of req t = list_current req.source req.location_id req.window_start req.window_end t

module _ {F : Type 0} ⦃f : Float F⦄ (c : Columns F) (faults : Faults) (req : Request) where
  -- What a transaction that goes through has done.
  abbrev pub Stored : (fetched t t' : List (Row F)) → ℕ → Type 0
  Stored fetched t t' n =
      (t₁ : List (Row F)) × (supersede_all (corrections (existing_of req t) fetched) t ≡ some t₁)
      × (insert_batch c (to_insert (existing_of req t) fetched) t₁ ≡ ok (t', n))

  pub store-Stored :
      (fetched t t' : List (Row F)) (n : ℕ)
      → store c faults req fetched t ≡ some (t', n)
      → Stored fetched t t' n
  unfolding store
  store-Stored fetched t t' n e =
      elim (Option-cases (supersede_all (corrections (existing_of req t) fetched) t)) [
        | inl none_left ↦ absurd (ground (arith, none_left))
        | inr (t₁, k) ↦ (t₁, k, ground (arith, k))
      ]

  -- Either an error, and the table as it was, or a count, and the transaction.
  abbrev pub Outcome :
      Option (Fetched F) → List (Row F) → List (Row F) × Result ObserveError ℕ → Type 0
  Outcome answer t x =
      ((x.0 ≡ t) × (is_ok x.1 ≡ false))
      ⊎ ((fetched : Fetched F) × (n : ℕ) × (answer ≡ some fetched)
          × (x.1 ≡ ok n)
          × Stored fetched.observations t x.0 n)

  persist-Outcome :
      (fetched : Fetched F) (t : List (Row F))
      → Outcome (some fetched) t (persist c faults req fetched.observations t)
  unfolding persist
  persist-Outcome fetched t = go (store c faults req fetched.observations t) refl
    where
      go :
          (x : Option (List (Row F) × ℕ))
          → store c faults req fetched.observations t ≡ x
          → Outcome (some fetched) t (elim x [
            | none ↦ (t, err persist_failed)
            | some (table', n) ↦
                if faults.begins
                then if faults.commits then (table', ok n) else (t, err persist_failed)
                else (t, err persist_failed)
          ])
      go none e = inl (refl, refl)
      go (some (t', n)) e =
          if_elim (Outcome (some fetched) t) faults.begins _ _
            (λ _.
              if_elim (Outcome (some fetched) t) faults.commits _ _
                (λ _. inr (fetched, n, refl, refl, store-Stored fetched.observations t t' n e))
                (λ _. inl (refl, refl)))
            (λ _. inl (refl, refl))

  pub observe-Outcome :
      (answer : Option (Fetched F)) (t : List (Row F))
      → Outcome answer t (observe c faults req answer t)
  unfolding observe
  observe-Outcome none t = inl (refl, refl)
  observe-Outcome (some fetched) t =
      if_elim (Outcome (some fetched) t) req.active _ _
        (λ _.
          if_elim (Outcome (some fetched) t) fetched.success _ _ (λ _. persist-Outcome fetched t)
            (λ _. inl (refl, refl)))
        (λ _. inl (refl, refl))

  -- Whatever an observation collection fetches and whatever fails: if the table has at most one live row for
  -- each source, location and hour, it has so afterwards.
  pub observe-OneLiveAt :
      (answer : Option (Fetched F)) (t : List (Row F)) (s l h : ℕ)
      → OneLiveAt s l h t
      → OneLiveAt s l h (observe c faults req answer t).0
  observe-OneLiveAt answer t s l h o = elim (observe-Outcome answer t) [
    | inl (same, failed) ↦ subst (OneLiveAt s l h) (sym same) o
    | inr (fetched, n, a, done, (t₁, marked, stored)) ↦
        insert_batch-OneLiveAt c s l h (to_insert (existing_of req t) fetched.observations) t₁
          (observe c faults req answer t).0 n
          (supersede_all-OneLiveAt s l h (corrections (existing_of req t) fetched.observations) t t₁
            o marked)
          stored
  ]
