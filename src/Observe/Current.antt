-- ===== src/Observe/Current.antt =====
-- After an observation collection every fetched hour has a live row that agrees with what was fetched,
-- so a repeated fetch stores nothing (internal/collection/observe.go).
use forecastiq.Prelude.{
  ℕ, ◌≤◌, ◌≡◌, ◌≢◌, refl, inl, inr, false, none, some, List, [], ◌∷◌, arith, ok, ok_parts,
  Option-cases, All, mem, sym, subst, ap, ◌∙◌,
}
use mathlib.Core.Option.{some-injective}
use forecastiq.Float.{Float}
use forecastiq.Observation.{Observation, differs_from}
use forecastiq.Observe.{Row, Columns, live_key, live_at, insert_row, insert_batch, stored_values}
use forecastiq.Observe.Service.{Fetched, Faults, Request, by_hour, to_insert, corrections, observe}
use forecastiq.Observe.OneLive.{OneLiveAt, existing_of, Stored, observe-Outcome}
use forecastiq.Observe.Marked.{
  hours, DistinctHours, by_hour-list_current, to_insert-cases, Agrees, AllCleared,
  supersede_all-AllCleared,
}
use forecastiq.Observe.Close.{IsClose, stored_values-close}

module _ {F : Type 0} ⦃f : Float F⦄ where
  -- The table holds a live row at the hour of a fetched one that agrees with it.
  abbrev pub IsCurrent : (s l : ℕ) → List (Row F) → Row F → Type 0
  IsCurrent s l t o =
      (r : Row F) × (live_at s l o.observed_at t ≡ some r)
      × (differs_from o.values r.values ≡ false)

  abbrev pub IsFrom : (s l : ℕ) → Row F → Type 0
  IsFrom s l o = (o.source ≡ s) × (o.location_id ≡ l)

module _ {F : Type 0} ⦃f : Float F⦄ (c : Columns F) (s l : ℕ) where
  insert_row-other :
      (h : ℕ) (r : Row F) (t t' : List (Row F)) (n : ℕ)
      → h ≢ r.observed_at
      → insert_row c r t ≡ ok (t', n)
      → live_at s l h t' ≡ live_at s l h t
  unfolding insert_row live_at live_key
  insert_row-other h r t t' n d e = elim (Option-cases (stored_values c r.values)) [
    | inl k ↦ absurd (ground (arith, k))
    | inr (kept, k) ↦ ground (arith, k)
  ]

  insert_row-new :
      (r : Row F) (t t' : List (Row F)) (n : ℕ)
      → r.source ≡ s
      → r.location_id ≡ l
      → live_at s l r.observed_at t ≡ none
      → insert_row c r t ≡ ok (t', n)
      → (kept : Observation F) × (stored_values c r.values ≡ some kept)
        × (live_at s l r.observed_at t'
            ≡ some (record r { values = kept; superseded_observation_id = none }))
  unfolding insert_row live_at live_key
  insert_row-new r t t' n a b d e = elim (Option-cases (stored_values c r.values)) [
    | inl k ↦ absurd (ground (arith, k))
    | inr (kept, k) ↦ (kept, k, ground (arith, k))
  ]

  pub insert_batch-cons :
      (r : Row F) (rs t t' : List (Row F)) (n : ℕ)
      → insert_batch c (r ∷ rs) t ≡ ok (t', n)
      → (t₁ : List (Row F)) × (m k : ℕ) × (insert_row c r t ≡ ok (t₁, m))
        × (insert_batch c rs t₁ ≡ ok (t', k))
  unfolding insert_batch
  insert_batch-cons r rs t t' n e =
      let (done, k, rest) = ok_parts (insert_row c r t) e in
      let (more, q, last) = ok_parts (insert_batch c rs done.0) rest in
      (done.0, done.1, more.1, k, ground (arith, q, last))

  insert_batch-other :
      (existing : List (Row F)) (h : ℕ) (fetched t t' : List (Row F)) (n : ℕ)
      → mem h (hours fetched) ≡ false
      → insert_batch c (to_insert existing fetched) t ≡ ok (t', n)
      → live_at s l h t' ≡ live_at s l h t
  unfolding mem
  insert_batch-other existing h [] t t' n m e = unfold insert_batch to_insert in (ground arith)
  insert_batch-other existing h (o ∷ os) t t' n m e = elim (to_insert-cases existing o os) [
    | inr (prev, k, d, same) ↦
        insert_batch-other existing h os t t' n (ground arith) (rw (← same) e)
    | inl (r, k, (_, at, _, _), same) ↦
        let (t₁, i, j, first, rest) =
          insert_batch-cons r (to_insert existing os) t t' n (rw same at e) in
        insert_batch-other existing h os t₁ t' j (ground arith) rest
        ∙ insert_row-other h r t t₁ i (ground arith) first
  ]

  AllCleared-step :
      (existing : List (Row F)) (at : ℕ) (os t t' : List (Row F))
      → mem at (hours os) ≡ false
      → ((h : ℕ) → h ≢ at → live_at s l h t' ≡ live_at s l h t)
      → AllCleared s l existing t os
      → AllCleared s l existing t' os
  unfolding mem
  AllCleared-step existing at [] t t' m keep a = tt
  AllCleared-step existing at (o ∷ os) t t' m keep (p, q) = (
    keep o.observed_at (ground arith) ∙ p,
    AllCleared-step existing at os t t' (ground arith) keep q,
  )

  insert_batch-AllCurrent :
      (existing : List (Row F)) (fetched t t' : List (Row F)) (n : ℕ)
      → IsClose c
      → DistinctHours fetched
      → All (IsFrom s l) fetched
      → AllCleared s l existing t fetched
      → insert_batch c (to_insert existing fetched) t ≡ ok (t', n)
      → All (IsCurrent s l t') fetched
  insert_batch-AllCurrent existing [] t t' n close d here a e = tt
  insert_batch-AllCurrent existing (o ∷ os) t t' n close (d, ds) ((src, loc), hs) (a, as') e =
      elim (to_insert-cases existing o os) [
        | inr (prev, k, agrees, same) ↦
            let e' : insert_batch c (to_insert existing os) t ≡ ok (t', n) = rw (← same) e in
            (
              (prev, insert_batch-other existing o.observed_at os t t' n d e' ∙ a ∙ k, agrees),
              insert_batch-AllCurrent existing os t t' n close ds hs as' e',
            )
        | inl (r, k, (vals, at, src', loc'), same) ↦
            let (t₁, i, j, first, rest) =
              insert_batch-cons r (to_insert existing os) t t' n (rw same at e) in
            let (kept, stored, live) =
              insert_row-new r t t₁ i (src' ∙ src) (loc' ∙ loc)
                (ap (λ h. live_at s l h t) at ∙ a ∙ k) first in
            (
              (
                record r { values = kept; superseded_observation_id = none },
                insert_batch-other existing o.observed_at os t₁ t' j d rest
                    ∙ ap (λ h. live_at s l h t₁) (sym at)
                    ∙ live,
                stored_values-close c close o.values kept (rw vals at stored),
              ),
              insert_batch-AllCurrent existing os t₁ t' j close ds hs
                  (AllCleared-step existing o.observed_at os t t₁ d
                    (λ h other. insert_row-other h r t t₁ i (ground arith) first) as')
                  rest,
            )
      ]

module _ {F : Type 0} ⦃f : Float F⦄ (req : Request) where
  abbrev pub InWindow : Row F → Type 0
  InWindow o = (req.window_start ≤ o.observed_at) × (o.observed_at ≤ req.window_end)

  window-Agrees :
      (t fetched : List (Row F))
      → All InWindow fetched
      → Agrees req.source req.location_id (existing_of req t) t fetched
  window-Agrees t [] w = tt
  window-Agrees t (o ∷ os) ((a, b), ws) = (
    by_hour-list_current req.source req.location_id req.window_start req.window_end o.observed_at t
        a b,
    window-Agrees t os ws,
  )

  pub current-nothing_new :
      (t fetched : List (Row F))
      → All InWindow fetched
      → All (IsCurrent req.source req.location_id t) fetched
      → (to_insert (existing_of req t) fetched ≡ [])
        × (corrections (existing_of req t) fetched ≡ [])
  unfolding to_insert corrections
  current-nothing_new t [] w c = (refl, refl)
  current-nothing_new t (o ∷ os) ((a, b), ws) ((r, live, same), cs) =
      let (p, q) = current-nothing_new t os ws cs in
      let k : by_hour o.observed_at (existing_of req t) ≡ some r =
        by_hour-list_current req.source req.location_id req.window_start req.window_end
          o.observed_at t a b
        ∙ live in
      (ground (arith, k, same, p), ground (arith, k, same, q))

module _ {F : Type 0} ⦃f : Float F⦄ (c : Columns F) (req : Request) where
  -- After an observation collection that succeeds, every fetched hour has a live row that agrees with the
  -- fetched one within the ε of each field: if the columns keep a value within its ε, the table had at most one
  -- live row for each hour of the source and location, and the fetched rows are of that source and location,
  -- of different hours, and inside the window.
  pub observe-IsCurrent :
      (faults : Faults) (fetched : Fetched F) (t : List (Row F)) (n : ℕ)
      → IsClose c
      → ((h : ℕ) → OneLiveAt req.source req.location_id h t)
      → DistinctHours fetched.observations
      → All (IsFrom req.source req.location_id) fetched.observations
      → All (InWindow req) fetched.observations
      → (observe c faults req (some fetched) t).1 ≡ ok n
      → All
          (IsCurrent req.source req.location_id (observe c faults req (some fetched) t).0)
          fetched.observations
  observe-IsCurrent faults fetched t n close one distinct from window success =
      elim (observe-Outcome c faults req (some fetched) t) [
        | inl (same, failed) ↦ absurd (ground (arith, success, failed))
        | inr (fetched', n', a, done, went) ↦
            let t' : List (Row F) = (observe c faults req (some fetched) t).0 in
            let (t₁, marked, stored) =
              subst (λ z. Stored c faults req z.observations t t' n') (sym (some-injective _ _ a))
                went in
            insert_batch-AllCurrent c req.source req.location_id (existing_of req t)
              fetched.observations t₁ t' n' close distinct from
              (supersede_all-AllCleared req.source req.location_id (existing_of req t)
                fetched.observations t t₁ one distinct
                (window-Agrees req t fetched.observations window) marked)
              stored
      ]
