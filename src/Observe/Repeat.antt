-- ===== src/Observe/Repeat.antt =====
-- A repeated fetch stores nothing (internal/collection/observe.go).
use forecastiq.Prelude.{
  ℕ, ◌≡◌, inl, inr, ◌⊎◌, false, some, List, [], ◌∷◌, arith, subst, ok, is_ok, All, sym, ap, ◌∙◌,
}
use mathlib.Core.Option.{some-injective}
use forecastiq.Float.{Float}
use forecastiq.Observation.{differs_from}
use forecastiq.Observe.{Row, Columns, live_at, insert_batch}
use forecastiq.Observe.Service.{Fetched, Faults, Request, supersede_all, observe}
use forecastiq.Observe.OneLive.{OneLiveAt, Stored, observe-Outcome}
use forecastiq.Observe.Marked.{DistinctHours}
use forecastiq.Observe.Current.{IsCurrent, IsFrom, InWindow, current-nothing_new, observe-IsCurrent}
use forecastiq.Observe.Close.{IsClose}

module _ {F : Type 0} ⦃f : Float F⦄ where
  -- Two fetches brought the same values for the same hours.
  abbrev pub SameValues : List (Row F) → List (Row F) → Type 0
  SameValues [] [] = Unit
  SameValues [] (y ∷ ys) = ⊥
  SameValues (x ∷ xs) [] = ⊥
  SameValues (x ∷ xs) (y ∷ ys) =
      (x.observed_at ≡ y.observed_at) × (x.values ≡ y.values) × SameValues xs ys

  SameValues-IsCurrent :
      (s l : ℕ) (t xs ys : List (Row F))
      → SameValues xs ys
      → All (IsCurrent s l t) xs
      → All (IsCurrent s l t) ys
  SameValues-IsCurrent s l t [] [] v c = tt
  SameValues-IsCurrent s l t [] (y ∷ ys) v c = elim v [ ]
  SameValues-IsCurrent s l t (x ∷ xs) [] v c = elim v [ ]
  SameValues-IsCurrent s l t (x ∷ xs) (y ∷ ys) (h, vals, vs) ((r, live, same), cs) = (
    (
      r,
      ap (λ z. live_at s l z t) (sym h) ∙ live,
      ap (λ z. differs_from z r.values) (sym vals) ∙ same,
    ),
    SameValues-IsCurrent s l t xs ys vs cs,
  )

module _ {F : Type 0} ⦃f : Float F⦄ (c : Columns F) (req : Request) where
  SameValues-window :
      (xs ys : List (Row F)) → SameValues xs ys → All (InWindow req) xs → All (InWindow req) ys
  SameValues-window [] [] v w = tt
  SameValues-window [] (y ∷ ys) v w = elim v [ ]
  SameValues-window (x ∷ xs) [] v w = elim v [ ]
  SameValues-window (x ∷ xs) (y ∷ ys) (h, vals, vs) (w, ws) =
      (omega (arith, h, w), SameValues-window xs ys vs ws)

  Stored-nothing :
      (faults : Faults) (t t' fetched : List (Row F)) (n : ℕ)
      → All (InWindow req) fetched
      → All (IsCurrent req.source req.location_id t) fetched
      → Stored c faults req fetched t t' n
      → (t' ≡ t) × (n ≡ 0)
  unfolding supersede_all insert_batch
  Stored-nothing faults t t' fetched n w cur (t₁, marked, stored) =
      let (p, q) = current-nothing_new req t fetched w cur in
      let m : supersede_all [] t ≡ some t₁ = rw q at marked in
      let s : insert_batch c [] t₁ ≡ ok (t', n) = rw p at stored in
      (ground (arith, m, s), ground (arith, m, s))

  -- After a collection that succeeds, under the conditions by which it leaves every fetched hour current, a
  -- collection of the same window that fetches the same values for the same hours, with new ids and whatever
  -- fails, leaves the table as it is, and counts no row unless it returns an error.
  pub observe-repeat :
      (faults faults' : Faults) (fetched fetched' : Fetched F) (t : List (Row F)) (n : ℕ)
      → IsClose c
      → ((h : ℕ) → OneLiveAt req.source req.location_id h t)
      → DistinctHours fetched.observations
      → All (IsFrom req.source req.location_id) fetched.observations
      → All (InWindow req) fetched.observations
      → (observe c faults req (some fetched) t).1 ≡ ok n
      → SameValues fetched.observations fetched'.observations
      → let again =
          observe c faults' req (some fetched') (observe c faults req (some fetched) t).0 in
        (again.0 ≡ (observe c faults req (some fetched) t).0)
        × ((again.1 ≡ ok 0) ⊎ (is_ok again.1 ≡ false))
  observe-repeat faults faults' fetched fetched' t n close one distinct from window success same =
      let t' : List (Row F) = (observe c faults req (some fetched) t).0 in
      let cur : All (IsCurrent req.source req.location_id t') fetched.observations =
        observe-IsCurrent c req faults fetched t n close one distinct from window success in
      elim (observe-Outcome c faults' req (some fetched') t') [
        | inl (kept, failed) ↦ (kept, inr failed)
        | inr (fetched₂, n₂, a, done, stored) ↦
            let t₂ : List (Row F) = (observe c faults' req (some fetched') t').0 in
            let e : fetched' ≡ fetched₂ = some-injective _ _ a in
            let (p, q) =
              Stored-nothing faults' t' t₂ fetched'.observations n₂
                (SameValues-window fetched.observations fetched'.observations same window)
                (SameValues-IsCurrent req.source req.location_id t' fetched.observations
                  fetched'.observations same cur)
                (subst (λ z. Stored c faults' req z.observations t' t₂ n₂) (sym e) stored) in
            (p, inl (done ∙ ap ok q))
      ]
