-- ===== src/Observe/Refused.antt =====
-- One row that a check of the table refuses fails the whole collection (internal/collection/observe.go,
-- migrations/20260801000007_create_observations.up.sql).
use forecastiq.Prelude.{
  ℕ, ◌≡◌, ◌≢◌, inl, inr, false, none, some, List, [], ◌∷◌, ◌++◌, arith, subst, ok, is_ok, sym, ◌∙◌,
}
use mathlib.Core.Option.{some-injective}
use forecastiq.Float.{Float}
use forecastiq.Observation.{Observation}
use forecastiq.Observe.{
  Row, Columns, live_at, insert_row, insert_batch, stored_values, cast_values, checked,
}
use forecastiq.Observe.Service.{Fetched, Faults, Request, by_hour, to_insert, observe}
use forecastiq.Observe.OneLive.{existing_of, Stored, observe-Outcome}
use forecastiq.Observe.Marked.{by_hour-list_current, to_insert-cases}
use forecastiq.Observe.Current.{insert_batch-cons, InWindow}

module _ {F : Type 0} ⦃f : Float F⦄ (c : Columns F) where
  unchecked-none :
      (v kept : Observation F)
      → cast_values c v ≡ some kept
      → checked kept ≡ false
      → stored_values c v ≡ none
  unfolding stored_values
  unchecked-none v kept e k = ground (arith, e, k)

  insert_row-refused :
      (r : Row F) (t t' : List (Row F)) (n : ℕ)
      → stored_values c r.values ≡ none
      → insert_row c r t ≢ ok (t', n)
  unfolding insert_row
  insert_row-refused r t t' n k e = ground (arith, k, e)

  insert_batch-refused :
      (existing xs : List (Row F)) (o : Row F) (ys t t' : List (Row F)) (n : ℕ)
      → stored_values c o.values ≡ none
      → by_hour o.observed_at existing ≡ none
      → insert_batch c (to_insert existing (xs ++ (o ∷ ys))) t ≢ ok (t', n)
  insert_batch-refused existing [] o ys t t' n k free e =
      let same : to_insert existing (o ∷ ys) ≡ o ∷ to_insert existing ys =
        unfold to_insert in (ground (arith, free)) in
      let (t₁, i, j, first, rest) =
        insert_batch-cons c 0 0 o (to_insert existing ys) t t' n (rw same at e) in
      insert_row-refused o t t₁ i k first
  insert_batch-refused existing (x ∷ xs) o ys t t' n k free e =
      elim (to_insert-cases existing x (xs ++ (o ∷ ys))) [
        | inr (_, _, _, same) ↦ insert_batch-refused existing xs o ys t t' n k free (rw same at e)
        | inl (r, _, _, same) ↦
            let (t₁, i, j, first, rest) =
              insert_batch-cons c 0 0 r (to_insert existing (xs ++ (o ∷ ys))) t t' n
                (rw same at e) in
            insert_batch-refused existing xs o ys t₁ t' j k free rest
      ]

  -- If one of the fetched rows, of an hour of the window that has no live row, keeps values that break a check
  -- of the table, such as a humidity above 100, then whatever else was fetched the collection stores nothing
  -- and returns an error.
  pub observe-refused :
      (faults : Faults) (req : Request) (fetched : Fetched F) (xs ys : List (Row F)) (o : Row F)
      (kept : Observation F) (t : List (Row F))
      → fetched.observations ≡ xs ++ (o ∷ ys)
      → InWindow req o
      → live_at req.source req.location_id o.observed_at t ≡ none
      → cast_values c o.values ≡ some kept
      → checked kept ≡ false
      → ((observe c faults req (some fetched) t).0 ≡ t)
        × (is_ok (observe c faults req (some fetched) t).1 ≡ false)
  observe-refused faults req fetched xs ys o kept t e (a, b) free cast fails =
      elim (observe-Outcome c faults req (some fetched) t) [
        | inl failed ↦ failed
        | inr (fetched', n, p, done, went) ↦
            let t' : List (Row F) = (observe c faults req (some fetched) t).0 in
            let (t₁, marked, stored) =
              subst (λ z. Stored c faults req z.observations t t' n) (sym (some-injective _ _ p))
                went in
            let free' : by_hour o.observed_at (existing_of req t) ≡ none =
              by_hour-list_current req.source req.location_id req.window_start req.window_end
                o.observed_at t a b
              ∙ free in
            let stored' : insert_batch c (to_insert (existing_of req t) (xs ++ (o ∷ ys))) t₁
                ≡ ok (t', n) =
              subst (λ z. insert_batch c (to_insert (existing_of req t) z) t₁ ≡ ok (t', n)) e
                stored in
            absurd (
              insert_batch-refused (existing_of req t) xs o ys t₁ t' n
                (unchecked-none o.values kept cast fails) free' stored')
      ]
