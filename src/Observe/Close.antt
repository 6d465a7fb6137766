-- ===== src/Observe/Close.antt =====
-- What the columns of an observation keep of its values lies within the ε of a correction
-- (migrations/20260801000007_create_observations.up.sql, DiffersFrom).
use forecastiq.Prelude.{◌≡◌, refl, inl, inr, false, Option, none, some, arith, Option-cases}
use forecastiq.Float.{Float, fone}
use forecastiq.Observation.{Observation, float_differs, differs_from}
use forecastiq.Observe.{Columns, stored_values, cast_values, column, and_then}

and_then-some :
    {A B : Type 0} (o : Option A) (g : A → Option B) (b : B)
    → and_then o g ≡ some b
    → (a : A) × (o ≡ some a) × (g a ≡ some b)
and_then-some none g b e = cc
and_then-some (some a) g b e = (a, refl, e)

-- What a column keeps of a double lies within ε of it: it is rounded to one or two decimal places.
pub record IsClose {F : Type 0} ⦃f : Float F⦄ (c : Columns F) : Type 0 where
  pub temperature :
      (v w : F)
      → c.temperature_c v ≡ some w
      → float_differs (f.ratio 1 10) (some v) (some w) ≡ false
  pub humidity :
      (v w : F) → c.humidity_pct v ≡ some w → float_differs fone (some v) (some w) ≡ false
  pub wind_speed :
      (v w : F)
      → c.wind_speed_ms v ≡ some w
      → float_differs (f.ratio 1 10) (some v) (some w) ≡ false
  pub wind_direction :
      (v w : F) → c.wind_direction_deg v ≡ some w → float_differs fone (some v) (some w) ≡ false
  pub pressure :
      (v w : F) → c.pressure_hpa v ≡ some w → float_differs (f.ratio 5 10) (some v) (some w) ≡ false
  pub precipitation :
      (v w : F)
      → c.precipitation_mm v ≡ some w
      → float_differs (f.ratio 5 100) (some v) (some w) ≡ false

module _ {F : Type 0} ⦃f : Float F⦄ where
  column-close :
      (eps : F) (cast : F → Option F) (v kept : Option F)
      → ((a w : F) → cast a ≡ some w → float_differs eps (some a) (some w) ≡ false)
      → column cast v ≡ some kept
      → float_differs eps v kept ≡ false
  unfolding column
  column-close eps cast none kept close e = unfold float_differs in (ground arith)
  column-close eps cast (some a) kept close e = elim (Option-cases (cast a)) [
    | inl k ↦ absurd (ground (arith, k))
    | inr (w, k) ↦ ground (arith, k, close a w k)
  ]

  pub stored_values-close :
      (c : Columns F)
      → IsClose c
      → (v kept : Observation F) → stored_values c v ≡ some kept
      → differs_from v kept ≡ false
  unfolding stored_values cast_values differs_from
  stored_values-close c close v kept e =
      let (all, e₀, checks) = and_then-some (cast_values c v) _ kept e in
      let (_, t, e₁) = and_then-some (column c.temperature_c v.temperature_c) _ all e₀ in
      let (_, h, e₂) = and_then-some (column c.humidity_pct v.humidity_pct) _ all e₁ in
      let (_, w, e₃) = and_then-some (column c.wind_speed_ms v.wind_speed_ms) _ all e₂ in
      let (_, d, e₄) = and_then-some (column c.wind_direction_deg v.wind_direction_deg) _ all e₃ in
      let (_, p, e₅) = and_then-some (column c.pressure_hpa v.pressure_hpa) _ all e₄ in
      let (_, r, e₆) = and_then-some (column c.precipitation_mm v.precipitation_mm) _ all e₅ in
      ground (
        arith,
        column-close (f.ratio 1 10) c.temperature_c v.temperature_c _ close.temperature t,
        column-close fone c.humidity_pct v.humidity_pct _ close.humidity h,
        column-close (f.ratio 1 10) c.wind_speed_ms v.wind_speed_ms _ close.wind_speed w,
        column-close fone c.wind_direction_deg v.wind_direction_deg _ close.wind_direction d,
        column-close (f.ratio 5 10) c.pressure_hpa v.pressure_hpa _ close.pressure p,
        column-close (f.ratio 5 100) c.precipitation_mm v.precipitation_mm _ close.precipitation r,
      )
