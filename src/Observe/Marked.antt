-- ===== src/Observe/Marked.antt =====
-- What the corrections of an observation collection leave live (internal/collection/observe.go).
use forecastiq.Prelude.{
  ℕ, ◌≤◌, ◌≡◌, refl, inl, inr, ◌⊎◌, false, Option, none, some, List, [], ◌∷◌, arith, Bool-cases,
  Option-cases, if◌then◌else◌, mem, sym, ◌∙◌,
}
use forecastiq.Float.{Float}
use forecastiq.Observation.{differs_from}
use forecastiq.Observe.{Row, live_key, live_at, list_current, mark, supersede}
use forecastiq.Observe.Service.{by_hour, supersede_all, to_insert, corrections, flagged}
use forecastiq.Observe.OneLive.{OneLiveAt, mark-OneLiveAt, mark-target, mark-other}

module _ {F : Type 0} where
  abbrev pub hours : List (Row F) → List ℕ
  hours [] = []
  hours (r ∷ rs) = r.observed_at ∷ hours rs

  -- No two rows are of one hour.
  abbrev pub DistinctHours : List (Row F) → Type 0
  DistinctHours [] = Unit
  DistinctHours (r ∷ rs) = (mem r.observed_at (hours rs) ≡ false) × DistinctHours rs

  by_hour-observed_at :
      (h : ℕ) (rs : List (Row F)) (prev : Row F) → by_hour h rs ≡ some prev → prev.observed_at ≡ h
  unfolding by_hour
  by_hour-observed_at h [] prev e = cc
  by_hour-observed_at h (r ∷ rs) prev e = ground (arith, by_hour-observed_at h rs prev)

  pub by_hour-list_current :
      (s l start end h : ℕ) (t : List (Row F))
      → start ≤ h
      → h ≤ end
      → by_hour h (list_current s l start end t) ≡ live_at s l h t
  unfolding by_hour list_current live_at live_key
  by_hour-list_current s l start end h [] p q = refl
  by_hour-list_current s l start end h (r ∷ rs) p q =
      ground (arith, by_hour-list_current s l start end h rs p q)

module _ {F : Type 0} ⦃f : Float F⦄ (existing : List (Row F)) where
  -- What is live at the hour of a fetched row once the corrections have been marked.
  pub cleared : Row F → Option (Row F)
  cleared o = elim (by_hour o.observed_at existing) [
    | none ↦ none
    | some prev ↦ if differs_from o.values prev.values then none else some prev
  ]

  -- A fetched row is inserted, flagged or not, or it agrees with the live row.
  abbrev pub IsSame : Row F → Row F → Type 0
  IsSame o r =
      (r.values ≡ o.values)
      × (r.observed_at ≡ o.observed_at)
      × (r.source ≡ o.source)
      × (r.location_id ≡ o.location_id)

  pub to_insert-cases :
      (o : Row F) (os : List (Row F))
      → ((r : Row F) × (cleared o ≡ none)
          × IsSame o r
          × (to_insert existing (o ∷ os) ≡ r ∷ to_insert existing os))
        ⊎ ((prev : Row F) × (cleared o ≡ some prev)
            × (differs_from o.values prev.values ≡ false)
            × (to_insert existing (o ∷ os) ≡ to_insert existing os))
  unfolding cleared to_insert
  to_insert-cases o os = elim (Option-cases (by_hour o.observed_at existing)) [
    | inl k ↦ inl (o, ground (arith, k), (refl, refl, refl, refl), ground (arith, k))
    | inr (prev, k) ↦ elim (Bool-cases (differs_from o.values prev.values)) [
      | inl d ↦
          inl (flagged o, ground (arith, k, d), (refl, refl, refl, refl), ground (arith, k, d))
      | inr d ↦ inr (prev, ground (arith, k, d), d, ground (arith, k, d))
    ]
  ]

module _ {F : Type 0} ⦃f : Float F⦄ (s l : ℕ) (existing : List (Row F)) where
  supersede_all-other :
      (h : ℕ) (fetched t t₁ : List (Row F))
      → mem h (hours fetched) ≡ false
      → supersede_all (corrections existing fetched) t ≡ some t₁
      → live_at s l h t₁ ≡ live_at s l h t
  unfolding supersede_all supersede corrections mem
  supersede_all-other h [] t t₁ m e = ground arith
  supersede_all-other h (o ∷ os) t t₁ m e = elim (Option-cases (by_hour o.observed_at existing)) [
    | inl k ↦ ground (arith, k, supersede_all-other h os t t₁)
    | inr (prev, k) ↦
        let at = by_hour-observed_at o.observed_at existing prev k in
        ground (
          arith,
          k,
          at,
          supersede_all-other h os t t₁,
          supersede_all-other h os (mark prev.id prev.observed_at o.id t) t₁,
          mark-other s l h prev.id prev.observed_at o.id t,
        )
  ]

  abbrev pub Agrees : List (Row F) → List (Row F) → Type 0
  Agrees t [] = Unit
  Agrees t (o ∷ os) = (by_hour o.observed_at existing ≡ live_at s l o.observed_at t) × Agrees t os

  abbrev pub AllCleared : List (Row F) → List (Row F) → Type 0
  AllCleared t [] = Unit
  AllCleared t (o ∷ os) = (live_at s l o.observed_at t ≡ cleared existing o) × AllCleared t os

  mark-Agrees :
      (id at new : ℕ) (t os : List (Row F))
      → mem at (hours os) ≡ false
      → Agrees t os
      → Agrees (mark id at new t) os
  unfolding mem
  mark-Agrees id at new t [] m a = tt
  mark-Agrees id at new t (o ∷ os) m (p, q) = (
    p ∙ sym (mark-other s l o.observed_at id at new t (ground arith)),
    mark-Agrees id at new t os (ground arith) q,
  )

  pub supersede_all-AllCleared :
      (fetched t t₁ : List (Row F))
      → ((h : ℕ) → OneLiveAt s l h t)
      → DistinctHours fetched
      → Agrees t fetched
      → supersede_all (corrections existing fetched) t ≡ some t₁
      → AllCleared t₁ fetched
  unfolding supersede_all supersede corrections cleared
  supersede_all-AllCleared [] t t₁ one d a e = tt
  supersede_all-AllCleared (o ∷ os) t t₁ one (d, ds) (p, ps) e =
      elim (Option-cases (by_hour o.observed_at existing)) [
        | inl k ↦
            let e' : supersede_all (corrections existing os) t ≡ some t₁ = ground (arith, k) in
            (
              ground (arith, k, p, supersede_all-other o.observed_at os t t₁ d e'),
              supersede_all-AllCleared os t t₁ one ds ps e',
            )
        | inr (prev, k) ↦ elim (Bool-cases (differs_from o.values prev.values)) [
          | inr same ↦
              let e' : supersede_all (corrections existing os) t ≡ some t₁ =
                ground (arith, k, same) in
              (
                ground (arith, k, same, p, supersede_all-other o.observed_at os t t₁ d e'),
                supersede_all-AllCleared os t t₁ one ds ps e',
              )
          | inl new ↦
              let at : prev.observed_at ≡ o.observed_at =
                by_hour-observed_at o.observed_at existing prev k in
              let t' : List (Row F) = mark prev.id o.observed_at o.id t in
              let e' : supersede_all (corrections existing os) t' ≡ some t₁ =
                ground (arith, k, new, at) in
              let none_left : live_at s l o.observed_at t' ≡ none =
                mark-target s l o.observed_at prev.id o.id t prev (one o.observed_at) (sym p ∙ k)
                  refl in
              (
                ground (arith, k, new, none_left, supersede_all-other o.observed_at os t' t₁ d e'),
                supersede_all-AllCleared os t' t₁
                    (λ h. mark-OneLiveAt s l h prev.id o.observed_at o.id t (one h)) ds
                    (mark-Agrees prev.id o.observed_at o.id t os d ps) e',
              )
        ]
      ]
