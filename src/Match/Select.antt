-- ===== src/Match/Select.antt =====
-- `SelectCandidate` picks the best candidate, whatever the order of the list.
use forecastiq.Prelude.{
  ℕ, ◌≡◌, inl, inr, Bool, true, false, not, Option, none, some, List, [], ◌∷◌, map, arith, ltb,
  ◌==◌, if◌then◌else◌, Bool-cases, refl, ap, sym, ◌∙◌,
}
use mathlib.Core.Option.{some-injective}
use mathlib.Core.List.{foldl, Perm}
use forecastiq.Prelude.Order.{foldl-perm}
use forecastiq.Observed.{is_corrected}
use forecastiq.Match.{
  ObservationCandidate, provenance_rank, abs_duration, bool_eq, IsTextOrder, candidate_less, prefer,
  select_candidate,
}

-- The comparison, over the values that it reads.
abbrev pub less_by : Bool → Bool → ℕ → ℕ → ℕ → ℕ → Bool → Bool
less_by ac bc ra rb da db less =
    if not (bool_eq ac bc)
    then ac
    else if not (ra == rb)
    then ltb ra rb
    else if not (da == db)
    then ltb da db
    else less

less_by_trans :
    (a b c : Bool) (ra rb rc da db dc : ℕ) (ab bc ac : Bool)
    → (ab ≡ true → bc ≡ true → ac ≡ true)
    → less_by a b ra rb da db ab ≡ true
    → less_by b c rb rc db dc bc ≡ true
    → less_by a c ra rc da dc ac ≡ true
less_by_trans a b c ra rb rc da db dc ab bc ac h p q = ground arith

pub less_by_not_trans :
    (a b c : Bool) (ra rb rc da db dc : ℕ) (ab bc ac : Bool)
    → (ab ≡ false → bc ≡ false → ac ≡ false)
    → less_by a b ra rb da db ab ≡ false
    → less_by b c rb rc db dc bc ≡ false
    → less_by a c ra rc da dc ac ≡ false
less_by_not_trans a b c ra rb rc da db dc ab bc ac h p q = ground arith

module _ (id_less : ℕ → ℕ → Bool) (text : IsTextOrder id_less) where
  pub less_irrefl : (a : ObservationCandidate) (h : ℕ) → candidate_less id_less a a h ≡ false
  unfolding candidate_less
  less_irrefl a h = ground (arith, text.id_irrefl a.id)

  pub less_trans :
      (a b c : ObservationCandidate) (h : ℕ)
      → candidate_less id_less a b h ≡ true
      → candidate_less id_less b c h ≡ true
      → candidate_less id_less a c h ≡ true
  unfolding candidate_less
  less_trans a b c h =
      less_by_trans (is_corrected a.quality_flag) (is_corrected b.quality_flag)
        (is_corrected c.quality_flag) (provenance_rank a.observation_type)
        (provenance_rank b.observation_type) (provenance_rank c.observation_type)
        (abs_duration a.observed_at h) (abs_duration b.observed_at h) (abs_duration c.observed_at h)
        (id_less a.id b.id) (id_less b.id c.id) (id_less a.id c.id) (text.id_trans a.id b.id c.id)

  less_total :
      (a b : ObservationCandidate) (h : ℕ)
      → candidate_less id_less a b h ≡ false
      → candidate_less id_less b a h ≡ false
      → a.id ≡ b.id
  unfolding candidate_less
  less_total a b h p q = ground (arith, text.id_total a.id b.id)

  foldl-map :
      (row : ℕ → Option ObservationCandidate) (hour : ℕ) (ids : List ℕ)
      (best : Option ObservationCandidate)
      → foldl (prefer id_less hour) best (map row ids)
        ≡ foldl (λ s i. prefer id_less hour s (row i)) best ids
  foldl-map row hour [] best = refl
  foldl-map row hour (i ∷ ids) best = foldl-map row hour ids (prefer id_less hour best (row i))

  -- Nothing, or the row with that id.
  abbrev pub HasId : ℕ → Option ObservationCandidate → Type 0
  HasId i none = Unit {0}
  HasId i (some c) = c.id ≡ i

  module _ (row : ℕ → Option ObservationCandidate) (keyed : (i : ℕ) → HasId i (row i))
      (hour : ℕ) where
    -- Nothing, or a row of the table.
    abbrev FromTable : Option ObservationCandidate → Type 0
    FromTable none = Unit {0}
    FromTable (some c) = row c.id ≡ some c

    from_row : (i : ℕ) (o : Option ObservationCandidate) → row i ≡ o → HasId i o → FromTable o
    from_row i none e h = tt
    from_row i (some c) e h = ap row h ∙ e

    row-FromTable : (i : ℕ) → FromTable (row i)
    row-FromTable i = from_row i (row i) refl (keyed i)

    prefer-FromTable :
        (best c : Option ObservationCandidate)
        → FromTable best
        → FromTable c
        → FromTable (prefer id_less hour best c)
    unfolding prefer
    prefer-FromTable best none p q = p
    prefer-FromTable none (some c) p q = q
    prefer-FromTable (some b) (some c) p q = elim (Bool-cases (candidate_less id_less c b hour)) [
      | inl e ↦ rw e q
      | inr e ↦ rw e p
    ]

    same_row :
        (a b : ObservationCandidate)
        → FromTable (some a)
        → FromTable (some b)
        → candidate_less id_less a b hour ≡ false
        → candidate_less id_less b a hour ≡ false
        → a ≡ b
    same_row a b p q l m = some-injective _ _ (sym p ∙ ap row (less_total a b hour l m) ∙ q)

    prefer_comm :
        (best x y : Option ObservationCandidate)
        → FromTable best
        → FromTable x
        → FromTable y
        → prefer id_less hour (prefer id_less hour best x) y
          ≡ prefer id_less hour (prefer id_less hour best y) x
    unfolding prefer
    prefer_comm best none y p q r = refl
    prefer_comm best (some x) none p q r = refl
    prefer_comm none (some x) (some y) p q r =
        ground (arith, less_irrefl x hour, less_trans x y x hour, same_row x y q r)
    prefer_comm (some b) (some x) (some y) p q r = ground (
      arith,
      less_irrefl b hour,
      less_irrefl x hour,
      less_irrefl y hour,
      less_trans x y x hour,
      less_trans x b x hour,
      less_trans y b y hour,
      less_trans x y b hour,
      less_trans y x b hour,
      less_trans x b y hour,
      less_trans y b x hour,
      same_row x y q r,
      same_row y b r p,
      same_row x b q p,
    )

    -- Over a table that is keyed by id, and a strict order of the texts of ids, the chosen observation
    -- does not depend on the order in which the candidates are listed.
    pub select_candidate-perm :
        (ids ids' : List ℕ)
        → Perm ids ids'
        → select_candidate id_less hour (map row ids) ≡ select_candidate id_less hour (map row ids')
    unfolding select_candidate
    select_candidate-perm ids ids' p =
        foldl-map row hour ids none
        ∙ foldl-perm FromTable (λ s i. prefer id_less hour s (row i))
            (λ s i g. prefer-FromTable s (row i) g (row-FromTable i))
            (λ s i j g. prefer_comm s (row i) (row j) g (row-FromTable i) (row-FromTable j))
            (hlevel) p none tt
        ∙ sym (foldl-map row hour ids' none)
