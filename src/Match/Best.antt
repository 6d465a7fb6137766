-- ===== src/Match/Best.antt =====
-- `SelectCandidate` picks a candidate of the list that no other is preferred to
-- (internal/analysis/domain/match.go).
use forecastiq.Prelude.{
  ℕ, ◌≡◌, ◌⊎◌, inl, inr, Bool, false, Option, none, some, List, [], ◌∷◌, arith, All, refl, ◌∙◌,
}
use mathlib.Core.List.{foldl, Memᴰ}
use forecastiq.Observed.{is_corrected}
use forecastiq.Match.{
  ObservationCandidate, provenance_rank, abs_duration, IsTextOrder, candidate_less, prefer,
  select_candidate,
}
use forecastiq.Match.Select.{less_by_not_trans, less_irrefl, less_trans}

module _ (id_less : ℕ → ℕ → Bool) (text : IsTextOrder id_less) where
  id_not_trans : (a b c : ℕ) → id_less a b ≡ false → id_less b c ≡ false → id_less a c ≡ false
  id_not_trans a b c p q = ground (
    arith,
    text.id_total a b,
    text.id_trans b a c,
    text.id_total b c,
    text.id_trans a c b,
    text.id_irrefl c,
  )

  not_less_trans :
      (a b c : ObservationCandidate) (h : ℕ)
      → candidate_less id_less a b h ≡ false
      → candidate_less id_less b c h ≡ false
      → candidate_less id_less a c h ≡ false
  unfolding candidate_less
  not_less_trans a b c h =
      less_by_not_trans (is_corrected a.quality_flag) (is_corrected b.quality_flag)
        (is_corrected c.quality_flag) (provenance_rank a.observation_type)
        (provenance_rank b.observation_type) (provenance_rank c.observation_type)
        (abs_duration a.observed_at h) (abs_duration b.observed_at h) (abs_duration c.observed_at h)
        (id_less a.id b.id) (id_less b.id c.id) (id_less a.id c.id) (id_not_trans a.id b.id c.id)

  -- `c` is not preferred to the choice.
  abbrev pub NotBetter : ℕ → Option ObservationCandidate → Option ObservationCandidate → Type 0
  NotBetter hour choice none = Unit {0}
  NotBetter hour none (some c) = ⊥
  NotBetter hour (some b) (some c) = candidate_less id_less c b hour ≡ false

  NotBetter-trans :
      (hour : ℕ) (r b c : Option ObservationCandidate)
      → NotBetter hour r b
      → NotBetter hour b c
      → NotBetter hour r c
  NotBetter-trans hour r b none p q = tt
  NotBetter-trans hour none none (some c) p q = q
  NotBetter-trans hour none (some b) (some c) p q = p
  NotBetter-trans hour (some r) none (some c) p q = absurd q
  NotBetter-trans hour (some r) (some b) (some c) p q = not_less_trans c b r hour q p

  prefer-NotBetter :
      (hour : ℕ) (best c : Option ObservationCandidate)
      → let b = prefer id_less hour best c in NotBetter hour b best × NotBetter hour b c
  unfolding prefer
  prefer-NotBetter hour none none = (tt, tt)
  prefer-NotBetter hour (some b) none = (less_irrefl id_less text b hour, tt)
  prefer-NotBetter hour none (some c) = (tt, less_irrefl id_less text c hour)
  prefer-NotBetter hour (some b) (some c) = ground (
    arith,
    less_irrefl id_less text b hour,
    less_irrefl id_less text c hour,
    less_trans id_less text b c b hour,
  )

  prefer-mem :
      (hour : ℕ) (best c : Option ObservationCandidate)
      → (prefer id_less hour best c ≡ best) ⊎ (prefer id_less hour best c ≡ c)
  unfolding prefer
  prefer-mem hour best none = inl refl
  prefer-mem hour none (some c) = inr refl
  prefer-mem hour (some b) (some c) = ground arith

  NotBetter-refl : (hour : ℕ) (b : Option ObservationCandidate) → NotBetter hour b b
  NotBetter-refl hour none = tt
  NotBetter-refl hour (some b) = less_irrefl id_less text b hour

  mem_of_prefer :
      (hour : ℕ) (best c : Option ObservationCandidate) (cs : List (Option ObservationCandidate))
      (r : Option ObservationCandidate)
      → Memᴰ r (prefer id_less hour best c ∷ cs)
      → Memᴰ r (best ∷ c ∷ cs)
  mem_of_prefer hour best c cs r (Memᴰ.head e) = elim (prefer-mem hour best c) [
    | inl k ↦ Memᴰ.head (e ∙ k)
    | inr k ↦ Memᴰ.tail (Memᴰ.head (e ∙ k))
  ]
  mem_of_prefer hour best c cs r (Memᴰ.tail m) = Memᴰ.tail (Memᴰ.tail m)

  -- The rounds of the loop from `best` on.
  foldl-best :
      (hour : ℕ) (best : Option ObservationCandidate) (cs : List (Option ObservationCandidate))
      → let r = foldl (prefer id_less hour) best cs in
        Memᴰ r (best ∷ cs) × NotBetter hour r best × All (NotBetter hour r) cs
  foldl-best hour best [] = (Memᴰ.head refl, NotBetter-refl hour best, tt)
  foldl-best hour best (c ∷ cs) =
      let b = prefer id_less hour best c in
      let (here, up, rest) = foldl-best hour b cs in
      let (old, new) = prefer-NotBetter hour best c in
      let r = foldl (prefer id_less hour) b cs in
      (
        mem_of_prefer hour best c cs r here,
        NotBetter-trans hour r b best up old,
        (NotBetter-trans hour r b c up new, rest),
      )

  -- If the texts of ids are strictly ordered, the choice is one of the listed candidates and no listed
  -- candidate is preferred to it, and nothing is chosen only from a list of nils.
  pub select_candidate-best :
      (hour : ℕ) (cs : List (Option ObservationCandidate))
      → let r = select_candidate id_less hour cs in Memᴰ r (none ∷ cs) × All (NotBetter hour r) cs
  unfolding select_candidate
  select_candidate-best hour cs = let (m, _, all) = foldl-best hour none cs in (m, all)
