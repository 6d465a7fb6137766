-- ===== src/Ranking/Order/Groups.antt =====
-- What `RankOrder` promises of its groups (internal/analysis/domain/ranking.go).
use forecastiq.Prelude.{
  ◌≡◌, true, false, List, [], ◌∷◌, ◌++◌, All, All-append, ◌⊎◌, refl, sym, ap, ◌∙◌, subst,
  Bool-cases, inl, inr,
}
use mathlib.Core.List.{Permᴰ, append_assoc}
use mathlib.Core.List.Permᴰ
use forecastiq.Float.{Float, IsLinear, ◌≺◌, ◌≼◌, ≼-trans, lt-≼}
use forecastiq.Ranking.{ProviderRanking}
use forecastiq.Ranking.Order.{
  Entry, ci_overlap, scored, insert_desc, sort_desc, group_from, groups_of, rank_groups,
}

module _ {F : Type 0} ⦃f : Float F⦄ where
  abbrev pub concat : List (List (Entry F)) → List (Entry F)
  concat [] = []
  concat (g ∷ gs) = g ++ concat gs

  -- No later entry has a higher score.
  abbrev pub IsDescending : List (Entry F) → Type 0
  IsDescending [] = Unit {0}
  IsDescending (e ∷ es) = All (λ x. x.score ≼ e.score) es × IsDescending es

  abbrev pub IsTied : Entry F → List (Entry F) → Type 0
  IsTied lead = All (λ e. ci_overlap lead.row e.row ≡ true)

  -- A first group that starts with `lead`, whose other members overlap `lead`, and the other groups
  -- the same way from the next leader on, which does not overlap `lead`.
  pub data Groups : Entry F → List (List (Entry F)) → Type 0 where
    last : {lead : Entry F} (xs : List (Entry F)) → IsTied lead xs → Groups lead ((lead ∷ xs) ∷ [])
    more :
        {lead next : Entry F} {gs : List (List (Entry F))} (xs : List (Entry F))
        → IsTied lead xs
        → ci_overlap lead.row next.row ≡ false
        → Groups next gs
        → Groups lead ((lead ∷ xs) ∷ gs)

  insert_desc-permᴰ : (e : Entry F) (es : List (Entry F)) → Permᴰ (insert_desc e es) (e ∷ es)
  unfolding insert_desc
  insert_desc-permᴰ e [] = Permᴰ.refl (e ∷ [])
  insert_desc-permᴰ e (x ∷ xs) = elim (Bool-cases (e.score ≺ x.score)) [
    | inl h ↦
        rw (insert_desc, h)
          (Permᴰ.trans (Permᴰ.cons refl (insert_desc-permᴰ e xs)) (Permᴰ.swap refl refl))
    | inr h ↦ rw (insert_desc, h) (Permᴰ.refl (e ∷ x ∷ xs))
  ]

  pub sort_desc-permᴰ : (es : List (Entry F)) → Permᴰ (sort_desc es) es
  unfolding sort_desc
  sort_desc-permᴰ [] = Permᴰ.nil
  sort_desc-permᴰ (e ∷ es) =
      Permᴰ.trans (insert_desc-permᴰ e (sort_desc es)) (Permᴰ.cons refl (sort_desc-permᴰ es))

  concat-group_from :
      (lead : Entry F) (members es : List (Entry F))
      → concat (group_from lead members es) ≡ (members ++ es)
  unfolding group_from
  concat-group_from lead members [] = refl
  concat-group_from lead members (e ∷ es) = elim (Bool-cases (ci_overlap lead.row e.row)) [
    | inl h ↦
        rw (group_from, h)
          (concat-group_from lead (members ++ (e ∷ [])) es ∙ append_assoc members (e ∷ []) es)
    | inr h ↦ rw (group_from, h) (ap (λ t. members ++ t) (concat-group_from e (e ∷ []) es))
  ]

  pub concat-groups_of : (es : List (Entry F)) → concat (groups_of es) ≡ es
  unfolding groups_of
  concat-groups_of [] = refl
  concat-groups_of (e ∷ es) = concat-group_from e (e ∷ []) es

  group_from-Groups :
      (lead : Entry F) (tied es : List (Entry F))
      → IsTied lead tied
      → Groups lead (group_from lead (lead ∷ tied) es)
  unfolding group_from
  group_from-Groups lead tied [] h = last tied h
  group_from-Groups lead tied (e ∷ es) h = elim (Bool-cases (ci_overlap lead.row e.row)) [
    | inl o ↦
        rw (group_from, o)
          (group_from-Groups lead (tied ++ (e ∷ [])) es (All-append _ tied (e ∷ []) h (o, tt)))
    | inr o ↦ rw (group_from, o) (more tied h o (group_from-Groups e [] es tt))
  ]

  module _ (linear : IsLinear F) where
    All-insert_desc :
        (u : F) (e : Entry F) (es : List (Entry F))
        → e.score ≼ u
        → All (λ x. x.score ≼ u) es
        → All (λ x. x.score ≼ u) (insert_desc e es)
    unfolding insert_desc
    All-insert_desc u e [] p ps = (p, tt)
    All-insert_desc u e (x ∷ xs) p (q, qs) = elim (Bool-cases (e.score ≺ x.score)) [
      | inl h ↦ rw (insert_desc, h) (q, All-insert_desc u e xs p qs)
      | inr h ↦ rw (insert_desc, h) (p, (q, qs))
    ]

    All-≼ :
        (u v : F) (es : List (Entry F))
        → v ≼ u
        → All (λ x. x.score ≼ v) es
        → All (λ x. x.score ≼ u) es
    All-≼ u v [] h _ = tt
    All-≼ u v (x ∷ xs) h (q, qs) = (≼-trans linear x.score v u q h, All-≼ u v xs h qs)

    insert_desc-IsDescending :
        (e : Entry F) (es : List (Entry F)) → IsDescending es → IsDescending (insert_desc e es)
    unfolding insert_desc
    insert_desc-IsDescending e [] _ = (tt, tt)
    insert_desc-IsDescending e (x ∷ xs) (q, qs) = elim (Bool-cases (e.score ≺ x.score)) [
      | inl h ↦
          rw (insert_desc, h)
            (
              All-insert_desc x.score e xs (lt-≼ linear e.score x.score h) q,
              insert_desc-IsDescending e xs qs,
            )
      | inr h ↦ rw (insert_desc, h) ((h, All-≼ e.score x.score xs h q), (q, qs))
    ]

    sort_desc-IsDescending : (es : List (Entry F)) → IsDescending (sort_desc es)
    unfolding sort_desc
    sort_desc-IsDescending [] = tt
    sort_desc-IsDescending (e ∷ es) =
        insert_desc-IsDescending e (sort_desc es) (sort_desc-IsDescending es)

    -- For a linear order of the scores: the groups, one after the other, hold the rows that have a score, each
    -- once, by descending score.
    pub rank_groups-IsDescending :
        (rankings : List (ProviderRanking F))
        → Permᴰ (concat (rank_groups rankings)) (scored 0 rankings)
          × IsDescending (concat (rank_groups rankings))
    unfolding rank_groups
    rank_groups-IsDescending rankings = (
      subst (λ l. Permᴰ l es) (sym (concat-groups_of (sort_desc es))) (sort_desc-permᴰ es),
      subst IsDescending (sym (concat-groups_of (sort_desc es))) (sort_desc-IsDescending es),
    )
      where
        es : List (Entry F)
        es = scored 0 rankings

  -- Either no row has a score and there is no group, or the members of each group overlap its
  -- first, and the first of each later group does not overlap the first of the group before it.
  pub rank_groups-Groups :
      (rankings : List (ProviderRanking F))
      → (rank_groups rankings ≡ []) ⊎ ((lead : Entry F) × Groups lead (rank_groups rankings))
  unfolding rank_groups groups_of
  rank_groups-Groups rankings = go (sort_desc (scored 0 rankings))
    where
      go :
          (es : List (Entry F))
          → (groups_of es ≡ []) ⊎ ((lead : Entry F) × Groups lead (groups_of es))
      go [] = inl refl
      go (e ∷ es) = inr (e, group_from-Groups e [] es tt)
