-- ===== src/Match/Batch/Covers.antt =====
-- A matching batch that returns no error has matched every snapshot of its window that has an
-- observation, and it always returns (internal/analysis/match.go).
use forecastiq.Prelude.{
  ℕ, zero, suc, ◌≤◌, ◌<◌, ◌≡◌, refl, inl, inr, ◌⊎◌, Bool, true, not, ◌&&◌, none, List, [], ◌∷◌, ltb,
  leb, if_elim, is_some, length, arith, Bool-cases, Option-cases, sym, subst, ap, ◌∙◌,
}
use forecastiq.Observe.{Row}
use forecastiq.Match.Batch.{
  SnapshotToMatch, MatchedEvaluation, Progress, Faults, has_match, insert_matches, unmatched,
  all_unmatched, list_unmatched, last_id, chosen, pairs, is_empty, match_loop,
}
use forecastiq.Match.Batch.Table.{
  In, has_match-insert, all_unmatched-Sorted, all_unmatched-after, In-all_unmatched,
  In-of_all_unmatched, take-all, In-take, In-of_take, last_id-In, pairs-has_match,
}

-- The id is the primary key of the snapshots.
abbrev pub IsKeyed : List SnapshotToMatch → Type 0
IsKeyed ss = (x y : SnapshotToMatch) → In x ss → In y ss → x.id ≡ y.id → x ≡ y

module _ {F : Type 0} (id_less : ℕ → ℕ → Bool) (observations : List (Row F))
    (snapshots : List SnapshotToMatch) (from to : ℕ) where
  -- Every snapshot of the window that has an observation, up to an id, is matched.
  abbrev pub Covered : ℕ → List MatchedEvaluation → Type 0
  Covered bound m =
      (x : SnapshotToMatch)
      → In x snapshots
      → from ≤ x.target_time
      → x.target_time < to
      → x.id ≤ bound
      → is_some (chosen id_less observations x) ≡ true
      → has_match x.id m ≡ true

  abbrev pub AllCovered : List MatchedEvaluation → Type 0
  AllCovered m =
      (x : SnapshotToMatch)
      → In x snapshots
      → from ≤ x.target_time
      → x.target_time < to
      → is_some (chosen id_less observations x) ≡ true
      → has_match x.id m ≡ true

  module _ (size after : ℕ) (m : List MatchedEvaluation) where
    abbrev pub chunk : List SnapshotToMatch
    chunk = list_unmatched from to after size m snapshots

    abbrev pub stored : List MatchedEvaluation
    stored = (insert_matches (pairs id_less observations chunk) m).0

    -- A snapshot that was matched, or that the chunk holds, is matched by the round.
    round-matched :
        (x : SnapshotToMatch)
        → (has_match x.id m ≡ true) ⊎ In x chunk
        → is_some (chosen id_less observations x) ≡ true
        → has_match x.id stored ≡ true
    round-matched x h c = elim (Option-cases (chosen id_less observations x)) [
      | inl k ↦ absurd (ground (arith, k, c))
      | inr (d, k) ↦ elim h [
        | inl old ↦ ground (arith, old, has_match-insert x.id (pairs id_less observations chunk) m)
        | inr i ↦ ground (
          arith,
          has_match-insert x.id (pairs id_less observations chunk) m,
          pairs-has_match id_less observations x d chunk k i,
        )
      ]
    ]

    -- A snapshot above the last id was matched, or is one of the unmatched.
    listed :
        (x : SnapshotToMatch)
        → In x snapshots
        → from ≤ x.target_time
        → x.target_time < to
        → after < x.id
        → (has_match x.id m ≡ true) ⊎ In x (all_unmatched from to after m snapshots)
    listed x i a b l = elim (Bool-cases (has_match x.id m)) [
      | inl old ↦ inl old
      | inr new ↦ inr (
          In-all_unmatched from to after m x snapshots i
            (unfold unmatched in (ground (arith, a, b, l, new))))
    ]

    at_last-In :
        (x : SnapshotToMatch) (l : List SnapshotToMatch)
        → IsKeyed snapshots
        → ((z : SnapshotToMatch) → In z l → In z snapshots)
        → In x snapshots
        → after < x.id
        → last_id after l ≡ x.id
        → In x l
    at_last-In x [] keyed sub i gt e = absurd (unfold last_id in (omega (arith, gt, e)))
    at_last-In x (y ∷ ys) keyed sub i gt e =
        let (z, j, e') = last_id-In after y ys in
        subst (λ w. In w (y ∷ ys)) (keyed z x (sub z j) i (sym e' ∙ e)) j

    pub chunk-sub : (z : SnapshotToMatch) → In z chunk → In z snapshots
    unfolding list_unmatched
    chunk-sub z j =
        (In-of_all_unmatched from to after m z snapshots
          (In-of_take z size (all_unmatched from to after m snapshots) j)).0

    round-Covered : IsKeyed snapshots → Covered after m → Covered (last_id after chunk) stored
    unfolding list_unmatched
    round-Covered keyed done x i a b l c = elim (Bool-cases (leb x.id after)) [
      | inl le ↦ round-matched x (inl (done x i a b (ground arith) c)) c
      | inr gt ↦ elim (listed x i a b (ground arith)) [
        | inl old ↦ round-matched x (inl old) c
        | inr u ↦
            round-matched x
              (elim (In-take x size after (all_unmatched from to after m snapshots)
                (all_unmatched-after from to after m snapshots)
                (all_unmatched-Sorted from to after m snapshots) u) [
                  | inl here ↦ inr here
                  | inr le ↦
                      inr (at_last-In x chunk keyed chunk-sub i (ground arith) (ground arith))
                ])
              c
      ]
    ]

    last_round-AllCovered : Covered after m → length chunk < size → AllCovered stored
    unfolding list_unmatched
    last_round-AllCovered done short x i a b c = elim (Bool-cases (leb x.id after)) [
      | inl le ↦ round-matched x (inl (done x i a b (ground arith) c)) c
      | inr gt ↦ elim (listed x i a b (ground arith)) [
        | inl old ↦ round-matched x (inl old) c
        | inr u ↦
            round-matched x
              (inr (
                subst (In x) (sym (take-all size (all_unmatched from to after m snapshots) short))
                  u))
              c
      ]
    ]

    nil_of_is_empty : (l : List SnapshotToMatch) → is_empty l ≡ true → l ≡ []
    nil_of_is_empty [] h = refl
    nil_of_is_empty (x ∷ xs) h = cc

    empty_round-AllCovered : Covered after m → 0 < size → is_empty chunk ≡ true → AllCovered m
    unfolding pairs insert_matches
    empty_round-AllCovered done pos empty =
        let e : chunk ≡ [] = nil_of_is_empty chunk empty in
        let short : length chunk < size = subst (λ l. length l < size) (sym e) pos in
        subst AllCovered (ap (λ l. (insert_matches (pairs id_less observations l) m).0) e)
          (last_round-AllCovered done short)

  module _ (faults : Faults) (size : ℕ) (keyed : IsKeyed snapshots) where
    -- What the loop has done if it returns no error.
    abbrev pub Done : Progress → Type 0
    Done p = p.failure ≡ none → AllCovered p.matched

    pub match_loop-AllCovered :
        (fuel round after created : ℕ) (m : List MatchedEvaluation)
        → 0 < size
        → Covered after m
        → Done (
            match_loop id_less observations faults snapshots from to size fuel round after created
              m)
    unfolding match_loop
    match_loop-AllCovered zero round after created m pos done = λ e. absurd (ground (arith, e))
    match_loop-AllCovered (suc fuel) round after created m pos done =
        if_elim Done (not (faults.lists round)) _ _ (λ _ e. absurd (ground (arith, e)))
          (λ _.
            if_elim Done (is_empty (chunk size after m)) _ _
              (λ empty e. empty_round-AllCovered size after m done pos empty)
              (λ _.
                if_elim Done (not (faults.finds round)) _ _ (λ _ e. absurd (ground (arith, e)))
                  (λ _.
                    if_elim Done
                      (not (is_empty (pairs id_less observations (chunk size after m)))
                        && not (faults.inserts round))
                      _ _ (λ _ e. absurd (ground (arith, e)))
                      (λ _.
                        if_elim Done (ltb (length (chunk size after m)) size) _ _
                          (λ short e.
                            last_round-AllCovered size after m done (ground (arith, short)))
                          (λ _.
                            match_loop-AllCovered fuel (suc round)
                              (last_id after (chunk size after m)) _ (stored size after m) pos
                              (round-Covered size after m keyed done))))))
