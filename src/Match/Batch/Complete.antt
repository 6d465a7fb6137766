-- ===== src/Match/Batch/Complete.antt =====
-- A whole matching batch: what it has matched when it returns no error, and that it returns none without
-- a fault of the database (`MatchBatch`, internal/analysis/match.go).
use forecastiq.Prelude.{
  ℕ, zero, suc, ◌+◌, ◌-◌, ◌≤◌, ◌<◌, ◌≡◌, refl, inl, inr, Bool, true, false, none, List, [], ◌∷◌,
  ltb, if◌then◌else◌, is_some, length, arith, Option-cases, sym, subst, ap,
}
use forecastiq.Observe.{Row}
use forecastiq.Match.Batch.{
  SnapshotToMatch, MatchedEvaluation, Progress, Faults, has_match, insert_matches, take, unmatched,
  all_unmatched, list_unmatched, last_id, pairs, is_empty, match_loop, rematch, match_batch,
  match_window_back, publication_margin, rematch_pairs, rematch_batch_limit,
}
use forecastiq.Match.Batch.Table.{In, has_match-insert, In-of_all_unmatched, In-of_take, last_id-In}
use forecastiq.Match.Batch.Covers.{IsKeyed, AllCovered, match_loop-AllCovered}

module _ {F : Type 0} (id_less : ℕ → ℕ → Bool) (observations : List (Row F)) where
  rematch-has_match :
      (faults : Faults) (limit id : ℕ) (p : Progress)
      → has_match id p.matched ≡ true
      → has_match id (rematch id_less observations faults limit p).matched ≡ true
  unfolding rematch
  rematch-has_match faults limit id p h = ground (
    arith,
    h,
    has_match-insert id (take limit (rematch_pairs observations p.matched p.matched)) p.matched,
  )

  -- If a matching batch returns no error, then every snapshot of its window, from 30 days to 2 hours before
  -- `now`, for whose hour and location there is a usable observation is matched, however many chunks it takes:
  -- for chunks of at least one snapshot, and snapshots with ids of their own that are not nil.
  pub match_batch-covers :
      (faults : Faults) (size now : ℕ) (snapshots : List SnapshotToMatch)
      (matched : List MatchedEvaluation)
      → 0 < size
      → IsKeyed snapshots
      → ((x : SnapshotToMatch) → In x snapshots → 0 < x.id)
      → (match_batch id_less observations faults size now snapshots matched).failure ≡ none
      → AllCovered id_less observations snapshots
          (now - match_window_back)
          (now - publication_margin)
          (match_batch id_less observations faults size now snapshots matched).matched
  unfolding match_batch
  match_batch-covers faults size now snapshots matched pos keyed named =
      batch
        (match_loop id_less observations faults snapshots (now - match_window_back)
          (now - publication_margin) size (length snapshots + 1) 0 0 0 matched)
        (match_loop-AllCovered id_less observations snapshots (now - match_window_back)
          (now - publication_margin) faults size keyed (length snapshots + 1) 0 0 0 matched pos
          (λ x i a b l c. absurd (omega (arith, l, named x i))))
    where
      batch :
          (p : Progress)
          → (p.failure ≡ none
              → AllCovered id_less observations snapshots
                  (now - match_window_back)
                  (now - publication_margin)
                  p.matched)
          → (if is_some p.failure
              then p
              else rematch id_less observations faults rematch_batch_limit p).failure
            ≡ none
          → AllCovered id_less observations snapshots
              (now - match_window_back)
              (now - publication_margin)
              (if is_some p.failure
                then p
                else rematch id_less observations faults rematch_batch_limit p).matched
      batch p done e x i a b c = elim (Option-cases p.failure) [
        | inl k ↦
            subst
              (λ b'.
                has_match x.id
                  (if b'
                    then p
                    else rematch id_less observations faults rematch_batch_limit p).matched
                ≡ true)
              (sym (ap is_some k))
              (rematch-has_match faults rematch_batch_limit x.id p (done k x i a b c))
        | inr (err, k) ↦ absurd (ground (arith, k, e))
      ]

-- The snapshots above an id.
abbrev above : ℕ → List SnapshotToMatch → ℕ
above after [] = 0
above after (s ∷ ss) = (if ltb after s.id then 1 else 0) + above after ss

above-le_length : (after : ℕ) (ss : List SnapshotToMatch) → above after ss ≤ length ss
above-le_length after [] = omega arith
above-le_length after (s ∷ ss) = ground (arith, above-le_length after ss)

above-anti : (a b : ℕ) (ss : List SnapshotToMatch) → a ≤ b → above b ss ≤ above a ss
above-anti a b [] h = omega arith
above-anti a b (s ∷ ss) h = ground (arith, above-anti a b ss h)

above-lt :
    (a : ℕ) (z : SnapshotToMatch) (ss : List SnapshotToMatch)
    → In z ss
    → a < z.id
    → above z.id ss < above a ss
above-lt a z [] i h = elim i [ ]
above-lt a z (s ∷ ss) (inl e) h =
    ground (arith, ap (λ (x : SnapshotToMatch). x.id) e, above-anti a z.id ss)
above-lt a z (s ∷ ss) (inr i) h = ground (arith, above-lt a z ss i h)

-- No query fails.
pub record IsFaultless (faults : Faults) : Type 0 where
  pub lists : (n : ℕ) → faults.lists n ≡ true
  pub finds : (n : ℕ) → faults.finds n ≡ true
  pub inserts : (n : ℕ) → faults.inserts n ≡ true
  pub lists_targets : faults.lists_targets ≡ true
  pub inserts_targets : faults.inserts_targets ≡ true

module _ {F : Type 0} (id_less : ℕ → ℕ → Bool) (observations : List (Row F))
    (snapshots : List SnapshotToMatch) (faults : Faults) (fine : IsFaultless faults)
    (from to size : ℕ) where
  chunk_grows :
      (after : ℕ) (m : List MatchedEvaluation) (l : List SnapshotToMatch)
      → list_unmatched from to after size m snapshots ≡ l
      → is_empty l ≡ false
      → above (last_id after l) snapshots < above after snapshots
  unfolding list_unmatched unmatched
  chunk_grows after m [] e h = cc
  chunk_grows after m (y ∷ ys) e h =
      let (z, i, same) = last_id-In after y ys in
      let (j, u) =
        In-of_all_unmatched from to after m z snapshots
          (In-of_take z size (all_unmatched from to after m snapshots) (subst (In z) (sym e) i)) in
      rw same (above-lt after z snapshots j (ground (arith, u)))

  match_loop-returns :
      (fuel round after created : ℕ) (m : List MatchedEvaluation)
      → above after snapshots < fuel
      → (match_loop id_less observations faults snapshots from to size fuel round after created
          m).failure
        ≡ none
  unfolding match_loop
  match_loop-returns zero round after created m h = absurd (omega (arith, h))
  match_loop-returns (suc fuel) round after created m h =
      let c : List SnapshotToMatch = list_unmatched from to after size m snapshots in
      ground (
        arith,
        fine.lists round,
        fine.finds round,
        fine.inserts round,
        chunk_grows after m c refl,
        match_loop-returns fuel (suc round) (last_id after c)
            (created + (insert_matches (pairs id_less observations c) m).1)
            (insert_matches (pairs id_less observations c) m).0,
      )

-- If no query fails, a matching batch returns no error, whatever the table holds and whatever its chunk size:
-- a round for each snapshot and one more are enough.
pub match_batch-returns :
    {F : Type 0} (id_less : ℕ → ℕ → Bool) (observations : List (Row F)) (faults : Faults)
    (size now : ℕ) (snapshots : List SnapshotToMatch) (matched : List MatchedEvaluation)
    → IsFaultless faults
    → (match_batch id_less observations faults size now snapshots matched).failure ≡ none
unfolding match_batch rematch
match_batch-returns id_less observations faults size now snapshots matched fine = ground (
  arith,
  fine.lists_targets,
  fine.inserts_targets,
  match_loop-returns id_less observations snapshots faults fine (now - match_window_back)
      (now - publication_margin) size (length snapshots + 1) 0 0 0 matched,
  above-le_length 0 snapshots,
)
