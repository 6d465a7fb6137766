-- ===== src/Match/Batch/Again.antt =====
-- A matching batch that is run again creates no pair (`MatchBatch`, internal/analysis/match.go).
use forecastiq.Prelude.{
  ℕ, zero, suc, ◌+◌, ◌-◌, ◌<◌, ◌≡◌, refl, inl, inr, Bool, true, none, List, [], ◌∷◌, if_elim,
  is_some, length, arith, Option-cases, sym, subst, ap, ◌∙◌,
}
use forecastiq.Observe.{Row}
use forecastiq.Match.Batch.{
  SnapshotToMatch, MatchedEvaluation, Progress, Faults, has_match, insert_matches, take, unmatched,
  all_unmatched, list_unmatched, last_id, chosen, pairs, match_loop, rematch, match_batch,
  match_window_back, publication_margin, rematch_pairs, rematch_batch_limit,
}
use forecastiq.Match.Batch.Table.{In, In-of_all_unmatched, In-of_take}
use forecastiq.Match.Batch.Covers.{IsKeyed, AllCovered}
use forecastiq.Match.Batch.Complete.{match_batch-covers}

module _ {F : Type 0} (id_less : ℕ → ℕ → Bool) (observations : List (Row F))
    (snapshots : List SnapshotToMatch) (from to : ℕ) where
  none-chosen :
      (ss : List SnapshotToMatch)
      → ((x : SnapshotToMatch) → In x ss → chosen id_less observations x ≡ none)
      → pairs id_less observations ss ≡ []
  unfolding pairs
  none-chosen [] h = refl
  none-chosen (s ∷ ss) h = ground (arith, h s (inl refl), none-chosen ss (λ x i. h x (inr i)))

  covered-pairs :
      (size after : ℕ) (m : List MatchedEvaluation)
      → AllCovered id_less observations snapshots from to m
      → pairs id_less observations (list_unmatched from to after size m snapshots) ≡ []
  unfolding list_unmatched unmatched
  covered-pairs size after m all = none-chosen _ (λ x i.
      let (j, u) =
        In-of_all_unmatched from to after m x snapshots
          (In-of_take x size (all_unmatched from to after m snapshots) i) in
      elim (Option-cases (chosen id_less observations x)) [
        | inl k ↦ k
        | inr (c, k) ↦
            let has : has_match x.id m ≡ true =
              all x j (ground (arith, u)) (ground (arith, u)) (ap is_some k) in
            absurd (ground (arith, u, has))
      ])

  match_loop-again :
      (faults : Faults) (size fuel round after created : ℕ) (m : List MatchedEvaluation)
      → AllCovered id_less observations snapshots from to m
      → let p =
          match_loop id_less observations faults snapshots from to size fuel round after created
            m in
        (p.matched ≡ m) × (p.created ≡ created)
  unfolding match_loop insert_matches
  match_loop-again faults size zero round after created m all = (refl, refl)
  match_loop-again faults size (suc fuel) round after created m all =
      let c : List SnapshotToMatch = list_unmatched from to after size m snapshots in
      let none_new : pairs id_less observations c ≡ [] = covered-pairs size after m all in
      let (p, q) =
        match_loop-again faults size fuel (suc round) (last_id after c) (created + 0) m all in
      (ground (arith, none_new, p, q), ground (arith, none_new, p, q))

quiet_rematch :
    {F : Type 0} (id_less : ℕ → ℕ → Bool) (observations : List (Row F)) (faults : Faults)
    (limit : ℕ) (t : List MatchedEvaluation) (p : Progress)
    → rematch_pairs observations t t ≡ []
    → p.matched ≡ t
    → let q = rematch id_less observations faults limit p in
      (q.matched ≡ t) × (q.created ≡ p.created)
unfolding rematch take
quiet_rematch id_less observations faults zero t p h k = ground (arith, k)
quiet_rematch id_less observations faults (suc limit) t p h k =
    let h' : rematch_pairs observations p.matched p.matched ≡ [] =
      subst (λ z. rematch_pairs observations z z ≡ []) (sym k) h in
    ground (arith, h', k)

quiet_batch :
    {F : Type 0} (id_less : ℕ → ℕ → Bool) (observations : List (Row F)) (faults : Faults)
    (size now : ℕ) (snapshots : List SnapshotToMatch) (t : List MatchedEvaluation)
    → rematch_pairs observations t t ≡ []
    → let p =
        match_loop id_less observations faults snapshots
          (now - match_window_back)
          (now - publication_margin)
          size
          (length snapshots + 1)
          0
          0
          0
          t in
      p.matched ≡ t
      → p.created ≡ 0
      → let again = match_batch id_less observations faults size now snapshots t in
        (again.matched ≡ t) × (again.created ≡ 0)
unfolding match_batch
quiet_batch id_less observations faults size now snapshots t none_left same zero_created =
    let p : Progress =
      match_loop id_less observations faults snapshots (now - match_window_back)
        (now - publication_margin) size (length snapshots + 1) 0 0 0 t in
    let (q, r) = quiet_rematch id_less observations faults rematch_batch_limit t p none_left same in
    if_elim (λ (z : Progress). (z.matched ≡ t) × (z.created ≡ 0)) (is_some p.failure) p _
      (λ _. (same, zero_created)) (λ _. (q, r ∙ zero_created))

-- After a matching batch that returned no error, under the conditions by which it covers its window, a batch
-- at the same instant creates no pair and leaves the table as it is, whatever fails and whatever its chunk
-- size, if no pair is left whose observation has been corrected by one that the snapshot has no pair with.
pub match_batch-again :
    {F : Type 0} (id_less : ℕ → ℕ → Bool) (observations : List (Row F)) (faults faults' : Faults)
    (size size' now : ℕ) (snapshots : List SnapshotToMatch) (matched : List MatchedEvaluation)
    → 0 < size
    → IsKeyed snapshots
    → ((x : SnapshotToMatch) → In x snapshots → 0 < x.id)
    → (match_batch id_less observations faults size now snapshots matched).failure ≡ none
    → let t = (match_batch id_less observations faults size now snapshots matched).matched in
      rematch_pairs observations t t ≡ []
      → let again = match_batch id_less observations faults' size' now snapshots t in
        (again.matched ≡ t) × (again.created ≡ 0)
match_batch-again id_less observations faults faults' size size' now snapshots matched pos keyed
      named e none_left =
    let t : List MatchedEvaluation =
      (match_batch id_less observations faults size now snapshots matched).matched in
    let loop =
      match_loop-again id_less observations snapshots (now - match_window_back)
        (now - publication_margin) faults' size' (length snapshots + 1) 0 0 0 t
        (match_batch-covers id_less observations faults size now snapshots matched pos keyed named
          e) in
    quiet_batch id_less observations faults' size' now snapshots t none_left loop.0 loop.1
