-- ===== src/Match/Batch/Table.antt =====
-- The queries of the matching batch: what a chunk holds, and what its pairs match
-- (adapters/persistence/analysispg/analysispg.go).
use forecastiq.Prelude.{
  ℕ, zero, suc, ◌≤◌, ◌<◌, ◌≡◌, refl, inl, inr, ◌⊎◌, Bool, true, ◌||◌, some, List, [], ◌∷◌, leb,
  length, All, arith, Bool-cases, Option-cases, sym, subst, ap,
}
use forecastiq.Observe.{Row}
use forecastiq.Match.{ObservationCandidate}
use forecastiq.Match.Batch.{
  SnapshotToMatch, MatchedEvaluation, new_pair, has_match, has_pair, insert_matches, insert_by_id,
  take, unmatched, all_unmatched, last_id, chosen, pairs,
}

abbrev pub In : SnapshotToMatch → List SnapshotToMatch → Type 0
In x [] = ⊥
In x (y ∷ ys) = (x ≡ y) ⊎ In x ys

has_pair-has_match :
    (id obs : ℕ) (t : List MatchedEvaluation) → has_pair id obs t ≡ true → has_match id t ≡ true
unfolding has_pair has_match
has_pair-has_match id obs [] h = cc
has_pair-has_match id obs (m ∷ ms) h = ground (arith, has_pair-has_match id obs ms)

pub has_match-insert :
    (id : ℕ) (new t : List MatchedEvaluation)
    → has_match id (insert_matches new t).0 ≡ (has_match id t || has_match id new)
unfolding has_match insert_matches
has_match-insert id [] t = ground arith
has_match-insert id (m ∷ ms) t = ground (
  arith,
  has_match-insert id ms t,
  has_match-insert id ms (m ∷ t),
  has_pair-has_match m.forecast_snapshot_id m.observation_id t,
)

abbrev pub Sorted : List SnapshotToMatch → Type 0
Sorted [] = Unit
Sorted (x ∷ xs) = All (λ y. x.id ≤ y.id) xs × Sorted xs

All-insert_by_id :
    (n : ℕ) (s : SnapshotToMatch) (xs : List SnapshotToMatch)
    → n ≤ s.id
    → All (λ y. n ≤ y.id) xs
    → All (λ y. n ≤ y.id) (insert_by_id s xs)
unfolding insert_by_id
All-insert_by_id n s [] h a = (h, tt)
All-insert_by_id n s (x ∷ xs) h (a, as') = ground (arith, All-insert_by_id n s xs h as')

All-weaken :
    (m n : ℕ) (xs : List SnapshotToMatch) → m ≤ n → All (λ y. n ≤ y.id) xs → All (λ y. m ≤ y.id) xs
All-weaken m n [] h a = tt
All-weaken m n (x ∷ xs) h (a, as') = (omega (arith, h, a), All-weaken m n xs h as')

insert_by_id-Sorted :
    (s : SnapshotToMatch) (xs : List SnapshotToMatch) → Sorted xs → Sorted (insert_by_id s xs)
unfolding insert_by_id
insert_by_id-Sorted s [] o = (tt, tt)
insert_by_id-Sorted s (x ∷ xs) (a, o) = elim (Bool-cases (leb s.id x.id)) [
  | inl h ↦ rw h ((ground arith, All-weaken s.id x.id xs (ground arith) a), (a, o))
  | inr h ↦ rw h (All-insert_by_id x.id s xs (ground arith) a, insert_by_id-Sorted s xs o)
]

pub In-insert_by_id :
    (x s : SnapshotToMatch) (xs : List SnapshotToMatch)
    → (x ≡ s) ⊎ In x xs
    → In x (insert_by_id s xs)
unfolding insert_by_id
In-insert_by_id x s [] h = h
In-insert_by_id x s (y ∷ ys) (inl e) = elim (Bool-cases (leb s.id y.id)) [
  | inl h ↦ rw h (inl e)
  | inr h ↦ rw h (inr (In-insert_by_id x s ys (inl e)))
]
In-insert_by_id x s (y ∷ ys) (inr (inl e)) = elim (Bool-cases (leb s.id y.id)) [
  | inl h ↦ rw h (inr (inl e))
  | inr h ↦ rw h (inl e)
]
In-insert_by_id x s (y ∷ ys) (inr (inr i)) = elim (Bool-cases (leb s.id y.id)) [
  | inl h ↦ rw h (inr (inr i))
  | inr h ↦ rw h (inr (In-insert_by_id x s ys (inr i)))
]

In-of_insert_by_id :
    (x s : SnapshotToMatch) (xs : List SnapshotToMatch)
    → In x (insert_by_id s xs)
    → (x ≡ s) ⊎ In x xs
unfolding insert_by_id
In-of_insert_by_id x s [] i = i
In-of_insert_by_id x s (y ∷ ys) i = elim (Bool-cases (leb s.id y.id)) [
  | inl h ↦ rw h at i
  | inr h ↦ elim (rw h at i) [
    | inl e ↦ inr (inl e)
    | inr j ↦ elim (In-of_insert_by_id x s ys j) [ inl e ↦ inl e | inr k ↦ inr (inr k) ]
  ]
]

module _ (from to after : ℕ) (matched : List MatchedEvaluation) where
  pub all_unmatched-Sorted :
      (ss : List SnapshotToMatch) → Sorted (all_unmatched from to after matched ss)
  unfolding all_unmatched
  all_unmatched-Sorted [] = tt
  all_unmatched-Sorted (s ∷ ss) = elim (Bool-cases (unmatched from to after matched s)) [
    | inl h ↦ rw h (insert_by_id-Sorted s _ (all_unmatched-Sorted ss))
    | inr h ↦ rw h (all_unmatched-Sorted ss)
  ]

  pub In-all_unmatched :
      (x : SnapshotToMatch) (ss : List SnapshotToMatch)
      → In x ss
      → unmatched from to after matched x ≡ true
      → In x (all_unmatched from to after matched ss)
  unfolding all_unmatched
  In-all_unmatched x (s ∷ ss) (inl e) u =
      let h : unmatched from to after matched s ≡ true =
        subst (λ z. unmatched from to after matched z ≡ true) e u in
      rw h (In-insert_by_id x s _ (inl e))
  In-all_unmatched x (s ∷ ss) (inr i) u = elim (Bool-cases (unmatched from to after matched s)) [
    | inl h ↦ rw h (In-insert_by_id x s _ (inr (In-all_unmatched x ss i u)))
    | inr h ↦ rw h (In-all_unmatched x ss i u)
  ]
  In-all_unmatched x [] i u = elim i [ ]

  pub In-of_all_unmatched :
      (x : SnapshotToMatch) (ss : List SnapshotToMatch)
      → In x (all_unmatched from to after matched ss)
      → In x ss × (unmatched from to after matched x ≡ true)
  unfolding all_unmatched
  In-of_all_unmatched x [] i = elim i [ ]
  In-of_all_unmatched x (s ∷ ss) i = elim (Bool-cases (unmatched from to after matched s)) [
    | inl h ↦ elim (In-of_insert_by_id x s _ (rw h at i)) [
      | inl e ↦ (inl e, subst (λ z. unmatched from to after matched z ≡ true) (sym e) h)
      | inr j ↦ let (k, u) = In-of_all_unmatched x ss j in (inr k, u)
    ]
    | inr h ↦ let (k, u) = In-of_all_unmatched x ss (rw h at i) in (inr k, u)
  ]

  pub all_unmatched-after :
      (ss : List SnapshotToMatch) → All (λ y. after ≤ y.id) (all_unmatched from to after matched ss)
  unfolding all_unmatched
  all_unmatched-after [] = tt
  all_unmatched-after (s ∷ ss) = elim (Bool-cases (unmatched from to after matched s)) [
    | inl h ↦ rw h (
        All-insert_by_id after s _ (unfold unmatched in (ground (arith, h)))
          (all_unmatched-after ss))
    | inr h ↦ rw h (all_unmatched-after ss)
  ]

pub take-all : (k : ℕ) (l : List SnapshotToMatch) → length (take k l) < k → take k l ≡ l
unfolding take
take-all zero l h = absurd (omega arith)
take-all (suc k) [] h = refl
take-all (suc k) (x ∷ xs) h = ap (λ t. x ∷ t) (take-all k xs (omega (arith, h)))

pub In-take :
    (x : SnapshotToMatch) (k a : ℕ) (l : List SnapshotToMatch)
    → All (λ y. a ≤ y.id) l
    → Sorted l
    → In x l
    → In x (take k l) ⊎ (last_id a (take k l) ≤ x.id)
unfolding take last_id
In-take x k a [] h o i = elim i [ ]
In-take x zero a (y ∷ ys) (h, hs) o (inl e) = inr (subst (λ z. a ≤ z.id) (sym e) h)
In-take x zero a (y ∷ ys) (h, hs) (p, o) (inr i) = elim (In-take x zero a ys hs o i) [
  | inl j ↦ elim j [ ]
  | inr le ↦ inr le
]
In-take x (suc k) a (y ∷ ys) h o (inl e) = inl (inl e)
In-take x (suc k) a (y ∷ ys) (h, hs) (p, o) (inr i) = elim (In-take x k y.id ys p o i) [
  | inl j ↦ inl (inr j)
  | inr le ↦ inr le
]

pub In-of_take : (x : SnapshotToMatch) (k : ℕ) (l : List SnapshotToMatch) → In x (take k l) → In x l
unfolding take
In-of_take x zero l i = elim i [ ]
In-of_take x (suc k) [] i = elim i [ ]
In-of_take x (suc k) (y ∷ ys) (inl e) = inl e
In-of_take x (suc k) (y ∷ ys) (inr i) = inr (In-of_take x k ys i)

-- The last snapshot of a chunk that is not empty.
pub last_id-In :
    (a : ℕ) (y : SnapshotToMatch) (ys : List SnapshotToMatch)
    → (z : SnapshotToMatch) × In z (y ∷ ys) × (last_id a (y ∷ ys) ≡ z.id)
unfolding last_id
last_id-In a y [] = (y, inl refl, refl)
last_id-In a y (x ∷ xs) = let (z, i, e) = last_id-In y.id x xs in (z, inr i, e)

module _ {F : Type 0} (id_less : ℕ → ℕ → Bool) (observations : List (Row F)) where
  pub pairs-has_match :
      (x : SnapshotToMatch) (c : ObservationCandidate) (ss : List SnapshotToMatch)
      → chosen id_less observations x ≡ some c
      → In x ss
      → has_match x.id (pairs id_less observations ss) ≡ true
  unfolding pairs has_match new_pair
  pairs-has_match x c [] e i = elim i [ ]
  pairs-has_match x c (s ∷ ss) e (inl same) =
      let e' : chosen id_less observations s ≡ some c =
        subst (λ z. chosen id_less observations z ≡ some c) same e in
      ground (arith, e', ap (λ (z : SnapshotToMatch). z.id) same)
  pairs-has_match x c (s ∷ ss) e (inr i) = elim (Option-cases (chosen id_less observations s)) [
    | inl k ↦ ground (arith, k, pairs-has_match x c ss e i)
    | inr (d, k) ↦ ground (arith, k, pairs-has_match x c ss e i)
  ]
