-- ===== src/Publish/Live.antt =====
-- After a publication the new rows are the only live rows of their keys, and the other keys keep theirs
-- (adapters/persistence/analysispg/metricspg.go and rankingpg.go).
use forecastiq.Prelude.{
  ℕ, ◌≡◌, refl, inl, inr, Bool, true, false, Option, none, some, List, [], ◌∷◌, ◌==◌, if◌then◌else◌,
  arith, Bool-cases, Option-cases, sym, subst, ap, ◌∙◌,
}
use forecastiq.Publish.{
  Version, Faults, fresh, published, has_id, insert_versions, supersede_previous, supersede_each,
  publish, live, at_key,
}

-- Two publications, one after the other, that have no key in common.
pub published-published :
    {V : Type 0} (first second both : Option (Version V)) (old between last : List (Version V))
    → between ≡ published first old
    → last ≡ published second between
    → both ≡ elim first [ none ↦ second | some v ↦ some v ]
    → ((v : Version V) → first ≡ some v → second ≡ none)
    → last ≡ published both old
published-published none second both old between last a b joined apart = cc
published-published {V = V} (some v) second both old between last a b joined apart =
    let unused : second ≡ none = apart v refl in
    b
    ∙ (ap (λ (o : Option (Version V)). published o between) unused
        ∙ (a ∙ ap (λ (o : Option (Version V)). published o old) (sym joined)))

-- The rows with the id.
unfoldable pub keep_id : {V : Type 0} → ℕ → List (Version V) → List (Version V)
keep_id id [] = []
keep_id id (r ∷ rs) = let rest = keep_id id rs in if r.id == id then r ∷ rest else rest

keep_id-twice :
    {V : Type 0} (id : ℕ) (t : List (Version V)) → keep_id id (keep_id id t) ≡ keep_id id t
unfolding keep_id
keep_id-twice id [] = refl
keep_id-twice id (r ∷ rs) = ground (arith, keep_id-twice id rs)

module _ {K V : Type 0} (same_key : K → K → Bool) (key_of : V → K) where
  -- No two rows of the list have one key.
  abbrev pub IsKeyed : List (Version V) → Type 0
  IsKeyed [] = Unit {0}
  IsKeyed (r ∷ rs) = (at_key same_key key_of (key_of r.value) rs ≡ none) × IsKeyed rs

module _ {K V : Type 0} (same_key : K → K → Bool) (key_of : V → K)
    (sound : (a b : K) → same_key a b ≡ true → a ≡ b) where
  keep_id-live-has_id :
      (id : ℕ) (k : K) (t : List (Version V))
      → has_id id t ≡ false
      → keep_id id (live same_key key_of k t) ≡ []
  unfolding keep_id live has_id
  keep_id-live-has_id id k [] h = refl
  keep_id-live-has_id id k (r ∷ rs) h =
      ground (arith, h, keep_id-live-has_id id k rs (ground (arith, h)))

  same_key-same : (k a b : K) → same_key k a ≡ true → same_key a b ≡ same_key k b
  same_key-same k a b h = ap (λ (x : K). same_key x b) (sym (sound k a h))

  same_key-other : (k a b : K) → same_key k a ≡ false → same_key a b ≡ true → same_key k b ≡ false
  same_key-other k a b h q = ap (same_key k) (sym (sound a b q)) ∙ h

  live-supersede_previous :
      (k : K) (new : Version V) (t : List (Version V))
      → live same_key key_of k (supersede_previous same_key key_of new t) ≡ (
          if same_key k (key_of new.value)
          then keep_id new.id (live same_key key_of k t)
          else live same_key key_of k t)
  unfolding live supersede_previous keep_id
  live-supersede_previous k new [] = ground arith
  live-supersede_previous k new (r ∷ rs) =
      let ih = live-supersede_previous k new rs in
      elim (Bool-cases (same_key k (key_of new.value))) [
        | inl a ↦ ground (arith, ih, a, same_key-same k (key_of new.value) (key_of r.value) a)
        | inr a ↦ elim (Bool-cases (same_key (key_of new.value) (key_of r.value))) [
          | inl c ↦
              ground (arith, ih, a, c, same_key-other k (key_of new.value) (key_of r.value) a c)
          | inr c ↦ ground (arith, ih, a, c)
        ]
      ]

  live-supersede_each :
      (k : K) (news t : List (Version V))
      → IsKeyed same_key key_of news
      → live same_key key_of k (supersede_each same_key key_of news t)
        ≡ elim (at_key same_key key_of k news) [
          | none ↦ live same_key key_of k t
          | some new ↦ keep_id new.id (live same_key key_of k t)
        ]
  unfolding supersede_each at_key
  live-supersede_each k [] t keyed = refl
  live-supersede_each k (r ∷ rs) t (first, keyed) =
      let ih = live-supersede_each k rs (supersede_previous same_key key_of r t) keyed in
      let one = live-supersede_previous k r t in
      elim (Bool-cases (same_key k (key_of r.value))) [
        | inl a ↦ ground (
          arith,
          ih,
          one,
          a,
          ap (λ (x : K). at_key same_key key_of x rs) (sound k (key_of r.value) a) ∙ first,
        )
        | inr a ↦ ground (arith, ih, one, a)
      ]

  live-insert-none :
      (passes : V → Bool) (k : K) (news t t' : List (Version V))
      → at_key same_key key_of k news ≡ none
      → insert_versions passes news t ≡ some t'
      → live same_key key_of k t' ≡ live same_key key_of k t
  unfolding insert_versions at_key live
  live-insert-none passes k [] t t' q e = ground (arith, e)
  live-insert-none passes k (r ∷ rs) t t' q e =
      let other : at_key same_key key_of k rs ≡ none = ground (arith, q) in
      let here : same_key k (key_of r.value) ≡ false = ground (arith, q) in
      live-insert-none passes k rs (fresh r ∷ t) t' other (ground (arith, e)) ∙ ground (arith, here)

  keep_id-insert :
      (passes : V → Bool) (k : K) (news t t' : List (Version V)) (new : Version V)
      → IsKeyed same_key key_of news
      → at_key same_key key_of k news ≡ some new
      → insert_versions passes news t ≡ some t'
      → keep_id new.id (live same_key key_of k t') ≡ fresh new ∷ []
  unfolding insert_versions at_key live keep_id
  keep_id-insert passes k [] t t' new keyed q e = cc
  keep_id-insert passes k (r ∷ rs) t t' new (first, keyed) q e =
      let rest : insert_versions passes rs (fresh r ∷ t) ≡ some t' = ground (arith, e) in
      elim (Bool-cases (same_key k (key_of r.value))) [
        | inl a ↦
            let none_left : at_key same_key key_of k rs ≡ none =
              ap (λ (x : K). at_key same_key key_of x rs) (sound k (key_of r.value) a) ∙ first in
            let kept = live-insert-none passes k rs (fresh r ∷ t) t' none_left rest in
            let old : keep_id r.id (live same_key key_of k t) ≡ [] =
              keep_id-live-has_id r.id k t (ground (arith, e)) in
            let same : r ≡ new = ground (arith, q, a) in
            subst (λ (x : Version V). keep_id x.id (live same_key key_of k t') ≡ fresh x ∷ []) same
              (ap (keep_id r.id) kept ∙ ground (arith, a, old))
        | inr a ↦ keep_id-insert passes k rs (fresh r ∷ t) t' new keyed (ground (arith, q, a)) rest
      ]

  -- If the transaction commits, and no two of its rows have one key: at the key of a new row that row is
  -- the one live row, and every other key has the live rows that it had.
  pub publish-live :
      (passes : V → Bool) (faults : Faults) (news t t' : List (Version V)) (k : K)
      → IsKeyed same_key key_of news
      → publish same_key key_of passes faults news t ≡ (t', true)
      → live same_key key_of k t'
        ≡ published (at_key same_key key_of k news) (live same_key key_of k t)
  unfolding publish
  publish-live passes faults news t t' k keyed e =
      elim (Option-cases (insert_versions passes news t)) [
        | inl q ↦ absurd (ground (arith, e, q))
        | inr (inserted, q) ↦
            let done : supersede_each same_key key_of news inserted ≡ t' = ground (arith, e, q) in
            ap (live same_key key_of k) (sym done)
            ∙ live-supersede_each k news inserted keyed
            ∙ elim (Option-cases (at_key same_key key_of k news)) [
              | inl none_new ↦ rw none_new (live-insert-none passes k news t inserted none_new q)
              | inr (new, is_new) ↦
                  rw is_new (keep_id-insert passes k news t inserted new keyed is_new q)
            ]
      ]
