-- ===== src/Limiter/Bounded.antt =====
-- No bucket goes below zero or above its size (internal/platform/ratelimit/limiter.go).
use forecastiq.Prelude.{
  ℕ, ◌-◌, ◌≡◌, refl, Bool, List, [], ◌∷◌, ◌==◌, ltb, if_elim, All, arith, subst, sym,
}
use forecastiq.Float.{
  Float, IsLinear, IsRounded, IsSymmetric, ◌≺◌, ◌⪯◌, ◌≼◌, ◌⊕◌, ◌⊖◌, ◌⊗◌, fzero, fone, ≼-refl,
  ≼-trans,
}
use forecastiq.Limiter.{Limiter, Bucket, seconds, refill, allow, bucket, set_bucket, allow_key, run}

module _ {F : Type 0} ⦃f : Float F⦄ (max refill_per_sec : F) where
  -- A bucket of this size and rate, whose tokens lie from 0 to its size.
  abbrev pub IsFilled : Limiter F → Type 0
  IsFilled l =
      (l.max ≡ max) × (l.refill_per_sec ≡ refill_per_sec) × (fzero ≼ l.tokens) × (l.tokens ≼ max)

module _ {F : Type 0} ⦃f : Float F⦄ (o : IsLinear F) (r : IsRounded F) (s : IsSymmetric F)
    (sub_one : (a : F) → fone ≼ a → fzero ≼ (a ⊖ fone)) (max refill_per_sec : F)
    (max_nonneg : fzero ≼ max) (rate_nonneg : fzero ≼ refill_per_sec) where
  refill-IsFilled :
      (now : ℕ) (l : Limiter F)
      → IsFilled max refill_per_sec l
      → IsFilled max refill_per_sec (refill now l)
  unfolding refill
  refill-IsFilled now l (size, rate, low, high) =
      let x : F = seconds (now - l.last) ⊗ l.refill_per_sec in
      let x_nonneg : fzero ≼ x =
        s.mul_nonneg (seconds (now - l.last)) l.refill_per_sec
          (r.ratio_nonneg (now - l.last) 1_000_000_000)
          (subst (λ (y : F). fzero ≼ y) (sym rate) rate_nonneg) in
      let (above, below) =
        if_elim (λ (y : F). (fzero ≼ y) × (y ≼ max)) (l.max ≺ (l.tokens ⊕ x)) l.max (l.tokens ⊕ x)
          (λ _. (
            subst (λ (y : F). fzero ≼ y) (sym size) max_nonneg,
            subst (λ (y : F). y ≼ max) (sym size) (≼-refl o max),
          ))
          (λ fits. (
            ≼-trans o fzero l.tokens (l.tokens ⊕ x) low (r.le_add l.tokens x x_nonneg),
            subst (λ (y : F). (l.tokens ⊕ x) ≼ y) size fits,
          )) in
      if_elim (IsFilled max refill_per_sec) (ltb l.last now) _ _ (λ _. (size, rate, above, below))
        (λ _. (size, rate, low, high))

  allow-IsFilled :
      (now : ℕ) (l : Limiter F)
      → IsFilled max refill_per_sec l
      → IsFilled max refill_per_sec (allow now l).0
  unfolding allow
  allow-IsFilled now l good =
      let (size, rate, low, high) = refill-IsFilled now l good in
      if_elim (λ (x : Limiter F × Bool). IsFilled max refill_per_sec x.0)
        (fone ⪯ (refill now l).tokens) _ _
        (λ enough.
          let at_least : fone ≼ (refill now l).tokens = ground (arith, enough) in
          (
            size,
            rate,
            sub_one (refill now l).tokens at_least,
            ≼-trans o ((refill now l).tokens ⊖ fone) (refill now l).tokens max
                (s.sub_le (refill now l).tokens fone (r.ratio_nonneg 1 1)) high,
          ))
        (λ _. (size, rate, low, high))

  bucket-IsFilled :
      (now key : ℕ) (bs : List (Bucket F))
      → All (λ b. IsFilled max refill_per_sec b.limiter) bs
      → IsFilled max refill_per_sec (bucket max refill_per_sec now key bs)
  unfolding bucket
  bucket-IsFilled now key [] all = (refl, refl, max_nonneg, ≼-refl o max)
  bucket-IsFilled now key (b ∷ bs) (one, all) =
      if_elim (IsFilled max refill_per_sec) (b.key == key) _ _ (λ _. one)
        (λ _. bucket-IsFilled now key bs all)

  set_bucket-IsFilled :
      (key : ℕ) (l : Limiter F) (bs : List (Bucket F))
      → IsFilled max refill_per_sec l
      → All (λ b. IsFilled max refill_per_sec b.limiter) bs
      → All (λ b. IsFilled max refill_per_sec b.limiter) (set_bucket max refill_per_sec key l bs)
  unfolding set_bucket
  set_bucket-IsFilled key l [] good all = (good, tt)
  set_bucket-IsFilled key l (b ∷ bs) good (one, all) =
      if_elim (All (λ (x : Bucket F). IsFilled max refill_per_sec x.limiter)) (b.key == key) _ _
        (λ _. (good, all)) (λ _. (one, set_bucket-IsFilled key l bs good all))

  -- For a size and a rate that are not negative, over finite doubles with the stated laws: after any calls at
  -- any instants every bucket holds at least 0 and at most its size.
  pub run-IsFilled :
      (calls : List (ℕ × ℕ)) (bs : List (Bucket F))
      → All (λ b. IsFilled max refill_per_sec b.limiter) bs
      → All (λ b. IsFilled max refill_per_sec b.limiter) (run max refill_per_sec calls bs)
  unfolding run allow_key
  run-IsFilled [] bs all = all
  run-IsFilled ((now, key) ∷ calls) bs all = run-IsFilled calls _ (
      set_bucket-IsFilled key (allow now (bucket max refill_per_sec now key bs)).0 bs
        (allow-IsFilled now (bucket max refill_per_sec now key bs) (bucket-IsFilled now key bs all))
        all)
