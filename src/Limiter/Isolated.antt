-- ===== src/Limiter/Isolated.antt =====
-- A key's answer does not depend on the calls of other keys (internal/platform/ratelimit/limiter.go).
use forecastiq.Prelude.{ℕ, ◌≡◌, ◌≢◌, refl, List, [], ◌∷◌, All, arith, ap, ◌∙◌}
use forecastiq.Float.{Float}
use forecastiq.Limiter.{Limiter, Bucket, allow, bucket, set_bucket, allow_key, run}

module _ {F : Type 0} ⦃f : Float F⦄ (max refill_per_sec : F) where
  bucket-set_bucket :
      (now key other : ℕ) (l : Limiter F) (bs : List (Bucket F))
      → other ≢ key
      → bucket max refill_per_sec now key (set_bucket max refill_per_sec other l bs)
        ≡ bucket max refill_per_sec now key bs
  unfolding bucket set_bucket
  bucket-set_bucket now key other l [] apart = ground (arith, apart)
  bucket-set_bucket now key other l (b ∷ bs) apart =
      ground (arith, apart, bucket-set_bucket now key other l bs apart)

  bucket-run :
      (now key : ℕ) (calls : List (ℕ × ℕ)) (bs : List (Bucket F))
      → All (λ c. c.1 ≢ key) calls
      → bucket max refill_per_sec now key (run max refill_per_sec calls bs)
        ≡ bucket max refill_per_sec now key bs
  unfolding run allow_key
  bucket-run now key [] bs apart = refl
  bucket-run now key ((at, other) ∷ calls) bs (first, apart) =
      bucket-run now key calls _ apart
      ∙ bucket-set_bucket now key other (allow at (bucket max refill_per_sec at other bs)).0 bs
          first

  -- Whether a call of a key is allowed is the same with and without any calls of other keys before it.
  pub allow_key-run :
      (now key : ℕ) (calls : List (ℕ × ℕ)) (bs : List (Bucket F))
      → All (λ c. c.1 ≢ key) calls
      → (allow_key max refill_per_sec now key (run max refill_per_sec calls bs)).1
        ≡ (allow_key max refill_per_sec now key bs).1
  unfolding allow_key
  allow_key-run now key calls bs apart =
      ap (λ (l : Limiter F). (allow now l).1) (bucket-run now key calls bs apart)
