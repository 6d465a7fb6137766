-- ===== src/Limiter.antt =====
-- The token buckets of internal/platform/ratelimit/limiter.go. Instants are nanoseconds; the two readings
-- of the clock in one call are one instant.
pub mod Bounded
pub mod Isolated
use forecastiq.Prelude.{
  ℕ, ◌+◌, ◌-◌, Bool, true, false, Option, none, some, List, [], ◌∷◌, ◌==◌, ltb, if◌then◌else◌,
}
use forecastiq.Float.{Float, ◌≺◌, ◌⪯◌, ◌⊕◌, ◌⊖◌, ◌⊗◌, fone}

pub record Limiter (F : Type 0) : Type 0 where
  pub tokens : F
  pub max : F
  pub refill_per_sec : F
  pub last : ℕ

-- A bucket of `KeyedLimiter`.
pub record Bucket (F : Type 0) : Type 0 where
  pub key : ℕ
  pub limiter : Limiter F

module _ {F : Type 0} ⦃f : Float F⦄ where
  abbrev pub new_limiter : (max refill_per_sec : F) → ℕ → Limiter F
  new_limiter max refill_per_sec now = record {
    tokens = max;
    max = max;
    refill_per_sec = refill_per_sec;
    last = now;
  }

  -- `elapsed.Seconds()`
  abbrev pub seconds : ℕ → F
  seconds elapsed = f.ratio elapsed 1_000_000_000

  unfoldable pub refill : ℕ → Limiter F → Limiter F
  refill now l =
      let filled = l.tokens ⊕ seconds (now - l.last) ⊗ l.refill_per_sec in
      if ltb l.last now
      then record l { tokens = if l.max ≺ filled then l.max else filled; last = now }
      else l

  -- `Allow`: the bucket after it, and whether a token was there.
  unfoldable pub allow : ℕ → Limiter F → Limiter F × Bool
  allow now l =
      let r = refill now l in
      if fone ⪯ r.tokens then (record r { tokens = r.tokens ⊖ fone }, true) else (r, false)

  -- `Wait`, at the instants at which it looks: true with a token, false when the context is done first.
  unfoldable pub wait : List ℕ → Limiter F → Limiter F × Bool
  wait [] l = (l, false)
  wait (now ∷ later) l =
      let first = allow now l in let rest = wait later first.0 in if first.1 then first else rest

  module _ (max refill_per_sec : F) where
    -- The bucket of a key, a full one on its first use.
    unfoldable pub bucket : ℕ → ℕ → List (Bucket F) → Limiter F
    bucket now key [] = new_limiter max refill_per_sec now
    bucket now key (b ∷ bs) =
        let rest = bucket now key bs in if b.key == key then b.limiter else rest

    unfoldable pub set_bucket : ℕ → Limiter F → List (Bucket F) → List (Bucket F)
    set_bucket key l [] = record { key = key; limiter = l } ∷ []
    set_bucket key l (b ∷ bs) =
        let rest = set_bucket key l bs in
        if b.key == key then record { key = key; limiter = l } ∷ bs else b ∷ rest

    -- `KeyedLimiter.Allow`
    unfoldable pub allow_key : ℕ → ℕ → List (Bucket F) → List (Bucket F) × Bool
    allow_key now key bs =
        let done = allow now (bucket now key bs) in (set_bucket key done.0 bs, done.1)

    -- Calls with their instants and keys.
    unfoldable pub run : List (ℕ × ℕ) → List (Bucket F) → List (Bucket F)
    run [] bs = bs
    run ((now, key) ∷ calls) bs = run calls (allow_key now key bs).0
